-- ===== src/Notify/CookTimer.antt =====
-- src/core/notify.c: the timer of a cook, from its start to its end.
use pifire_c.Common.{
  ℕ, suc, Bool, true, false, not, ◌&&◌, ◌||◌, List, [], ◌∷◌, if◌then◌else◌, ◌≡◌, refl, arith, ◌+◌,
  ◌≤◌,
}
use pifire_c.Common.Float.{Double, ◌≤ᵈ◌, ◌+ᵈ◌, ◌-ᵈ◌}
use pifire_c.Notify.{After, asks, Notify, Timer, no_timer}

-- What may happen to a timer that is not started again.
pub data Turn (W : Type 0) : Type 0 where
  tick_at : W → Turn W
  pause_at : W → Turn W
  resume_at : W → Turn W
  cancel : Turn W

module _ {W : Type 0} ⦃d : Double W⦄ where
  abbrev pub timer_start : Timer W → W → After → W → Timer W
  timer_start t seconds after now = record t {
    running = true;
    paused = false;
    duration = seconds;
    end_t = now +ᵈ seconds;
    after = after;
  }

  pub timer_pause : Timer W → W → Timer W
  timer_pause t now =
      if not t.running || t.paused
      then t
      else record t { paused = true; remaining = t.end_t -ᵈ now }

  pub timer_resume : Timer W → W → Timer W
  timer_resume t now =
      if not t.running || not t.paused
      then t
      else record t { paused = false; end_t = now +ᵈ t.remaining }

  abbrev pub timer_cancel : Timer W
  timer_cancel = no_timer

  -- the timer has run out
  abbrev pub is_over : Timer W → W → Bool
  is_over t now = t.running && not t.paused && t.end_t ≤ᵈ now

  -- The end of `pf_notify_tick`: whether it is told that the timer is over, and the state after it.
  unfoldable pub tick_timer : Notify W → W → Bool × Notify W
  tick_timer n now =
      if is_over n.timer now
      then (
        true,
        record n {
          timer = timer_cancel;
          pending_action = if asks n.timer.after then n.timer.after else n.pending_action;
        },
      )
      else (false, n)

  pub turn : Notify W → Turn W → Bool × Notify W
  unfolding timer_pause timer_resume
  turn n (tick_at now) = tick_timer n now
  turn n (pause_at now) = (false, record n { timer = timer_pause n.timer now })
  turn n (resume_at now) = (false, record n { timer = timer_resume n.timer now })
  turn n cancel = (false, record n { timer = timer_cancel })

  -- how often a run of turns tells that the timer is over
  pub told : Notify W → List (Turn W) → ℕ
  told n [] = 0
  told n (e ∷ l) =
      let (over, n') = turn n e in let rest = told n' l in if over then suc rest else rest

abbrev pub count_of : Bool → ℕ
count_of true = 1
count_of false = 0

module _ {W : Type 0} ⦃d : Double W⦄ where
  turn_counts :
      (n : Notify W) (e : Turn W)
      → let (over, n') = turn n e in
        count_of over + count_of n'.timer.running ≤ count_of n.timer.running
  unfolding turn timer_pause timer_resume tick_timer
  turn_counts n (tick_at now) = ground arith
  turn_counts n (pause_at now) = ground arith
  turn_counts n (resume_at now) = ground arith
  turn_counts n cancel = ground arith

  -- However it is paused, resumed and looked at, a timer that was started tells once at most that it is
  -- over, and one that is not running never does.
  pub told_once : (n : Notify W) (l : List (Turn W)) → told n l ≤ count_of n.timer.running
  unfolding told
  told_once n [] = ground arith
  told_once n (e ∷ l) = ground (arith, turn_counts n e, told_once (turn n e).1 l)

  -- the looks at the timer, one after the other
  pub looks : List W → List (Turn W)
  looks [] = []
  looks (t ∷ l) = tick_at t ∷ looks l

  pub after_looks : Notify W → List W → Notify W
  after_looks n [] = n
  after_looks n (t ∷ l) = after_looks (tick_timer n t).1 l

  looks_silent :
      (n : Notify W) (l : List W)
      → n.timer.paused ≡ true
      → (told n (looks l) ≡ 0) × (after_looks n l ≡ n)
  unfolding told looks after_looks turn tick_timer
  looks_silent n [] e = (refl, refl)
  looks_silent n (t ∷ l) e = ground (arith, looks_silent n l e)

  -- A running timer that is paused tells nothing, however long it is looked at, and goes on from a
  -- resume with the time that it had left.
  pub pause_stops :
      (n : Notify W) (now now' : W) (l : List W)
      → n.timer.running ≡ true
      → n.timer.paused ≡ false
      → let paused = record n { timer = timer_pause n.timer now } in
        let resumed = timer_resume (after_looks paused l).timer now' in
        (told paused (looks l) ≡ 0)
        × (resumed.end_t ≡ now' +ᵈ (n.timer.end_t -ᵈ now))
        × (resumed.running ≡ true)
        × (resumed.paused ≡ false)
        × (resumed.after ≡ n.timer.after)
  unfolding timer_pause timer_resume
  pause_stops n now now' l r p =
      let (quiet, same) =
        looks_silent (record n { timer = timer_pause n.timer now }) l (ground arith) in
      ground (arith, quiet, same)
