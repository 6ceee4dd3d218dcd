-- ===== src/Notify/Tick/Alarm.antt =====
-- src/core/notify.c, `pf_notify_tick`: how often a run of ticks tells that a probe is over its limit.
use pifire_c.Common.{
  ℕ, ◌+◌, ◌≡◌, refl, ap, ◌∙◌, true, false, Bool, not, Option, none, some, List, [], ◌∷◌, ◌++◌,
  arith, if◌then◌else◌, if_ind,
}
use pifire_c.Common.Float.{Double, ◌≤ᵈ◌, ◌-ᵈ◌}
use pifire_c.Mode.{Units}
use pifire_c.Text.{Bytes}
use pifire_c.Notify.{NotifyProbe, Reading, Core, core, reading_of}
use pifire_c.Notify.Climb.{Math}
use pifire_c.Notify.Carry.{Store}
use pifire_c.Notify.CookTimer.{count_of}
use pifire_c.Notify.Speak.{
  slack, is_cooking, max_steps, load, speak_steps, check_limits, Notice, ack_target,
}
use pifire_c.Notify.Speak.Limits.{
  highs, highs-nil, highs-append, speak_steps-highs, check_limits-highs, ack-highs,
}
use pifire_c.Notify.Tick.{
  Now, Left, Watched, finish_probe, judge_target, watch_probe, tick_probe, idle, turn_on,
  turn_probe,
}
use pifire_c.Notify.Tick.Once.{watch_probe-core, judge_target-owes}

-- the turns of a run, each with what stands in the list around the probe
abbrev pub Turns : Type 0 → Type 0
Turns W = List ((NotifyProbe W → List (NotifyProbe W)) × Now W)

module _ {W : Type 0} ⦃d : Double W⦄ where
  -- The reading, where there is one, has not come back 2 degrees under the limit.
  abbrev pub is_up : W → Units → Option (Reading W) → Bool
  is_up limit units none = true
  is_up limit units (some r) = not (r.temp_c ≤ᵈ (limit -ᵈ slack units))

  abbrev pub stays_up : Bytes → W → Now W → Bool
  stays_up label limit w = is_up limit w.units (reading_of label w.sensors.p)

  -- at every turn
  pub data AllUp (label : Bytes) (limit : W) : Turns W → Type 0 where
    at_end : AllUp label limit []
    then_up :
        {whole : NotifyProbe W → List (NotifyProbe W)} {w : Now W} {l : Turns W}
        → stays_up label limit w ≡ true
        → AllUp label limit l
        → AllUp label limit ((whole, w) ∷ l)

module _ {S W : Type 0} ⦃d : Double W⦄ (math : Math W) (st : Store S W) where
  idle-highs :
      (s : S) (p : NotifyProbe W)
      → highs (idle s p).notices + count_of p.high_tripped ≡ count_of p.high_tripped
  idle-highs s p = omega (arith, highs-nil W)

  -- the latch of the limit, with what is told of it
  Once : NotifyProbe W → Left S W → Type 0
  Once p left =
      (highs left.notices + count_of p.high_tripped ≡ count_of left.probe.high_tripped)
      × (left.probe.label ≡ p.label)
      × (left.probe.limit_high_c ≡ p.limit_high_c)

  finish_probe-Once :
      (v : Watched S W) (r : Reading W) (w : Now W)
      → (r.temp_c ≤ᵈ (v.probe.limit_high_c -ᵈ slack w.units)) ≡ false
      → Once v.probe (finish_probe math st v r w)
  unfolding finish_probe check_limits Once
  finish_probe-Once v r w e =
      let t = r.temp_c in
      let (wants, p1) = judge_target math v.probe w t v.rate v.cook in
      let kept = judge_target-owes math v.probe w t v.rate v.cook in
      let steps = load max_steps p1.steps (st.probe_steps v.store p1.label) w.units in
      let (told, steps') = speak_steps p1.label steps (is_cooking w.mode) t w.units in
      let p1' : NotifyProbe W = record p1 { steps = steps' } in
      let limits = (check_limits p1' (is_cooking w.mode) t w.units).0 in
      let off : List (Notice W) = (if v.came_off then ack_target p1.label ∷ [] else []) in
      let tripped : count_of p1.high_tripped ≡ count_of v.probe.high_tripped = ap count_of kept.2 in
      let up = check_limits-highs p1' (is_cooking w.mode) t w.units (rw (kept.1) e) in
      (
        omega (
          arith,
          highs-append (off ++ told) limits,
          highs-append off told,
          ack-highs W v.came_off p1.label,
          speak_steps-highs p1.label steps (is_cooking w.mode) t w.units,
          up,
          tripped,
        ),
        kept.3,
        kept.1,
      )

  tick_probe-Once :
      (whole : NotifyProbe W → List (NotifyProbe W)) (s : S) (p : NotifyProbe W) (r : Reading W)
      (w : Now W)
      → (r.temp_c ≤ᵈ (p.limit_high_c -ᵈ slack w.units)) ≡ false
      → Once p (tick_probe math st whole s p r w)
  unfolding tick_probe Once
  tick_probe-Once whole s p r w e =
      let v = watch_probe math st whole s p r w in
      let same : core v.probe ≡ core p = watch_probe-core math st whole s p r w in
      let high : v.probe.limit_high_c ≡ p.limit_high_c = ap (λ (c : Core W). c.limit_high_c) same in
      let label : v.probe.label ≡ p.label = ap (λ (c : Core W). c.label) same in
      let trip : v.probe.high_tripped ≡ p.high_tripped = ap (λ (c : Core W). c.high_tripped) same in
      let (told, l, h) = finish_probe-Once v r w (rw high e) in
      let counted : count_of v.probe.high_tripped ≡ count_of p.high_tripped = ap count_of trip in
      (omega (arith, told, counted), l ∙ label, h ∙ high)

  turn_on-Once :
      (whole : NotifyProbe W → List (NotifyProbe W)) (s : S) (p : NotifyProbe W) (w : Now W)
      (o : Option (Reading W))
      → is_up p.limit_high_c w.units o ≡ true
      → Once p (turn_on math st whole s p w o)
  unfolding turn_on Once
  turn_on-Once whole s p w none up = (idle-highs s p, refl, refl)
  turn_on-Once whole s p w (some r) up =
      if_ind (Once p) r.valid (λ v. tick_probe-Once whole s p r w (ground arith))
        (λ v. (idle-highs s p, refl, refl))

  -- what the turns of one probe tell of its limit
  pub highs_in : S → NotifyProbe W → Turns W → ℕ
  highs_in s p [] = 0
  highs_in s p ((whole, w) ∷ l) =
      let left = turn_probe math st whole s p w in
      let rest = highs_in left.store left.probe l in highs left.notices + rest

  -- the probe after the turns
  pub after : S → NotifyProbe W → Turns W → NotifyProbe W
  after s p [] = p
  after s p ((whole, w) ∷ l) =
      let left = turn_probe math st whole s p w in after left.store left.probe l

  -- While its reading does not come back 2 degrees under its limit, a probe is told of exactly when it
  -- comes to be marked as over it: once over the whole run if it ends marked and did not begin so, and
  -- else not at all, however often it crosses the limit.
  pub highs_once :
      (s : S) (p : NotifyProbe W) (l : Turns W)
      → AllUp p.label p.limit_high_c l
      → highs_in s p l + count_of p.high_tripped ≡ count_of (after s p l).high_tripped
  unfolding highs_in after Once turn_probe
  highs_once s p [] up = omega arith
  highs_once s p ((whole, w) ∷ l) (then_up now later) =
      let left = turn_probe math st whole s p w in
      let (told, label, limit) : Once p left =
        turn_on-Once whole s p w (reading_of p.label w.sensors.p) now in
      omega (arith, told, highs_once left.store left.probe l (rw (label, limit) later))
