-- ===== src/Notify/Tick.antt =====
-- src/core/notify.c, `pf_notify_tick`: the turn of each probe that has a reading, and of the timer.
pub mod Once
pub mod Alarm
use pifire_c.Common.{
  ℕ, Bool, true, false, not, ◌&&◌, ◌||◌, Option, none, some, List, [], ◌∷◌, ◌++◌, if◌then◌else◌,
}
use pifire_c.Common.Float.{Double, ◌<ᵈ◌, ◌≤ᵈ◌, ◌-ᵈ◌, nought, is_finite}
use pifire_c.Mode.{Mode, Units}
use pifire_c.Notify.{
  After, after_none, asks, Notify, NotifyProbe, Reading, Sensors, reading_of, minus_one,
}
use pifire_c.Notify.Climb.{
  Math, push_sample, recalc_eta, probe_rate, probe_rate_long, eta_interval_s, eta_recalc_s,
}
use pifire_c.Notify.Carry.{Store, carryover_k, carryover_learn, rest_margin_c}
use pifire_c.Notify.CookTimer.{tick_timer}
use pifire_c.Notify.Watch.{
  ambient, cook_temp, smooth_cook, watch_removal, aim_rest, watch_rest, start_watch,
}
use pifire_c.Notify.Speak.{
  Notice, ack_target, timer_over, is_cooking, max_steps, load, speak_steps, check_limits,
}

-- what a tick is told; `do_eta` is whether the times are worked out again
pub record Now (W : Type 0) : Type 0 where
  pub sensors : Sensors W
  pub mode : Mode
  pub now : W
  pub units : Units
  pub do_eta : Bool
  pub setpoint : W

-- what a probe's turn leaves: the probe, the store, what is told and what is asked for
pub record Left (S W : Type 0) : Type 0 where
  pub probe : NotifyProbe W
  pub store : S
  pub notices : List (Notice W)
  pub wants : After

module _ {W : Type 0} ⦃d : Double W⦄ where
  pub sample : NotifyProbe W → W → W → NotifyProbe W
  sample p t now =
      if eta_interval_s ≤ᵈ (now -ᵈ p.last_sample_t)
      then push_sample (record p { last_sample_t = now }) t
      else p

  -- `tick_dt`
  abbrev pub since_tick : NotifyProbe W → W → W
  since_tick p now = if nought <ᵈ p.last_tick_t then now -ᵈ p.last_tick_t else nought

  -- the target is met
  abbrev pub is_met : NotifyProbe W → W → Bool
  is_met p t = (nought <ᵈ p.target_c && not p.reached) && p.target_c ≤ᵈ t

  abbrev pub meet : NotifyProbe W → W → W → W → NotifyProbe W
  meet p t rate now =
      record ((if nought <ᵈ p.rest_c && not p.removed then start_watch p t rate now else p)) {
        reached = true;
        eta_s = minus_one;
        after = after_none;
      }

  -- what is asked for, and the probe
  unfoldable pub judge_target : Math W → NotifyProbe W → Now W → W → W → W → After × NotifyProbe W
  judge_target math p w t rate cook =
      if is_met p t
      then (p.after, meet p t rate w.now)
      else if (nought <ᵈ p.target_c && not p.reached) && w.do_eta
      then (after_none, recalc_eta math p cook)
      else (after_none, p)

  -- what a rest taught is kept
  abbrev pub keep_lesson : {S : Type 0} → Store S W → S → NotifyProbe W → Option (W × W) → S
  keep_lesson st s p none = s
  keep_lesson st s p (some (predicted, actual)) = carryover_learn st s p.meat predicted actual

-- the last one that asks is heard
abbrev pub heard : After → After → After
heard pending wants = if asks wants then wants else pending

module _ {W : Type 0} where
  abbrev pub told_of : Bool → Notify W → List (Notice W)
  told_of over n = if over then timer_over n.timer.duration n.timer.after ∷ [] else []

  -- a probe with no reading that is valid is passed over
  abbrev pub idle : {S : Type 0} → S → NotifyProbe W → Left S W
  idle s p = record { probe = p; store = s; notices = []; wants = after_none }

-- what stands once the rest has been watched: whether the meat came off, and the climb and the heat as
-- they were worked out before
pub record Watched (S W : Type 0) : Type 0 where
  pub came_off : Bool
  pub store : S
  pub probe : NotifyProbe W
  pub rate : W
  pub cook : W

module _ {S W : Type 0} ⦃d : Double W⦄ (math : Math W) (st : Store S W) where
  -- from the sample to the end of the rest; `whole` is the list with the probe in it
  pub watch_probe :
      (NotifyProbe W → List (NotifyProbe W)) → S → NotifyProbe W → Reading W → Now W → Watched S W
  unfolding sample
  watch_probe whole s p0 r w =
      let t = r.temp_c in
      let p1 = sample p0 t w.now in
      let raw = cook_temp w.setpoint w.sensors r in
      let dt = since_tick p1 w.now in
      let rate = if nought <ᵈ p1.target_c then probe_rate math (whole p1) p1.label else nought in
      let p2 = record (smooth_cook p1 raw dt) { last_tick_t = w.now } in
      let cook = if is_finite raw then p2.cook_sm_c else d.nan in
      let amb = ambient w.sensors r in
      let (off, p3) = watch_removal p2 amb t rate w.now in
      let p4 =
        aim_rest p3 t (probe_rate_long (whole p3) p3.label) cook dt (carryover_k st s p3.meat)
          (rest_margin_c st s) in
      let (lesson, p5) = watch_rest p4 amb t w.now in
      record {
        came_off = off;
        store = keep_lesson st s p5 lesson;
        probe = p5;
        rate = rate;
        cook = cook;
      }

  -- the rest of the turn
  pub finish_probe : Watched S W → Reading W → Now W → Left S W
  unfolding judge_target
  finish_probe v r w =
      let t = r.temp_c in
      let (wants, p1) = judge_target math v.probe w t v.rate v.cook in
      let steps = load max_steps p1.steps (st.probe_steps v.store p1.label) w.units in
      let (told, steps') = speak_steps p1.label steps (is_cooking w.mode) t w.units in
      let (limits, p2) =
        check_limits (record p1 { steps = steps' }) (is_cooking w.mode) t w.units in
      record {
        probe = p2;
        store = v.store;
        notices = (if v.came_off then ack_target p1.label ∷ [] else []) ++ told ++ limits;
        wants = wants;
      }

  unfoldable pub tick_probe :
      (NotifyProbe W → List (NotifyProbe W)) → S → NotifyProbe W → Reading W → Now W → Left S W
  unfolding watch_probe finish_probe
  tick_probe whole s p r w = finish_probe (watch_probe whole s p r w) r w

  pub turn_on :
      (NotifyProbe W → List (NotifyProbe W))
      → S
      → NotifyProbe W
      → Now W
      → Option (Reading W)
      → Left S W
  turn_on whole s p w none = idle s p
  turn_on whole s p w (some r) = if r.valid then tick_probe whole s p r w else idle s p

  pub turn_probe : (NotifyProbe W → List (NotifyProbe W)) → S → NotifyProbe W → Now W → Left S W
  unfolding turn_on
  turn_probe whole s p w = turn_on whole s p w (reading_of p.label w.sensors.p)

  -- The loop over the probes; `before` is the front of the list, done with.
  pub tick_each :
      List (NotifyProbe W)
      → S
      → List (NotifyProbe W)
      → After
      → Now W
      → S × List (Notice W) × List (NotifyProbe W) × After
  unfolding turn_probe
  tick_each before s [] pending w = (s, [], [], pending)
  tick_each before s (p ∷ l) pending w =
      let left = turn_probe (λ q. before ++ (q ∷ l)) s p w in
      let (s', told, l', pending') =
        tick_each (before ++ (left.probe ∷ [])) left.store l (heard pending left.wants) w in
      (s', left.notices ++ told, left.probe ∷ l', pending')

  pub tick : S → Notify W → Sensors W → Mode → W → Units → S × List (Notice W) × Notify W
  unfolding tick_each
  tick s n sensors mode now units =
      let do_eta = eta_recalc_s ≤ᵈ (now -ᵈ n.last_eta_t) in
      let w : Now W = record {
        sensors = sensors;
        mode = mode;
        now = now;
        units = units;
        do_eta = do_eta;
        setpoint = n.cook_temp_c;
      } in
      let (s', told, probes, pending) = tick_each [] s n.probes n.pending_action w in
      let n1 = record n {
        probes = probes;
        pending_action = pending;
        last_eta_t = if do_eta then now else n.last_eta_t;
      } in
      let (over, n2) = tick_timer n1 now in (s', told ++ told_of over n1, n2)
