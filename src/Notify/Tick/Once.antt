-- ===== src/Notify/Tick/Once.antt =====
-- src/core/notify.c, `pf_notify_tick`: what a run of ticks asks for and tells, and how often.
use pifire_c.Common.{
  ℕ, ◌+◌, ◌≤◌, ◌≡◌, refl, ◌∙◌, not, ◌&&◌, Option, none, some, List, [], ◌∷◌, ◌++◌, arith,
  if◌then◌else◌, if_ind,
}
use pifire_c.Common.Float.{Double, ◌<ᵈ◌, ◌≤ᵈ◌, ◌-ᵈ◌, nought, is_finite}
use pifire_c.Mode.{Mode, Units}
use pifire_c.Notify.{
  After, after_none, asks, Notify, NotifyProbe, Reading, Sensors, Core, core, reading_of,
}
use pifire_c.Notify.Climb.{Math, eta_recalc_s, probe_rate, probe_rate_long}
use pifire_c.Notify.Climb.Kept.{push_sample-core, recalc_eta-core}
use pifire_c.Notify.Carry.{Store, carryover_k, rest_margin_c}
use pifire_c.Notify.CookTimer.{tick_timer, count_of}
use pifire_c.Notify.Watch.{ambient, cook_temp, smooth_cook, watch_removal, aim_rest}
use pifire_c.Notify.Watch.Forward.{
  smooth_cook-core, watch_removal-core, aim_rest-core, watch_rest-core,
}
use pifire_c.Notify.Speak.{check_limits}
use pifire_c.Notify.Tick.{
  Now, Left, Watched, sample, watch_probe, judge_target, finish_probe, tick_probe, turn_on,
  turn_probe, tick_each, heard, tick, since_tick,
}

module _ {W : Type 0} ⦃d : Double W⦄ where
  sample-core : (p : NotifyProbe W) (t now : W) → core (sample p t now) ≡ core p
  unfolding sample
  sample-core p t now = ground (arith, push_sample-core (record p { last_sample_t = now }) t)

  -- something that the probe may still ask for
  pub owed : Core W → ℕ
  owed c = count_of (asks c.after && not c.reached)

  pub judge_target-owes :
      (math : Math W) (p : NotifyProbe W) (w : Now W) (t rate cook : W)
      → let (wants, q) = judge_target math p w t rate cook in
        (count_of (asks wants) + owed (core q) ≤ owed (core p))
        × (q.limit_high_c ≡ p.limit_high_c)
        × (q.high_tripped ≡ p.high_tripped)
        × (q.label ≡ p.label)
  unfolding judge_target owed
  judge_target-owes math p w t rate cook = ground (arith, recalc_eta-core math p cook)

module _ {W : Type 0} ⦃d : Double W⦄ where
  -- what the probes may still ask for
  pub debts : List (NotifyProbe W) → ℕ
  debts [] = 0
  debts (p ∷ l) = owed (core p) + debts l

  -- what may still be asked for: what has been, what the probes may, what the timer may
  pub in_hand : Notify W → ℕ
  in_hand n =
      count_of (asks n.pending_action)
      + debts n.probes
      + count_of (n.timer.running && asks n.timer.after)

  in_hand_lem :
      (n : Notify W)
      → in_hand n
        ≡ count_of (asks n.pending_action)
          + debts n.probes
          + count_of (n.timer.running && asks n.timer.after)
  unfolding in_hand
  in_hand_lem n = refl

  tick_timer-in_hand : (n : Notify W) (now : W) → in_hand (tick_timer n now).1 ≤ in_hand n
  unfolding tick_timer in_hand
  tick_timer-in_hand n now = ground arith

heard-asks :
    (pending wants : After)
    → count_of (asks (if asks wants then wants else pending))
      ≤ count_of (asks pending) + count_of (asks wants)
heard-asks pending wants = ground arith

module _ {S W : Type 0} ⦃d : Double W⦄ (math : Math W) (st : Store S W) where
  pub watch_probe-core :
      (whole : NotifyProbe W → List (NotifyProbe W)) (s : S) (p : NotifyProbe W) (r : Reading W)
      (w : Now W)
      → core (watch_probe math st whole s p r w).probe ≡ core p
  unfolding watch_probe
  watch_probe-core whole s p r w =
      let t = r.temp_c in
      let p1 = sample p t w.now in
      let raw = cook_temp w.setpoint w.sensors r in
      let dt = since_tick p1 w.now in
      let rate = if nought <ᵈ p1.target_c then probe_rate math (whole p1) p1.label else nought in
      let p2 = record (smooth_cook p1 raw dt) { last_tick_t = w.now } in
      let cook = if is_finite raw then p2.cook_sm_c else d.nan in
      let amb = ambient w.sensors r in
      let p3 = (watch_removal p2 amb t rate w.now).1 in
      let long = probe_rate_long (whole p3) p3.label in
      let k = carryover_k st s p3.meat in
      let margin = rest_margin_c st s in
      let p4 = aim_rest p3 t long cook dt k margin in
      watch_rest-core p4 amb t w.now
      ∙ aim_rest-core p3 t long cook dt k margin
      ∙ watch_removal-core p2 amb t rate w.now
      ∙ smooth_cook-core p1 raw dt
      ∙ sample-core p t w.now

  finish_probe-owes :
      (v : Watched S W) (r : Reading W) (w : Now W)
      → let left = finish_probe math st v r w in
        count_of (asks left.wants) + owed (core left.probe) ≤ owed (core v.probe)
  unfolding finish_probe check_limits owed
  finish_probe-owes v r w = (judge_target-owes math v.probe w r.temp_c v.rate v.cook).0

  tick_probe-owes :
      (whole : NotifyProbe W → List (NotifyProbe W)) (s : S) (p : NotifyProbe W) (r : Reading W)
      (w : Now W)
      → let left = tick_probe math st whole s p r w in
        count_of (asks left.wants) + owed (core left.probe) ≤ owed (core p)
  unfolding tick_probe
  tick_probe-owes whole s p r w =
      let v = watch_probe math st whole s p r w in
      rw (← (watch_probe-core whole s p r w)) (finish_probe-owes v r w)

  turn_on-owes :
      (whole : NotifyProbe W → List (NotifyProbe W)) (s : S) (p : NotifyProbe W) (w : Now W)
      (o : Option (Reading W))
      → let left = turn_on math st whole s p w o in
        count_of (asks left.wants) + owed (core left.probe) ≤ owed (core p)
  unfolding turn_on
  turn_on-owes whole s p w none = omega arith
  turn_on-owes whole s p w (some r) =
      if_ind
        (λ (left : Left S W). count_of (asks left.wants) + owed (core left.probe) ≤ owed (core p))
        r.valid (λ e. tick_probe-owes whole s p r w) (λ e. omega arith)

  turn_probe-owes :
      (whole : NotifyProbe W → List (NotifyProbe W)) (s : S) (p : NotifyProbe W) (w : Now W)
      → let left = turn_probe math st whole s p w in
        count_of (asks left.wants) + owed (core left.probe) ≤ owed (core p)
  unfolding turn_probe
  turn_probe-owes whole s p w = turn_on-owes whole s p w (reading_of p.label w.sensors.p)

  tick_each-debts :
      (before : List (NotifyProbe W)) (s : S) (l : List (NotifyProbe W)) (pending : After)
      (w : Now W)
      → let (s', told, l', pending') = tick_each math st before s l pending w in
        count_of (asks pending') + debts l' ≤ count_of (asks pending) + debts l
  unfolding tick_each debts
  tick_each-debts before s [] pending w = ground arith
  tick_each-debts before s (p ∷ l) pending w =
      let whole : NotifyProbe W → List (NotifyProbe W) = λ q. before ++ (q ∷ l) in
      let left = turn_probe math st whole s p w in
      omega (
        arith,
        turn_probe-owes whole s p w,
        heard-asks pending left.wants,
        tick_each-debts (before ++ (left.probe ∷ [])) left.store l (heard pending left.wants) w,
      )

  tick-in_hand :
      (s : S) (n : Notify W) (sensors : Sensors W) (mode : Mode) (now : W) (units : Units)
      → let (s', told, n') = tick math st s n sensors mode now units in in_hand n' ≤ in_hand n
  unfolding tick
  tick-in_hand s n sensors mode now units =
      let do_eta = eta_recalc_s ≤ᵈ (now -ᵈ n.last_eta_t) in
      let w : Now W = record {
        sensors = sensors;
        mode = mode;
        now = now;
        units = units;
        do_eta = do_eta;
        setpoint = n.cook_temp_c;
      } in
      let (s', told, probes, pending) = tick_each math st [] s n.probes n.pending_action w in
      let n1 : Notify W = record n {
        probes = probes;
        pending_action = pending;
        last_eta_t = if do_eta then now else n.last_eta_t;
      } in
      omega (
        arith,
        tick_timer-in_hand n1 now,
        tick_each-debts [] s n.probes n.pending_action w,
        in_hand_lem n,
        in_hand_lem n1,
      )

-- what one tick is told
pub record Round (W : Type 0) : Type 0 where
  pub sensors : Sensors W
  pub mode : Mode
  pub now : W
  pub units : Units

module _ {S W : Type 0} ⦃d : Double W⦄ (math : Math W) (st : Store S W) where
  -- How often a run of ticks asks for something; the control thread takes each request, and puts none in
  -- its place.
  pub requests : S → Notify W → List (Round W) → ℕ
  requests s n [] = 0
  requests s n (r ∷ l) =
      let (s', told, n') = tick math st s n r.sensors r.mode r.now r.units in
      let rest = requests s' (record n' { pending_action = after_none }) l in
      count_of (asks n'.pending_action) + rest

  taken :
      (n : Notify W)
      → count_of (asks n.pending_action) + in_hand (record n { pending_action = after_none })
        ≤ in_hand n
  unfolding in_hand
  taken n = omega arith

  -- Over any run of ticks, whatever is read, what is asked for after a target or a timer is asked for at
  -- most once for each of them: once for each probe that has not reached its target and asks for
  -- something, once if the timer runs and does, and what had been asked for before.
  pub requests_bounded : (s : S) (n : Notify W) (l : List (Round W)) → requests s n l ≤ in_hand n
  unfolding requests
  requests_bounded s n [] = omega arith
  requests_bounded s n (r ∷ l) =
      let (s', told, n') = tick math st s n r.sensors r.mode r.now r.units in
      omega (
        arith,
        tick-in_hand math st s n r.sensors r.mode r.now r.units,
        taken n',
        requests_bounded s' (record n' { pending_action = after_none }) l,
      )
