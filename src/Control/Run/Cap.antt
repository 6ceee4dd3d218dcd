-- ===== src/Control/Run/Cap.antt =====
-- src/core/control.c, `run_mode`: the auger's cap, in a turn as a whole.
use pifire_c.Common.{
  ◌≡◌, refl, sym, ap, ◌∙◌, arith, ◌⊎◌, inl, inr, Bool, true, false, not, ◌&&◌, ◌||◌, if_ind,
  if◌then◌else◌,
}
use pifire_c.Common.Int.{ℤ}
use pifire_c.Common.Float.{Double, ◌<ᵈ◌, ◌≤ᵈ◌, ◌-ᵈ◌}
use pifire_c.Mode.{
  Mode, stop, monitor, prime, startup, reignite, smoke, hold, shutdown, manual, error, fan, auger,
  mode_eq,
}
use pifire_c.Outputs
use pifire_c.Outputs.{Platform, Outputs, Relays}
use pifire_c.Outputs.Laws.{get-set}
use pifire_c.Outputs.Only.{LetsGo, OnlyOn, OnlyOn-set_off, state-set_fan_pct, state-all_off}
use pifire_c.Safety.Start
use pifire_c.Control.{Conf, Machine, Parts}
use pifire_c.Control.Enter.{enter_mode, fan_on}
use pifire_c.Control.Enter.Entered.{since-enter_mode, since-smoke_cycle, start-enter_mode}
use pifire_c.Control.Enter.Allowed.{outputs-smoke_cycle}
use pifire_c.Control.Run.Feed.{
  is_feeding, auger_is_on, next_cycle, follow_cycle, feed, rest, cap, end_run, run_auger,
}
use pifire_c.Control.Run.Hold.{
  hold_cycle, choose_feed, ask_controller, count_fault, load_pid, autotune_turn, begin_feed,
}
use pifire_c.Control.Run.Keeps.{FanKeeps, keep-fan_logic}
use pifire_c.Control.Run.Kept.{RunKeeps, keep-feed, keep-rest, keep-watch_lid}
use pifire_c.Control.Run.Moves.{adds, adds-RunKeeps, weaken}
use pifire_c.Control.Run.Lid.{
  watch_lid, reach_target, lid_watch, begin_event, end_event, open_lid, close_lid, track_low,
}
use pifire_c.Control.Run.Timed.{
  expire_manual, end_mode, end_light, end_shutdown, end_prime, end_cooling, stop_cooling_fire,
  fan_is_due, pit_climbs, end_fan, has_cooled, lit_mode,
}
use pifire_c.Control.Run.{run_fan, run_outputs, run_mode}

abbrev any : Relays
any o = true

module _ {H : Type 0} ⦃ops : Platform H⦄ ⦃goes : LetsGo H⦄ where
  auger_goes_off :
      (s : Outputs H) → OnlyOn any s → (Outputs.set s auger false).1.state auger ≡ false
  auger_goes_off s h = let (l, t, off) = OnlyOn-set_off s any auger h in ground (arith, off auger)

module _ {W H : Type 0} ⦃d : Double W⦄ ⦃ops : Platform H⦄ where
  -- The auger is off; or it has been on since now, for the reason `Fresh`; or it has been on since `from`,
  -- for no longer than the cap.
  abbrev pub Within : Type 0 → W → W → Outputs H → Conf W → W → Type 0
  Within Fresh from now s conf since =
      (s.state auger ≡ false)
      ⊎ ((since ≡ now) × Fresh)
      ⊎ ((since ≡ from) × ((conf.auger_max_on_s <ᵈ (now -ᵈ since)) ≡ false))

  -- A reason for the clock of the auger to start again: the auger was off, or a mode is entered.
  abbrev pub Restarts : Machine W H → W → Machine W H → Type 0
  Restarts before now m = (before.base.outputs.state auger ≡ false) ⊎ (m.mode_start ≡ now)

  abbrev pub IsCapped : Machine W H → W → Machine W H → Type 0
  IsCapped before now m =
      Within (Restarts before now m) before.auger_on_since now m.base.outputs m.conf
        m.auger_on_since

  Within-set_fan :
      (Fresh : Type 0) (from now : W) (s : Outputs H) (conf : Conf W) (since : W) (on : Bool)
      → Within Fresh from now s conf since
      → Within Fresh from now (Outputs.set s fan on).1 conf since
  unfolding Outputs.get
  Within-set_fan Fresh from now s conf since on (inl h) =
      inl (ground (arith, h, get-set s fan on auger))
  Within-set_fan Fresh from now s conf since on (inr h) = inr h

  Within-set_fan_pct :
      (Fresh : Type 0) (from now : W) (s : Outputs H) (conf : Conf W) (since : W) (pct : ℤ)
      → Within Fresh from now s conf since
      → Within Fresh from now (Outputs.set_fan_pct s pct).1 conf since
  Within-set_fan_pct Fresh from now s conf since pct (inl h) =
      inl (ground (arith, h, state-set_fan_pct s pct auger))
  Within-set_fan_pct Fresh from now s conf since pct (inr h) = inr h

  fan_keeps :
      (Fresh : Type 0) (from now : W)
      → FanKeeps {W = W} {H = H} (λ c conf since until. Within Fresh from now c.outputs conf since)
  fan_keeps Fresh from now = record {
    fan_turned = λ c conf since until on. Within-set_fan Fresh from now c.outputs conf since on;
    fan_paced =
        λ c conf since until pct. Within-set_fan_pct Fresh from now c.outputs conf since pct;
  }

  -- before a mode may end
  Held : Machine W H → W → Machine W H → Type 0
  Held before now m =
      Within (before.base.outputs.state auger ≡ false) before.auger_on_since now m.base.outputs
        m.conf m.auger_on_since

  run_fan-Held :
      (before m : Machine W H) (now : W) → Held before now m → Held before now (run_fan m now)
  unfolding run_fan Held
  run_fan-Held before m now h =
      if_ind (Held before now) (mode_eq m.base.mode smoke || mode_eq m.base.mode hold)
        (λ _.
          keep-fan_logic
            (fan_keeps (before.base.outputs.state auger ≡ false) before.auger_on_since now) m now h)
        (λ _. h)

  Held-IsCapped : (before m : Machine W H) (now : W) → Held before now m → IsCapped before now m
  unfolding Held
  Held-IsCapped before m now (inl h) = inl h
  Held-IsCapped before m now (inr (inl (e, off))) = inr (inl (e, inl off))
  Held-IsCapped before m now (inr (inr h)) = inr (inr h)

  entered-IsCapped :
      (before : Machine W H) (parts : Parts W) (m : Machine W H) (to : Mode) (now : W)
      → IsCapped before now (enter_mode parts m to now)
  entered-IsCapped before parts m to now =
      inr (inl (since-enter_mode parts m to now, inr (start-enter_mode parts m to now)))

  end_light-IsCapped :
      (before : Machine W H) (parts : Parts W) (m : Machine W H) (now : W)
      → IsCapped before now m
      → IsCapped before now (end_light parts m now)
  unfolding end_light
  end_light-IsCapped before parts m now h =
      if_ind (IsCapped before now) (Start.startup_done (m.base))
        (λ _. entered-IsCapped before parts _ (lit_mode m) now) (λ _. h)

  end_shutdown-IsCapped :
      (before : Machine W H) (parts : Parts W) (m : Machine W H) (now : W)
      → IsCapped before now m
      → IsCapped before now (end_shutdown parts m now)
  unfolding end_shutdown
  end_shutdown-IsCapped before parts m now h =
      let stopped = entered-IsCapped before parts m stop now in
      if_ind (IsCapped before now) (has_cooled m now)
        (λ _. if_ind (IsCapped before now) m.conf.auto_power_off (λ _. stopped) (λ _. stopped))
        (λ _. h)

  end_prime-IsCapped :
      (before : Machine W H) (parts : Parts W) (m : Machine W H) (now : W)
      → IsCapped before now m
      → IsCapped before now (end_prime parts m now)
  unfolding end_prime
  end_prime-IsCapped before parts m now h =
      if_ind (IsCapped before now) (not (m.prime_duration_s <ᵈ (now -ᵈ m.mode_start))) (λ _. h)
        (λ _.
          if_ind (IsCapped before now) (mode_eq m.next_mode startup)
            (λ _.
              entered-IsCapped before parts (record m { next_mode = m.conf.after_startup_mode })
                startup now)
            (λ _. entered-IsCapped before parts m stop now))

  end_cooling-IsCapped :
      (before m : Machine W H) (now : W)
      → IsCapped before now m
      → IsCapped before now (stop_cooling_fire (end_cooling m now))
  unfolding end_cooling stop_cooling_fire
  end_cooling-IsCapped before m now h =
      let cold : (x : Machine W H) → IsCapped before now (end_fan x) =
        λ x. inl (state-all_off x.base.outputs auger) in
      let m1 = end_cooling m now in
      let kept : IsCapped before now m1 =
        if_ind (IsCapped before now) (fan_is_due m now) (λ _. cold m) (λ _. h) in
      if_ind (IsCapped before now) (pit_climbs m1) (λ _. cold m1) (λ _. kept)

  end_mode-IsCapped :
      (md : Mode) (before : Machine W H) (parts : Parts W) (m : Machine W H) (now : W)
      → IsCapped before now m
      → IsCapped before now (end_mode md parts m now)
  unfolding end_mode
  end_mode-IsCapped startup before parts m now h = end_light-IsCapped before parts m now h
  end_mode-IsCapped reignite before parts m now h = end_light-IsCapped before parts m now h
  end_mode-IsCapped shutdown before parts m now h = end_shutdown-IsCapped before parts m now h
  end_mode-IsCapped prime before parts m now h = end_prime-IsCapped before parts m now h
  end_mode-IsCapped error before parts m now h = end_cooling-IsCapped before m now h
  end_mode-IsCapped stop before parts m now h = h
  end_mode-IsCapped monitor before parts m now h = h
  end_mode-IsCapped manual before parts m now h = h
  end_mode-IsCapped smoke before parts m now h = h
  end_mode-IsCapped hold before parts m now h = h

  -- the clock of the auger: as before, or started again because it was off
  abbrev Clock : Machine W H → W → Machine W H → Type 0
  Clock before now m =
      (m.auger_on_since ≡ before.auger_on_since)
      ⊎ ((m.auger_on_since ≡ now) × (before.base.outputs.state auger ≡ false))

  follow_cycle-Clock : (m : Machine W H) (now : W) → Clock m now (follow_cycle m now)
  unfolding follow_cycle end_run Outputs.get
  follow_cycle-Clock m now = ground arith

  same-next_cycle :
      (parts : Parts W) (m : Machine W H) (now : W)
      → ((next_cycle parts m now).auger_on_since ≡ m.auger_on_since)
        × ((next_cycle parts m now).base.outputs ≡ m.base.outputs)
  unfolding next_cycle hold_cycle choose_feed ask_controller count_fault load_pid autotune_turn
      begin_feed
  same-next_cycle parts m now =
      ground (arith, since-smoke_cycle parts m now, outputs-smoke_cycle parts m now)

  feed-Clock : (parts : Parts W) (m : Machine W H) (now : W) → Clock m now (feed parts m now)
  unfolding feed
  feed-Clock parts m now =
      let drops =
        not (mode_eq m.base.mode manual) && auger_is_on m && m.manual_until auger ≤ᵈ now in
      let (since, out) = same-next_cycle parts m now in
      if_ind (Clock m now)
        (is_feeding m.base.mode && (not m.base.lid_open || mode_eq m.base.mode hold))
        (λ _.
          moved m (next_cycle parts m now) (follow_cycle (next_cycle parts m now) now) since out
            (follow_cycle-Clock (next_cycle parts m now) now))
        (λ _. if_ind (Clock m now) drops (λ _. inl refl) (λ _. inl refl))
    where
      moved :
          (m m1 r : Machine W H)
          → m1.auger_on_since ≡ m.auger_on_since
          → m1.base.outputs ≡ m.base.outputs
          → Clock m1 now r
          → Clock m now r
      moved m m1 r since out (inl h) = inl (h ∙ since)
      moved m m1 r since out (inr (e, off)) =
          inr (e, ap (λ (s : Outputs H). s.state auger) (sym out) ∙ off)

  rest-Clock :
      (before m : Machine W H) (now : W) → Clock before now m → Clock before now (rest m now)
  unfolding rest end_run
  rest-Clock before m now h =
      if_ind (Clock before now) (now <ᵈ m.auger_rest_until && auger_is_on m) (λ _. h) (λ _. h)

  since-lid_watch :
      (m : Machine W H) (now : W)
      → (lid_watch (reach_target m) now).1.auger_on_since ≡ m.auger_on_since
  unfolding lid_watch reach_target
  since-lid_watch m now = ground arith

  since-open_lid :
      (m : Machine W H) (dropped : Bool) (now : W)
      → (open_lid m dropped now).auger_on_since ≡ m.auger_on_since
  unfolding open_lid fan_on
  since-open_lid m dropped now = ground arith

  since-close_lid :
      (m : Machine W H) (now : W) → (close_lid m now).auger_on_since ≡ m.auger_on_since
  unfolding close_lid track_low fan_on
  since-close_lid m now = ground arith

  since-event :
      (m : Machine W H) (dropped : Bool) (now : W)
      → (end_event (begin_event m dropped now) dropped now).auger_on_since ≡ m.auger_on_since
  unfolding begin_event end_event
  since-event m dropped now = ground arith

  since-watch_lid :
      (m : Machine W H) (now : W) → (watch_lid m now).auger_on_since ≡ m.auger_on_since
  unfolding watch_lid
  since-watch_lid m now =
      let (dropped, m1) = lid_watch (reach_target m) now in
      let m3 = end_event (begin_event m1 dropped now) dropped now in
      let lid = close_lid (open_lid m3 dropped now) now in
      let same : lid.auger_on_since ≡ m.auger_on_since =
        since-close_lid (open_lid m3 dropped now) now
        ∙ since-open_lid m3 dropped now
        ∙ since-event m1 dropped now
        ∙ since-lid_watch m now in
      by_mode (mode_eq m.base.mode hold || mode_eq m.base.mode smoke) lid same
    where
      by_mode :
          (b : Bool) (x : Machine W H)
          → x.auger_on_since ≡ m.auger_on_since
          → (if b then x else m).auger_on_since ≡ m.auger_on_since
      by_mode true x e = e
      by_mode false x e = refl

  module _ ⦃goes : LetsGo H⦄ where
    cap-Held :
        (before m : Machine W H) (now : W)
        → OnlyOn any m.base.outputs
        → Clock before now m
        → Held before now (cap m now)
    unfolding cap end_run Outputs.get Held
    cap-Held before m now h k =
        if_ind (Held before now)
          (auger_is_on m && m.conf.auger_max_on_s <ᵈ (now -ᵈ m.auger_on_since))
          (λ _. inl (auger_goes_off m.base.outputs h)) (λ over. by_clock over k)
      where
        by_clock :
            (auger_is_on m && m.conf.auger_max_on_s <ᵈ (now -ᵈ m.auger_on_since)) ≡ false
            → Clock before now m
            → Held before now m
        by_clock over (inl e) = ground arith
        by_clock over (inr k) = inr (inl k)

    -- After a turn of the thread, in any mode and whatever switched the auger on, the auger is off; or has
    -- been on since before the turn, for no longer than the cap; or its clock starts in this turn, because
    -- it was off once the lid had been looked at or because a mode was entered; on a device whose writes
    -- that switch off succeed.
    pub run_mode-IsCapped :
        (parts : Parts W) (m : Machine W H) (now : W)
        → OnlyOn (λ o. true) m.base.outputs
        → IsCapped (watch_lid m now) now (run_mode parts m now)
          × ((watch_lid m now).auger_on_since ≡ m.auger_on_since)
    unfolding run_mode run_outputs run_auger expire_manual
    run_mode-IsCapped parts m now h =
        let k : RunKeeps m.base.mode (OnlyOn {H = H} (λ o. adds m.base.mode o || true)) =
          adds-RunKeeps m.base.mode any in
        let wide =
          weaken m.base.outputs any (λ o. adds m.base.mode o || true) (λ o e. ground arith) h in
        let lid = watch_lid m now in
        let fed = rest (feed parts lid now) now in
        let held =
          keep-rest k (feed parts lid now) now
            (keep-feed k parts lid now (keep-watch_lid k m now (refl, wide))) in
        let narrow =
          weaken fed.base.outputs (λ o. adds m.base.mode o || true) any (λ o e. refl) held.1 in
        let clock = rest-Clock lid (feed parts lid now) now (feed-Clock parts lid now) in
        let m1 = expire_manual (run_fan (cap fed now) now) now in
        let run : Held lid now (run_fan (cap fed now) now) =
          run_fan-Held lid (cap fed now) now (cap-Held lid fed now narrow clock) in
        (
          end_mode-IsCapped m1.base.mode lid parts m1 now
              (Held-IsCapped lid (run_fan (cap fed now) now) now run),
          since-watch_lid m now,
        )
