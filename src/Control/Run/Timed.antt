-- ===== src/Control/Run/Timed.antt =====
-- src/core/control.c, the end of `run_mode`: outputs set by hand for a time, and the modes that end.
use pifire_c.Common.{Bool, true, not, ◌&&◌, ◌||◌, if◌then◌else◌}
use pifire_c.Common.Float.{Double, ◌<ᵈ◌, ◌≤ᵈ◌, ◌==ᵈ◌, ◌+ᵈ◌, ◌-ᵈ◌, ◌*ᵈ◌, ◌/ᵈ◌, nought, is_finite}
use pifire_c.Mode.{Mode, stop, prime, startup, reignite, hold, shutdown, manual, error, mode_eq}
use pifire_c.Outputs.{Platform}
use pifire_c.Safety.Start
use pifire_c.Control.{Machine, Parts, with_base, outputs_off, emit}
use pifire_c.Control.Enter.{enter_mode}
use pifire_c.Control.Recipe.{run_or_smoke}

module _ {W H : Type 0} ⦃d : Double W⦄ ⦃ops : Platform H⦄ where
  unfoldable pub expire_manual : Machine W H → W → Machine W H
  expire_manual m now = record m {
    manual_until = λ o.
        if not (m.manual_until o ==ᵈ nought)
          && m.manual_until o ≤ᵈ now
          && not (mode_eq m.base.mode manual)
        then nought
        else m.manual_until o;
  }

  -- the mode that a light finishes into
  abbrev pub lit_mode : Machine W H → Mode
  lit_mode m =
      run_or_smoke
        (if mode_eq m.base.mode reignite then m.base.safety.reignite_last else m.next_mode)

  unfoldable pub end_light : Parts W → Machine W H → W → Machine W H
  end_light parts m now =
      if Start.startup_done m.base
      then (let c = Start.on_startup_exit (m.base) now in
          let sp =
            if mode_eq (lit_mode m) hold && c.setpoint_c ≤ᵈ nought
            then m.conf.after_startup_setpoint_c
            else c.setpoint_c in
          enter_mode parts
            (record m {
              base = record (c) { setpoint_c = sp };
              s_plus = m.s_plus || m.conf.splus_default;
            })
            (lit_mode m) now)
      else m

  -- cooled down: its time is up, and the pit is below the hot mark or three times as long has passed
  abbrev pub has_cooled : Machine W H → W → Bool
  has_cooled m now =
      m.conf.shutdown_s <ᵈ (now -ᵈ m.mode_start)
      && (not m.base.pit_valid
          || m.base.pit_c ≤ᵈ m.conf.restart_hot_c
          || (d.lit 3 1 *ᵈ m.conf.shutdown_s) <ᵈ (now -ᵈ m.mode_start))

  unfoldable pub end_shutdown : Parts W → Machine W H → W → Machine W H
  end_shutdown parts m now =
      if has_cooled m now
      then (let m1 = enter_mode parts m stop now in
          if m.conf.auto_power_off then record m1 { power_off_requested = true } else m1)
      else m

  -- a prime goes on to a Startup that was asked for, or stops
  unfoldable pub end_prime : Parts W → Machine W H → W → Machine W H
  end_prime parts m now =
      if not (m.prime_duration_s <ᵈ (now -ᵈ m.mode_start))
      then m
      else if mode_eq m.next_mode startup
      then enter_mode parts (record m { next_mode = m.conf.after_startup_mode }) startup now
      else enter_mode parts m stop now

  abbrev pub fan_is_due : Machine W H → W → Bool
  fan_is_due m now =
      let until = m.base.safety.error_fan_until in not (until ==ᵈ nought) && until <ᵈ now

  -- by 10 F since the error
  abbrev pub pit_climbs : Machine W H → Bool
  pit_climbs m =
      let s = m.base.safety in
      not (s.error_fan_until ==ᵈ nought)
      && m.base.pit_valid
      && is_finite s.error_pit_c
      && (s.error_pit_c +ᵈ d.lit 10 1 *ᵈ d.lit 5 1 /ᵈ d.lit 9 1) <ᵈ m.base.pit_c

  -- the fan of the cool-down goes, with everything else
  abbrev pub end_fan : Machine W H → Machine W H
  end_fan m = outputs_off (
      with_base m
        (record (m.base) { safety = record (m.base.safety) { error_fan_until = nought } }))

  -- the fan that cools down after an error, until its time
  unfoldable pub end_cooling : Machine W H → W → Machine W H
  end_cooling m now = if fan_is_due m now then end_fan m else m

  -- or until the pit climbs
  unfoldable pub stop_cooling_fire : Machine W H → Machine W H
  stop_cooling_fire m = if pit_climbs m then emit (end_fan m) "E01_FIRE" else m

  unfoldable pub end_mode : Mode → Parts W → Machine W H → W → Machine W H
  unfolding end_light end_shutdown end_prime end_cooling stop_cooling_fire
  end_mode startup parts m now = end_light parts m now
  end_mode reignite parts m now = end_light parts m now
  end_mode shutdown parts m now = end_shutdown parts m now
  end_mode prime parts m now = end_prime parts m now
  end_mode error parts m now = stop_cooling_fire (end_cooling m now)
  end_mode _ parts m now = m
