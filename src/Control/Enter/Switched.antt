-- ===== src/Control/Enter/Switched.antt =====
-- src/core/control.c, `enter_mode`: which outputs can be on in a mode that was just entered.
use pifire_c.Common.{◌≡◌, refl, ap, sym, arith, true, false, ◌&&◌, ◌||◌, if◌then◌else◌, if_ind}
use mathlib.Core.Path.{subst}
use pifire_c.Common.Int.{ℤ, pos}
use pifire_c.Common.Float.{Double, ◌<ᵈ◌, ◌+ᵈ◌, nought}
use pifire_c.Mode.{
  Mode, stop, monitor, prime, startup, reignite, smoke, hold, shutdown, manual, error, power, fan,
  auger, igniter, output_eq, mode_eq,
}
use pifire_c.Outputs.{Platform, Relays}
use pifire_c.Outputs.Only.{
  LetsGo, OnlyOn, with_on, without, OnlyOn-set_on, OnlyOn-set_off, OnlyOn-all_off,
}
use pifire_c.Safety.Start
use pifire_c.Safety.Start.{pit_or_nan}
use pifire_c.Safety.Start.Kept
use pifire_c.Control.{Machine, Parts, turn, with_base}
use pifire_c.Control.Enter.{
  fan_on, smoke_cycle, leave_mode, change_mode, arrive, enter_mode, enter_stop, enter_prime,
  enter_light, enter_smoke, enter_hold, enter_error, begin_cook, select_smartstart_profile,
  prime_amount, prime_time,
}
use pifire_c.Control.Enter.Allowed.{
  blown, burning, priming, left, idle_table, priming_table, burning_table, blown_table,
  cooling_table, cools, allowed, Only, Only-fan_on, outputs-smoke_cycle, Only-weaken, Only-turn_if,
  Only-same, outputs-change_mode, kept-leave_mode, outputs-light, outputs-lit,
}

module _ {W H : Type 0} ⦃d : Double W⦄ ⦃ops : Platform H⦄ where
  module _ ⦃goes : LetsGo H⦄ where
    -- what stays on when a mode is left: not the igniter, not the auger
    leave_mode-Only :
        (m : Machine W H) (to : Mode) (now : W) (may : Relays)
        → Only may m
        → Only (without (without may igniter) auger) (leave_mode m to now)
    unfolding leave_mode
    leave_mode-Only m to now may h =
        let m1 = change_mode m to now in
        OnlyOn-set_off (turn m1 igniter false).base.outputs (without may igniter) auger (
          OnlyOn-set_off m1.base.outputs may igniter
            (Only-same m m1 may (outputs-change_mode m to now) h))

    -- what is on between the modes
    abbrev Left : Machine W H → Type 0
    Left m = Only left m

    enter_stop-Only :
        (parts : Parts W) (m : Machine W H) → Left m → Only (λ o. false) (enter_stop parts m)
    unfolding enter_stop
    enter_stop-Only parts m h =
        let off = OnlyOn-all_off m.base.outputs left (λ o. false) h in
        if_ind (λ (r : Machine W H). Only (λ o. false) r) (nought <ᵈ m.cook_start_wall) (λ _. off)
          (λ _. off)

    idle-Only : (m : Machine W H) → Left m → Only (λ o. false) (turn (turn m fan false) power false)
    idle-Only m h =
        let m1 = turn m fan false in
        let off =
          OnlyOn-set_off m1.base.outputs (without left fan) power
            (OnlyOn-set_off m.base.outputs left fan h) in
        Only-weaken (turn m1 power false) (without (without left fan) power) (λ o. false) idle_table
          off

    enter_prime-Only :
        (m : Machine W H) (now : W) → Left m → Only (allowed m now prime) (enter_prime m now)
    unfolding enter_prime
    enter_prime-Only m now h =
        let m1 = turn m fan false in
        let on =
          OnlyOn-set_on m1.base.outputs (without left fan) power
            (OnlyOn-set_off m.base.outputs left fan h) in
        let may : Relays = with_on (without left fan) power in
        let wanted = m.conf.prime_ignition && mode_eq m.next_mode startup in
        let lit : Relays = λ o. (output_eq igniter o && wanted) || may o in
        let m2 = record (turn m1 power true) {
          prime_amount_g = prime_amount m;
          prime_duration_s = prime_time m (prime_amount m);
        } in
        let m3 = if wanted then turn m2 igniter true else m2 in
        Only-weaken (enter_prime m now) (with_on lit auger) (allowed m now prime)
          (priming_table wanted)
          (OnlyOn-set_on m3.base.outputs lit auger (Only-turn_if wanted m2 igniter may on))

    -- power, the fan and the auger, as the burning modes want them
    run-Only :
        (m : Machine W H) (m' : Machine W H) (pct : ℤ) (may : Relays)
        → m'.base.outputs ≡ (fan_on (turn m power true) pct).base.outputs
        → Only may m
        → Only (with_on (with_on (with_on may power) fan) auger) (turn m' auger true)
    run-Only m m' pct may e h =
        let on = OnlyOn-set_on m.base.outputs may power h in
        let blown = Only-fan_on (turn m power true) pct (with_on may power) on in
        OnlyOn-set_on m'.base.outputs (with_on (with_on may power) fan) auger
          (subst (λ s. OnlyOn (with_on (with_on may power) fan) s) (sym e) blown)

    enter_smoke-Only :
        (parts : Parts W) (m : Machine W H) (prev : Mode) (now : W)
        → Left m
        → Only burning (enter_smoke parts m prev now)
    unfolding enter_smoke
    enter_smoke-Only parts m prev now h =
        let m1 = with_base m (Start.on_run_enter (m.base) prev now) in
        let m2 = fan_on (turn m1 power true) m.duty_cycle in
        let entered = Only-same m m1 left (Kept.outputs-on_run_enter m.base prev now) h in
        let fed = smoke_cycle parts m2 now in
        Only-weaken (turn fed auger true) (with_on (with_on (with_on left power) fan) auger) burning
          burning_table
          (run-Only m1 fed m.duty_cycle left
            (ap (λ c. c.outputs) (outputs-smoke_cycle parts m2 now)) entered)

    enter_hold-Only :
        (m : Machine W H) (prev : Mode) (now : W) → Left m → Only burning (enter_hold m prev now)
    unfolding enter_hold
    enter_hold-Only m prev now h =
        let m1 = with_base m (Start.on_run_enter (m.base) prev now) in
        let entered = Only-same m m1 left (Kept.outputs-on_run_enter m.base prev now) h in
        Only-weaken (enter_hold m prev now) (with_on (with_on (with_on left power) fan) auger)
          burning burning_table
          (run-Only m1 (fan_on (turn m1 power true) m.duty_cycle) m.duty_cycle left refl entered)

    enter_light-Only :
        (parts : Parts W) (m : Machine W H) (to prev : Mode) (now : W)
        → Left m
        → Only (λ o. true) (enter_light parts m to prev now)
    unfolding enter_light
    enter_light-Only parts m to prev now h =
        let m1 = if mode_eq to startup then begin_cook parts m prev else m in
        let pct = if m.conf.dc_fan then m.conf.startup_pwm_duty else pos 100 in
        let m2 = fan_on (turn m1 power true) pct in
        let m3 = select_smartstart_profile (turn m2 igniter true) in
        let m4 = with_base m3 (Start.on_startup_enter (m3.base) now) in
        let any : Relays = λ o. true in
        let start = Only-same m m1 left (outputs-light parts m to prev) h in
        let lit = OnlyOn-set_on m2.base.outputs (with_on (with_on left power) fan) igniter (
          Only-fan_on (turn m1 power true) pct (with_on left power)
            (OnlyOn-set_on m1.base.outputs left power start)) in
        let entered =
          Only-same (turn m2 igniter true) (smoke_cycle parts m4 now)
            (with_on (with_on (with_on left power) fan) igniter) (outputs-lit parts m2 now) lit in
        Only-weaken (enter_light parts m to prev now)
          (with_on (with_on (with_on (with_on left power) fan) igniter) auger) any (λ o e. refl)
          (OnlyOn-set_on (smoke_cycle parts m4 now).base.outputs
            (with_on (with_on (with_on left power) fan) igniter) auger entered)

    enter_error-Only :
        (m : Machine W H) (now : W) → Left m → Only (blown (cools m now)) (enter_error m now)
    unfolding enter_error
    enter_error-Only m now h =
        let until =
          if m.base.pit_valid && m.conf.restart_hot_c <ᵈ m.base.pit_c
          then now +ᵈ m.conf.error_cooldown_fan_s
          else nought in
        let m1 = with_base m (record (m.base) {
          safety = record (m.base.safety) {
            error_pit_c = pit_or_nan (m.base);
            error_fan_until = until;
          };
        }) in
        let on = OnlyOn-set_on m1.base.outputs left power h in
        let cooled = Only-fan_on (turn m1 power true) (pos 100) (with_on left power) on in
        if_ind (λ (r : Machine W H). Only (blown (cools m now)) r) (now <ᵈ until)
          (λ e.
            Only-weaken (fan_on (turn m1 power true) (pos 100)) (with_on (with_on left power) fan)
              (blown (cools m now)) (cooling_table (cools m now) e) cooled)
          (λ e. OnlyOn-all_off m1.base.outputs left (blown (cools m now)) h)

    arrive-Only :
        (parts : Parts W) (m : Machine W H) (to prev : Mode) (now : W)
        → Left m
        → Only (allowed m now to) (arrive parts m to prev now)
    unfolding arrive
    arrive-Only parts m stop prev now h = enter_stop-Only parts m h
    arrive-Only parts m monitor prev now h = idle-Only m h
    arrive-Only parts m manual prev now h = idle-Only m h
    arrive-Only parts m prime prev now h = enter_prime-Only m now h
    arrive-Only parts m startup prev now h = enter_light-Only parts m startup prev now h
    arrive-Only parts m reignite prev now h = enter_light-Only parts m reignite prev now h
    arrive-Only parts m smoke prev now h = enter_smoke-Only parts m prev now h
    arrive-Only parts m hold prev now h = enter_hold-Only m prev now h
    arrive-Only parts m shutdown prev now h =
        Only-weaken (fan_on (turn m power true) m.duty_cycle) (with_on (with_on left power) fan)
          (blown true) blown_table
          (Only-fan_on (turn m power true) m.duty_cycle (with_on left power)
            (OnlyOn-set_on m.base.outputs left power h))
    arrive-Only parts m error prev now h = enter_error-Only m now h

    -- leaving a mode does not change what the next one may have on
    allowed-leave_mode :
        (m : Machine W H) (to : Mode) (now : W)
        → allowed (leave_mode m to now) now to ≡ allowed m now to
    allowed-leave_mode m prime now = ap priming (ground (arith, kept-leave_mode m prime now))
    allowed-leave_mode m error now = ap blown (ground (arith, kept-leave_mode m error now))
    allowed-leave_mode m startup now = refl
    allowed-leave_mode m _ now = refl

    -- Whatever was on before, a mode that was just entered has on at most what is its own: in Stop,
    -- Monitor and Manual nothing, in Prime the auger, and the igniter if it is to light, the igniter
    -- elsewhere only in Startup and Relight, the auger only in the modes that feed, and in Error only
    -- the fan, for a hot pit.
    pub enter_mode-allowed :
        (parts : Parts W) (m : Machine W H) (to : Mode) (now : W)
        → OnlyOn (λ o. true) m.base.outputs
        → OnlyOn (allowed m now to) (enter_mode parts m to now).base.outputs
    unfolding enter_mode
    enter_mode-allowed parts m to now h =
        subst (λ may. Only may (enter_mode parts m to now)) (allowed-leave_mode m to now)
          (arrive-Only parts (leave_mode m to now) to m.base.mode now
            (leave_mode-Only m to now (λ o. true) h))
