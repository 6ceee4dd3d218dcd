-- ===== src/Control/Enter.antt =====
-- src/core/control.c: what entering a mode does to the state and the outputs.
pub mod Allowed
pub mod Switched
pub mod Entered
use pifire_c.Common.{
  ℕ, zero, suc, ◌*◌, Bool, true, false, not, ◌&&◌, ◌||◌, List, [], ◌∷◌, Option, none, some,
  if◌then◌else◌,
}
use pifire_c.Common.Int.{ℤ, pos, is_pos}
use pifire_c.Common.Float.{Double, ◌<ᵈ◌, ◌≤ᵈ◌, ◌+ᵈ◌, ◌-ᵈ◌, ◌*ᵈ◌, ◌/ᵈ◌, nought, clamp}
use pifire_c.Mode.{
  Mode, stop, monitor, prime, startup, reignite, smoke, hold, shutdown, manual, error, power, fan,
  auger, igniter, mode_eq,
}
use pifire_c.Outputs.{Platform}
use pifire_c.Cycle
use pifire_c.Grill.{Control, Safety}
use pifire_c.Safety.Start
use pifire_c.Safety.Start.{pit_or_nan}
use pifire_c.Control.{
  Conf, Machine, Parts, Ask, cookfile, clear_history, with_base, turn, fan_speed, outputs_off, emit,
}

-- the cook's modes
abbrev pub is_cooking : Mode → Bool
is_cooking startup = true
is_cooking reignite = true
is_cooking smoke = true
is_cooking hold = true
is_cooking shutdown = true
is_cooking prime = true
is_cooking _ = false

abbrev pub is_lighting : Mode → Bool
is_lighting startup = true
is_lighting reignite = true
is_lighting _ = false

module _ {W : Type 0} ⦃d : Double W⦄ where
  -- the first range above the pit, and the last profile where there is none
  abbrev pub profile_index : W → List W → ℕ
  profile_index pit [] = 0
  profile_index pit (r ∷ l) = if pit <ᵈ r then 0 else suc (profile_index pit l)

  abbrev pub profile_at : ℕ → List (W × ℕ) → W × ℕ
  profile_at n [] = (nought, 0)
  profile_at zero (a ∷ l) = a
  profile_at (suc n) (a ∷ l) = profile_at n l

  abbrev pub ambient_max_c : W
  ambient_max_c = d.lit 50 1

module _ {W H : Type 0} ⦃d : Double W⦄ ⦃ops : Platform H⦄ where
  pub cycle_cfg_for : Machine W H → Machine W H
  cycle_cfg_for m = record m {
    ccfg = record {
      cycle_s = m.conf.hold_cycle_s;
      u_min = m.conf.u_min;
      u_max = m.conf.u_max;
      max_on_s = m.conf.auger_max_on_s;
    };
  }

  unfoldable pub fan_on : Machine W H → ℤ → Machine W H
  fan_on m pct =
      let m1 = turn m fan true in
      let m2 = if m.conf.dc_fan then fan_speed m1 (if is_pos pct then pct else pos 100) else m1 in
      record m2 { fan_ramping = false }

  pub select_smartstart_profile : Machine W H → Machine W H
  select_smartstart_profile m = record m {
    ss_profile = profile_index m.base.pit_c m.conf.ss_ranges_c;
  }

  -- what a cycle that has begun is remembered as
  abbrev pub applied : Machine W H → Machine W H
  applied m = record m { u_raw = m.cycle.u_applied; u_applied = m.cycle.u_applied }

  -- the seconds on and off: the startup feed of the profile, or Smoke's P-mode
  abbrev pub smoke_times : Machine W H → W × W
  smoke_times m =
      if is_lighting m.base.mode
      then (
        (profile_at m.ss_profile m.conf.ss_prof).0,
        m.conf.smoke_off_s +ᵈ d.of_int (pos ((profile_at m.ss_profile m.conf.ss_prof).1 * 10)),
      )
      else (m.conf.smoke_on_s, m.conf.smoke_off_s +ᵈ d.of_int (pos (m.conf.pmode * 10)))

  -- a light in a hot barrel is fed at the learned rate where that is more
  pub smoke_cycle : Parts W → Machine W H → W → Machine W H
  smoke_cycle parts m now =
      let (on, off) = smoke_times m in
      let uff =
        parts.uff (m.base.pit_c +ᵈ d.lit 3 1 *ᵈ m.base.cfg.ss_exit_rise_c) m.base.ambient_c
          m.conf.u_min m.conf.u_max in
      applied (
        if is_lighting m.base.mode && m.base.pit_valid && (on /ᵈ (on +ᵈ off)) <ᵈ uff
        then record m { cycle = Cycle.begin m.cycle m.ccfg now uff }
        else record m { cycle = Cycle.begin_fixed m.cycle m.ccfg now on off })

  -- the pit, the estimate, or the record, if it can be outdoor air; else 20 C
  pub provisional : Control W H → Option W → W
  provisional c saved =
      if c.pit_valid && c.pit_c ≤ᵈ ambient_max_c
      then c.pit_c
      else if not (d.is_nan c.ambient_c) && c.ambient_c ≤ᵈ ambient_max_c
      then c.ambient_c
      else (elim saved [
        | none ↦ d.lit 20 1
        | some v ↦ if (nought -ᵈ d.lit 40 1) <ᵈ v && v ≤ᵈ ambient_max_c then v else d.lit 20 1
      ])

  pub ambient_provisional : Parts W → Machine W H → Machine W H
  unfolding provisional
  ambient_provisional parts m =
      with_base m (record (m.base) { ambient_c = provisional (m.base) parts.ambient_last })

  -- `autotune_finish` of a run that failed: the feed that it measured is taken up
  pub autotune_failed : Machine W H → Machine W H
  autotune_failed m =
      let m1 = with_base m (record (m.base) { autotune_active = false }) in
      let steady =
        if nought <ᵈ m.autotune_last_load then m.autotune_last_load else m.autotune_u_center in
      let u = clamp steady m.conf.u_min m.conf.u_max in
      emit (if nought <ᵈ steady then record m1 { u_raw = u; u_applied = u } else m1)
        "Autotune_Failed"

  -- before the outputs
  pub change_mode : Machine W H → Mode → W → Machine W H
  unfolding autotune_failed cycle_cfg_for
  change_mode m to now =
      let m1 = record m {
        recoveries = if mode_eq to stop then 0 else m.recoveries;
        mode_start = now;
        aim_since = now;
        aim_pit_c = pit_or_nan (m.base);
        cooking = is_cooking to;
        fan_pid_active = false;
        fan_ramping = false;
        manual_until = λ o. nought;
        cycle = Cycle.stop m.cycle;
        base = record (m.base) { mode = to; lid_open = false; target_reached = false };
      } in
      let m2 = if m.base.autotune_active then autotune_failed m1 else m1 in
      cycle_cfg_for (
        with_base m2 (record (m2.base) {
          safety = record (m2.base.safety) {
            igniter_locked_out = false;
            igniter_on_since = nought;
            primary_invalid_since = nought;
          };
        }))

  -- before the switch over the modes
  pub leave_mode : Machine W H → Mode → W → Machine W H
  unfolding change_mode
  leave_mode m to now = record (turn (turn (change_mode m to now) igniter false) auger false) {
    auger_on_since = now;
  }

  pub enter_stop : Parts W → Machine W H → Machine W H
  enter_stop parts m =
      let m1 = record (outputs_off m) { s_plus = false; next_mode = stop } in
      if nought <ᵈ m.cook_start_wall
      then record m1 {
        asks = cookfile m.cook_start_wall parts.wall m.auger_total_on_s m.cook_max_pit_c ∷ m.asks;
        cook_start_wall = nought;
      }
      else m1

  -- how long a prime feeds, one auger run at most
  abbrev pub prime_time : Machine W H → W → W
  prime_time m amount =
      let time = if nought <ᵈ m.conf.augerrate then amount /ᵈ m.conf.augerrate else nought in
      if nought <ᵈ m.conf.auger_max_on_s && m.conf.auger_max_on_s <ᵈ time
      then m.conf.auger_max_on_s
      else time

  abbrev pub prime_amount : Machine W H → W
  prime_amount m = if m.prime_amount_g <ᵈ nought then nought else m.prime_amount_g

  pub enter_prime : Machine W H → W → Machine W H
  enter_prime m now =
      let m1 = turn (turn m fan false) power true in
      let time = prime_time m (prime_amount m) in
      let m2 = record m1 { prime_amount_g = prime_amount m; prime_duration_s = time } in
      let m3 =
        if m.conf.prime_ignition && mode_eq m.next_mode startup then turn m2 igniter true else m2 in
      turn (record m3 { cycle = Cycle.begin_fixed m3.cycle m3.ccfg now time (d.lit 1 1) }) auger
        true

  -- a startup begins a new cook; a relight goes on with the one there is
  pub begin_cook : Parts W → Machine W H → Mode → Machine W H
  unfolding ambient_provisional
  begin_cook parts m prev =
      let m1 = record m {
        cook_start_wall = parts.wall;
        auger_total_on_s = nought;
        cook_max_pit_c = nought;
        base = Start.reset (m.base);
        asks =
            if m.conf.clear_history_on_startup && mode_eq prev stop
            then clear_history ∷ m.asks
            else m.asks;
      } in
      if m.ambient_from_probe then m1 else ambient_provisional parts m1

  pub enter_light : Parts W → Machine W H → Mode → Mode → W → Machine W H
  unfolding begin_cook fan_on select_smartstart_profile smoke_cycle
  enter_light parts m to prev now =
      let m1 = if mode_eq to startup then begin_cook parts m prev else m in
      let m2 =
        fan_on (turn m1 power true) (if m.conf.dc_fan then m.conf.startup_pwm_duty else pos 100) in
      let m3 = select_smartstart_profile (turn m2 igniter true) in
      turn (smoke_cycle parts (with_base m3 (Start.on_startup_enter (m3.base) now)) now) auger true

  pub enter_smoke : Parts W → Machine W H → Mode → W → Machine W H
  unfolding fan_on smoke_cycle
  enter_smoke parts m prev now =
      let m1 = with_base m (Start.on_run_enter (m.base) prev now) in
      turn (smoke_cycle parts (fan_on (turn m1 power true) m.duty_cycle) now) auger true

  pub enter_hold : Machine W H → Mode → W → Machine W H
  unfolding fan_on
  enter_hold m prev now =
      let m1 = with_base m (Start.on_run_enter (m.base) prev now) in
      let m2 = fan_on (turn m1 power true) m.duty_cycle in
      turn
        (applied (record m2 {
          ctrl_reset_needed = true;
          cycle = Cycle.begin m2.cycle m2.ccfg now m.conf.u_min;
        }))
        auger true

  -- the fan cools a hot pit down
  pub enter_error : Machine W H → W → Machine W H
  unfolding fan_on
  enter_error m now =
      let until =
        if m.base.pit_valid && m.conf.restart_hot_c <ᵈ m.base.pit_c
        then now +ᵈ m.conf.error_cooldown_fan_s
        else nought in
      let m1 = with_base m (record (m.base) {
        safety = record (m.base.safety) {
          error_pit_c = pit_or_nan (m.base);
          error_fan_until = until;
        };
      }) in
      if now <ᵈ until then fan_on (turn m1 power true) (pos 100) else outputs_off m1

  pub arrive : Parts W → Machine W H → Mode → Mode → W → Machine W H
  unfolding enter_stop enter_prime enter_light enter_smoke enter_hold enter_error fan_on
  arrive parts m stop prev now = enter_stop parts m
  arrive parts m monitor prev now = turn (turn m fan false) power false
  arrive parts m manual prev now = turn (turn m fan false) power false
  arrive parts m prime prev now = enter_prime m now
  arrive parts m startup prev now = enter_light parts m startup prev now
  arrive parts m reignite prev now = enter_light parts m reignite prev now
  arrive parts m smoke prev now = enter_smoke parts m prev now
  arrive parts m hold prev now = enter_hold m prev now
  arrive parts m shutdown prev now = fan_on (turn m power true) m.duty_cycle
  arrive parts m error prev now = enter_error m now

  -- `enter_mode`
  pub enter_mode : Parts W → Machine W H → Mode → W → Machine W H
  unfolding leave_mode arrive
  enter_mode parts m to now = arrive parts (leave_mode m to now) to m.base.mode now
