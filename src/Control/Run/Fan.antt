-- ===== src/Control/Run/Fan.antt =====
-- src/core/control.c, `run_fan_logic`: the fan in Smoke and Hold, by profile, by the fan PID, by
-- Smoke+, or steady.
use pifire_c.Common.{Bool, true, false, not, ◌&&◌, ◌||◌, List, ◌∷◌, if◌then◌else◌}
use pifire_c.Common.Int.{ℤ, ◌-ℤ◌, ◌*ℤ◌, eq_ℤ}
use pifire_c.Common.Float.{Double, ◌<ᵈ◌, ◌≤ᵈ◌, ◌+ᵈ◌, ◌-ᵈ◌, ◌*ᵈ◌, ◌/ᵈ◌, nought, clamp}
use pifire_c.Mode.{smoke, hold, mode_eq, fan}
use pifire_c.Outputs
use pifire_c.Outputs.{Platform}
use pifire_c.Control.{Machine, turn, fan_speed}
use pifire_c.Control.Enter.{fan_on}

module _ {W : Type 0} ⦃d : Double W⦄ where
  -- the duty of the first range that the pit is within, from below
  pub profile_duty : W → List W → List ℤ → ℤ → ℤ
  profile_duty below (r ∷ ranges) (p ∷ profiles) other =
      let next = profile_duty below ranges profiles other in if below ≤ᵈ r then p else next
  profile_duty below _ _ other = other

module _ {W H : Type 0} ⦃d : Double W⦄ ⦃ops : Platform H⦄ where
  abbrev pub fan_is_on : Machine W H → Bool
  fan_is_on m = Outputs.get (m.base.outputs) fan

  unfoldable pub profile_fan : Machine W H → W → Machine W H
  unfolding profile_duty
  profile_fan m now =
      if m.conf.dc_fan
        && mode_eq m.base.mode hold
        && m.pwm_control
        && m.conf.pwm_update_s <ᵈ (now -ᵈ m.fan_update_t)
      then (let duty =
            if m.base.setpoint_c <ᵈ m.base.pit_c
            then m.conf.pwm_min_duty
            else profile_duty (m.base.setpoint_c -ᵈ m.base.pit_c) m.conf.pwm_ranges_c
                m.conf.pwm_profiles m.conf.pwm_max_duty in
          record m {
            fan_update_t = now;
            duty_cycle = d.trunc (
                clamp (d.of_int duty) (d.of_int m.conf.pwm_min_duty)
                  (d.of_int m.conf.pwm_max_duty));
          })
      else m

  -- below the bottom of the range the fan is on for a share of the time
  unfoldable pub pid_fan : Machine W H → W → Machine W H
  pid_fan m now =
      let total = if m.s_plus then m.conf.splus_on_s +ᵈ m.conf.splus_off_s else m.ccfg.cycle_s in
      let most = if m.s_plus then m.conf.splus_on_s /ᵈ total else d.lit 1 1 in
      let ratio = d.fmax nought (m.u_raw /ᵈ m.conf.u_min) *ᵈ most in
      let since = now -ᵈ m.fan_toggle_t in
      if fan_is_on m && (total *ᵈ ratio) <ᵈ since
      then record (turn m fan false) { fan_toggle_t = now }
      else if not (fan_is_on m) && (total *ᵈ (d.lit 1 1 -ᵈ ratio)) <ᵈ since
      then record (fan_on m m.duty_cycle) { fan_toggle_t = now }
      else m

  -- the fan comes back slowly, or at once
  unfoldable pub splus_start : Machine W H → W → Machine W H
  splus_start m now =
      let m1 = record m { fan_toggle_t = now } in
      if m.conf.dc_fan && m.conf.splus_ramp && (mode_eq m.base.mode smoke || not m.pwm_control)
      then record (fan_speed (turn m1 fan true) m.conf.pwm_min_duty) {
        fan_ramping = true;
        ramp_end_t = now +ᵈ m.conf.splus_on_s;
      }
      else fan_on m1 m.duty_cycle

  unfoldable pub splus_toggle : Machine W H → W → Machine W H
  unfolding splus_start
  splus_toggle m now =
      let since = now -ᵈ m.fan_toggle_t in
      if m.conf.splus_max_c <ᵈ m.base.pit_c || m.base.pit_c <ᵈ m.conf.min_target_c
      then (if not (fan_is_on m) then fan_on m m.duty_cycle else m)
      else if fan_is_on m && m.conf.splus_on_s <ᵈ since
      then record (turn m fan false) { fan_toggle_t = now }
      else if not (fan_is_on m) && m.conf.splus_off_s <ᵈ since
      then splus_start m now
      else m

  unfoldable pub splus_ramp : Machine W H → W → Machine W H
  splus_ramp m now =
      if m.fan_ramping
      then (let frac = d.lit 1 1 -ᵈ d.fmax nought (m.ramp_end_t -ᵈ now) /ᵈ m.conf.splus_on_s in
          let target =
            d.trunc (d.of_int (m.conf.pwm_max_duty *ℤ m.conf.splus_duty) /ᵈ d.lit 100 1) in
          let low = m.conf.pwm_min_duty in
          let m1 = fan_speed m (d.trunc (d.of_int low +ᵈ d.of_int (target -ℤ low) *ᵈ frac)) in
          if d.lit 1 1 ≤ᵈ frac then record m1 { fan_ramping = false } else m1)
      else m

  unfoldable pub steady_fan : Machine W H → Machine W H
  steady_fan m =
      if not (fan_is_on m)
      then fan_on m m.duty_cycle
      else if m.conf.dc_fan
      then (let want =
            if m.pwm_control && mode_eq m.base.mode hold
            then m.duty_cycle
            else m.conf.pwm_max_duty in
          let m1 = if not m.pwm_control then record m { duty_cycle = m.conf.pwm_max_duty } else m in
          if not (eq_ℤ m1.base.outputs.fan_pct want) then fan_speed m1 want else m1)
      else m

  unfoldable pub fan_logic : Machine W H → W → Machine W H
  unfolding profile_fan pid_fan splus_toggle splus_ramp steady_fan
  fan_logic m now =
      if now <ᵈ m.manual_until fan || m.base.lid_open
      then m
      else (let m1 = profile_fan m now in
          if mode_eq m.base.mode hold && m.fan_pid_active
          then pid_fan m1 now
          else if (mode_eq m.base.mode smoke || (mode_eq m.base.mode hold && m.base.target_reached))
              && m.s_plus
          then splus_ramp (splus_toggle m1 now) now
          else steady_fan m1)
