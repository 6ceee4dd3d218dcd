-- ===== src/Control/Run/Keeps.antt =====
-- src/core/control.c, `run_fan_logic`: what the fan's logic keeps, for a predicate that the fan's
-- switch and speed keep.
use pifire_c.Common.{Bool, true, false, not, ◌&&◌, if◌then◌else◌, if_ind}
use pifire_c.Common.Int.{ℤ, eq_ℤ}
use pifire_c.Common.Float.{Double, ◌<ᵈ◌, ◌-ᵈ◌}
use pifire_c.Mode.{hold, mode_eq, fan}
use pifire_c.Outputs.{Platform}
use pifire_c.Outputs
use pifire_c.Grill.{Control}
use pifire_c.Safety.{switch}
use pifire_c.Control.{Conf, Machine, turn, fan_speed}
use pifire_c.Control.Enter.{fan_on}
use pifire_c.Control.Run.Fan.{
  fan_is_on, fan_logic, profile_fan, pid_fan, splus_start, splus_toggle, splus_ramp, steady_fan,
}

module _ {W H : Type 0} ⦃d : Double W⦄ ⦃ops : Platform H⦄ where
  -- A predicate that the switch of the fan and its speed keep; it may speak of the shared state, the
  -- settings and the clocks of the auger.
  pub record FanKeeps (Q : Control W H → Conf W → W → W → Type 0) : Type 0 where
    pub fan_turned :
        (c : Control W H) (conf : Conf W) (since until : W) (on : Bool)
        → Q c conf since until
        → Q (switch c fan on) conf since until
    pub fan_paced :
        (c : Control W H) (conf : Conf W) (since until : W) (pct : ℤ)
        → Q c conf since until
        → Q (record c { outputs = (Outputs.set_fan_pct (c.outputs) pct).1 }) conf since until

  module _ {Q : Control W H → Conf W → W → W → Type 0} (k : FanKeeps Q) where
    abbrev P : Machine W H → Type 0
    P m = Q m.base m.conf m.auger_on_since m.auger_rest_until

    keep-if : (b : Bool) (x y : Machine W H) → P x → P y → P (if b then x else y)
    keep-if true x y h k = h
    keep-if false x y h k = k

    keep-turn : (m : Machine W H) (on : Bool) → P m → P (turn m fan on)
    keep-turn m on h = k.fan_turned m.base m.conf m.auger_on_since m.auger_rest_until on h

    keep-fan_speed : (m : Machine W H) (pct : ℤ) → P m → P (fan_speed m pct)
    keep-fan_speed m pct h = k.fan_paced m.base m.conf m.auger_on_since m.auger_rest_until pct h

    pub keep-fan_on : (m : Machine W H) (pct : ℤ) → P m → P (fan_on m pct)
    unfolding fan_on
    keep-fan_on m pct h =
        let m1 = turn m fan true in
        if_ind P m.conf.dc_fan (λ _. keep-fan_speed m1 _ (keep-turn m true h))
          (λ _. keep-turn m true h)

    keep-profile_fan : (m : Machine W H) (now : W) → P m → P (profile_fan m now)
    unfolding profile_fan
    keep-profile_fan m now h =
        if_ind P
          (m.conf.dc_fan
            && mode_eq m.base.mode hold
            && m.pwm_control
            && m.conf.pwm_update_s <ᵈ (now -ᵈ m.fan_update_t))
          (λ _. h) (λ _. h)

    keep-pid_fan : (m : Machine W H) (now : W) → P m → P (pid_fan m now)
    unfolding pid_fan
    keep-pid_fan m now h =
        keep-if _ _ _ (keep-turn m false h) (keep-if _ _ _ (keep-fan_on m m.duty_cycle h) h)

    keep-splus_start : (m : Machine W H) (now : W) → P m → P (splus_start m now)
    unfolding splus_start
    keep-splus_start m now h =
        let m1 = record m { fan_toggle_t = now } in
        keep-if _ _ _ (keep-fan_speed (turn m1 fan true) m.conf.pwm_min_duty (keep-turn m1 true h))
          (keep-fan_on m1 m.duty_cycle h)

    keep-splus_toggle : (m : Machine W H) (now : W) → P m → P (splus_toggle m now)
    unfolding splus_toggle
    keep-splus_toggle m now h =
        keep-if _ _ _ (keep-if _ _ _ (keep-fan_on m m.duty_cycle h) h)
          (keep-if _ _ _ (keep-turn m false h) (keep-if _ _ _ (keep-splus_start m now h) h))

    keep-splus_ramp : (m : Machine W H) (now : W) → P m → P (splus_ramp m now)
    unfolding splus_ramp
    keep-splus_ramp m now h =
        keep-if _ _ _ (keep-if _ _ _ (keep-fan_speed m _ h) (keep-fan_speed m _ h)) h

    keep-steady_fan : (m : Machine W H) → P m → P (steady_fan m)
    unfolding steady_fan
    keep-steady_fan m h =
        let m1 = if not m.pwm_control then record m { duty_cycle = m.conf.pwm_max_duty } else m in
        let want =
          if m.pwm_control && mode_eq m.base.mode hold then m.duty_cycle else m.conf.pwm_max_duty in
        let h1 : P m1 =
          keep-if (not m.pwm_control) (record m { duty_cycle = m.conf.pwm_max_duty }) m h h in
        let paced = if not (eq_ℤ m1.base.outputs.fan_pct want) then fan_speed m1 want else m1 in
        let h2 : P paced =
          keep-if (not (eq_ℤ m1.base.outputs.fan_pct want)) (fan_speed m1 want) m1
            (keep-fan_speed m1 want h1) h1 in
        keep-if (not (fan_is_on m)) (fan_on m m.duty_cycle) (if m.conf.dc_fan then paced else m)
          (keep-fan_on m m.duty_cycle h) (keep-if m.conf.dc_fan paced m h2 h)

    -- What the fan's switch and its speed keep, the whole logic keeps.
    pub keep-fan_logic : (m : Machine W H) (now : W) → P m → P (fan_logic m now)
    unfolding fan_logic
    keep-fan_logic m now h =
        let m1 = profile_fan m now in
        let h1 = keep-profile_fan m now h in
        keep-if _ _ _ h (
          keep-if _ _ _ (keep-pid_fan m1 now h1) (
            keep-if _ _ _ (keep-splus_ramp (splus_toggle m1 now) now (keep-splus_toggle m1 now h1))
              (keep-steady_fan m1 h1)))
