-- ===== src/Control/Command/Hand.antt =====
-- src/core/control.c, `handle_cmd`: the outputs set by hand, and the lid's switch.
use pifire_c.Common.{◌^◌, Bool, true, false, not, ◌&&◌, ◌||◌, List, [], ◌∷◌, if◌then◌else◌}
use pifire_c.Common.Int.{pos, is_pos}
use pifire_c.Common.Float.{Double, ◌+ᵈ◌, clamp}
use pifire_c.Mode.{
  Mode, monitor, hold, manual, error, mode_eq, Output, power, fan, auger, igniter, output_eq,
}
use pifire_c.Outputs
use pifire_c.Outputs.{Platform}
use pifire_c.Cycle
use pifire_c.CmdQueue.{Cmd}
use pifire_c.Control.{Machine, with_base, turn, fan_speed}
use pifire_c.Control.Enter.{fan_on}
use text.Mathlib.Text.{◌==◌ as str_eq}
use Prim.Native.String.{String}

-- `pf_output_name`
abbrev pub output_name : Output → String
output_name power = "power"
output_name fan = "fan"
output_name auger = "auger"
output_name igniter = "igniter"

-- Monitor and Manual: the outputs are idle
abbrev pub is_free : Mode → Bool
is_free manual = true
is_free monitor = true
is_free _ = false

module _ {W : Type 0} ⦃d : Double W⦄ where
  -- for how long an output set by hand stays
  abbrev pub until_of : Bool → W → W → W
  until_of free now override = if free then d.lit (10 ^ 18) 1 else now +ᵈ override

module _ {W H : Type 0} ⦃d : Double W⦄ ⦃ops : Platform H⦄ where
  pub cmd_duty_cycle : Machine W H → Cmd W → Machine W H
  cmd_duty_cycle m cmd =
      let duty =
        d.trunc (clamp cmd.num (d.of_int m.conf.pwm_min_duty) (d.of_int m.conf.pwm_max_duty)) in
      let m1 = record m { duty_cycle = duty } in
      if Outputs.get (m.base.outputs) fan then fan_speed m1 duty else m1

  -- one output by hand; a fan that is switched on at no speed gets one
  pub set_by_hand : Machine W H → Output → Bool → W → W → Machine W H
  set_by_hand m o on until now =
      let blow = output_eq o fan && on && m.conf.dc_fan && not (is_pos m.base.outputs.fan_pct) in
      let m1 =
        if blow
        then fan_speed m (if is_pos m.conf.pwm_max_duty then m.conf.pwm_max_duty else pos 100)
        else m in
      let m2 = turn m1 o on in
      record m2 {
        manual_until = λ p. if output_eq o p then until else m2.manual_until p;
        auger_on_since = if output_eq o auger && on then now else m2.auger_on_since;
      }

  -- the loop over the outputs by name
  pub by_hand : List Output → Machine W H → Cmd W → W → W → Machine W H
  unfolding set_by_hand
  by_hand [] m cmd until now = m
  by_hand (o ∷ l) m cmd until now =
      by_hand l (if str_eq cmd.str (output_name o) then set_by_hand m o cmd.flag until now else m)
        cmd until now

  pub cmd_manual_output : Machine W H → Cmd W → W → Machine W H
  unfolding by_hand
  cmd_manual_output m cmd now =
      let free = is_free m.base.mode in
      let until = until_of free now m.conf.manual_override_s in
      if mode_eq m.base.mode error || (not free && not m.conf.allow_manual)
      then m
      else if str_eq cmd.str "pwm"
      then record (fan_speed m (d.trunc cmd.num)) {
        manual_until = λ p. if output_eq fan p then until else m.manual_until p;
      }
      else by_hand (power ∷ fan ∷ auger ∷ igniter ∷ []) m cmd until now

  pub cmd_lid_toggle : Machine W H → W → Machine W H
  cmd_lid_toggle m now =
      if not (mode_eq m.base.mode hold)
      then m
      else if m.base.lid_open
      then fan_on (with_base m (record (m.base) { lid_open = false })) m.duty_cycle
      else (let m1 = record m {
        base = record (m.base) { lid_open = true };
        lid_open_until = now +ᵈ m.conf.lid_pause_s;
        lid_low_c = m.base.pit_c;
      } in
          let m2 = fan_on (turn m1 auger false) m.duty_cycle in
          record m2 {
            cycle = Cycle.stop m2.cycle;
            base = record (m2.base) { target_reached = false };
          })
