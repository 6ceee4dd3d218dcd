-- ===== src/Control/Command.antt =====
-- src/core/control.c, `handle_cmd`: the commands that the control thread answers itself. Those that it
-- hands to another component (settings, probes, notifications, timers, learning, the start of a tuning
-- run) are the parameter `elsewhere`.
pub mod Hand
pub mod Stopped
use pifire_c.Common.{
  ℕ, zero, suc, ◌+◌, ◌-◌, ◌*◌, ◌%◌, ◌^◌, Bool, true, false, not, ◌&&◌, ◌||◌, List, [], ◌∷◌, Option,
  none, some, length, ltb, ◌==◌, if◌then◌else◌,
}
use pifire_c.Common.Int.{ℤ, pos, negsuc, is_pos}
use pifire_c.Common.Float.{Double, ◌<ᵈ◌, ◌≤ᵈ◌, ◌+ᵈ◌, ◌-ᵈ◌, ◌*ᵈ◌, ◌/ᵈ◌, nought, clamp}
use pifire_c.Mode.{
  Mode, stop, monitor, prime, startup, reignite, smoke, hold, shutdown, manual, error, mode_eq,
  bytes, same_nocase, Units, fahrenheit, celsius, Output, power, fan, auger, igniter, output_eq,
}
use pifire_c.Outputs
use pifire_c.Outputs.{Platform}
use pifire_c.Cycle
use pifire_c.CmdQueue.{Cmd, CmdType}
use pifire_c.Safety.Start
use pifire_c.Safety.Start.{pit_or_nan}
use pifire_c.Control.{Machine, Parts, RecipeRun, RecipeStep, with_base, turn, fan_speed}
use pifire_c.Control.Enter.{enter_mode, fan_on, is_lighting, autotune_failed}
use pifire_c.Control.Recipe.{begin_step, advance, set_flag, with_recipe}
use pifire_c.Control.Request.{request, is_run, is_cold}
use text.Mathlib.Text.{◌==◌ as str_eq}
use Prim.Native.String.{String}
use pifire_c.Control.Command.Hand.{cmd_duty_cycle, cmd_manual_output, cmd_lid_toggle}

-- `(unsigned char)` of a number that is not negative
abbrev pub to_byte : ℤ → ℕ
to_byte (pos n) = n % 256
to_byte (negsuc n) = 255 - n % 256

-- a step of the recipe, if the number names one that has a flag
abbrev pub flag_index : ℤ → ℕ → Option ℕ
flag_index (negsuc n) steps = none
flag_index (pos n) steps = if ltb n steps && ltb n 16 then some n else none

module _ {W : Type 0} ⦃d : Double W⦄ where
  -- `pf_to_c`
  abbrev pub to_c : W → Units → W
  to_c v celsius = v
  to_c v fahrenheit = (v -ᵈ d.lit 32 1) *ᵈ d.lit 5 1 /ᵈ d.lit 9 1

module _ {W H : Type 0} ⦃d : Double W⦄ ⦃ops : Platform H⦄ where
  pub cmd_stop : Parts W → Machine W H → W → Machine W H
  cmd_stop parts m now =
      let m1 = enter_mode parts m stop now in
      record m1 {
        recipe = record (m1.recipe) { active = false };
        req_pending = false;
        base = record (m1.base) { safety = record (m1.base.safety) { error_code = "" } };
      }

  -- the set point of a forced end of startup
  abbrev pub forced_setpoint : Machine W H → Cmd W → W
  forced_setpoint m cmd =
      let sp = if nought <ᵈ cmd.num then to_c cmd.num m.conf.units else m.base.setpoint_c in
      if mode_eq cmd.mode hold && sp ≤ᵈ nought then m.conf.after_startup_setpoint_c else sp

  pub cmd_mode : Parts W → Machine W H → Cmd W → W → Machine W H
  cmd_mode parts m cmd now =
      if cmd.flag && is_lighting m.base.mode && is_run cmd.mode
      then (let m1 =
            with_base m (
              Start.on_startup_exit (record (m.base) { setpoint_c = forced_setpoint m cmd }) now) in
          enter_mode parts (record m1 { s_plus = m.s_plus || m.conf.splus_default }) cmd.mode now)
      else request m cmd.mode (if nought <ᵈ cmd.num then to_c cmd.num m.conf.units else nought)

  -- where the light finishes, if there is one
  abbrev pub aim_light : Machine W H → Machine W H
  aim_light m =
      if mode_eq m.base.mode startup
      then record m { next_mode = hold }
      else if mode_eq m.base.mode reignite
      then with_base m
          (record (m.base) { safety = record (m.base.safety) { reignite_last = hold } })
      else m

  pub cmd_setpoint : Machine W H → Cmd W → W → Machine W H
  cmd_setpoint m cmd now =
      if nought <ᵈ cmd.num
      then (let m1 =
            aim_light (with_base m (record (m.base) { setpoint_c = to_c cmd.num m.conf.units })) in
          let m2 = record m1 {
            base = record (m1.base) { target_reached = false };
            aim_since = now;
            aim_pit_c = pit_or_nan (m1.base);
          } in
          if mode_eq m.base.mode hold
          then record m2 { ctrl_reset_needed = true }
          else if mode_eq m.base.mode smoke
          then request m2 hold m2.base.setpoint_c
          else m2)
      else m

  pub cmd_prime : Parts W → Machine W H → Cmd W → W → Machine W H
  cmd_prime parts m cmd now =
      let lights = same_nocase (bytes cmd.str) (bytes "Startup") in
      let m1 = record m {
        prime_amount_g = cmd.num;
        next_mode = if lights then startup else stop;
      } in
      if is_cold m.base.mode then enter_mode parts m1 prime now else m1

  pub cmd_recipe_start : Parts W → Machine W H → Cmd W → W → Machine W H
  cmd_recipe_start parts m cmd now =
      if mode_eq m.base.mode error then m else (elim (parts.recipe_steps cmd.num) [
        | none ↦ m
        | some steps ↦
            begin_step parts
              (with_recipe m (record (m.recipe) {
                steps = steps;
                active = true;
                step = 0;
                flags = λ i. 0;
                left_running = false;
              }))
              now
      ])

  pub cmd_recipe_next : Machine W H → Machine W H
  cmd_recipe_next m =
      let r = m.recipe in
      if not r.active
      then m
      else with_recipe m (record (r) {
        prompt_given = true;
        last_eval = nought;
        flags = if ltb r.step 16 && r.flags r.step == 1 then set_flag r.flags r.step 0 else r.flags;
      })

  pub cmd_recipe_flag : Machine W H → Cmd W → Machine W H
  cmd_recipe_flag m cmd = elim (flag_index (d.trunc cmd.num) (length m.recipe.steps)) [
    | none ↦ m
    | some i ↦
        if m.recipe.active
        then with_recipe m
            (record (m.recipe) { flags = set_flag m.recipe.flags i (to_byte (d.trunc cmd.num2)) })
        else m
  ]

  pub cmd_recipe_back : Parts W → Machine W H → W → Machine W H
  cmd_recipe_back parts m now =
      if m.recipe.active && ltb 0 m.recipe.step
      then begin_step parts (with_recipe m (record (m.recipe) { step = m.recipe.step - 1 })) now
      else m

  -- The commands of other components are the parameter.
  module _ (elsewhere : Machine W H → Cmd W → Machine W H) where
    pub handle_type : CmdType → Parts W → Machine W H → Cmd W → W → Machine W H
    unfolding cmd_stop cmd_mode cmd_setpoint cmd_prime cmd_recipe_start cmd_recipe_next
        cmd_recipe_flag cmd_recipe_back
    handle_type CmdType.stop_cmd parts m cmd now = cmd_stop parts m now
    handle_type CmdType.mode parts m cmd now = cmd_mode parts m cmd now
    handle_type CmdType.setpoint parts m cmd now = cmd_setpoint m cmd now
    handle_type CmdType.smoke_plus parts m cmd now = record m { s_plus = cmd.flag }
    handle_type CmdType.pwm_control parts m cmd now = record m { pwm_control = cmd.flag }
    handle_type CmdType.duty_cycle parts m cmd now = cmd_duty_cycle m cmd
    handle_type CmdType.manual_output parts m cmd now = cmd_manual_output m cmd now
    handle_type CmdType.lid_toggle parts m cmd now = cmd_lid_toggle m now
    handle_type CmdType.prime parts m cmd now = cmd_prime parts m cmd now
    handle_type CmdType.clear_error parts m cmd now =
        if mode_eq m.base.mode error then enter_mode parts m stop now else m
    handle_type CmdType.recipe_start parts m cmd now = cmd_recipe_start parts m cmd now
    handle_type CmdType.recipe_next parts m cmd now = cmd_recipe_next m
    handle_type CmdType.recipe_skip parts m cmd now =
        if m.recipe.active then advance parts m now else m
    handle_type CmdType.recipe_flag parts m cmd now = cmd_recipe_flag m cmd
    handle_type CmdType.recipe_back parts m cmd now = cmd_recipe_back parts m now
    handle_type CmdType.recipe_stop parts m cmd now =
        with_recipe m (record (m.recipe) { active = false })
    handle_type CmdType.autotune_stop parts m cmd now =
        if m.base.autotune_active then autotune_failed m else m
    handle_type _ parts m cmd now = elsewhere m cmd

    pub handle_cmd : Parts W → Machine W H → Cmd W → W → Machine W H
    unfolding handle_type
    handle_cmd parts m cmd now = handle_type cmd.type parts m cmd now
