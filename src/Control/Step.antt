-- ===== src/Control/Step.antt =====
-- src/core/control.c, `pf_control_step`: a turn of the control thread. What the probes, the
-- notifications and learning do in a turn, and what the condition of a recipe's step says, is the
-- parameter `Others`;
-- publishing and the checkpoint only read the state.
pub mod Overheat
use pifire_c.Common.{
  Bool, true, false, not, ◌&&◌, ◌||◌, List, [], ◌∷◌, Option, none, some, if◌then◌else◌,
}
use pifire_c.Common.Float.{Double, ◌<ᵈ◌, ◌-ᵈ◌, ◌*ᵈ◌, ◌/ᵈ◌, ◌==ᵈ◌, nought, clamp}
use pifire_c.Mode.{Mode, stop, reignite, smoke, hold, shutdown, error, mode_eq, is_firing}
use pifire_c.Outputs
use pifire_c.Outputs.{Platform, Input}
use pifire_c.CmdQueue.{Cmd}
use pifire_c.Grill.{Control}
use pifire_c.Safety.Tick.{tick}
use pifire_c.Control.{Machine, Parts, with_base, emit}
use pifire_c.Control.Enter.{enter_mode}
use pifire_c.Control.Command.{handle_cmd}
use pifire_c.Control.Recipe.{finish_now}
use pifire_c.Control.Recipe.Follow.{Ending, follow_recipe, aftercare}
use pifire_c.Control.Request.{apply_request, is_run}
use pifire_c.Control.Run.{run_mode}
use Prim.Native.String.{String}
use pifire_c.Notify.{After, after_none, after_shutdown, after_keepwarm}

pub record Others (W H : Type 0) : Type 0 where
  pub elsewhere : Machine W H → Cmd W → Machine W H
  pub read_sensors : Machine W H → Machine W H
  pub notify : Machine W H → W → Machine W H
  pub pending_action : Machine W H → After
  pub ending : Machine W H → Ending W
  pub learn : Machine W H → W → Machine W H

module _ {W H : Type 0} ⦃d : Double W⦄ where
  -- a fire in a grill that has been stopped is told about once
  unfoldable pub note_idle_overtemp : Machine W H → Machine W H
  note_idle_overtemp m =
      let c = m.base in
      if not ((mode_eq c.mode stop || mode_eq c.mode error) && c.pit_valid)
      then m
      else if c.cfg.max_temp_c <ᵈ c.pit_c && not c.safety.stop_overtemp_said
      then record m {
        base = record (c) {
          safety = record (c.safety) { stop_overtemp_said = true };
          events = "E01_OVERTEMP_IDLE" ∷ c.events;
        };
      }
      else if c.pit_c <ᵈ (c.cfg.max_temp_c -ᵈ d.lit 20 1 *ᵈ d.lit 5 1 /ᵈ d.lit 9 1)
      then record m {
        base = record (c) { safety = record (c.safety) { stop_overtemp_said = false } };
      }
      else m

  -- the set point stays within what the grill accepts
  unfoldable pub hold_setpoint_in : Machine W H → Machine W H
  hold_setpoint_in m =
      let sp = clamp m.base.setpoint_c m.conf.min_target_c m.conf.max_target_c in
      if nought <ᵈ m.base.setpoint_c && d.lit 1 100 <ᵈ d.fabs (sp -ᵈ m.base.setpoint_c)
      then record m { base = record (m.base) { setpoint_c = sp } }
      else m

module _ {W H : Type 0} ⦃d : Double W⦄ ⦃ops : Platform H⦄ where
  -- the commands that the queue gives, one by one
  unfoldable pub handle_all : Others W H → Parts W → Machine W H → List (Cmd W) → W → Machine W H
  handle_all o parts m [] now = m
  handle_all o parts m (cmd ∷ l) now =
      handle_all o parts (handle_cmd o.elsewhere parts m cmd now) l now

  -- the rest of `run_notify`: the fire is put out, or the food kept warm
  pub take_action : Parts W → Machine W H → After → W → Machine W H
  take_action parts m after_none now = m
  take_action parts m after_shutdown now =
      if is_firing m.base.mode
      then (if m.recipe.active then finish_now parts m now else enter_mode parts m shutdown now)
      else m
  take_action parts m after_keepwarm now =
      let m1 = record m {
        base = record (m.base) { setpoint_c = m.conf.keepwarm_c; target_reached = false };
        s_plus = m.conf.keepwarm_splus;
      } in
      if not (is_run m.base.mode)
      then m
      else if mode_eq m.base.mode hold
      then record m1 { ctrl_reset_needed = true }
      else enter_mode parts m1 hold now

  -- up to the safety tick
  unfoldable pub prepare : Others W H → Parts W → Machine W H → List (Cmd W) → W → Machine W H
  unfolding handle_all take_action note_idle_overtemp hold_setpoint_in
  prepare o parts m cmds now =
      let m1 = if m.mode_start ==ᵈ nought then record m { mode_start = now } else m in
      let m2 = apply_request parts (o.read_sensors (handle_all o parts m1 cmds now)) now in
      let m3 = hold_setpoint_in (note_idle_overtemp m2) in
      let notified = o.notify m3 now in
      let m4 = take_action parts notified (o.pending_action notified) now in
      o.learn (aftercare (follow_recipe parts m4 (o.ending m4) now)) now

  -- what the tick answers is entered
  pub enter_answer : Parts W → Machine W H → Option Mode → W → Machine W H
  enter_answer parts m none now = m
  enter_answer parts m (some error) now = enter_mode parts m error now
  enter_answer parts m (some reignite) now = enter_mode parts m reignite now
  enter_answer parts m (some _) now = m

  pub judge_safety : Parts W → Machine W H → W → Machine W H
  unfolding enter_answer
  judge_safety parts m now =
      let (c, answer) = tick (m.base) now in enter_answer parts (with_base m c) answer now

  -- the button that asks for a shutdown
  pub press_shutdown : Parts W → Machine W H → W → Machine W H
  press_shutdown parts m now =
      if Outputs.read_input (m.base.outputs) Input.shutdown_button && not (mode_eq m.base.mode stop)
      then enter_mode parts m
          (if mode_eq m.base.mode hold || mode_eq m.base.mode smoke then shutdown else stop) now
      else m

  -- from the safety tick on
  pub act : Parts W → Machine W H → W → Machine W H
  unfolding judge_safety press_shutdown
  act parts m now =
      let m1 = press_shutdown parts (run_mode parts (judge_safety parts m now) now) now in
      with_base m1 (record (m1.base) { last_step = now })

  pub step : Others W H → Parts W → Machine W H → List (Cmd W) → W → Machine W H
  unfolding prepare act
  step o parts m cmds now = act parts (prepare o parts m cmds now) now
