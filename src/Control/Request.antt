-- ===== src/Control/Request.antt =====
-- src/core/control.c: what a request for a mode becomes. A controller is reset where there is one.
pub mod Lights
use pifire_c.Common.{Bool, true, false, not, ◌&&◌, ◌||◌, if◌then◌else◌}
use pifire_c.Common.Float.{Double, ◌<ᵈ◌, ◌≤ᵈ◌, nought}
use pifire_c.Mode.{
  Mode, stop, monitor, prime, startup, reignite, smoke, hold, shutdown, manual, error, mode_eq,
}
use pifire_c.Outputs.{Platform}
use pifire_c.Control.{Machine, Parts, with_base}
use pifire_c.Control.Enter.{enter_mode, is_lighting}
use pifire_c.Control.Recipe.{finish_now, is_idle, with_recipe}

-- the modes from which the outputs may be put in somebody's hands
abbrev pub is_cold : Mode → Bool
is_cold stop = true
is_cold monitor = true
is_cold _ = false

abbrev pub is_run : Mode → Bool
is_run smoke = true
is_run hold = true
is_run _ = false

-- what may never be asked for, and what only from a cold grill
abbrev pub is_refused : Mode → Mode → Bool
is_refused reignite from = true
is_refused error from = true
is_refused prime from = not (is_cold from)
is_refused manual from = not (is_cold from)
is_refused _ from = false

module _ {W H : Type 0} ⦃d : Double W⦄ where
  -- `pf_control_request`
  pub request : Machine W H → Mode → W → Machine W H
  request m to sp = record m { req_pending = true; req_mode = to; req_setpoint_c = sp }

  -- the request is taken, with its set point if it has one
  abbrev pub taken : Machine W H → Machine W H
  taken m = record m {
    req_pending = false;
    base = record (m.base) {
      setpoint_c = if nought <ᵈ m.req_setpoint_c then m.req_setpoint_c else m.base.setpoint_c;
    };
  }

  -- what a Stop clears first
  pub clear_for_stop : Machine W H → Machine W H
  clear_for_stop m = record m {
    base = record (m.base) { safety = record (m.base.safety) { error_code = "" } };
    recipe = record (m.recipe) { active = false };
  }

  -- a Hold with no set point takes that of the settings
  pub hold_setpoint : Machine W H → Mode → Machine W H
  hold_setpoint m to =
      if mode_eq to hold && m.base.setpoint_c ≤ᵈ nought
      then with_base m (record (m.base) { setpoint_c = m.conf.after_startup_setpoint_c })
      else m

  -- a Startup that was asked for goes on to the mode of the settings
  pub plan_startup : Machine W H → Mode → Machine W H
  plan_startup m to =
      if mode_eq to startup
      then record m {
        next_mode = m.conf.after_startup_mode;
        base = record (m.base) {
          setpoint_c =
              if mode_eq m.conf.after_startup_mode hold && m.req_setpoint_c ≤ᵈ nought
              then m.conf.after_startup_setpoint_c
              else m.base.setpoint_c;
        };
      }
      else m

  -- a new set point for the Hold that runs
  pub new_setpoint : Machine W H → Machine W H
  new_setpoint m = record m {
    base = record (m.base) { target_reached = false };
    ctrl_reset_needed = m.has_controller || m.ctrl_reset_needed;
  }

  -- chosen while lighting: where the light finishes
  pub keep_for_later : Machine W H → Mode → Machine W H
  keep_for_later m to =
      if mode_eq m.base.mode reignite
      then with_base m (record (m.base) { safety = record (m.base.safety) { reignite_last = to } })
      else record m { next_mode = to }

module _ {W H : Type 0} ⦃d : Double W⦄ ⦃ops : Platform H⦄ where
  -- once the request is not refused
  pub grant : Parts W → Machine W H → Mode → W → Machine W H
  unfolding hold_setpoint plan_startup new_setpoint keep_for_later
  grant parts m to now =
      let m1 = plan_startup (hold_setpoint m to) to in
      if mode_eq to startup && nought <ᵈ m.conf.prime_on_startup_g && is_cold m.base.mode
      then enter_mode parts
          (record m1 { prime_amount_g = m.conf.prime_on_startup_g; next_mode = startup }) prime now
      else if is_run to && is_idle m.base.mode
      then enter_mode parts (record m1 { next_mode = to }) startup now
      else if mode_eq to hold && mode_eq m.base.mode hold
      then new_setpoint m1
      else if is_lighting m.base.mode && is_run to
      then keep_for_later m1 to
      else enter_mode parts m1 to now

  pub answer_request : Parts W → Machine W H → Mode → W → Machine W H
  unfolding grant clear_for_stop
  answer_request parts m to now =
      if mode_eq m.base.mode error && not (mode_eq to stop)
      then m
      else if is_refused to m.base.mode
      then m
      else if mode_eq to shutdown && m.recipe.active
      then finish_now parts m now
      else grant parts (if mode_eq to stop then clear_for_stop m else m) to now

  unfoldable pub apply_request : Parts W → Machine W H → W → Machine W H
  unfolding answer_request
  apply_request parts m now =
      if not m.req_pending then m else answer_request parts (taken m) m.req_mode now
