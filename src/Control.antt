-- ===== src/Control.antt =====
-- src/core/control.h, src/core/control.c: the control thread. `base` holds the fields of `pf_control`
-- that the safety code shares; `Conf` and `Machine` hold those that only the functions here use.
-- Left out of the state: the learning window and the countdown to the set point, which decide neither
-- an output nor a mode, what is published, and what the relay autotune measures, whose answer is in
-- `Parts`.
pub mod Enter
pub mod Recipe
pub mod Request
pub mod Command
pub mod Run
pub mod Step
mod Tests
use pifire_c.Common.{ℕ, zero, suc, Bool, true, false, List, [], ◌∷◌, Option}
use pifire_c.Common.Int.{ℤ}
use pifire_c.Common.Float.{Double}
use pifire_c.Mode.{Mode, Output, Units}
use pifire_c.Outputs
use pifire_c.Outputs.{Platform}
use pifire_c.Cycle.{Cycle, CycleCfg}
use pifire_c.Grill.{Control}
use pifire_c.Safety
use Prim.Native.String.{String}

-- the rest of `pf_cfg`; a profile is its auger time and its P-mode, from 0 to 9
pub record Conf (W : Type 0) : Type 0 where
  pub units : Units
  pub hold_cycle_s : W
  pub smoke_on_s : W
  pub smoke_off_s : W
  pub pmode : ℕ
  pub u_min : W
  pub u_max : W
  pub lid_detect : Bool
  pub lid_threshold_pct : W
  pub lid_pause_s : W
  pub lid_resume_rise_c : W
  pub fan_pid : Bool
  pub restart_hot_c : W
  pub min_target_c : W
  pub max_target_c : W
  pub allow_manual : Bool
  pub manual_override_s : W
  pub auger_max_on_s : W
  pub error_cooldown_fan_s : W
  pub prime_on_startup_g : W
  pub after_startup_mode : Mode
  pub after_startup_setpoint_c : W
  pub ss_ranges_c : List W
  pub ss_prof : List (W × ℕ)
  pub startup_pwm_duty : ℤ
  pub shutdown_s : W
  pub auto_power_off : Bool
  pub splus_default : Bool
  pub splus_max_c : W
  pub splus_on_s : W
  pub splus_off_s : W
  pub splus_duty : ℤ
  pub splus_ramp : Bool
  pub dc_fan : Bool
  pub pwm_update_s : W
  pub pwm_min_duty : ℤ
  pub pwm_max_duty : ℤ
  pub pwm_ranges_c : List W
  pub pwm_profiles : List ℤ
  pub augerrate : W
  pub keepwarm_c : W
  pub keepwarm_splus : Bool
  pub prime_ignition : Bool
  pub clear_history_on_startup : Bool

-- `pf_recipe_step`, without the condition that ends a step
pub record RecipeStep (W : Type 0) : Type 0 where
  pub mode : Mode
  pub setpoint_c : W
  pub s_plus : Bool
  pub message : String
  pub lead_s : W

-- the runner's part of the state; the condition that ends a step, its clocks and what is shown of them
-- are left out
pub record RecipeRun (W : Type 0) : Type 0 where
  pub active : Bool
  pub triggered : Bool
  pub waiting : Bool
  pub lead_fired : Bool
  pub prompt_given : Bool
  pub lid_seen : Bool
  pub flags : ℕ → ℕ
  pub said : Bool
  pub left_running : Bool
  pub step : ℕ
  pub steps : List (RecipeStep W)
  pub step_start : W
  pub at_temp_since : W
  pub last_eval : W

-- the ring of samples of the pit, of which there are twenty slots
pub record LidHist (W : Type 0) : Type 0 where
  pub t : ℕ → W
  pub c : ℕ → W
  pub n : ℕ
  pub head : ℕ
  pub last : W

-- what the thread asks of other components, beside events
pub data Ask (W : Type 0) : Type 0 where
  cookfile : W → W → W → W → Ask W
  clear_history : Ask W

pub record Machine (W H : Type 0) : Type 0 where
  pub base : Control W H
  pub conf : Conf W
  pub next_mode : Mode
  pub mode_start : W
  pub aim_since : W
  pub aim_pit_c : W
  pub req_pending : Bool
  pub req_mode : Mode
  pub req_setpoint_c : W
  pub s_plus : Bool
  pub pwm_control : Bool
  pub duty_cycle : ℤ
  pub cycle : Cycle W
  pub ccfg : CycleCfg W
  pub has_controller : Bool
  pub is_builtin : Bool
  pub u_raw : W
  pub u_applied : W
  pub saturated : ℤ
  pub ctrl_reset_needed : Bool
  pub fan_pid_active : Bool
  pub lid_open_until : W
  pub lid_low_c : W
  pub recoveries : ℕ
  pub auger_rest_until : W
  pub fan_toggle_t : W
  pub fan_update_t : W
  pub fan_ramping : Bool
  pub ramp_end_t : W
  pub manual_until : Output → W
  pub prime_duration_s : W
  pub prime_amount_g : W
  pub ss_profile : ℕ
  pub autotune_last_load : W
  pub autotune_u_center : W
  pub ambient_from_probe : Bool
  pub auger_on_since : W
  pub auger_total_on_s : W
  pub cook_start_wall : W
  pub cook_max_pit_c : W
  pub power_off_requested : Bool
  pub cooking : Bool
  pub recipe : RecipeRun W
  pub lid_hist : LidHist W
  pub asks : List (Ask W)

-- What other components answer during a turn of the thread: `pf_learning_uff` (of a set point, the
-- air outside and the bounds), the clock of the day, the last air temperature on record, what the
-- controller and the relay autotune want to feed, the events with which the autotune ends if it does,
-- whether the built-in controller can be made, and the recipe of a number.
pub record Parts (W : Type 0) : Type 0 where
  pub uff : W → W → W → W → W
  pub wall : W
  pub ambient_last : Option W
  pub controller_u : W
  pub pid_loads : Bool
  pub autotune_u : W
  pub autotune_ends : Option (List String)
  pub recipe_steps : W → Option (List (RecipeStep W))

module _ {W H : Type 0} where
  abbrev pub with_base : Machine W H → Control W H → Machine W H
  with_base m c = record m { base = c }

module _ {W H : Type 0} ⦃d : Double W⦄ ⦃ops : Platform H⦄ where
  -- `pf_outputs_set` whose status is not looked at
  abbrev pub turn : Machine W H → Output → Bool → Machine W H
  turn m o on = with_base m (Safety.switch (m.base) o on)

  -- `pf_outputs_fan_pct`, likewise
  abbrev pub fan_speed : Machine W H → ℤ → Machine W H
  fan_speed m pct =
      with_base m (record (m.base) { outputs = (Outputs.set_fan_pct (m.base.outputs) pct).1 })

  -- `pf_outputs_all_off`
  abbrev pub outputs_off : Machine W H → Machine W H
  outputs_off m = with_base m (record (m.base) { outputs = Outputs.all_off (m.base.outputs) })

  -- `pf_events_emit`
  abbrev pub emit : Machine W H → String → Machine W H
  emit m code = with_base m (record (m.base) { events = code ∷ m.base.events })
