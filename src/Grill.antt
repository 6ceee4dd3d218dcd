-- ===== src/Grill.antt =====
-- src/core/control.h: the state that the control thread owns, `pf_cfg`, `pf_safety` and `pf_control`,
-- with the fields that the modelled functions read or write. Temperatures and times are doubles,
-- any type `W` with their operations. The relays (static in outputs.c) stand in the same record.
use pifire_c.Common.{Bool, List}
use pifire_c.Common.Int.{ℤ}
use pifire_c.Mode.{Mode}
use pifire_c.Outputs.{Outputs}
use Prim.Native.String.{String}

-- `pf_cfg`
pub record Cfg (W : Type 0) : Type 0 where
  pub max_temp_c : W
  pub igniter_max_on_s : W
  pub probe_fault_s : W
  pub ss_prove_s : W
  pub ss_prove_rise_c : W
  pub ss_exit_rise_c : W
  pub smoke_min_c : W
  pub relight_enabled : Bool
  pub reignite_retries : ℤ
  pub relight_drop_c : W
  pub relight_prove_s : W
  pub relight_confirm_s : W

-- `pf_safety`; the wording of `error_msg` is left out
pub record Safety (W : Type 0) : Type 0 where
  pub ss_active : Bool
  pub ss_proven : Bool
  pub ss_baseline_c : W
  pub ss_deadline : W
  pub ss_above_since : W
  pub ss_start : W
  pub ss_entry_c : W
  pub ss_held : Bool
  pub ss_flat_c : W
  pub ss_flat_t : W
  pub filt_c : W
  pub fire_c : W
  pub fall_since : W
  pub jump_ref_c : W
  pub jump_ref_t : W
  pub jump_said_t : W
  pub peak_c : W
  pub heating : Bool
  pub handover_c : W
  pub established : Bool
  pub progress_c : W
  pub progress_t : W
  pub stepdown_armed : Bool
  pub proving : Bool
  pub reached : Bool
  pub stall_said : Bool
  pub prove_until : W
  pub last_sp_c : W
  pub reignite_retries_left : ℤ
  pub reignite_last : Mode
  pub primary_invalid_since : W
  pub igniter_on_since : W
  pub igniter_locked_out : Bool
  pub ctrl_fault_count : ℤ
  pub error_fan_until : W
  pub error_pit_c : W
  pub stop_overtemp_said : Bool
  pub error_code : String

-- `pf_control`; `events` holds the codes that `pf_events_emit` was given, the newest first
pub record Control (W H : Type 0) : Type 0 where
  pub cfg : Cfg W
  pub mode : Mode
  pub setpoint_c : W
  pub pit_c : W
  pub pit_valid : Bool
  pub ambient_c : W
  pub last_step : W
  pub lid_open : Bool
  pub lid_event : Bool
  pub lid_event_t : W
  pub autotune_active : Bool
  pub target_reached : Bool
  pub safety : Safety W
  pub outputs : Outputs H
  pub events : List String
