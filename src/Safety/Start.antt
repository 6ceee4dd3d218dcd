-- ===== src/Safety/Start.antt =====
-- src/core/safety.c: `pf_safety_reset`, and what entering and leaving a light set up.
pub mod Kept
use pifire_c.Common.{Bool, true, false, not, ◌&&◌, ◌||◌, if◌then◌else◌}
use pifire_c.Common.Int.{ℤ, pos}
use pifire_c.Common.Float.{Double, ◌<ᵈ◌, ◌≤ᵈ◌, ◌+ᵈ◌, nought}
use pifire_c.Mode.{Mode, mode_eq, stop, startup, reignite, hold}
use pifire_c.Grill.{Cfg, Safety, Control}

module _ {W : Type 0} ⦃d : Double W⦄ where
  -- what `memset` leaves: zero, false and the first mode
  abbrev pub zeroed : Safety W
  zeroed = record {
    ss_active = false;
    ss_proven = false;
    ss_baseline_c = nought;
    ss_deadline = nought;
    ss_above_since = nought;
    ss_start = nought;
    ss_entry_c = nought;
    ss_held = false;
    ss_flat_c = nought;
    ss_flat_t = nought;
    filt_c = nought;
    fire_c = nought;
    fall_since = nought;
    jump_ref_c = nought;
    jump_ref_t = nought;
    jump_said_t = nought;
    peak_c = nought;
    heating = false;
    handover_c = nought;
    established = false;
    progress_c = nought;
    progress_t = nought;
    stepdown_armed = false;
    proving = false;
    reached = false;
    stall_said = false;
    prove_until = nought;
    last_sp_c = nought;
    reignite_retries_left = pos 0;
    reignite_last = stop;
    primary_invalid_since = nought;
    igniter_on_since = nought;
    igniter_locked_out = false;
    ctrl_fault_count = pos 0;
    error_fan_until = nought;
    error_pit_c = nought;
    stop_overtemp_said = false;
    error_code = "";
  }

module _ {W H : Type 0} ⦃d : Double W⦄ where
  unfoldable pub reset : Control W H → Control W H
  reset c = record c {
    safety = record (zeroed) {
      reignite_retries_left = c.cfg.reignite_retries;
      ss_baseline_c = d.nan;
      filt_c = d.nan;
      fire_c = d.nan;
      fall_since = nought;
      peak_c = d.nan;
    };
  }

  -- the pit as it can be read, NaN where it cannot
  abbrev pub pit_or_nan : Control W H → W
  pit_or_nan c = if c.pit_valid then c.pit_c else d.nan

  unfoldable pub on_startup_enter : Control W H → W → Control W H
  on_startup_enter c now = record c {
    safety = record (c.safety) {
      igniter_on_since = nought;
      igniter_locked_out = false;
      ss_active = true;
      ss_proven = false;
      ss_above_since = nought;
      filt_c = pit_or_nan c;
      ss_baseline_c = pit_or_nan c;
      ss_deadline = now +ᵈ c.cfg.ss_prove_s;
      ss_start = now;
      ss_entry_c = pit_or_nan c;
      ss_held = false;
      ss_flat_t = nought;
      peak_c = d.nan;
      heating = false;
      proving = false;
      stepdown_armed = false;
    };
  }

  unfoldable pub on_startup_exit : Control W H → W → Control W H
  on_startup_exit c now = record c {
    safety = record (c.safety) {
      ss_active = false;
      heating = true;
      established = false;
      peak_c = pit_or_nan c;
      progress_c = pit_or_nan c;
      progress_t = now;
      handover_c = pit_or_nan c;
    };
  }

  unfoldable pub startup_done : Control W H → Bool
  startup_done c =
      if not s.ss_active || not s.ss_proven
      then false
      else s.ss_held || (s.ss_baseline_c +ᵈ c.cfg.ss_exit_rise_c) ≤ᵈ s.filt_c
    where
      open c use {safety as s}

  unfoldable pub on_run_enter : Control W H → Mode → W → Control W H
  on_run_enter c prev now =
      let s = c.safety in
      let work = if mode_eq c.mode hold then c.setpoint_c else c.cfg.smoke_min_c in
      record c {
        safety = record (s) {
          peak_c = if d.is_nan s.peak_c && c.pit_valid then c.pit_c else s.peak_c;
          progress_c = if c.pit_valid then c.pit_c else s.progress_c;
          progress_t = if c.pit_valid then now else s.progress_t;
          established =
              if not (mode_eq prev startup) && not (mode_eq prev reignite)
              then true
              else s.established;
          reached = false;
          stall_said = false;
          stepdown_armed = c.pit_valid && nought <ᵈ work && work <ᵈ c.pit_c;
        };
      }
