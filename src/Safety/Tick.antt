-- ===== src/Safety/Tick.antt =====
-- src/core/safety.c, `pf_safety_tick`: the parts in their order, with the early returns. `none` is
-- the return value 0, `some` a mode that is asked for.
pub mod Switching
pub mod Probe
pub mod Outcome
use pifire_c.Common.{Bool, true, false, not, ◌&&◌, ◌||◌, Option, none, some, if◌then◌else◌}
use pifire_c.Common.Float.{Double, ◌<ᵈ◌, ◌≤ᵈ◌, ◌==ᵈ◌, ◌+ᵈ◌, ◌-ᵈ◌, ◌*ᵈ◌, ◌/ᵈ◌, nought}
use pifire_c.Mode.{Mode, mode_eq, is_firing, stop, error, startup, reignite, smoke, hold, igniter}
use pifire_c.Outputs
use pifire_c.Outputs.{Platform}
use pifire_c.Grill.{Cfg, Safety, Control}
use pifire_c.Safety.{switch, set_error}
use pifire_c.Safety.Light.{light}
use pifire_c.Safety.Supervise.{supervise}

module _ {W H : Type 0} ⦃d : Double W⦄ where
  -- 1. over-temperature
  abbrev pub too_hot : Control W H → Bool
  too_hot c =
      not (mode_eq c.mode stop)
      && not (mode_eq c.mode error)
      && c.pit_valid
      && c.cfg.max_temp_c <ᵈ c.pit_c

  -- one step of a filter with the time constant `tau`; the share is capped at 1
  abbrev pub filter_step : Control W H → W → W → W → W
  filter_step c now tau old =
      let dt = if nought <ᵈ c.last_step then now -ᵈ c.last_step else d.lit 1 10 in
      let share = if d.lit 1 1 <ᵈ (dt /ᵈ tau) then d.lit 1 1 else dt /ᵈ tau in
      if d.is_nan old then c.pit_c else old +ᵈ (c.pit_c -ᵈ old) *ᵈ share

  -- the jump diagnostic
  unfoldable pub note_jump : Control W H → W → Control W H
  note_jump c now =
      let s = c.safety in
      if not (nought <ᵈ s.jump_ref_t) || d.lit 3 1 ≤ᵈ (now -ᵈ s.jump_ref_t)
      then record c { safety = record (s) { jump_ref_c = c.pit_c; jump_ref_t = now } }
      else if d.lit 83 10 ≤ᵈ d.fabs (c.pit_c -ᵈ s.jump_ref_c)
          && d.lit 10 1 ≤ᵈ (now -ᵈ s.jump_said_t)
      then record c { safety = record (s) { jump_said_t = now } }
      else c

  -- the filtered pits; outside the modes with a fire they start again
  unfoldable pub filter_pit : Control W H → W → Control W H
  filter_pit c now =
      if is_firing c.mode
      then note_jump
          (record c {
            safety = record (c.safety) {
              filt_c = filter_step c now (d.lit 10 1) c.safety.filt_c;
              fire_c = filter_step c now (d.lit 30 1) c.safety.fire_c;
            };
          })
          now
      else record c {
        safety = record (c.safety) { fire_c = d.nan; fall_since = nought; jump_ref_t = nought };
      }

  -- what supervision keeps is dropped outside Smoke and Hold
  unfoldable pub leave_run : Control W H → Control W H
  leave_run c =
      let lighting = mode_eq c.mode startup || mode_eq c.mode reignite in
      record c {
        safety = record (c.safety) {
          last_sp_c = nought;
          stepdown_armed = false;
          proving = false;
          fall_since = nought;
          peak_c = if lighting then c.safety.peak_c else d.nan;
          heating = if lighting then c.safety.heating else false;
        };
      }

  abbrev pub running : Control W H → Bool
  running c = mode_eq c.mode smoke || mode_eq c.mode hold

  abbrev pub lighting : Control W H → Bool
  lighting c = (mode_eq c.mode startup || mode_eq c.mode reignite) && c.safety.ss_active

module _ {W H : Type 0} ⦃d : Double W⦄ ⦃ops : Platform H⦄ where
  -- 1b. the igniter cap
  unfoldable pub cap_igniter : Control W H → W → Control W H
  cap_igniter c now =
      let s = c.safety in
      if Outputs.get (c.outputs) igniter
      then (if s.igniter_locked_out
          then switch c igniter false
          else if s.igniter_on_since ==ᵈ nought
          then record c { safety = record (s) { igniter_on_since = now } }
          else if c.cfg.igniter_max_on_s <ᵈ (now -ᵈ s.igniter_on_since)
          then switch (record c { safety = record (s) { igniter_locked_out = true } }) igniter false
          else c)
      else record c { safety = record (s) { igniter_on_since = nought } }

  -- 2. no reading of the pit while a fire depends on it
  unfoldable pub no_reading : Control W H → W → Control W H × Option Mode
  no_reading c now =
      let since = c.safety.primary_invalid_since in
      if since ==ᵈ nought
      then (record c { safety = record (c.safety) { primary_invalid_since = now } }, none)
      else if c.cfg.probe_fault_s <ᵈ (now -ᵈ since)
      then (set_error c "E05_PROBE_FAULT", some error)
      else (c, none)

  -- 3. and 4., on the filtered pit
  unfoldable pub by_mode : Control W H → W → Control W H × Option Mode
  by_mode c now =
      if lighting c
      then light c now
      else if running c && c.pit_valid
      then supervise c now
      else if not (running c)
      then (leave_run c, none)
      else (c, none)

  unfoldable pub tick_reading : Control W H → W → Control W H × Option Mode
  tick_reading c now =
      if is_firing c.mode
      then (if c.pit_valid
          then by_mode
              (filter_pit
                (record c { safety = record (c.safety) { primary_invalid_since = nought } }) now)
              now
          else no_reading c now)
      else by_mode (filter_pit c now) now

  unfoldable pub tick : Control W H → W → Control W H × Option Mode
  tick c now =
      if too_hot c
      then (set_error c "E01_OVERTEMP", some error)
      else tick_reading (cap_igniter c now) now
