-- ===== src/Safety/Supervise.antt =====
-- src/core/safety.c, `pf_safety_tick` part 4: flame supervision in Smoke and Hold.
pub mod Outcome
use pifire_c.Common.{Bool, true, false, not, ◌&&◌, ◌||◌, ◌∷◌, Option, none, some, if◌then◌else◌}
use pifire_c.Common.Float.{Double, ◌<ᵈ◌, ◌≤ᵈ◌, ◌+ᵈ◌, ◌-ᵈ◌, ◌*ᵈ◌, ◌/ᵈ◌, nought, is_finite}
use pifire_c.Mode.{Mode, mode_eq, hold, auger, igniter, error}
use pifire_c.Outputs.{Platform}
use pifire_c.Grill.{Cfg, Safety, Control}
use pifire_c.Safety.{switch, set_error, flameout}

module _ {W : Type 0} ⦃d : Double W⦄ where
  abbrev pub lid_allow_s : W
  lid_allow_s = d.lit 300 1

module _ {W H : Type 0} ⦃d : Double W⦄ where
  abbrev pub in_hold : Control W H → Bool
  in_hold c = mode_eq c.mode hold

  -- the working temperature
  abbrev pub work : Control W H → W
  work c = if in_hold c then c.setpoint_c else c.cfg.smoke_min_c

  abbrev pub paused : Control W H → W → Bool
  paused c now =
      c.lid_open || (c.lid_event && (now -ᵈ c.lid_event_t) <ᵈ lid_allow_s) || c.autotune_active

  -- a set point lowered below the pit starts a coast
  abbrev pub lowered : Control W H → Bool
  lowered c =
      in_hold c
      && nought <ᵈ c.safety.last_sp_c
      && nought <ᵈ c.setpoint_c
      && c.setpoint_c <ᵈ (c.safety.last_sp_c -ᵈ d.lit 1 100)
      && c.setpoint_c <ᵈ c.pit_c

  unfoldable pub note_setpoint : Control W H → Control W H
  note_setpoint c = record c {
    safety = record (c.safety) {
      stepdown_armed = if lowered c then true else c.safety.stepdown_armed;
      last_sp_c = if in_hold c then c.setpoint_c else nought;
      reached = if not (in_hold c) && work c ≤ᵈ c.pit_c then true else c.safety.reached;
    };
  }

  -- the climb clock stands still
  unfoldable pub stand_still : Control W H → W → Control W H
  stand_still c now = record c {
    safety = record (c.safety) { progress_c = c.pit_c; progress_t = now; fall_since = nought };
  }

  -- the pit that the fire is judged on
  abbrev pub judged_pit : Control W H → W
  judged_pit c = if is_finite c.safety.fire_c then c.safety.fire_c else c.pit_c

  unfoldable pub note_peak : Control W H → Control W H
  note_peak c = record c {
    safety = record (c.safety) {
      peak_c =
          if d.is_nan c.safety.peak_c || c.safety.peak_c <ᵈ judged_pit c
          then judged_pit c
          else c.safety.peak_c;
    };
  }

  abbrev pub reference : Control W H → W
  reference c =
      if (if in_hold c then c.target_reached else c.safety.reached)
      then work c
      else d.fmin c.safety.peak_c (work c)

  abbrev pub finite_ambient : Control W H → W
  finite_ambient c = if is_finite c.ambient_c then c.ambient_c else d.lit 20 1

  abbrev pub drop : Control W H → W
  drop c = d.fmax c.cfg.relight_drop_c (d.lit 6 100 *ᵈ (reference c -ᵈ finite_ambient c))

  abbrev pub fallen : Control W H → Bool
  fallen c = judged_pit c ≤ᵈ (reference c -ᵈ drop c)

  unfoldable pub set_fall : Control W H → W → Control W H
  set_fall c t = record c { safety = record (c.safety) { fall_since = t } }

  -- heating ends at the working temperature, and `exit_rise` past the handover the fire is established
  unfoldable pub note_gain : Control W H → Control W H
  note_gain c = record c {
    safety = record (c.safety) {
      heating = if c.safety.heating && work c ≤ᵈ c.pit_c then false else c.safety.heating;
      established =
          if not c.safety.established && (c.safety.handover_c +ᵈ c.cfg.ss_exit_rise_c) ≤ᵈ c.pit_c
          then true
          else c.safety.established;
    };
  }

  abbrev pub gained : Control W H → Bool
  gained c =
      (work c -ᵈ c.cfg.relight_drop_c /ᵈ d.lit 2 1) ≤ᵈ c.pit_c
      || (c.safety.progress_c +ᵈ c.cfg.ss_prove_rise_c) ≤ᵈ c.pit_c

  unfoldable pub restart_clock : Control W H → W → Control W H
  restart_clock c now = record c {
    safety = record (c.safety) { progress_c = c.pit_c; progress_t = now };
  }

  -- "not heating", said once for each stall
  unfoldable pub say_stall : Control W H → Control W H
  say_stall c = if c.safety.stall_said then c else record c {
    safety = record (c.safety) { stall_said = true };
    events = "W10_NOT_HEATING" ∷ c.events;
  }

module _ {W H : Type 0} ⦃d : Double W⦄ ⦃ops : Platform H⦄ where
  -- the climb: the pit must gain `prove_rise` in every `prove_s` below the working temperature
  unfoldable pub climb : Control W H → W → Control W H × Option Mode
  climb c now =
      if gained c
      then (
        restart_clock (record c { safety = record (c.safety) { stall_said = false } }) now,
        none,
      )
      else if c.cfg.ss_prove_s <ᵈ (now -ᵈ c.safety.progress_t)
      then (if c.safety.established
          then (restart_clock (say_stall c) now, none)
          else (set_error (switch c auger false) "E04_STARTUP_FAILED", some error))
      else (c, none)

  -- the fall: a drop that stands for `relight_confirm_s` is a flame-out
  unfoldable pub judge : Control W H → W → Control W H × Option Mode
  judge c0 now =
      let c = note_peak c0 in
      if fallen c
      then (if c.safety.fall_since ≤ᵈ nought
          then climb (note_gain (set_fall c now)) now
          else if c.cfg.relight_confirm_s ≤ᵈ (now -ᵈ c.safety.fall_since)
          then (let (c', m) = flameout (set_fall c nought) in (c', some m))
          else climb (note_gain c) now)
      else climb (note_gain (set_fall c nought)) now

  -- the end of a coast: the pit has come down to the working temperature
  unfoldable pub end_coast : Control W H → W → Control W H
  end_coast c now =
      if c.safety.stepdown_armed && c.pit_c ≤ᵈ work c
      then (let proves = nought <ᵈ c.cfg.relight_prove_s && not c.safety.igniter_locked_out in
          record c {
            safety = record (c.safety) {
              stepdown_armed = false;
              reached = if in_hold c then c.safety.reached else true;
              peak_c = c.pit_c;
              proving = if proves then true else c.safety.proving;
              prove_until = if proves then now +ᵈ c.cfg.relight_prove_s else c.safety.prove_until;
            };
          })
      else c

  -- the igniter runs while the fire is proven after a coast
  unfoldable pub prove_fire : Control W H → W → Control W H
  prove_fire c now =
      if c.safety.proving
      then (if c.safety.prove_until ≤ᵈ now || c.safety.igniter_locked_out
          then switch (record c { safety = record (c.safety) { proving = false } }) igniter false
          else switch c igniter true)
      else c

  -- what the fall and the climb decided, or the coast and the proof after them
  unfoldable pub finish_run : Control W H × Option Mode → W → Control W H × Option Mode
  finish_run (c, some m) now = (c, some m)
  finish_run (c, none) now = (prove_fire (end_coast c now) now, none)

  unfoldable pub supervise : Control W H → W → Control W H × Option Mode
  supervise c0 now =
      let c = note_setpoint c0 in
      if paused c now || c.safety.stepdown_armed
      then finish_run (stand_still c now, none) now
      else finish_run (judge c now) now
