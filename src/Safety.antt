-- ===== src/Safety.antt =====
-- src/core/safety.c: the start of a light and its end, flame-out, and what a tick does in each mode.
-- Log lines, rows of the events table and the wording of messages are left out.
pub mod Start
pub mod Light
pub mod Supervise
pub mod Tick
pub mod Switch
pub mod Relights
mod Tests
use pifire_c.Common.{Bool, true, false, not, ◌∷◌, ◌||◌, Option, none, some, if◌then◌else◌}
use pifire_c.Common.Int.{is_pos, pred}
use pifire_c.Common.Float.{Double, ◌≤ᵈ◌, ◌+ᵈ◌}
use pifire_c.Mode.{Mode, Output, igniter, error, reignite, stop}
use pifire_c.Outputs
use pifire_c.Outputs.{Platform}
use pifire_c.Grill.{Cfg, Safety, Control}
use Prim.Native.String.{String}

module _ {W H : Type 0} ⦃d : Double W⦄ ⦃ops : Platform H⦄ where
  -- `pf_outputs_set` on the relays of the grill, whose status the safety code does not read
  abbrev pub switch : Control W H → Output → Bool → Control W H
  switch c o on = record c { outputs = (Outputs.set (c.outputs) o on).1 }

  -- `pf_safety_set_error`
  abbrev pub set_error : Control W H → String → Control W H
  set_error c code = record c {
    safety = record (c.safety) { error_code = code };
    events = code ∷ c.events;
  }

  -- `flameout`
  unfoldable pub flameout : Control W H → Control W H × Mode
  flameout c =
      let c1 = switch (record c { safety = record (c.safety) { proving = false } }) igniter false in
      if not c.cfg.relight_enabled || not (is_pos c.safety.reignite_retries_left)
      then (set_error c1 "E02_FLAMEOUT", error)
      else (
        record c1 {
          safety = record (c1.safety) {
            reignite_retries_left = pred c1.safety.reignite_retries_left;
            reignite_last = c1.mode;
          };
        },
        reignite,
      )
