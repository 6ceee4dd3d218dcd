-- ===== src/Control/Run.antt =====
-- src/core/control.c, `run_mode`: what a turn of the thread does in the mode that it is in.
pub mod Hold
pub mod Feed
pub mod Fan
pub mod Lid
pub mod Timed
pub mod Keeps
pub mod Kept
pub mod Moves
pub mod Cap
use pifire_c.Common.{◌||◌, if◌then◌else◌}
use pifire_c.Common.Float.{Double}
use pifire_c.Mode.{mode_eq, smoke, hold}
use pifire_c.Outputs.{Platform}
use pifire_c.Control.{Machine, Parts}
use pifire_c.Control.Run.Feed.{run_auger}
use pifire_c.Control.Run.Fan.{fan_logic}
use pifire_c.Control.Run.Lid.{watch_lid}
use pifire_c.Control.Run.Timed.{expire_manual, end_mode}

module _ {W H : Type 0} ⦃d : Double W⦄ ⦃ops : Platform H⦄ where
  -- the fan, in the modes that have a logic for it
  unfoldable pub run_fan : Machine W H → W → Machine W H
  run_fan m now =
      if mode_eq m.base.mode smoke || mode_eq m.base.mode hold then fan_logic m now else m

  -- all but the end of the mode
  unfoldable pub run_outputs : Parts W → Machine W H → W → Machine W H
  unfolding run_fan
  run_outputs parts m now = expire_manual (run_fan (run_auger parts (watch_lid m now) now) now) now

  unfoldable pub run_mode : Parts W → Machine W H → W → Machine W H
  unfolding run_outputs
  run_mode parts m now = let m1 = run_outputs parts m now in end_mode m1.base.mode parts m1 now
