-- ===== src/Control/Command/Stopped.antt =====
-- src/core/control.c, `handle_cmd`: the Stop command.
use pifire_c.Common.{◌≡◌, refl, false}
use pifire_c.Common.Float.{Double}
use pifire_c.Mode.{stop, Output}
use pifire_c.Outputs.{Platform, all_off_relays}
use pifire_c.Outputs.Laws.{PlatformLaws, Wired}
use pifire_c.CmdQueue.{Cmd, CmdType}
use pifire_c.Control.{Machine, Parts}
use pifire_c.Control.Enter.Entered.{mode-enter_mode, off-enter_mode, wires-enter_mode}
use pifire_c.Control.Command.{cmd_stop, handle_type, handle_cmd}
use pifire_c.Control.Request.{apply_request}
use pifire_c.Control.Request.Lights.{apply_request_idle}

module _ {W H : Type 0} ⦃d : Double W⦄ ⦃ops : Platform H⦄ ⦃laws : PlatformLaws H⦄ where
  -- What a machine is that was stopped: each output is off as the daemon sees it, and on the device.
  abbrev pub IsStopped : Machine W H → Type 0
  IsStopped m =
      (m.base.mode ≡ stop)
      × ((o : Output) → m.base.outputs.state o ≡ false)
      × Wired m.base.outputs.device all_off_relays
      × (m.recipe.active ≡ false)
      × (m.base.safety.error_code ≡ "")

  cmd_stop-IsStopped :
      (parts : Parts W) (m : Machine W H) (now : W) → IsStopped (cmd_stop parts m now)
  unfolding cmd_stop
  cmd_stop-IsStopped parts m now = (
    mode-enter_mode parts m stop now,
    off-enter_mode parts m now,
    wires-enter_mode parts m now,
    refl,
    refl,
  )

  cmd_stop_request :
      (parts : Parts W) (m : Machine W H) (now : W) → (cmd_stop parts m now).req_pending ≡ false
  unfolding cmd_stop
  cmd_stop_request parts m now = refl

  handle_stop :
      (elsewhere : Machine W H → Cmd W → Machine W H) (t : CmdType) (parts : Parts W)
      (m : Machine W H) (cmd : Cmd W) (now : W)
      → t ≡ CmdType.stop_cmd
      → handle_type elsewhere t parts m cmd now ≡ cmd_stop parts m now
  unfolding handle_type
  handle_stop elsewhere t parts m cmd now e = rw e refl

  -- The Stop command, in any mode and on any device whose all_off lets its relays go, puts the grill in
  -- Stop with every output off, as the daemon sees it and on the device, ends the recipe and takes the
  -- error back; a request that was pending is dropped, so that the turn goes on
  -- with a grill that is stopped.
  pub stop_command :
      (elsewhere : Machine W H → Cmd W → Machine W H) (parts : Parts W) (m : Machine W H)
      (cmd : Cmd W) (now : W)
      → cmd.type ≡ CmdType.stop_cmd
      → IsStopped (apply_request parts (handle_cmd elsewhere parts m cmd now) now)
  unfolding handle_cmd
  stop_command elsewhere parts m cmd now e =
      let stopped = handle_stop elsewhere cmd.type parts m cmd now e in
      rw
        (
          stopped,
          apply_request_idle parts (cmd_stop parts m now) now (cmd_stop_request parts m now),
        )
        (cmd_stop-IsStopped parts m now)
