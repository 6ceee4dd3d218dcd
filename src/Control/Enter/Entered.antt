-- ===== src/Control/Enter/Entered.antt =====
-- src/core/control.c, `enter_mode`: the mode that is entered.
use pifire_c.Common.{◌≡◌, ap, ◌∙◌, arith, false, if_ind}
use pifire_c.Common.Float.{Double, ◌<ᵈ◌, nought}
use pifire_c.Mode.{Mode, stop, prime, startup, reignite, smoke, Output}
use pifire_c.Outputs.{Platform, all_off_relays}
use pifire_c.Outputs.Laws.{PlatformLaws, Wired, device-all_off}
use pifire_c.Outputs.Only.{state-all_off}
use pifire_c.Safety.Start
use pifire_c.Control.{Machine, Parts}
use pifire_c.Control.Enter.{
  fan_on, smoke_cycle, leave_mode, change_mode, arrive, enter_mode, enter_stop, enter_prime,
  enter_light, enter_smoke, enter_hold, enter_error, begin_cook, ambient_provisional,
  autotune_failed, cycle_cfg_for, select_smartstart_profile,
}
use pifire_c.Control.Enter.Allowed.{outputs-smoke_cycle}

module _ {W H : Type 0} ⦃d : Double W⦄ ⦃ops : Platform H⦄ where
  mode-smoke_cycle :
      (parts : Parts W) (m : Machine W H) (now : W)
      → (smoke_cycle parts m now).base.mode ≡ m.base.mode
  mode-smoke_cycle parts m now = ap (λ c. c.mode) (outputs-smoke_cycle parts m now)

  mode-arrive :
      (parts : Parts W) (m : Machine W H) (to prev : Mode) (now : W)
      → (arrive parts m to prev now).base.mode ≡ m.base.mode
  unfolding arrive enter_stop enter_prime enter_light enter_smoke enter_hold enter_error fan_on
      begin_cook ambient_provisional select_smartstart_profile Start.reset Start.on_startup_enter
      Start.on_run_enter smoke_cycle
  mode-arrive parts m stop prev now = ground arith
  mode-arrive parts m prime prev now = ground arith
  mode-arrive parts m startup prev now = ground arith
  mode-arrive parts m reignite prev now = ground arith
  mode-arrive parts m smoke prev now = ground arith
  mode-arrive parts m _ prev now = ground arith

  mode-leave_mode : (m : Machine W H) (to : Mode) (now : W) → (leave_mode m to now).base.mode ≡ to
  unfolding leave_mode change_mode autotune_failed cycle_cfg_for
  mode-leave_mode m to now = ground arith

  pub mode-enter_mode :
      (parts : Parts W) (m : Machine W H) (to : Mode) (now : W)
      → (enter_mode parts m to now).base.mode ≡ to
  unfolding enter_mode
  mode-enter_mode parts m to now =
      mode-arrive parts (leave_mode m to now) to m.base.mode now ∙ mode-leave_mode m to now

  pub since-smoke_cycle :
      (parts : Parts W) (m : Machine W H) (now : W)
      → (smoke_cycle parts m now).auger_on_since ≡ m.auger_on_since
  unfolding smoke_cycle
  since-smoke_cycle parts m now = ground arith

  since-arrive :
      (parts : Parts W) (m : Machine W H) (to prev : Mode) (now : W)
      → (arrive parts m to prev now).auger_on_since ≡ m.auger_on_since
  unfolding arrive enter_stop enter_prime enter_light enter_smoke enter_hold enter_error fan_on
      begin_cook ambient_provisional select_smartstart_profile smoke_cycle
  since-arrive parts m stop prev now = ground arith
  since-arrive parts m prime prev now = ground arith
  since-arrive parts m startup prev now = ground arith
  since-arrive parts m reignite prev now = ground arith
  since-arrive parts m smoke prev now = ground arith
  since-arrive parts m _ prev now = ground arith

  -- the clock of the auger starts again
  pub since-enter_mode :
      (parts : Parts W) (m : Machine W H) (to : Mode) (now : W)
      → (enter_mode parts m to now).auger_on_since ≡ now
  unfolding enter_mode leave_mode
  since-enter_mode parts m to now = since-arrive parts (leave_mode m to now) to m.base.mode now

  start-arrive :
      (parts : Parts W) (m : Machine W H) (to prev : Mode) (now : W)
      → (arrive parts m to prev now).mode_start ≡ m.mode_start
  unfolding arrive enter_stop enter_prime enter_light enter_smoke enter_hold enter_error fan_on
      begin_cook ambient_provisional select_smartstart_profile smoke_cycle
  start-arrive parts m stop prev now = ground arith
  start-arrive parts m prime prev now = ground arith
  start-arrive parts m startup prev now = ground arith
  start-arrive parts m reignite prev now = ground arith
  start-arrive parts m smoke prev now = ground arith
  start-arrive parts m _ prev now = ground arith

  start-leave_mode :
      (m : Machine W H) (to : Mode) (now : W) → (leave_mode m to now).mode_start ≡ now
  unfolding leave_mode change_mode autotune_failed cycle_cfg_for
  start-leave_mode m to now = ground arith

  -- the time of the mode starts again
  pub start-enter_mode :
      (parts : Parts W) (m : Machine W H) (to : Mode) (now : W)
      → (enter_mode parts m to now).mode_start ≡ now
  unfolding enter_mode
  start-enter_mode parts m to now =
      start-arrive parts (leave_mode m to now) to m.base.mode now ∙ start-leave_mode m to now

  -- Stop leaves nothing on, whatever the device says
  pub off-enter_mode :
      (parts : Parts W) (m : Machine W H) (now : W) (o : Output)
      → (enter_mode parts m stop now).base.outputs.state o ≡ false
  unfolding enter_mode arrive enter_stop
  off-enter_mode parts m now o =
      let m1 = leave_mode m stop now in
      if_ind (λ (r : Machine W H). r.base.outputs.state o ≡ false) (nought <ᵈ m1.cook_start_wall)
        (λ _. state-all_off m1.base.outputs o) (λ _. state-all_off m1.base.outputs o)

  module _ ⦃laws : PlatformLaws H⦄ where
    -- Stop switches the relays of the device off
    pub wires-enter_mode :
        (parts : Parts W) (m : Machine W H) (now : W)
        → Wired (enter_mode parts m stop now).base.outputs.device all_off_relays
    unfolding enter_mode arrive enter_stop
    wires-enter_mode parts m now =
        let m1 = leave_mode m stop now in
        let wired = device-all_off m1.base.outputs in
        if_ind (λ (r : Machine W H). Wired r.base.outputs.device all_off_relays)
          (nought <ᵈ m1.cook_start_wall) (λ _. wired) (λ _. wired)
