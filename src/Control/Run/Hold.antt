-- ===== src/Control/Run/Hold.antt =====
-- src/core/control.c, `run_hold_cycle`: how much the next cycle of a Hold feeds. What the relay
-- autotune and learning measure along the way is left out.
use pifire_c.Common.{Bool, true, false, not, ◌&&◌, ◌||◌, ◌++◌, none, some, if◌then◌else◌}
use pifire_c.Common.Int.{pos, negsuc, ◌-ℤ◌, less_ℤ}
use pifire_c.Common.Float.{Double, ◌<ᵈ◌, ◌-ᵈ◌, nought}
use pifire_c.Outputs.{Platform}
use pifire_c.Cycle
use pifire_c.Safety.{set_error}
use pifire_c.Control.{Machine, Parts, with_base}

module _ {W : Type 0} ⦃d : Double W⦄ where
  -- what a controller may not answer
  abbrev pub is_wrong : W → Bool
  is_wrong u = d.is_nan u || d.is_inf u || u <ᵈ (nought -ᵈ d.lit 5 1) || d.lit 5 1 <ᵈ u

module _ {W H : Type 0} ⦃d : Double W⦄ ⦃ops : Platform H⦄ where
  -- the feed learned for the set point; 20 C outside where the air is not known
  abbrev pub learned_feed : Parts W → Machine W H → W
  learned_feed parts m =
      parts.uff m.base.setpoint_c
        (if d.is_nan m.base.ambient_c then d.lit 20 1 else m.base.ambient_c) m.conf.u_min
        m.conf.u_max

  -- `controller_load(c, "pid")`: if it cannot be made, there is no controller
  unfoldable pub load_pid : Parts W → Machine W H → Machine W H
  load_pid parts m =
      if parts.pid_loads
      then record m {
        is_builtin = true;
        has_controller = true;
        ctrl_reset_needed = true;
        base = record (m.base) { safety = record (m.base.safety) { ctrl_fault_count = pos 0 } };
      }
      else record m { has_controller = false }

  -- an answer out of range: the third in a row replaces the controller, unless it is the built-in one
  unfoldable pub count_fault : Parts W → Machine W H → Machine W H
  unfolding load_pid
  count_fault parts m =
      let n = m.base.safety.ctrl_fault_count -ℤ negsuc 0 in
      let m1 =
        with_base m
          (record (m.base) { safety = record (m.base.safety) { ctrl_fault_count = n } }) in
      if not (less_ℤ n (pos 3)) && not m.is_builtin
      then load_pid parts (with_base m1 (set_error (m1.base) "E06_CONTROLLER_FAULT"))
      else m1

  -- the controller's turn: the share to feed, and the state with the faults counted
  unfoldable pub ask_controller : Parts W → Machine W H → W × Machine W H
  unfolding count_fault
  ask_controller parts m =
      let m1 = record m { ctrl_reset_needed = false } in
      if is_wrong parts.controller_u then (m.conf.u_min, count_fault parts m1) else (
        parts.controller_u,
        with_base m1
            (record (m.base) { safety = record (m.base.safety) { ctrl_fault_count = pos 0 } }),
      )

  -- the relay autotune's turn, which may be its last
  unfoldable pub autotune_turn : Parts W → Machine W H → Machine W H
  autotune_turn parts m =
      let m1 = record m { ctrl_reset_needed = true } in
      elim parts.autotune_ends [
        | none ↦ m1
        | some said ↦
            with_base m1
              (record (m.base) { autotune_active = false; events = said ++ m.base.events })
      ]

  -- who says what to feed: the bottom of the range, the learned feed, the autotune or the controller
  unfoldable pub choose_feed : Parts W → Machine W H → W × Machine W H
  unfolding ask_controller autotune_turn
  choose_feed parts m =
      if not m.has_controller
      then (m.conf.u_min, m)
      else if m.base.lid_open
      then (learned_feed parts m, m)
      else if m.base.autotune_active
      then (parts.autotune_u, autotune_turn parts m)
      else ask_controller parts m

  unfoldable pub begin_feed : Machine W H → W → W → Machine W H
  begin_feed m u now =
      let cycle = Cycle.begin m.cycle m.ccfg now u in
      record m {
        u_raw = u;
        cycle = cycle;
        u_applied = cycle.u_applied;
        saturated = cycle.saturated;
        fan_pid_active =
            m.conf.fan_pid && not m.pwm_control && m.base.target_reached && u <ᵈ m.conf.u_min;
      }

  unfoldable pub hold_cycle : Parts W → Machine W H → W → Machine W H
  unfolding choose_feed begin_feed
  hold_cycle parts m now =
      let (u, m1) = choose_feed parts m in
      if not (Cycle.is_done m.cycle now) then m else begin_feed m1 u now
