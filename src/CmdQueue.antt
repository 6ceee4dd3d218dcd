-- ===== src/CmdQueue.antt =====
-- src/core/cmdq.c and cmdq.h: the queue of commands from the web, the API and the command line to
-- the control thread. Each function holds `g_mu` from end to end, so it is one step on the state.
pub mod Refine
mod Tests
use pifire_c.Common.{
  ℕ, ◌+◌, ◌-◌, ◌%◌, Bool, true, false, Option, none, some, ltb, ◌==◌, if◌then◌else◌,
}
use pifire_c.Common.Float.{Double}
use pifire_c.Mode.{Mode, stop}
use Prim.Native.String.{String}

-- `pf_cmd_type`
pub data CmdType : Type 0 where
  none_cmd mode setpoint smoke_plus pwm_control duty_cycle manual_output lid_toggle prime : CmdType
  settings_changed controller_changed probes_changed stop_cmd clear_error : CmdType
  notify_target notify_limits timer_start timer_pause timer_resume timer_cancel : CmdType
  notify_test probes_in_use recipe_start recipe_next recipe_stop recipe_skip recipe_back : CmdType
  recipe_flag autotune_start autotune_stop tuning_apply forget_learning : CmdType

-- `pf_cmd`, with its texts as strings
pub record Cmd (W : Type 0) : Type 0 where
  pub type : CmdType
  pub mode : Mode
  pub num : W
  pub num2 : W
  pub aux : ℕ
  pub flag : Bool
  pub str : String
  pub meat : String
  pub done : String

abbrev pub qlen : ℕ
qlen = 64

-- A write to one slot of an array.
module _ {A : Type 0} where
  abbrev pub store : (ℕ → A) → ℕ → A → ℕ → A
  store g i v j = if i == j then v else g j

-- `g_q`, `g_head`, `g_len`
pub record CmdQueue (A : Type 0) : Type 0 where
  pub q : ℕ → A
  pub head : ℕ
  pub len : ℕ

module _ {A : Type 0} where
  pub init : CmdQueue A → CmdQueue A
  init s = record s { head = 0; len = 0 }

  -- The status is whether `pf_cmdq_push` returns 0 (true) or -1 (false).
  pub push : CmdQueue A → A → Bool × CmdQueue A
  push s c =
      if ltb s.len qlen
      then (true, record s { q = store s.q ((s.head + s.len) % qlen) c; len = s.len + 1 })
      else (false, s)

  -- What `pf_cmdq_pop` writes through `out`, if it returns true. `g_len--` runs only at `g_len > 0`.
  pub pop : CmdQueue A → Option A × CmdQueue A
  pop s =
      if ltb 0 s.len
      then (some (s.q s.head), record s { head = (s.head + 1) % qlen; len = s.len - 1 })
      else (none, s)

module _ {W : Type 0} ⦃d : Double W⦄ where
  -- The fields that an initialiser leaves out are zero.
  abbrev pub zeroed : CmdType → Cmd W
  zeroed t = record {
    type = t;
    mode = stop;
    num = d.lit 0 1;
    num2 = d.lit 0 1;
    aux = 0;
    flag = false;
    str = "";
    meat = "";
    done = "";
  }

  pub cmd_mode : CmdQueue (Cmd W) → Mode → W → Bool × CmdQueue (Cmd W)
  cmd_mode s m setpoint_user = push s (record (zeroed mode) { mode = m; num = setpoint_user })

  pub cmd_simple : CmdQueue (Cmd W) → CmdType → Bool × CmdQueue (Cmd W)
  cmd_simple s t = push s (zeroed t)
