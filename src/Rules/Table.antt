-- ===== src/Rules/Table.antt =====
-- src/features/rules.c: what a rule remembers of each instance it watches, `rstate`, in the table
-- `g_state` of 96.
pub mod Slots
use pifire_c.Common.{
  ℕ, zero, suc, ◌+◌, Bool, true, false, not, ◌&&◌, ◌||◌, Option, none, some, List, [], ◌∷◌, ◌++◌,
  if◌then◌else◌,
}
use pifire_c.Common.Float.{Double, ◌<ᵈ◌, ◌≤ᵈ◌, ◌==ᵈ◌, ◌-ᵈ◌, nought}
use pifire_c.Mode.{bytes}
use pifire_c.Text.{Bytes, same, take, strlcpy}
use pifire_c.Alarms
use pifire_c.Alarms.{Alarms}
use pifire_c.Rules.Tree.{NodeTimer, node_timers}

-- `rstate`
pub record Rstate (W : Type 0) : Type 0 where
  pub used : Bool
  pub rule : Bytes
  pub inst : Bytes
  pub timers : List (NodeTimer W)
  pub held_since : W
  pub false_since : W
  pub last_fired : W
  pub armed : Bool
  pub raised : Bool

-- the identity the alarm table keys on
abbrev pub rule_key : Bytes → Bytes → Bytes
rule_key id label = bytes "RULE_" ++ take 32 id ++ bytes ":" ++ take 32 label

module _ {W : Type 0} where
  abbrev pub is_of : Bytes → Bytes → Rstate W → Bool
  is_of rule inst st = st.used && same st.rule rule && same st.inst inst

  unfoldable pub find_state : Bytes → Bytes → List (Rstate W) → Option ℕ
  find_state rule inst [] = none
  find_state rule inst (st ∷ l) =
      let rest = find_state rule inst l in
      if is_of rule inst st then some 0 else (elim rest [ none ↦ none | some i ↦ some (suc i) ])

  unfoldable pub free_state : List (Rstate W) → Option ℕ
  free_state [] = none
  free_state (st ∷ l) =
      let rest = free_state l in
      if not st.used then some 0 else (elim rest [ none ↦ none | some i ↦ some (suc i) ])

  pub put_state : ℕ → Rstate W → List (Rstate W) → List (Rstate W)
  put_state i st [] = []
  put_state zero st (u ∷ l) = st ∷ l
  put_state (suc i) st (u ∷ l) = u ∷ put_state i st l

module _ {W : Type 0} ⦃d : Double W⦄ where
  pub spare_timers : ℕ → List (NodeTimer W)
  spare_timers zero = []
  spare_timers (suc n) = record { path = 0; since = nought } ∷ spare_timers n

  -- a slot that was just taken
  abbrev pub first_state : Bytes → Bytes → Rstate W
  first_state rule inst = record {
    used = true;
    rule = strlcpy 40 rule;
    inst = strlcpy 40 inst;
    timers = spare_timers node_timers;
    held_since = nought;
    false_since = nought;
    last_fired = nought;
    armed = true;
    raised = false;
  }

  -- `state_for`: the slot, if there is one, and the table
  unfoldable pub state_for : Bytes → Bytes → List (Rstate W) → Option ℕ × List (Rstate W)
  state_for rule inst l = elim (find_state rule inst l) [
    | some i ↦ (some i, l)
    | none ↦ elim (free_state l) [
      | none ↦ (none, l)
      | some i ↦ (some i, put_state i (first_state rule inst) l)
    ]
  ]

  -- what is reported is over
  abbrev pub retired : Rstate W → Rstate W
  retired st = record st { raised = false; held_since = nought; false_since = nought; armed = true }

  -- `retire_rule`, on the alarms too
  pub retire_rule : Bytes → W → List (Rstate W) → Alarms W → List (Rstate W) × Alarms W
  retire_rule id wall [] alarms = ([], alarms)
  retire_rule id wall (st ∷ l) alarms =
      let mine = st.used && same st.rule id && st.raised in
      let alarms1 = if mine then Alarms.retire alarms wall (rule_key id st.inst) else alarms in
      let (l', alarms2) = retire_rule id wall l alarms1 in
      ((if mine then retired st else st) ∷ l', alarms2)

  -- a rule that stands on some instance
  pub is_standing : Bytes → List (Rstate W) → Bool
  is_standing id [] = false
  is_standing id (st ∷ l) = (st.used && same st.rule id && st.raised) || is_standing id l
