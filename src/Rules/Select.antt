-- ===== src/Rules/Select.antt =====
-- src/features/rules.c: which instances a rule watches, and the units of the temperatures written in it.
use pifire_c.Common.{
  ℕ, zero, suc, Bool, true, false, not, ◌&&◌, ◌||◌, none, some, List, [], ◌∷◌, if◌then◌else◌,
}
use pifire_c.Common.Float.{Double, ◌+ᵈ◌, ◌-ᵈ◌, ◌*ᵈ◌, ◌/ᵈ◌}
use pifire_c.Mode.{bytes, same_nocase}
use pifire_c.Text.{Bytes, same}
use pifire_c.Rules.{Val, v_num, Facts, Inst, is_true, text_or}
use pifire_c.Rules.Traits.{trait_table, trait_def_of, delta_of}
use pifire_c.Rules.Tree.{Node, Nodes, group, test, no_more, more, Test, Operand, literal, reading}

-- "select" of a rule: whether "include" is an array that is not empty, and the texts in the two lists
pub record Selection : Type 0 where
  pub domain : Bytes
  pub role : Bytes
  pub link : Bytes
  pub restricts : Bool
  pub include : List Bytes
  pub exclude : List Bytes

-- `MAX_INST`
abbrev pub max_inst : ℕ
max_inst = 12

-- `str_in_array`
pub str_in_array : List Bytes → Bytes → Bool
str_in_array [] s = false
str_in_array (a ∷ l) s = same_nocase a s || str_in_array l s

abbrev pub output_names : List Bytes
output_names = bytes "auger" ∷ bytes "fan" ∷ bytes "igniter" ∷ bytes "power" ∷ []

abbrev pub probe_domain : Bytes
probe_domain = bytes "probe"

module _ {W : Type 0} where
  abbrev pub label_of : (Bytes → Val W) → Bytes
  label_of p = text_or (p (bytes "label")) []

  abbrev pub name_of : (Bytes → Val W) → Bytes
  name_of p = text_or (p (bytes "name")) (label_of p)

  -- a probe that the selection takes
  pub is_selected : Selection → (Bytes → Val W) → Bool
  is_selected s p =
      is_true (p (bytes "enabled"))
      && not (is_true (p (bytes "companion")))
      && (same s.role (bytes "any") || same_nocase s.role (text_or (p (bytes "role")) []))
      && not (same s.link (bytes "bluetooth") && not (is_true (p (bytes "wireless"))))
      && not (same s.link (bytes "wired") && is_true (p (bytes "wireless")))
      && not (
          s.restricts
          && not (str_in_array s.include (label_of p))
          && not (str_in_array s.include (name_of p)))
      && not (str_in_array s.exclude (label_of p) || str_in_array s.exclude (name_of p))

  abbrev pub probe_inst : (Bytes → Val W) → Inst W
  probe_inst p = record {
    domain = probe_domain;
    name = name_of p;
    label = label_of p;
    obj = some p;
  }

  pub select_probes : ℕ → Selection → List (Bytes → Val W) → List (Inst W)
  unfolding is_selected
  select_probes zero s l = []
  select_probes (suc room) s [] = []
  select_probes (suc room) s (p ∷ l) =
      let taken = select_probes room s l in
      let passed = select_probes (suc room) s l in
      if is_selected s p then probe_inst p ∷ taken else passed

  -- an instance that is its own name
  abbrev pub named_inst : Bytes → Bytes → Inst W
  named_inst domain name = record { domain = domain; name = name; label = name; obj = none }

  pub select_outputs : Selection → List Bytes → List (Inst W)
  select_outputs s [] = []
  select_outputs s (o ∷ l) =
      let rest = select_outputs s l in
      if s.restricts && not (str_in_array s.include o)
      then rest
      else named_inst (bytes "output") o ∷ rest

  pub select_instances : Facts W → Selection → List (Inst W)
  unfolding select_probes select_outputs
  select_instances f s =
      if same s.domain probe_domain
      then select_probes max_inst s f.probes
      else if same s.domain (bytes "output")
      then select_outputs s output_names
      else named_inst s.domain s.domain ∷ []

abbrev pub domain_of : Bytes → Bytes → Bytes
domain_of entity domain = if same entity (bytes "this") then domain else entity

module _ {W : Type 0} ⦃d : Double W⦄ where
  -- `CONV`
  pub conv : Bool → W → Bool → W
  conv true x true = x /ᵈ (d.lit 9 1 /ᵈ d.lit 5 1)
  conv true x false = (x -ᵈ d.lit 32 1) /ᵈ (d.lit 9 1 /ᵈ d.lit 5 1)
  conv false x true = x *ᵈ (d.lit 9 1 /ᵈ d.lit 5 1)
  conv false x false = x *ᵈ (d.lit 9 1 /ᵈ d.lit 5 1) +ᵈ d.lit 32 1

  -- "value": a number by the trait, an offset as a gap
  pub convert_value : Bool → Bool → Operand W → Operand W
  unfolding conv
  convert_value to_c delta (literal (v_num x)) = literal (v_num (conv to_c x delta))
  convert_value to_c delta (literal v) = literal v
  convert_value to_c delta (reading entity trait none) = reading entity trait none
  convert_value to_c delta (reading entity trait (some off)) =
      reading entity trait (some (conv to_c off true))

  -- "value2": only a number
  pub convert_bound : Bool → Bool → Operand W → Operand W
  unfolding conv
  convert_bound to_c delta (literal (v_num x)) = literal (v_num (conv to_c x delta))
  convert_bound to_c delta o = o

  -- one test, where its trait is a temperature; the width of a "within" is a gap
  pub convert_test : Bytes → Bool → Test W → Test W
  unfolding convert_value convert_bound
  convert_test domain to_c c = elim c.trait [
    | none ↦ c
    | some trait ↦ elim (delta_of (trait_def_of trait_table (domain_of c.entity domain) trait)) [
      | none ↦ c
      | some delta ↦ record c {
        value = convert_value to_c delta c.value;
        value2 = convert_bound to_c (delta || same c.op (bytes "within")) c.value2;
      }
    ]
  ]

-- `convert_node_units`; a "deadband" of a node, which no test reads, is left out
mutual
  pub convert_node : {W : Type 0} → ⦃d : Double W⦄ → Bytes → Bool → Node W → Node W
  convert_node domain to_c (test need c) = test need (convert_test domain to_c c)
  convert_node domain to_c (group need op kids) = group need op (convert_nodes domain to_c kids)

  pub convert_nodes : {W : Type 0} → ⦃d : Double W⦄ → Bytes → Bool → Nodes W → Nodes W
  convert_nodes domain to_c no_more = no_more
  convert_nodes domain to_c (more k l) =
      more (convert_node domain to_c k) (convert_nodes domain to_c l)
