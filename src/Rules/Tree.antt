-- ===== src/Rules/Tree.antt =====
-- src/features/rules.c: the tree of conditions and its clocks. A node is given by what the code reads of
-- its JSON object: a group has an array under "conditions", a test has none.
pub mod Meaning
pub mod Held
use pifire_c.Common.{
  ℕ, zero, suc, ◌+◌, ◌*◌, ◌%◌, ◌^◌, Bool, true, false, not, ◌&&◌, ◌||◌, Option, none, some, List,
  [], ◌∷◌, ◌==◌, if◌then◌else◌,
}
use pifire_c.Common.Float.{Double, ◌<ᵈ◌, ◌≤ᵈ◌, ◌==ᵈ◌, ◌+ᵈ◌, ◌-ᵈ◌, nought}
use pifire_c.Mode.{bytes, same_nocase}
use pifire_c.Text.{Bytes, same}
use pifire_c.Rules.{Val, v_none, v_num, v_bool, v_str, Facts, Inst, trait_of, compare, is_given}

-- what a comparison may be with: a literal, another reading with an offset, or nothing of these
pub data Operand (W : Type 0) : Type 0 where
  literal : Val W → Operand W
  reading : Bytes → Bytes → Option W → Operand W

-- the test of a node; "value" is an operand, and a list of them for a membership
pub record Test (W : Type 0) : Type 0 where
  pub trait : Option Bytes
  pub entity : Bytes
  pub op : Bytes
  pub value : Operand W
  pub value2 : Operand W
  pub members : List (Operand W)

mutual
  pub data Node (W : Type 0) : Type 0 where
    group : W → Bytes → Nodes W → Node W
    test : W → Test W → Node W

  pub data Nodes (W : Type 0) : Type 0 where
    no_more : Nodes W
    more : Node W → Nodes W → Nodes W

-- `pf_rules_node_timer`
pub record NodeTimer (W : Type 0) : Type 0 where
  pub path : ℕ
  pub since : W

-- `evalctx` but for the clocks
pub record Evalctx (W : Type 0) : Type 0 where
  pub status : Facts W
  pub instance_of : Inst W
  pub db : W
  pub now : W

-- what an evaluation changes: the value that matched, and the clocks, of which there are none in a
-- preview
pub record Eval (W : Type 0) : Type 0 where
  pub matched : Val W
  pub timers : Option (List (NodeTimer W))

abbrev pub node_timers : ℕ
node_timers = 12

module _ {W : Type 0} where
  -- the slot of a path
  unfoldable pub slot_of : ℕ → List (NodeTimer W) → Option ℕ
  slot_of path [] = none
  slot_of path (t ∷ l) =
      let rest = slot_of path l in
      if t.path == path then some 0 else (elim rest [ none ↦ none | some i ↦ some (suc i) ])

  -- the clock of a path, or the first spare one
  abbrev pub clock_of : ℕ → List (NodeTimer W) → Option ℕ
  clock_of path l = elim (slot_of path l) [ some i ↦ some i | none ↦ slot_of 0 l ]

  pub write : ℕ → NodeTimer W → List (NodeTimer W) → List (NodeTimer W)
  write i t [] = []
  write zero t (u ∷ l) = t ∷ l
  write (suc i) t (u ∷ l) = u ∷ write i t l

abbrev pub is_membership : Bytes → Bool
is_membership op = same op (bytes "is_one_of") || same op (bytes "is_none_of")

-- the path of a child
abbrev pub child_path : ℕ → ℕ → ℕ
child_path path i = (path * 31 + i) % 2 ^ 32

abbrev pub is_any : Bytes → Bool
is_any op = same_nocase op (bytes "any")

abbrev pub is_not : Bytes → Bool
is_not op = same_nocase op (bytes "not")

-- how a group goes on
abbrev pub join : Bytes → Bool → Bool → Bool
join op result r = if is_any op then result || r else result && r

module _ {W : Type 0} ⦃d : Double W⦄ where
  unfoldable pub since_at : ℕ → List (NodeTimer W) → W
  since_at i [] = nought
  since_at zero (t ∷ l) = t.since
  since_at (suc i) (t ∷ l) = since_at i l

  -- one clock: the answer, and since when the node has been true, 0 for not
  pub run_clock : W → W → Bool → W → Bool × W
  run_clock need now false since = (false, nought)
  run_clock need now true since =
      let started = if since ==ᵈ nought then now else since in (need ≤ᵈ (now -ᵈ started), started)

  -- `held_long_enough`
  pub held_long_enough :
      W → ℕ → W → Bool → Option (List (NodeTimer W)) → Bool × Option (List (NodeTimer W))
  unfolding slot_of write since_at run_clock
  held_long_enough now path need true_now none = (true_now, none)
  held_long_enough now path need true_now (some l) =
      if need ≤ᵈ nought then (true_now, some l) else (elim (clock_of path l) [
        | none ↦ (false, some l)
        | some i ↦
            let (held, since) = run_clock need now true_now (since_at i l) in
            (held, some (write i (record { path = path; since = since }) l))
      ])

  abbrev pub add_offset : Val W → Option W → Val W
  add_offset (v_num x) (some off) = v_num (x +ᵈ off)
  add_offset v _ = v

  pub resolve_operand : Facts W → Inst W → Operand W → Val W
  resolve_operand f i (literal v) = v
  resolve_operand f i (reading entity trait off) = add_offset (trait_of f i entity trait) off

  -- is it one of these
  pub is_member : Facts W → Inst W → Val W → List (Operand W) → Bool
  unfolding resolve_operand
  is_member f i a [] = false
  is_member f i a (o ∷ l) =
      let rest = is_member f i a l in
      if compare a (bytes "is") (resolve_operand f i o) v_none nought then true else rest

  -- what a test says of a value
  pub judge : Facts W → Inst W → W → Test W → Val W → Bool
  unfolding is_member
  judge f i db c a =
      if is_membership c.op
      then if not (is_given a)
        then false
        else if same c.op (bytes "is_one_of")
        then is_member f i a c.members
        else not (is_member f i a c.members)
      else compare a c.op (resolve_operand f i c.value) (resolve_operand f i c.value2) db

  -- the first value that matched is kept
  abbrev pub note_match : Val W → Val W → Bool → Val W
  note_match matched a r = if r && not (is_given matched) then a else matched

  -- the comparison of `eval_node_inner`
  pub eval_test : Evalctx W → Test W → Eval W → Bool × Eval W
  unfolding judge
  eval_test cx c e = elim c.trait [
    | none ↦ (true, e)
    | some trait ↦
        let a = trait_of cx.status cx.instance_of c.entity trait in
        let r = judge cx.status cx.instance_of cx.db c a in
        (r, record e { matched = note_match e.matched a r })
  ]

  abbrev pub is_childless : Nodes W → Bool
  is_childless no_more = true
  is_childless (more k l) = false

  -- what a group says of the joined answers of its children
  abbrev pub close_group : Bytes → Nodes W → Bool → Bool
  close_group op kids result =
      if is_childless kids then false else if is_not op then not result else result

  -- the clock of a node, run on its answer
  abbrev pub with_clock : Evalctx W → ℕ → W → Bool × Eval W → Bool × Eval W
  with_clock cx path need (r, e) =
      let (held, timers) = held_long_enough cx.now path need r e.timers in
      (held, record e { timers = timers })

unfoldable mutual
  -- `eval_path`
  pub eval_path : {W : Type 0} → ⦃d : Double W⦄ → Evalctx W → Node W → ℕ → Eval W → Bool × Eval W
  eval_path cx (test need c) path e = with_clock cx path need (eval_test cx c e)
  eval_path cx (group need op kids) path e =
      let (r, e') = eval_kids cx op kids path 1 (not (is_any op)) e in
      with_clock cx path need (close_group op kids r, e')

  -- the loop of `eval_node_inner`; every child is asked, so that its clock runs
  pub eval_kids :
      {W : Type 0}
      → ⦃d : Double W⦄ → Evalctx W
      → Bytes
      → Nodes W
      → ℕ
      → ℕ
      → Bool
      → Eval W
      → Bool × Eval W
  eval_kids cx op no_more path i result e = (result, e)
  eval_kids cx op (more k l) path i result e =
      let (r, e') = eval_path cx k (child_path path i) e in
      eval_kids cx op l path (suc i) (join op result r) e'

module _ {W : Type 0} ⦃d : Double W⦄ where
  -- `eval_node_at`
  pub eval_node_at : Facts W → Inst W → Node W → W → Option (List (NodeTimer W)) → W → Bool × Eval W
  eval_node_at f i node db timers now =
      eval_path (record { status = f; instance_of = i; db = db; now = now }) node 1
        (record { matched = v_none; timers = timers })

  -- `pf_rules_eval_tree`
  pub eval_tree : Node W → Facts W → Bytes → Option (List (NodeTimer W)) → W → Bool × Eval W
  eval_tree node f domain timers now =
      eval_path
        (record {
          status = f;
          instance_of = record {
            domain = elim domain [ [] ↦ bytes "grill" | b ∷ s ↦ b ∷ s ];
            name = [];
            label = [];
            obj = none;
          };
          db = nought;
          now = now;
        })
        node 1 (record { matched = v_none; timers = timers })
