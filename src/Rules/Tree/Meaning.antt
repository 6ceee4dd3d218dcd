-- ===== src/Rules/Tree/Meaning.antt =====
-- src/features/rules.c, `eval_path`: what a tree of conditions means at one instant.
use pifire_c.Common.{
  ℕ, suc, ◌≡◌, refl, Bool, true, false, not, ◌&&◌, ◌||◌, Option, none, some, List, [], arith, ap,
  ◌∙◌, if◌then◌else◌,
}
use pifire_c.Common.Float.{Double, ◌≤ᵈ◌, nought}
use pifire_c.Text.{Bytes}
use pifire_c.Rules.{v_none, trait_of}
use pifire_c.Rules.Tree.{
  Node, Nodes, group, test, literal, no_more, more, Test, Evalctx, Eval, NodeTimer, eval_path,
  eval_kids, eval_test, judge, is_any, is_not, join, is_childless, close_group, held_long_enough,
  with_clock, child_path,
}

module _ {W : Type 0} ⦃d : Double W⦄ where
  -- a test with no trait asks nothing
  pub holds : Evalctx W → Test W → Option Bytes → Bool
  holds cx c none = true
  holds cx c (some trait) =
      judge cx.status cx.instance_of cx.db c (trait_of cx.status cx.instance_of c.entity trait)

  -- "all" and "not" ask for each of them, "any" for one; nothing is not true
  pub combine : Bytes → Nodes W → Bool → Bool → Bool
  combine op kids every some_one =
      if is_childless kids
      then false
      else if is_not op
      then not (if is_any op then some_one else every)
      else if is_any op
      then some_one
      else every

mutual
  pub meaning : {W : Type 0} → ⦃d : Double W⦄ → Evalctx W → Node W → Bool
  meaning cx (test need c) = holds cx c c.trait
  meaning cx (group need op kids) = combine op kids (all_mean cx kids) (any_means cx kids)

  pub all_mean : {W : Type 0} → ⦃d : Double W⦄ → Evalctx W → Nodes W → Bool
  all_mean cx no_more = true
  all_mean cx (more k l) = meaning cx k && all_mean cx l

  pub any_means : {W : Type 0} → ⦃d : Double W⦄ → Evalctx W → Nodes W → Bool
  any_means cx no_more = false
  any_means cx (more k l) = meaning cx k || any_means cx l

-- No node of it asks for a time.
mutual
  pub untimed : {W : Type 0} → ⦃d : Double W⦄ → Node W → Bool
  untimed (test need c) = need ≤ᵈ nought
  untimed (group need op kids) = (need ≤ᵈ nought) && untimed_all kids

  pub untimed_all : {W : Type 0} → ⦃d : Double W⦄ → Nodes W → Bool
  untimed_all no_more = true
  untimed_all (more k l) = untimed k && untimed_all l

module _ {W : Type 0} ⦃d : Double W⦄ where
  -- a preview, with no clocks, or a tree with no times
  abbrev pub is_quiet : Option (List (NodeTimer W)) → Node W → Bool
  is_quiet none node = true
  is_quiet (some l) node = untimed node

  is_quiet_all : Option (List (NodeTimer W)) → Nodes W → Bool
  is_quiet_all none l = true
  is_quiet_all (some ts) l = untimed_all l

  no_clock :
      (now : W) (path : ℕ) (need : W) (b : Bool) (timers : Option (List (NodeTimer W))) (c : Test W)
      → is_quiet timers (test need c) ≡ true
      → held_long_enough now path need b timers ≡ (b, timers)
  unfolding untimed held_long_enough
  no_clock now path need b none c q = refl
  no_clock now path need b (some l) c q = rw q refl

  quiet_kids :
      (timers : Option (List (NodeTimer W))) (need : W) (op : Bytes) (kids : Nodes W) (c : Test W)
      → is_quiet timers (group need op kids) ≡ true
      → (is_quiet_all timers kids ≡ true) × (is_quiet timers (test need c) ≡ true)
  unfolding is_quiet_all untimed
  quiet_kids none need op kids c q = (refl, refl)
  quiet_kids (some l) need op kids c q = ground arith

  quiet_more :
      (timers : Option (List (NodeTimer W))) (k : Node W) (l : Nodes W)
      → is_quiet_all timers (more k l) ≡ true
      → (is_quiet timers k ≡ true) × (is_quiet_all timers l ≡ true)
  unfolding is_quiet_all untimed
  quiet_more none k l q = (refl, refl)
  quiet_more (some ts) k l q = ground arith

  eval_test-holds :
      (cx : Evalctx W) (c : Test W) (e : Eval W)
      → ((eval_test cx c e).0 ≡ holds cx c c.trait) × ((eval_test cx c e).1.timers ≡ e.timers)
  unfolding eval_test holds
  eval_test-holds cx c e = ground arith

  with_clock-quiet :
      (cx : Evalctx W) (path : ℕ) (need : W) (r : Bool × Eval W)
      (timers : Option (List (NodeTimer W))) (c : Test W)
      → r.1.timers ≡ timers
      → is_quiet timers (test need c) ≡ true
      → ((with_clock cx path need r).0 ≡ r.0) × ((with_clock cx path need r).1.timers ≡ timers)
  with_clock-quiet cx path need r timers c same q =
      let held =
        ap (held_long_enough cx.now path need r.0) same
        ∙ no_clock cx.now path need r.0 timers c q in
      (ap (λ p. p.0) held, ap (λ p. p.1) held)

-- what is left of a group's children, joined to what came before
going_on : Bytes → Bool → Bool → Bool → Bool
going_on op result every some_one = if is_any op then result || some_one else result && every

going_on_more :
    (op : Bytes) (result r m every some_one : Bool)
    → r ≡ m
    → going_on op (join op result r) every some_one
      ≡ going_on op result (m && every) (m || some_one)
unfolding going_on
going_on_more op result r m every some_one e = ground arith

nothing_left : (op : Bytes) (result : Bool) → result ≡ going_on op result true false
unfolding going_on
nothing_left op result = ground arith

-- any test, where only the time of a node matters
abbrev no_test : {W : Type 0} → Test W
no_test = record {
  trait = none;
  entity = [];
  op = [];
  value = literal v_none;
  value2 = literal v_none;
  members = [];
}

module _ {W : Type 0} ⦃d : Double W⦄ where
  close_group-lem :
      (op : Bytes) (kids : Nodes W) (every some_one result : Bool)
      → result ≡ going_on op (not (is_any op)) every some_one
      → close_group op kids result ≡ combine op kids every some_one
  unfolding combine going_on
  close_group-lem op kids every some_one result e = ground arith

mutual
  unfolding eval_path meaning

  eval_path_lem :
      {W : Type 0}
      → ⦃d : Double W⦄ → (cx : Evalctx W) (node : Node W) (path : ℕ) (e : Eval W)
      → is_quiet e.timers node ≡ true
      → ((eval_path cx node path e).0 ≡ meaning cx node)
        × ((eval_path cx node path e).1.timers ≡ e.timers)
  eval_path_lem cx (test need c) path e q =
      let (same, kept) = eval_test-holds cx c e in
      let (answer, timers) = with_clock-quiet cx path need (eval_test cx c e) e.timers c kept q in
      (answer ∙ same, timers)
  eval_path_lem cx (group need op kids) path e q =
      let (inner, outer) = quiet_kids e.timers need op kids (no_test) q in
      let (joined, kept) = eval_kids_lem cx op kids path 1 (not (is_any op)) e inner in
      let r = eval_kids cx op kids path 1 (not (is_any op)) e in
      let (answer, timers) =
        with_clock-quiet cx path need (close_group op kids r.0, r.1) e.timers no_test kept outer in
      (answer ∙ close_group-lem op kids (all_mean cx kids) (any_means cx kids) r.0 joined, timers)

  eval_kids_lem :
      {W : Type 0}
      → ⦃d : Double W⦄
      → (cx : Evalctx W) (op : Bytes) (kids : Nodes W) (path i : ℕ) (result : Bool) (e : Eval W)
      → is_quiet_all e.timers kids ≡ true
      → ((eval_kids cx op kids path i result e).0
          ≡ going_on op result (all_mean cx kids) (any_means cx kids))
        × ((eval_kids cx op kids path i result e).1.timers ≡ e.timers)
  eval_kids_lem cx op no_more path i result e q = (nothing_left op result, refl)
  eval_kids_lem cx op (more k l) path i result e q =
      let (first, later) = quiet_more e.timers k l q in
      let (one, kept) = eval_path_lem cx k (child_path path i) e first in
      let (r, e') = eval_path cx k (child_path path i) e in
      let (rest, kept') =
        eval_kids_lem cx op l path (suc i) (join op result r) e'
          (ap (λ t. is_quiet_all t l) kept ∙ later) in
      (
        rest ∙ going_on_more op result r (meaning cx k) (all_mean cx l) (any_means cx l) one,
        kept' ∙ kept,
      )

module _ {W : Type 0} ⦃d : Double W⦄ where
  -- Where there are no clocks, as in a preview, or no node asks for a time, a tree of conditions answers
  -- what it means, whatever its depth, and leaves the clocks as they were: a test what it compares, a
  -- group whether all or any of its children hold or the contrary, and an empty group no.
  pub eval_path-meaning :
      (cx : Evalctx W) (node : Node W) (path : ℕ) (e : Eval W)
      → is_quiet e.timers node ≡ true
      → ((eval_path cx node path e).0 ≡ meaning cx node)
        × ((eval_path cx node path e).1.timers ≡ e.timers)
  eval_path-meaning cx node path e q = eval_path_lem cx node path e q
