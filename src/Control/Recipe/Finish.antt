-- ===== src/Control/Recipe/Finish.antt =====
-- src/core/control.c, `recipe_finish_now`: that finishing a recipe shuts the grill down.
use pifire_c.Common.{
  ℕ, zero, suc, ◌+◌, ◌-◌, ◌≤◌, ◌≡◌, refl, ap, ◌∙◌, sym, ◌++◌, arith, Bool, true, false, List, [],
  ◌∷◌, Option, none, some, drop, ltb, if◌then◌else◌,
}
use pifire_c.Common.Float.{Double}
use pifire_c.Mode.{shutdown, mode_eq, mode_eq_sound}
use pifire_c.Outputs.{Platform}
use pifire_c.Control.{Machine, Parts, RecipeStep}
use pifire_c.Control.Enter.Entered.{mode-enter_mode}
use pifire_c.Control.Recipe.{
  finish_now, begin_step, begin_steps, begin_as, begin_clean, last_shutdown, take_steps, is_skipped,
  with_recipe, set_flag,
}

module _ {W : Type 0} where
  -- a step that shuts the grill down comes first
  abbrev is_down : List (RecipeStep W) → Bool
  is_down [] = false
  is_down (s ∷ rest) = mode_eq s.mode shutdown

  -- what the search finds
  last_shutdown_found :
      (l : List (RecipeStep W)) (i j : ℕ)
      → last_shutdown l i ≡ some j
      → (i ≤ j) × (is_down (drop (j - i) l) ≡ true)
  unfolding last_shutdown
  last_shutdown_found [] i j e = absurd (ground arith)
  last_shutdown_found (s ∷ l) i j e =
      by_rest (λ k h. last_shutdown_found l (suc i) k h) (last_shutdown l (suc i)) refl
    where
      later :
          (k : ℕ)
          → suc i ≤ k
          → is_down (drop (k - suc i) l) ≡ true
          → is_down (drop (k - i) (s ∷ l)) ≡ true
      later k h f = let n : k - i ≡ suc (k - suc i) = omega arith in rw n f

      by_rest :
          ((k : ℕ)
            → last_shutdown l (suc i) ≡ some k
            → (suc i ≤ k) × (is_down (drop (k - suc i) l) ≡ true))
          → (o : Option ℕ) → o ≡ last_shutdown l (suc i)
          → (i ≤ j) × (is_down (drop (j - i) (s ∷ l)) ≡ true)
      by_rest ih none h =
          let here : j ≡ i = ground arith in
          let none_left : j - i ≡ 0 = omega arith in (omega arith, rw none_left (ground arith))
      by_rest ih (some k) h =
          let same : k ≡ j = ground arith in
          let found = ih k (sym h) in
          (omega (arith, found.0), rw (← same) (later k found.0 found.1))

  drop-drop : (a b : ℕ) (l : List (RecipeStep W)) → drop a (drop b l) ≡ drop (b + a) l
  drop-drop a zero l = ap (λ n. drop n l) (omega arith)
  drop-drop a (suc b) [] = drop_nil a ∙ sym (ap (λ n. drop n []) (sum a b))
    where
      drop_nil : (n : ℕ) → drop n [] ≡ drop (suc (b + n)) (◌++◌ {A = RecipeStep W} [] [])
      drop_nil zero = refl
      drop_nil (suc n) = refl

      sum : (x y : ℕ) → suc y + x ≡ suc (y + x)
      sum x y = omega arith
  drop-drop a (suc b) (s ∷ l) = drop-drop a b l ∙ ap (λ n. drop n (s ∷ l)) (sum a b)
    where
      sum : (x y : ℕ) → suc (y + x) ≡ suc y + x
      sum x y = omega arith

  is_down-take_steps :
      (n : ℕ) (l : List (RecipeStep W))
      → is_down (drop n l) ≡ true
      → is_down (drop n (take_steps (suc n) l)) ≡ true
  is_down-take_steps n [] h = ground arith
  is_down-take_steps zero (s ∷ l) h = h
  is_down-take_steps (suc n) (s ∷ l) h = is_down-take_steps n l h

module _ {W H : Type 0} ⦃d : Double W⦄ ⦃ops : Platform H⦄ where
  begin_steps_down :
      (parts : Parts W) (m : Machine W H) (l : List (RecipeStep W)) (now : W)
      → is_skipped m ≡ false
      → is_down l ≡ true
      → (begin_steps parts m l now).base.mode ≡ shutdown
  unfolding begin_steps begin_as
  begin_steps_down parts m [] now n h = absurd (ground arith)
  begin_steps_down parts m (s ∷ rest) now n h =
      let down = mode_eq_sound s.mode shutdown h in
      rw (n, down) (mode-enter_mode parts (begin_clean m s now) shutdown now)

  finish_step :
      (parts : Parts W) (m : Machine W H) (fin : ℕ) (now : W)
      → is_down (drop fin m.recipe.steps) ≡ true
      → (begin_step parts
          (with_recipe m (record (m.recipe) {
            steps = take_steps (fin + 1) m.recipe.steps;
            step = fin;
            flags = if ltb fin 16 then set_flag m.recipe.flags fin 0 else m.recipe.flags;
          }))
          now).base.mode
        ≡ shutdown
  unfolding begin_step
  finish_step parts m fin now h =
      let m1 = with_recipe m (record (m.recipe) {
        steps = take_steps (fin + 1) m.recipe.steps;
        step = fin;
        flags = if ltb fin 16 then set_flag m.recipe.flags fin 0 else m.recipe.flags;
      }) in
      let one : fin + 1 ≡ suc fin = omega arith in
      begin_steps_down parts m1 (drop fin (take_steps (fin + 1) m.recipe.steps)) now (ground arith)
        (rw one (is_down-take_steps fin m.recipe.steps h))

  -- Finishing a recipe, with a Shutdown step ahead or without, puts the grill in Shutdown, whatever
  -- the cook marked to be skipped.
  pub mode-finish_now :
      (parts : Parts W) (m : Machine W H) (now : W) → (finish_now parts m now).base.mode ≡ shutdown
  unfolding finish_now
  mode-finish_now parts m now =
      by_search (last_shutdown (drop m.recipe.step m.recipe.steps) m.recipe.step) refl
    where
      by_search :
          (o : Option ℕ)
          → o ≡ last_shutdown (drop m.recipe.step m.recipe.steps) m.recipe.step
          → (finish_now parts m now).base.mode ≡ shutdown
      by_search none e =
          rw (← e, finish_now)
            (mode-enter_mode parts
              (with_recipe m (record (m.recipe) { active = false; left_running = false })) shutdown
              now)
      by_search (some fin) e =
          let found =
            last_shutdown_found (drop m.recipe.step m.recipe.steps) m.recipe.step fin (sym e) in
          let there : m.recipe.step + (fin - m.recipe.step) ≡ fin = omega (arith, found.0) in
          rw (← e, finish_now)
            (finish_step parts m fin now (
              rw (← there)
                (rw (← drop-drop (fin - m.recipe.step) m.recipe.step m.recipe.steps) found.1)))
