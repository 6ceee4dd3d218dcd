-- ===== src/Control/Recipe/Follow/Pause.antt =====
-- src/core/control.c, `run_recipe`: a step that the cook marked, so that the run pauses when it ends.
use pifire_c.Common.{
  ℕ, ◌≡◌, refl, arith, Bool, true, false, not, ◌&&◌, List, [], ◌∷◌, drop, if◌then◌else◌, if_ind,
}
use pifire_c.Common.Float.{Double, ◌<ᵈ◌, ◌-ᵈ◌}
use pifire_c.Mode.{error, mode_eq}
use pifire_c.Outputs.{Platform}
use pifire_c.Control.{Machine, Parts, RecipeStep}
use pifire_c.Control.Recipe.{with_recipe}
use pifire_c.Control.Recipe.Follow.{
  Ending, is_marked, is_mode_step, is_past, latch_lid, say_done, hold_here, give_way, start_clock,
  warn_soon, judge_end, follow_step, follow_steps, follow_recipe, answers_itself, is_ready,
}

module _ {W H : Type 0} where
  -- The recipe is at the step and goes on or not as before, with its marks, and the mode and the outputs are as they were.
  abbrev pub IsAt : ℕ → Machine W H → Machine W H → Type 0
  IsAt n m r =
      (r.recipe.step ≡ n)
      × (r.recipe.active ≡ m.recipe.active)
      × (r.recipe.flags ≡ m.recipe.flags)
      × (r.base.mode ≡ m.base.mode)
      × (r.base.outputs ≡ m.base.outputs)

module _ {W H : Type 0} ⦃d : Double W⦄ ⦃ops : Platform H⦄ where
  hold_here-IsAt : (m : Machine W H) → IsAt m.recipe.step m (hold_here m)
  unfolding hold_here say_done
  hold_here-IsAt m = ground arith

  give_way-IsAt :
      (parts : Parts W) (m : Machine W H) (now : W)
      → is_marked m 1 ≡ true
      → IsAt m.recipe.step m (give_way parts m now)
  unfolding give_way
  give_way-IsAt parts m now h = rw h (hold_here-IsAt m)

  warn_soon-IsAt :
      (n : ℕ) (m m1 : Machine W H) (s : RecipeStep W) (e : Ending W)
      → IsAt n m m1
      → IsAt n m (warn_soon m1 s e)
  unfolding warn_soon
  warn_soon-IsAt n m m1 s e h = ground (arith, h)

  say_done-IsAt :
      (n : ℕ) (m m1 : Machine W H) (b : Bool)
      → IsAt n m m1
      → IsAt n m (if b then say_done m1 else m1)
  unfolding say_done
  say_done-IsAt n m m1 b h = ground (arith, h)

  -- a step with the mark for a pause does not answer its own prompt
  not-answers_itself :
      (m : Machine W H) (e : Ending W) → is_marked m 1 ≡ true → answers_itself m e ≡ false
  not-answers_itself m e h = ground arith

  judge_end-IsAt :
      (parts : Parts W) (m : Machine W H) (s : RecipeStep W) (e : Ending W) (now : W)
      → is_marked m 1 ≡ true
      → IsAt m.recipe.step m (judge_end parts m s e now)
  unfolding judge_end
  judge_end-IsAt parts m s e now h =
      let waits = is_ready e && not e.done in
      let m1 =
        with_recipe m
          (record (m.recipe) { prompt_given = m.recipe.prompt_given; waiting = waits }) in
      let said = if waits then say_done m1 else m1 in
      let goes_on : IsAt m.recipe.step m (warn_soon said s e) =
        warn_soon-IsAt m.recipe.step m said s e
          (say_done-IsAt m.recipe.step m m1 waits (refl, refl, refl, refl, refl)) in
      rw (not-answers_itself m e h, h) (by_done e.done _ _ goes_on)
    where
      by_done :
          (b : Bool) (x y : Machine W H)
          → IsAt m.recipe.step m y
          → IsAt m.recipe.step m (if b && true then hold_here m else if b then x else y)
      by_done true x y g = hold_here-IsAt m
      by_done false x y g = g

  follow_step-IsAt :
      (parts : Parts W) (m : Machine W H) (s : RecipeStep W) (e : Ending W) (now : W)
      → is_marked m 1 ≡ true
      → IsAt m.recipe.step m (follow_step parts m s e now)
  unfolding follow_step start_clock
  follow_step-IsAt parts m s e now h =
      let At : Machine W H → Type 0 = IsAt m.recipe.step m in
      let here : At m = (refl, refl, refl, refl, refl) in
      let gives = give_way-IsAt parts m now h in
      if_ind At (is_mode_step s.mode)
        (λ _. if_ind At (is_past s.mode m.base.mode) (λ _. gives) (λ _. here))
        (λ _.
          if_ind At (not (mode_eq m.base.mode s.mode)) (λ _. here)
            (λ _.
              if_ind At e.is_empty (λ _. gives)
                (λ _.
                  if_ind At ((now -ᵈ m.recipe.last_eval) <ᵈ d.lit 1 1) (λ _. here)
                    (λ _. judge_end-IsAt parts (start_clock m s now) s e now h))))

  latched-IsAt :
      (parts : Parts W) (m : Machine W H) (s : RecipeStep W) (e : Ending W) (now : W)
      → is_marked m 1 ≡ true
      → IsAt m.recipe.step m (follow_step parts (latch_lid m e) s e now)
  unfolding latch_lid
  latched-IsAt parts m s e now h =
      if_ind (λ (x : Machine W H). IsAt m.recipe.step m (follow_step parts x s e now))
        (m.base.lid_open && not m.recipe.lid_seen && e.mentions_lid)
        (λ _.
          follow_step-IsAt parts (with_recipe m (record (m.recipe) { lid_seen = true })) s e now h)
        (λ _. follow_step-IsAt parts m s e now h)

  follow_steps-IsAt :
      (parts : Parts W) (m : Machine W H) (l : List (RecipeStep W)) (e : Ending W) (now : W)
      → is_marked m 1 ≡ true
      → IsAt m.recipe.step m (follow_steps parts m l e now)
  unfolding follow_steps
  follow_steps-IsAt parts m [] e now h = (refl, refl, refl, refl, refl)
  follow_steps-IsAt parts m (s ∷ rest) e now h = latched-IsAt parts m s e now h

  -- A step that the cook marked for a pause is never left by the run itself, whatever its condition says:
  -- but for an error, which ends the recipe, it goes on at that step, keeps its marks, and touches neither
  -- the mode nor the outputs.
  pub pause_kept :
      (parts : Parts W) (m : Machine W H) (e : Ending W) (now : W)
      → is_marked m 1 ≡ true
      → mode_eq m.base.mode error ≡ false
      → IsAt m.recipe.step m (follow_recipe parts m e now)
  unfolding follow_recipe
  pause_kept parts m e now h g =
      let At : Machine W H → Type 0 = IsAt m.recipe.step m in
      if_ind At (not m.recipe.active) (λ _. (refl, refl, refl, refl, refl))
        (λ _. rw g (follow_steps-IsAt parts m (drop m.recipe.step m.recipe.steps) e now h))
