-- ===== src/Control/Recipe/Relight.antt =====
-- src/core/control.c, `recipe_begin_step` and the end of a light in `run_mode`: a step that burns, begun
-- during a relight.
use pifire_c.Common.{◌≡◌, refl, ◌∙◌, ap, arith, true, false, List, ◌∷◌}
use pifire_c.Common.Float.{Double}
use pifire_c.Mode.{Mode, smoke, hold, reignite}
use pifire_c.Outputs.{Platform}
use pifire_c.Safety.Start.{startup_done}
use pifire_c.Control.{Machine, Parts, RecipeStep}
use pifire_c.Control.Enter.Entered.{mode-enter_mode}
use pifire_c.Control.Recipe.{
  begin_steps, begin_as, begin_burn, begin_clean, is_skipped, run_or_smoke,
}
use pifire_c.Control.Request.{is_run}
use pifire_c.Control.Run.Timed.{end_mode, end_light}

module _ {W H : Type 0} ⦃d : Double W⦄ ⦃ops : Platform H⦄ where
  -- beginning the step leaves the light and what it goes on to
  begin_relit :
      (parts : Parts W) (m : Machine W H) (to : Mode) (rest : List (RecipeStep W)) (now : W)
      → is_run to ≡ true
      → m.base.mode ≡ reignite
      → (begin_as parts m to rest now).base ≡ m.base
  unfolding begin_as begin_burn
  begin_relit parts m smoke rest now r e = rw e refl
  begin_relit parts m hold rest now r e = rw e refl
  begin_relit parts m _ rest now r e = absurd (ground arith)

  end_relight :
      (parts : Parts W) (m : Machine W H) (now : W)
      → m.base.mode ≡ reignite
      → startup_done m.base ≡ true
      → (end_mode reignite parts m now).base.mode ≡ run_or_smoke m.base.safety.reignite_last
  unfolding end_mode end_light
  end_relight parts m now e t = rw (t, e) (mode-enter_mode parts _ _ now)

  begin_steps_relit :
      (parts : Parts W) (m : Machine W H) (s : RecipeStep W) (rest : List (RecipeStep W)) (now : W)
      → is_run s.mode ≡ true
      → m.base.mode ≡ reignite
      → is_skipped m ≡ false
      → (begin_steps parts m (s ∷ rest) now).base ≡ (begin_clean m s now).base
  unfolding begin_steps begin_clean
  begin_steps_relit parts m s rest now r e n =
      rw n (begin_relit parts (begin_clean m s now) s.mode rest now r e)

  pub relit_kept :
      (parts : Parts W) (m : Machine W H) (s : RecipeStep W) (rest : List (RecipeStep W)) (now : W)
      → is_run s.mode ≡ true
      → m.base.mode ≡ reignite
      → is_skipped m ≡ false
      → let m1 = begin_steps parts m (s ∷ rest) now in
        (m1.base.mode ≡ m.base.mode)
        × (m1.base.safety.reignite_last ≡ m.base.safety.reignite_last)
        × (m1.base.outputs ≡ m.base.outputs)
  unfolding begin_clean
  relit_kept parts m s rest now r e n =
      let begun = begin_steps_relit parts m s rest now r e n in
      (ap (λ c. c.mode) begun, ap (λ c. c.safety.reignite_last) begun, ap (λ c. c.outputs) begun)

  -- A later state, still in the mode and with the interrupted mode as noted, which finds the fire proven
  abbrev pub LightEnds : Machine W H → Machine W H → Type 0
  LightEnds m later =
      (later.base.mode ≡ m.base.mode)
      × (later.base.safety.reignite_last ≡ m.base.safety.reignite_last)
      × (startup_done later.base ≡ true)

  -- A recipe's step of Smoke or Hold that is begun during a relight is not where the relight ends: beginning
  -- it leaves the grill lighting, with its outputs and the interrupted mode as they were, and in any later
  -- turn that finds the fire proven, the grill still relighting and the interrupted mode still noted, the
  -- mode becomes the interrupted one, whichever the step is for.
  pub recipe_relight_missed :
      (parts : Parts W) (m later : Machine W H) (s : RecipeStep W) (rest : List (RecipeStep W))
      (now now' : W)
      → is_run s.mode ≡ true
      → m.base.mode ≡ reignite
      → is_skipped m ≡ false
      → LightEnds (begin_steps parts m (s ∷ rest) now) later
      → ((begin_steps parts m (s ∷ rest) now).base.mode ≡ reignite)
        × ((begin_steps parts m (s ∷ rest) now).base.outputs ≡ m.base.outputs)
        × ((end_mode reignite parts later now').base.mode
            ≡ run_or_smoke m.base.safety.reignite_last)
  recipe_relight_missed parts m later s rest now now' r e n (md, last, t) =
      let (mode, from, outputs) = relit_kept parts m s rest now r e n in
      (
        mode ∙ e,
        outputs,
        end_relight parts later now' (md ∙ mode ∙ e) t ∙ ap run_or_smoke (last ∙ from),
      )
