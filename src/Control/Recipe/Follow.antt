-- ===== src/Control/Recipe/Follow.antt =====
-- src/core/control.c, `run_recipe`, `recipe_hold_here` and `recipe_aftercare`: following a recipe. What
-- the condition tree of the step says is the parameter `Ending`; what is shown of its clocks and the
-- alarm of a fire that is left are left out.
pub mod Pause
use pifire_c.Common.{
  ℕ, Bool, true, false, not, ◌&&◌, ◌||◌, List, [], ◌∷◌, drop, ltb, ◌==◌, if◌then◌else◌,
}
use pifire_c.Common.Float.{Double, ◌<ᵈ◌, ◌≤ᵈ◌, ◌-ᵈ◌, nought}
use pifire_c.Mode.{Mode, stop, prime, startup, reignite, hold, shutdown, error, mode_eq, is_firing}
use pifire_c.Outputs.{Platform}
use pifire_c.Control.{Machine, Parts, RecipeStep, emit}
use pifire_c.Control.Recipe.{advance, with_recipe}

-- What the condition of the step that runs says: that it asks about the lid, or the prompt or the lid,
-- that there is none, that it holds, that it would if the cook had answered, that it does once the step
-- has answered its own prompt, and how long it will take.
pub record Ending (W : Type 0) : Type 0 where
  pub mentions_lid : Bool
  pub wants_prompt : Bool
  pub is_empty : Bool
  pub done : Bool
  pub done_but_cook : Bool
  pub done_again : Bool
  pub eta_s : W

module _ {W : Type 0} where
  -- done but for the cook
  abbrev pub is_ready : Ending W → Bool
  is_ready e = e.done || (e.wants_prompt && e.done_but_cook)

-- the steps that are about the grill's own mode, and when they are over
abbrev pub is_mode_step : Mode → Bool
is_mode_step startup = true
is_mode_step shutdown = true
is_mode_step stop = true
is_mode_step _ = false

abbrev pub is_past : Mode → Mode → Bool
is_past startup md = not (mode_eq md startup) && not (mode_eq md reignite) && not (mode_eq md prime)
is_past shutdown md = mode_eq md stop
is_past _ md = true

module _ {W H : Type 0} where
  -- the cook's mark on the step that runs
  abbrev pub is_marked : Machine W H → ℕ → Bool
  is_marked m n = ltb m.recipe.step 16 && m.recipe.flags m.recipe.step == n

  -- the lid is latched the moment it is opened
  pub latch_lid : Machine W H → Ending W → Machine W H
  latch_lid m e =
      if m.base.lid_open && not m.recipe.lid_seen && e.mentions_lid
      then with_recipe m (record (m.recipe) { lid_seen = true })
      else m

  -- said once
  pub say_done : Machine W H → Machine W H
  say_done m =
      if not m.recipe.said
      then record m {
        recipe = record (m.recipe) { said = true };
        base = record (m.base) { events = "Recipe_Step_Done" ∷ m.base.events };
      }
      else m

  pub hold_here : Machine W H → Machine W H
  unfolding say_done
  hold_here m = say_done (with_recipe m (record (m.recipe) { waiting = true }))

module _ {W H : Type 0} ⦃d : Double W⦄ ⦃ops : Platform H⦄ where
  -- the step ends, unless the cook asked the run to pause here
  pub give_way : Parts W → Machine W H → W → Machine W H
  unfolding hold_here
  give_way parts m now = if is_marked m 1 then hold_here m else advance parts m now

  -- the clock of a Hold starts when the pit gets there; the question is asked once a second
  pub start_clock : Machine W H → RecipeStep W → W → Machine W H
  start_clock m s now = with_recipe m (record (m.recipe) {
    last_eval = now;
    at_temp_since =
        if mode_eq s.mode hold
          && m.recipe.at_temp_since ≤ᵈ nought
          && mode_eq m.base.mode hold
          && m.base.target_reached
        then now
        else m.recipe.at_temp_since;
  })

  -- the warning before the end
  pub warn_soon : Machine W H → RecipeStep W → Ending W → Machine W H
  warn_soon m s e =
      if not m.recipe.lead_fired
        && nought <ᵈ s.lead_s
        && not m.recipe.waiting
        && nought ≤ᵈ e.eta_s
        && e.eta_s ≤ᵈ s.lead_s
      then record m {
        recipe = record (m.recipe) { lead_fired = true };
        base = record (m.base) { events = "Recipe_Step_Soon" ∷ m.base.events };
      }
      else m

  -- a step marked to continue on its own answers its prompt
  abbrev pub answers_itself : Machine W H → Ending W → Bool
  answers_itself m e =
      is_ready e && not e.done && e.wants_prompt && not m.recipe.prompt_given && is_marked m 3

  pub judge_end : Parts W → Machine W H → RecipeStep W → Ending W → W → Machine W H
  unfolding hold_here say_done warn_soon
  judge_end parts m s e now =
      let done = if answers_itself m e then e.done_again else e.done in
      let m1 = with_recipe m (record (m.recipe) {
        prompt_given = answers_itself m e || m.recipe.prompt_given;
        waiting = is_ready e && not done;
      }) in
      let m2 = warn_soon (if is_ready e && not done then say_done m1 else m1) s e in
      if e.done && is_marked m 1 then hold_here m else if done then advance parts m2 now else m2

  pub follow_step : Parts W → Machine W H → RecipeStep W → Ending W → W → Machine W H
  unfolding give_way start_clock judge_end
  follow_step parts m s e now =
      if is_mode_step s.mode
      then (if is_past s.mode m.base.mode then give_way parts m now else m)
      else if not (mode_eq m.base.mode s.mode)
      then m
      else if e.is_empty
      then give_way parts m now
      else if (now -ᵈ m.recipe.last_eval) <ᵈ d.lit 1 1
      then m
      else judge_end parts (start_clock m s now) s e now

  -- the step that the number names, if the recipe has it
  pub follow_steps : Parts W → Machine W H → List (RecipeStep W) → Ending W → W → Machine W H
  unfolding follow_step latch_lid
  follow_steps parts m [] e now = m
  follow_steps parts m (s ∷ rest) e now = follow_step parts (latch_lid m e) s e now

  -- `run_recipe`; an error ends the recipe
  unfoldable pub follow_recipe : Parts W → Machine W H → Ending W → W → Machine W H
  unfolding follow_steps
  follow_recipe parts m e now =
      if not m.recipe.active
      then m
      else if mode_eq m.base.mode error
      then with_recipe m (record (m.recipe) { active = false })
      else follow_steps parts m (drop m.recipe.step m.recipe.steps) e now

  -- a fire that a recipe left is no question once it is out
  unfoldable pub aftercare : Machine W H → Machine W H
  aftercare m =
      if m.recipe.left_running && not (is_firing m.base.mode)
      then with_recipe m (record (m.recipe) { left_running = false })
      else m
