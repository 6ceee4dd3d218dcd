-- ===== src/Control/Recipe.antt =====
-- src/core/control.c: the steps of a recipe, begun, ended and skipped. Going to a step walks over the
-- steps that the cook marked to be skipped, so it is a recursion on the steps that are left.
pub mod Finish
pub mod Relight
pub mod Follow
use pifire_c.Common.{
  ℕ, zero, suc, ◌+◌, Bool, true, false, not, ◌&&◌, ◌||◌, List, [], ◌∷◌, Option, none, some, drop,
  length, ltb, ◌==◌, if◌then◌else◌,
}
use pifire_c.Common.Float.{Double, ◌<ᵈ◌, nought}
use pifire_c.Mode.{
  Mode, stop, monitor, prime, startup, reignite, smoke, hold, shutdown, manual, error, mode_eq,
  is_firing,
}
use pifire_c.Outputs.{Platform}
use pifire_c.Control.{Machine, Parts, RecipeStep, RecipeRun, with_base, emit}
use pifire_c.Control.Enter.{enter_mode}
use text.Mathlib.Text.{◌==◌ as str_eq}

-- not burning under control: what is asked to burn is lit first
abbrev pub is_idle : Mode → Bool
is_idle stop = true
is_idle monitor = true
is_idle manual = true
is_idle prime = true
is_idle shutdown = true
is_idle _ = false

-- a flag of a step, of which there are sixteen
abbrev pub set_flag : (ℕ → ℕ) → ℕ → ℕ → ℕ → ℕ
set_flag flags i v j = if i == j then v else flags j

-- Smoke, unless it is Smoke or Hold
abbrev pub run_or_smoke : Mode → Mode
run_or_smoke hold = hold
run_or_smoke _ = smoke

module _ {W : Type 0} where
  -- the last step from `i` on that shuts the grill down
  pub last_shutdown : List (RecipeStep W) → ℕ → Option ℕ
  last_shutdown [] i = none
  last_shutdown (s ∷ rest) i = elim (last_shutdown rest (suc i)) [
    | some j ↦ some j
    | none ↦ if mode_eq s.mode shutdown then some i else none
  ]

  abbrev pub take_steps : ℕ → List (RecipeStep W) → List (RecipeStep W)
  take_steps zero l = []
  take_steps (suc n) [] = []
  take_steps (suc n) (a ∷ l) = a ∷ take_steps n l

module _ {W H : Type 0} where
  abbrev pub with_recipe : Machine W H → RecipeRun W → Machine W H
  with_recipe m r = record m { recipe = r }

  -- the last step has ended
  pub complete : Machine W H → Machine W H
  complete m = record m {
    base = record (m.base) { events = "Recipe_Complete" ∷ m.base.events };
    recipe = record (m.recipe) { active = false; left_running = is_firing m.base.mode };
  }

  -- the mode that a startup step finishes into
  abbrev pub after_startup : Machine W H → List (RecipeStep W) → Mode
  after_startup m [] = run_or_smoke m.conf.after_startup_mode
  after_startup m (s ∷ rest) = run_or_smoke s.mode

module _ {W H : Type 0} ⦃d : Double W⦄ ⦃ops : Platform H⦄ where
  -- what every step resets
  pub begin_clean : Machine W H → RecipeStep W → W → Machine W H
  begin_clean m s now = record m {
    recipe = record (m.recipe) {
      step_start = now;
      at_temp_since = nought;
      last_eval = nought;
      triggered = false;
      waiting = false;
      lead_fired = false;
      said = false;
      prompt_given = false;
      lid_seen = false;
    };
    base = record (m.base) {
      setpoint_c = if nought <ᵈ s.setpoint_c then s.setpoint_c else m.base.setpoint_c;
    };
    s_plus = s.s_plus;
  }

  -- a step that burns: lit first, kept for the end of a light, or entered
  pub begin_burn : Parts W → Machine W H → Mode → W → Machine W H
  begin_burn parts m to now =
      if is_idle m.base.mode
      then enter_mode parts (record m { next_mode = to }) startup now
      else if mode_eq m.base.mode startup || mode_eq m.base.mode reignite
      then record m { next_mode = to }
      else if not (mode_eq m.base.mode to)
      then enter_mode parts m to now
      else if mode_eq to hold
      then record m { ctrl_reset_needed = true; base = record (m.base) { target_reached = false } }
      else m

  pub begin_as : Parts W → Machine W H → Mode → List (RecipeStep W) → W → Machine W H
  unfolding begin_burn
  begin_as parts m startup rest now =
      let m1 = record m { next_mode = after_startup m rest } in
      if is_firing m.base.mode then m1 else enter_mode parts m1 startup now
  begin_as parts m smoke rest now = begin_burn parts m smoke now
  begin_as parts m hold rest now = begin_burn parts m hold now
  begin_as parts m shutdown rest now = enter_mode parts m shutdown now
  begin_as parts m stop rest now = enter_mode parts m stop now
  begin_as parts m _ rest now = m

  abbrev pub is_skipped : Machine W H → Bool
  is_skipped m = ltb m.recipe.step 16 && m.recipe.flags m.recipe.step == 2

  -- `recipe_begin_step` at the steps that are left from `recipe.step` on
  pub begin_steps : Parts W → Machine W H → List (RecipeStep W) → W → Machine W H
  unfolding complete begin_clean begin_as
  begin_steps parts m [] now = complete m
  begin_steps parts m (s ∷ rest) now =
      let skipped = record m {
        recipe = record (m.recipe) {
          flags = set_flag m.recipe.flags m.recipe.step 0;
          said = true;
          step = m.recipe.step + 1;
        };
      } in
      let on = begin_steps parts skipped rest now in
      if is_skipped m then on else begin_as parts (begin_clean m s now) s.mode rest now

  pub begin_step : Parts W → Machine W H → W → Machine W H
  unfolding begin_steps
  begin_step parts m now = begin_steps parts m (drop m.recipe.step m.recipe.steps) now

  -- the message of a step is said as it gives way, if it was not said before
  abbrev pub say_message : Machine W H → List (RecipeStep W) → Machine W H
  say_message m [] = m
  say_message m (s ∷ rest) =
      if not (str_eq s.message "") && not m.recipe.said then emit m "Recipe_Step_Message" else m

  pub advance : Parts W → Machine W H → W → Machine W H
  unfolding begin_steps
  advance parts m now =
      let m1 = say_message m (drop m.recipe.step m.recipe.steps) in
      let m2 = record m1 { recipe = record (m1.recipe) { step = m1.recipe.step + 1 } } in
      begin_steps parts m2 (drop m2.recipe.step m2.recipe.steps) now

  -- `recipe_finish_now`
  pub finish_now : Parts W → Machine W H → W → Machine W H
  unfolding last_shutdown begin_step
  finish_now parts m now = elim (last_shutdown (drop m.recipe.step m.recipe.steps) m.recipe.step) [
    | none ↦
        enter_mode parts
          (with_recipe m (record (m.recipe) { active = false; left_running = false })) shutdown now
    | some fin ↦
        begin_step parts
          (with_recipe m (record (m.recipe) {
            steps = take_steps (fin + 1) m.recipe.steps;
            step = fin;
            flags = if ltb fin 16 then set_flag m.recipe.flags fin 0 else m.recipe.flags;
          }))
          now
  ]
