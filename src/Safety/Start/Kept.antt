-- ===== src/Safety/Start/Kept.antt =====
-- src/core/safety.c: entering and leaving a light or a run leaves the tries to relight alone, and
-- what a light that was entered shows.
use pifire_c.Common.{◌≡◌, refl}
use pifire_c.Common.Float.{Double}
use pifire_c.Mode.{Mode}
use pifire_c.Grill.{Control}
use pifire_c.Safety.Start.{reset, on_startup_enter, on_startup_exit, on_run_enter}

module _ {W H : Type 0} ⦃d : Double W⦄ where
  pub tries-on_startup_enter :
      (c : Control W H) (now : W)
      → (on_startup_enter c now).safety.reignite_retries_left ≡ c.safety.reignite_retries_left
  unfolding on_startup_enter
  tries-on_startup_enter c now = refl

  pub tries-on_startup_exit :
      (c : Control W H) (now : W)
      → (on_startup_exit c now).safety.reignite_retries_left ≡ c.safety.reignite_retries_left
  unfolding on_startup_exit
  tries-on_startup_exit c now = refl

  pub tries-on_run_enter :
      (c : Control W H) (prev : Mode) (now : W)
      → (on_run_enter c prev now).safety.reignite_retries_left ≡ c.safety.reignite_retries_left
  unfolding on_run_enter
  tries-on_run_enter c prev now = refl

  -- none of them touches an output
  pub outputs-reset : (c : Control W H) → (reset c).outputs ≡ c.outputs
  unfolding reset
  outputs-reset c = refl

  pub outputs-on_startup_enter :
      (c : Control W H) (now : W) → (on_startup_enter c now).outputs ≡ c.outputs
  unfolding on_startup_enter
  outputs-on_startup_enter c now = refl

  pub outputs-on_run_enter :
      (c : Control W H) (prev : Mode) (now : W) → (on_run_enter c prev now).outputs ≡ c.outputs
  unfolding on_run_enter
  outputs-on_run_enter c prev now = refl
