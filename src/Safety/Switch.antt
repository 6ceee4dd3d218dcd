-- ===== src/Safety/Switch.antt =====
-- src/core/safety.c: what one write to an output, and a flame-out, do to the outputs.
use pifire_c.Common.{◌≡◌, arith, ◌⊎◌, Bool, true, false}
use pifire_c.Common.Int.{is_pos, pred}
use pifire_c.Common.Float.{Double}
use pifire_c.Mode.{Output, output_eq_sound, igniter, reignite, error}
use pifire_c.Outputs
use pifire_c.Outputs.{Platform}
use pifire_c.Outputs.Laws.{get-set}
use pifire_c.Grill.{Control}
use pifire_c.Safety.{switch, flameout}

module _ {W H : Type 0} ⦃d : Double W⦄ ⦃ops : Platform H⦄ where
  -- the daemon holds that the output is on
  abbrev pub on : Control W H → Output → Bool
  on c o = Outputs.get (c.outputs) o

  pub on-switch_off :
      (c : Control W H) (o p : Output) → on (switch c o false) p ≡ true → on c p ≡ true
  on-switch_off c o p h = ground (arith, get-set c.outputs o false p)

  pub on-switch_on :
      (c : Control W H) (o p : Output) → on (switch c o true) p ≡ true → (on c p ≡ true) ⊎ (p ≡ o)
  on-switch_on c o p h = ground (arith, get-set c.outputs o true p, output_eq_sound o p)

  pub on-flameout : (c : Control W H) (p : Output) → on (flameout c).0 p ≡ true → on c p ≡ true
  unfolding flameout
  on-flameout c p h = ground (arith, get-set c.outputs igniter false p)

  -- What `flameout` answers: a relight, which uses up one of the tries left, or the error.
  pub flameout_outcome :
      (c : Control W H)
      → let (c', m) = flameout c in
        ((m ≡ reignite)
          × (c.cfg.relight_enabled ≡ true)
          × (is_pos c.safety.reignite_retries_left ≡ true)
          × (c'.safety.reignite_retries_left ≡ pred c.safety.reignite_retries_left)
          × (c'.safety.reignite_last ≡ c.mode))
        ⊎ ((m ≡ error)
            × (c'.safety.error_code ≡ "E02_FLAMEOUT")
            × ((c.cfg.relight_enabled ≡ false) ⊎ (is_pos c.safety.reignite_retries_left ≡ false))
            × (c'.safety.reignite_retries_left ≡ c.safety.reignite_retries_left))
  unfolding flameout
  flameout_outcome c = ground arith
