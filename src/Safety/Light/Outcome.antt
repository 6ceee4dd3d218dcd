-- ===== src/Safety/Light/Outcome.antt =====
-- src/core/safety.c, Smart Start: what a tick of a light answers, and what proves a fire.
use pifire_c.Common.{◌≡◌, arith, ◌⊎◌, true, false, none, some, if◌then◌else◌}
use pifire_c.Common.Float.{Double, ◌<ᵈ◌, ◌≤ᵈ◌, ◌==ᵈ◌, ◌+ᵈ◌, ◌-ᵈ◌, nought}
use pifire_c.Mode.{Output, auger, igniter, error}
use pifire_c.Outputs.{Platform}
use pifire_c.Outputs.Laws.{get-set}
use pifire_c.Grill.{Cfg, Safety, Control}
use pifire_c.Safety.{switch}
use pifire_c.Safety.Switch.{on}
use pifire_c.Safety.Light.{
  light, prove, prove_flat, prove_rise, track_low, track_flat, prove_hold_s, hot_delta_c,
  hot_flat_s, ambient_or_20,
}

module _ {W : Type 0} ⦃d : Double W⦄ where
  -- What proves a fire in one tick: the rise, held, or a hot pit that does not cool. The readings
  -- are those that the tick leaves.
  abbrev pub RiseHeld : Cfg W → Safety W → Safety W → W → Type 0
  RiseHeld cfg s s' now =
      (((s'.ss_baseline_c +ᵈ cfg.ss_prove_rise_c) ≤ᵈ s.filt_c) ≡ true)
      × ((s.ss_above_since ==ᵈ nought) ≡ false)
      × ((prove_hold_s ≤ᵈ (now -ᵈ s.ss_above_since)) ≡ true)
      × (s'.ss_deadline ≡ now +ᵈ cfg.ss_prove_s)

  abbrev pub HotHeld : W → Safety W → Safety W → W → Type 0
  HotHeld amb s s' now =
      ((hot_delta_c ≤ᵈ (s.filt_c -ᵈ ambient_or_20 amb)) ≡ true)
      × ((hot_flat_s ≤ᵈ (now -ᵈ s'.ss_flat_t)) ≡ true)
      × (s'.ss_held ≡ true)
      × (s'.ss_deadline ≡ s.ss_deadline)

  -- what each stage leaves alone
  abbrev SameLight : Safety W → Safety W → Type 0
  SameLight s s' = (s'.igniter_locked_out ≡ s.igniter_locked_out) × (s'.filt_c ≡ s.filt_c)

  pub track_low_lem :
      (s : Safety W)
      → SameLight s (track_low s)
        × ((track_low s).ss_proven ≡ s.ss_proven)
        × ((track_low s).ss_above_since ≡ s.ss_above_since)
        × ((track_low s).ss_deadline ≡ s.ss_deadline)
        × ((track_low s).reignite_retries_left ≡ s.reignite_retries_left)
  unfolding track_low
  track_low_lem s = ground arith

  pub prove_rise_lem :
      (cfg : Cfg W) (s : Safety W) (now : W)
      → s.ss_proven ≡ false
      → SameLight s (prove_rise cfg s now)
        × ((prove_rise cfg s now).ss_baseline_c ≡ s.ss_baseline_c)
        × ((((prove_rise cfg s now).ss_proven ≡ false)
              × ((prove_rise cfg s now).ss_deadline ≡ s.ss_deadline))
            ⊎ (((prove_rise cfg s now).ss_proven ≡ true)
                × RiseHeld cfg s (prove_rise cfg s now) now))
  unfolding prove_rise
  prove_rise_lem cfg s now h = ground arith

  kept-prove_rise :
      (cfg : Cfg W) (s : Safety W) (now : W)
      → ((prove_rise cfg s now).reignite_retries_left ≡ s.reignite_retries_left)
        × ((prove_rise cfg s now).igniter_locked_out ≡ s.igniter_locked_out)
  unfolding prove_rise
  kept-prove_rise cfg s now = ground arith

  pub track_flat_lem :
      (s : Safety W) (now : W)
      → SameLight s (track_flat s now)
        × ((track_flat s now).ss_proven ≡ s.ss_proven)
        × ((track_flat s now).ss_baseline_c ≡ s.ss_baseline_c)
        × ((track_flat s now).ss_deadline ≡ s.ss_deadline)
        × ((track_flat s now).reignite_retries_left ≡ s.reignite_retries_left)
  unfolding track_flat
  track_flat_lem s now = ground arith

  pub prove_flat_lem :
      (amb : W) (s : Safety W) (now : W)
      → SameLight s (prove_flat amb s now)
        × ((prove_flat amb s now).ss_baseline_c ≡ s.ss_baseline_c)
        × ((prove_flat amb s now).reignite_retries_left ≡ s.reignite_retries_left)
        × (((prove_flat amb s now) ≡ s)
            ⊎ ((s.ss_proven ≡ false) × HotHeld amb s (prove_flat amb s now) now))
  unfolding prove_flat
  prove_flat_lem amb s now = ground arith

  kept-prove :
      (cfg : Cfg W) (amb : W) (s : Safety W) (now : W)
      → ((prove cfg amb s now).reignite_retries_left ≡ s.reignite_retries_left)
        × ((prove cfg amb s now).igniter_locked_out ≡ s.igniter_locked_out)
  unfolding prove
  kept-prove cfg amb s now = ground (
    arith,
    track_low_lem s,
    kept-prove_rise cfg (track_low s) now,
    track_flat_lem (prove_rise cfg (track_low s) now) now,
    prove_flat_lem amb (track_flat (prove_rise cfg (track_low s) now) now) now,
  )

  -- what a tick that proves a fire has found
  pub prove_cause :
      (cfg : Cfg W) (amb : W) (s : Safety W) (now : W)
      → s.ss_proven ≡ false
      → (prove cfg amb s now).ss_proven ≡ true
      → RiseHeld cfg s (prove cfg amb s now) now ⊎ HotHeld amb s (prove cfg amb s now) now
  unfolding prove
  prove_cause cfg amb s now h k = ground (
    arith,
    track_low_lem s,
    prove_rise_lem cfg (track_low s) now,
    track_flat_lem (prove_rise cfg (track_low s) now) now,
    prove_flat_lem amb (track_flat (prove_rise cfg (track_low s) now) now) now,
  )

module _ {W H : Type 0} ⦃d : Double W⦄ ⦃ops : Platform H⦄ where
  pub on-light :
      (c : Control W H) (now : W) (p : Output) → on (light c now).0 p ≡ true → on c p ≡ true
  unfolding light
  on-light c now p h = ground (
    arith,
    get-set c.outputs auger false p,
    get-set (switch c auger false).outputs igniter false p,
  )

  -- A tick of a light fails the start exactly when the deadline, as the tick leaves it, has passed.
  pub light_outcome :
      (c : Control W H) (now : W)
      → ((light c now).1 ≡ (if (light c now).0.safety.ss_deadline <ᵈ now then some error else none))
        × ((light c now).0.safety.reignite_retries_left ≡ c.safety.reignite_retries_left)
  unfolding light
  light_outcome c now = ground (arith, kept-prove c.cfg c.ambient_c c.safety now)

  pub light_code :
      (c : Control W H) (now : W)
      → (light c now).1 ≡ some error
      → (light c now).0.safety.error_code ≡ "E04_STARTUP_FAILED"
  unfolding light
  light_code c now h = ground arith

  pub locked-light :
      (c : Control W H) (now : W)
      → (light c now).0.safety.igniter_locked_out ≡ c.safety.igniter_locked_out
  unfolding light
  locked-light c now = ground (arith, kept-prove c.cfg c.ambient_c c.safety now)
