-- ===== src/Safety/Light.antt =====
-- src/core/safety.c, `pf_safety_tick` part 3: Smart Start, while the grill lights or relights.
pub mod Outcome
pub mod Proof
use pifire_c.Common.{Bool, true, false, not, ◌&&◌, ◌||◌, Option, none, some, if◌then◌else◌}
use pifire_c.Common.Float.{Double, ◌<ᵈ◌, ◌≤ᵈ◌, ◌==ᵈ◌, ◌+ᵈ◌, ◌-ᵈ◌, nought}
use pifire_c.Mode.{Mode, auger, igniter, error}
use pifire_c.Outputs.{Platform}
use pifire_c.Grill.{Cfg, Safety, Control}
use pifire_c.Safety.{switch, set_error}

module _ {W : Type 0} ⦃d : Double W⦄ where
  abbrev pub prove_hold_s : W
  prove_hold_s = d.lit 15 1

  abbrev pub hot_delta_c : W
  hot_delta_c = d.lit 833 10

  abbrev pub hot_flat_s : W
  hot_flat_s = d.lit 120 1

  abbrev pub hot_slip_c : W
  hot_slip_c = d.lit 56 100

  -- the air outside, 20 C where it is not known
  abbrev pub ambient_or_20 : W → W
  ambient_or_20 ambient = if d.is_nan ambient then d.lit 20 1 else ambient

  -- the lowest filtered pit since the light began
  unfoldable pub track_low : Safety W → Safety W
  track_low s = record s {
    ss_baseline_c =
        if d.is_nan s.ss_baseline_c || s.filt_c <ᵈ s.ss_baseline_c
        then s.filt_c
        else s.ss_baseline_c;
  }

  -- the rise over it, held
  unfoldable pub prove_rise : Cfg W → Safety W → W → Safety W
  prove_rise cfg s now =
      if (s.ss_baseline_c +ᵈ cfg.ss_prove_rise_c) ≤ᵈ s.filt_c
      then (if s.ss_above_since ==ᵈ nought
          then record s { ss_above_since = now }
          else if prove_hold_s ≤ᵈ (now -ᵈ s.ss_above_since)
          then record s { ss_proven = true; ss_deadline = now +ᵈ cfg.ss_prove_s }
          else s)
      else record s { ss_above_since = nought }

  -- the lowest reading, and since when it has not slipped
  unfoldable pub track_flat : Safety W → W → Safety W
  track_flat s now =
      if s.filt_c <ᵈ (s.ss_flat_c -ᵈ hot_slip_c) || s.ss_flat_t ==ᵈ nought
      then record s { ss_flat_c = s.filt_c; ss_flat_t = now }
      else s

  -- the hot-pit proof: a reading that has stopped moving down
  unfoldable pub prove_flat : W → Safety W → W → Safety W
  prove_flat ambient s now =
      if not s.ss_proven
        && hot_delta_c ≤ᵈ (s.filt_c -ᵈ ambient_or_20 ambient)
        && hot_flat_s ≤ᵈ (now -ᵈ s.ss_flat_t)
      then record s { ss_proven = true; ss_held = true }
      else s

  unfoldable pub prove : Cfg W → W → Safety W → W → Safety W
  prove cfg ambient s now =
      if s.ss_proven
      then s
      else prove_flat ambient (track_flat (prove_rise cfg (track_low s) now) now) now

module _ {W H : Type 0} ⦃d : Double W⦄ ⦃ops : Platform H⦄ where
  -- no rise in the time, or a small rise that never became a fire
  abbrev pub failed_start : Control W H → Control W H
  failed_start c = set_error (switch (switch c auger false) igniter false) "E04_STARTUP_FAILED"

  unfoldable pub light : Control W H → W → Control W H × Option Mode
  light c now =
      let c1 = record c { safety = prove c.cfg c.ambient_c c.safety now } in
      if c1.safety.ss_deadline <ᵈ now then (failed_start c1, some error) else (c1, none)
