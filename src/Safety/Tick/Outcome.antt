-- ===== src/Safety/Tick/Outcome.antt =====
-- src/core/safety.c, `pf_safety_tick`: what a tick answers, and why.
use pifire_c.Common.{◌≡◌, arith, ◌⊎◌, true, false, Option, none, some}
use pifire_c.Common.Float.{Double, ◌<ᵈ◌, ◌==ᵈ◌, ◌-ᵈ◌, nought}
use pifire_c.Mode.{Mode, is_firing, error, reignite}
use pifire_c.Outputs.{Platform}
use pifire_c.Grill.{Control}
use pifire_c.Safety.Light.Outcome.{light_outcome, light_code}
use pifire_c.Safety.Supervise.Outcome.{FallStood, Relit, NoTry, Stalled, supervise-Answer}
use pifire_c.Safety.Tick.{
  tick, tick_reading, by_mode, cap_igniter, no_reading, filter_pit, note_jump, leave_run, running,
  lighting, too_hot,
}

module _ {W H : Type 0} ⦃d : Double W⦄ ⦃ops : Platform H⦄ where
  -- What a tick that can read the pit may answer, and what stands behind the answer.
  abbrev pub Judged : Control W H → W → Control W H × Option Mode → Type 0
  Judged c now r =
      ((r.1 ≡ none)
        × (r.0.safety.reignite_retries_left ≡ c.safety.reignite_retries_left)
        × ((lighting c ≡ false) ⊎ ((r.0.safety.ss_deadline <ᵈ now) ≡ false)))
      ⊎ ((r.1 ≡ some reignite) × (running c ≡ true) × FallStood c now × Relit c r.0)
      ⊎ ((r.1 ≡ some error)
          × (r.0.safety.reignite_retries_left ≡ c.safety.reignite_retries_left)
          × (((r.0.safety.error_code ≡ "E02_FLAMEOUT")
                × (running c ≡ true)
                × FallStood c now
                × NoTry c)
              ⊎ ((r.0.safety.error_code ≡ "E04_STARTUP_FAILED")
                  × (((lighting c ≡ true) × ((r.0.safety.ss_deadline <ᵈ now) ≡ true))
                      ⊎ ((running c ≡ true) × Stalled c now)))))

  -- the pit could not be read for longer than a fire may go without
  abbrev pub BlindTooLong : Control W H → W → Type 0
  BlindTooLong c now =
      (is_firing c.mode ≡ true)
      × (c.pit_valid ≡ false)
      × ((c.safety.primary_invalid_since ==ᵈ nought) ≡ false)
      × ((c.cfg.probe_fault_s <ᵈ (now -ᵈ c.safety.primary_invalid_since)) ≡ true)

  -- the pit cannot be read, and has not been for that long
  abbrev pub BlindYet : Control W H → W → Type 0
  BlindYet c now =
      (is_firing c.mode ≡ true)
      × (c.pit_valid ≡ false)
      × (((c.safety.primary_invalid_since ==ᵈ nought) ≡ true)
          ⊎ ((c.cfg.probe_fault_s <ᵈ (now -ᵈ c.safety.primary_invalid_since)) ≡ false))

  -- What a tick may answer while the pit is not over its limit.
  abbrev pub Read : Control W H → W → Control W H × Option Mode → Type 0
  Read c now r =
      Judged c now r
      ⊎ ((r.1 ≡ none)
          × (r.0.safety.reignite_retries_left ≡ c.safety.reignite_retries_left)
          × BlindYet c now)
      ⊎ ((r.1 ≡ some error)
          × (r.0.safety.reignite_retries_left ≡ c.safety.reignite_retries_left)
          × (r.0.safety.error_code ≡ "E05_PROBE_FAULT")
          × BlindTooLong c now)

  -- What any tick may answer.
  abbrev pub Verdict : Control W H → W → Control W H × Option Mode → Type 0
  Verdict c now r =
      ((too_hot c ≡ true)
        × (r.1 ≡ some error)
        × (r.0.safety.error_code ≡ "E01_OVERTEMP")
        × (r.0.safety.reignite_retries_left ≡ c.safety.reignite_retries_left))
      ⊎ ((too_hot c ≡ false) × Read c now r)

  filter_pit_kept :
      (c : Control W H) (now : W)
      → is_firing c.mode ≡ true
      → let c' = filter_pit c now in
        (c'.mode ≡ c.mode)
        × (c'.pit_valid ≡ c.pit_valid)
        × (c'.cfg ≡ c.cfg)
        × (c'.safety.ss_active ≡ c.safety.ss_active)
        × (c'.safety.fall_since ≡ c.safety.fall_since)
        × (c'.safety.established ≡ c.safety.established)
        × (c'.safety.progress_t ≡ c.safety.progress_t)
        × (c'.safety.primary_invalid_since ≡ c.safety.primary_invalid_since)
        × (c'.safety.reignite_retries_left ≡ c.safety.reignite_retries_left)
  unfolding filter_pit note_jump
  filter_pit_kept c now h = ground arith

  by_mode-Judged : (c : Control W H) (now : W) → Judged c now (by_mode c now)
  unfolding by_mode leave_run
  by_mode-Judged c now =
      ground (arith, light_outcome c now, light_code c now, supervise-Answer c now)

  idle_lem :
      (c : Control W H) (now : W)
      → is_firing c.mode ≡ false
      → let r = by_mode (filter_pit c now) now in
        (r.1 ≡ none)
        × (r.0.safety.reignite_retries_left ≡ c.safety.reignite_retries_left)
        × (lighting c ≡ false)
  unfolding by_mode leave_run filter_pit
  idle_lem c now h = ground arith

  -- the verdict of the later state reads back as one of the state before the filter
  filtered-Judged :
      (c : Control W H) (now : W)
      → is_firing c.mode ≡ true
      → Judged c now (by_mode (filter_pit c now) now)
  filtered-Judged c now h =
      ground (arith, filter_pit_kept c now h, by_mode-Judged (filter_pit c now) now)

  abbrev valid_reading : Control W H → Control W H
  valid_reading c = record c { safety = record (c.safety) { primary_invalid_since = nought } }

  tick_reading-Read : (c : Control W H) (now : W) → Read c now (tick_reading c now)
  unfolding tick_reading no_reading
  tick_reading-Read c now = ground (arith, idle_lem c now, filtered-Judged (valid_reading c) now)

  cap_igniter_kept :
      (c : Control W H) (now : W)
      → let c' = cap_igniter c now in
        (c'.mode ≡ c.mode)
        × (c'.pit_valid ≡ c.pit_valid)
        × (c'.cfg ≡ c.cfg)
        × (c'.safety.ss_active ≡ c.safety.ss_active)
        × (c'.safety.fall_since ≡ c.safety.fall_since)
        × (c'.safety.established ≡ c.safety.established)
        × (c'.safety.progress_t ≡ c.safety.progress_t)
        × (c'.safety.primary_invalid_since ≡ c.safety.primary_invalid_since)
        × (c'.safety.reignite_retries_left ≡ c.safety.reignite_retries_left)
  unfolding cap_igniter
  cap_igniter_kept c now = ground arith

  pub tick-Verdict : (c : Control W H) (now : W) → Verdict c now (tick c now)
  unfolding tick
  tick-Verdict c now =
      ground (arith, cap_igniter_kept c now, tick_reading-Read (cap_igniter c now) now)
