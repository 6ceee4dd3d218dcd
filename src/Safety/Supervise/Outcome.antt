-- ===== src/Safety/Supervise/Outcome.antt =====
-- src/core/safety.c, flame supervision: what a tick in Smoke or Hold answers and switches.
use pifire_c.Common.{◌≡◌, refl, arith, if_ind, ◌⊎◌, inl, true, false, ◌||◌, Option, none, some}
use pifire_c.Common.Float.{Double, ◌<ᵈ◌, ◌≤ᵈ◌, ◌-ᵈ◌, nought}
use pifire_c.Mode.{Mode, Output, auger, igniter, error, reignite}
use pifire_c.Outputs.{Platform}
use pifire_c.Outputs.Laws.{get-set}
use pifire_c.Grill.{Control}
use pifire_c.Safety.{flameout}
use pifire_c.Common.Int.{is_pos, pred}
use pifire_c.Safety.Switch.{flameout_outcome, on, on-switch_off, on-switch_on, on-flameout}
use pifire_c.Safety.Supervise.{
  supervise, note_setpoint, stand_still, note_peak, set_fall, note_gain, restart_clock, say_stall,
  climb, judge, end_coast, prove_fire, finish_run, paused, lowered,
}

module _ {W H : Type 0} ⦃d : Double W⦄ ⦃ops : Platform H⦄ where
  on-climb : (c : Control W H) (now : W) (p : Output) → on (climb c now).0 p ≡ true → on c p ≡ true
  unfolding climb say_stall restart_clock
  on-climb c now p h = ground (arith, get-set c.outputs auger false p)

  on-judge : (c : Control W H) (now : W) (p : Output) → on (judge c now).0 p ≡ true → on c p ≡ true
  unfolding judge note_peak note_gain set_fall
  on-judge c now p h = ground (
    arith,
    on-climb (note_gain (set_fall (note_peak c) now)) now p,
    on-climb (note_gain (note_peak c)) now p,
    on-climb (note_gain (set_fall (note_peak c) nought)) now p,
    on-flameout (set_fall (note_peak c) nought) p,
  )

  outputs-end_coast : (c : Control W H) (now : W) → (end_coast c now).outputs ≡ c.outputs
  unfolding end_coast
  outputs-end_coast c now = ground arith

  locked-end_coast :
      (c : Control W H) (now : W)
      → (end_coast c now).safety.igniter_locked_out ≡ c.safety.igniter_locked_out
  unfolding end_coast
  locked-end_coast c now = ground arith

  on-prove_fire :
      (c : Control W H) (now : W) (p : Output)
      → on (prove_fire c now) p ≡ true
      → (on c p ≡ true)
        ⊎ ((p ≡ igniter)
            × (c.safety.igniter_locked_out ≡ false)
            × ((prove_fire c now).safety.proving ≡ true))
  unfolding prove_fire
  on-prove_fire c now p h = ground (
    arith,
    on-switch_off (record c { safety = record (c.safety) { proving = false } }) igniter p,
    on-switch_on c igniter p,
  )

  -- a drop under the reference that has stood for the time that confirms it
  abbrev pub FallStood : Control W H → W → Type 0
  FallStood c now =
      ((c.safety.fall_since ≤ᵈ nought) ≡ false)
      × ((c.cfg.relight_confirm_s ≤ᵈ (now -ᵈ c.safety.fall_since)) ≡ true)

  abbrev pub Relit : Control W H → Control W H → Type 0
  Relit c c' =
      (c.cfg.relight_enabled ≡ true)
      × (is_pos c.safety.reignite_retries_left ≡ true)
      × (c'.safety.reignite_retries_left ≡ pred c.safety.reignite_retries_left)

  abbrev pub NoTry : Control W H → Type 0
  NoTry c = (c.cfg.relight_enabled ≡ false) ⊎ (is_pos c.safety.reignite_retries_left ≡ false)

  -- a fire that is not established has not climbed for its time
  abbrev pub Stalled : Control W H → W → Type 0
  Stalled c now =
      (c.safety.established ≡ false) × ((c.cfg.ss_prove_s <ᵈ (now -ᵈ c.safety.progress_t)) ≡ true)

  -- what supervision may answer, and what it has done then
  abbrev pub Answer : Control W H → W → Control W H × Option Mode → Type 0
  Answer c now r =
      ((r.1 ≡ none) × (r.0.safety.reignite_retries_left ≡ c.safety.reignite_retries_left))
      ⊎ ((r.1 ≡ some reignite) × FallStood c now × Relit c r.0)
      ⊎ ((r.1 ≡ some error)
          × (r.0.safety.reignite_retries_left ≡ c.safety.reignite_retries_left)
          × (((r.0.safety.error_code ≡ "E02_FLAMEOUT") × FallStood c now × NoTry c)
              ⊎ ((r.0.safety.error_code ≡ "E04_STARTUP_FAILED") × Stalled c now)))

  climb_outcome :
      (c : Control W H) (now : W)
      → let r = climb c now in
        (r.0.safety.reignite_retries_left ≡ c.safety.reignite_retries_left)
        × ((r.1 ≡ none)
            ⊎ ((r.1 ≡ some error)
                × (c.safety.established ≡ false)
                × (r.0.safety.error_code ≡ "E04_STARTUP_FAILED")
                × ((c.cfg.ss_prove_s <ᵈ (now -ᵈ c.safety.progress_t)) ≡ true)))
  unfolding climb say_stall restart_clock
  climb_outcome c now = ground arith

  judge-Answer : (c : Control W H) (now : W) → Answer c now (judge c now)
  unfolding judge note_peak note_gain set_fall
  judge-Answer c now = ground (
    arith,
    climb_outcome (note_gain (set_fall (note_peak c) now)) now,
    climb_outcome (note_gain (note_peak c)) now,
    climb_outcome (note_gain (set_fall (note_peak c) nought)) now,
    flameout_outcome (set_fall (note_peak c) nought),
  )

  finish_run_lem :
      (c : Control W H) (now : W)
      → ((finish_run (c, none) now).1 ≡ none)
        × ((finish_run (c, none) now).0.safety.reignite_retries_left
            ≡ c.safety.reignite_retries_left)
  unfolding finish_run prove_fire end_coast
  finish_run_lem c now = ground arith

  finish_run-Answer :
      (c : Control W H) (now : W) (r : Control W H × Option Mode)
      → Answer c now r
      → Answer c now (finish_run r now)
  unfolding finish_run
  finish_run-Answer c now (c', some m) a = a
  finish_run-Answer c now (c', none) a = ground (arith, finish_run_lem c' now)

  retries-stand_still :
      (c : Control W H) (now : W)
      → (stand_still c now).safety.reignite_retries_left ≡ c.safety.reignite_retries_left
  unfolding stand_still
  retries-stand_still c now = refl

  -- note_setpoint keeps what the answer speaks of.
  pub supervise-Answer : (c : Control W H) (now : W) → Answer c now (supervise c now)
  unfolding supervise note_setpoint
  supervise-Answer c now =
      let c1 = note_setpoint c in
      if_ind (λ (r : Control W H × Option Mode). Answer c now r)
        (paused c1 now || c1.safety.stepdown_armed)
        (λ _. ground (arith, finish_run_lem (stand_still c1 now) now, retries-stand_still c1 now))
        (λ _. finish_run-Answer c1 now (judge c1 now) (judge-Answer c1 now))

  -- An open lid, a tuning measurement and a coast are never judged: no flame-out and no failed start.
  supervise_spared :
      (c : Control W H) (now : W)
      → (paused c now || c.safety.stepdown_armed || lowered c) ≡ true
      → (supervise c now).1 ≡ none
  unfolding supervise note_setpoint
  supervise_spared c now h = ground (arith, finish_run_lem (stand_still (note_setpoint c) now) now)

  on-finish_run :
      (r : Control W H × Option Mode) (now : W) (p : Output)
      → on (finish_run r now).0 p ≡ true
      → (on r.0 p ≡ true)
        ⊎ ((p ≡ igniter)
            × (r.0.safety.igniter_locked_out ≡ false)
            × ((finish_run r now).0.safety.proving ≡ true))
  unfolding finish_run
  on-finish_run (c, some m) now p h = inl h
  on-finish_run (c, none) now p h = ground (
    arith,
    on-prove_fire (end_coast c now) now p,
    outputs-end_coast c now,
    locked-end_coast c now,
  )

  outputs-set :
      (c : Control W H) (now : W)
      → ((stand_still (note_setpoint c) now).outputs ≡ c.outputs)
        × ((note_setpoint c).outputs ≡ c.outputs)
  unfolding stand_still note_setpoint
  outputs-set c now = (refl, refl)

  locked-climb :
      (c : Control W H) (now : W)
      → (climb c now).0.safety.igniter_locked_out ≡ c.safety.igniter_locked_out
  unfolding climb say_stall restart_clock
  locked-climb c now = ground arith

  locked-judge :
      (c : Control W H) (now : W)
      → (judge c now).0.safety.igniter_locked_out ≡ c.safety.igniter_locked_out
  unfolding judge note_peak note_gain set_fall flameout
  locked-judge c now = ground (
    arith,
    locked-climb (note_gain (set_fall (note_peak c) now)) now,
    locked-climb (note_gain (note_peak c)) now,
    locked-climb (note_gain (set_fall (note_peak c) nought)) now,
  )

  locked-set :
      (c : Control W H) (now : W)
      → ((stand_still (note_setpoint c) now).safety.igniter_locked_out
          ≡ c.safety.igniter_locked_out)
        × ((note_setpoint c).safety.igniter_locked_out ≡ c.safety.igniter_locked_out)
  unfolding stand_still note_setpoint
  locked-set c now = (refl, refl)

  locked-finish_run :
      (r : Control W H × Option Mode) (now : W)
      → (finish_run r now).0.safety.igniter_locked_out ≡ r.0.safety.igniter_locked_out
  unfolding finish_run prove_fire
  locked-finish_run (c, some m) now = refl
  locked-finish_run (c, none) now = ground (arith, locked-end_coast c now)

  -- Supervision switches on nothing but the igniter, and that only to prove a fire while the cap has
  -- not tripped.
  pub on-supervise :
      (c : Control W H) (now : W) (p : Output)
      → on (supervise c now).0 p ≡ true
      → (on c p ≡ true)
        ⊎ ((p ≡ igniter)
            × (c.safety.igniter_locked_out ≡ false)
            × ((supervise c now).0.safety.proving ≡ true))
  unfolding supervise
  on-supervise c now p =
      let c1 = note_setpoint c in
      if_ind
        (λ (r : Control W H × Option Mode).
          on r.0 p ≡ true
          → (on c p ≡ true)
            ⊎ ((p ≡ igniter) × (c.safety.igniter_locked_out ≡ false) × (r.0.safety.proving ≡ true)))
        (paused c1 now || c1.safety.stepdown_armed)
        (λ _ k. ground (
          arith,
          on-finish_run (stand_still c1 now, none) now p k,
          outputs-set c now,
          locked-set c now,
        ))
        (λ _ k. ground (
          arith,
          on-finish_run (judge c1 now) now p k,
          on-judge c1 now p,
          locked-judge c1 now,
          outputs-set c now,
          locked-set c now,
        ))

  pub locked-supervise :
      (c : Control W H) (now : W)
      → (supervise c now).0.safety.igniter_locked_out ≡ c.safety.igniter_locked_out
  unfolding supervise
  locked-supervise c now =
      let c1 = note_setpoint c in
      if_ind
        (λ (r : Control W H × Option Mode).
          r.0.safety.igniter_locked_out ≡ c.safety.igniter_locked_out)
        (paused c1 now || c1.safety.stepdown_armed)
        (λ _. ground (arith, locked-finish_run (stand_still c1 now, none) now, locked-set c now))
        (λ _.
          ground
            (arith, locked-finish_run (judge c1 now) now, locked-judge c1 now, locked-set c now))
