-- ===== src/Safety/Tick/Switching.antt =====
-- src/core/safety.c, `pf_safety_tick`: which outputs a tick can switch on, and the igniter cap.
use pifire_c.Common.{◌≡◌, arith, ◌⊎◌, true, false}
use pifire_c.Common.Float.{Double, ◌<ᵈ◌, ◌==ᵈ◌, ◌-ᵈ◌, nought}
use pifire_c.Mode.{Output, igniter}
use pifire_c.Outputs
use pifire_c.Outputs.{Platform, is_ok}
use pifire_c.Outputs.Laws.{get-set}
use pifire_c.Grill.{Control}
use pifire_c.Safety.Switch.{on}
use pifire_c.Safety.Light.Outcome.{on-light, locked-light}
use pifire_c.Safety.Supervise.Outcome.{on-supervise, locked-supervise}
use pifire_c.Safety.Tick.{
  tick, tick_reading, by_mode, cap_igniter, no_reading, filter_pit, note_jump, leave_run, running,
  too_hot,
}

module _ {W H : Type 0} ⦃d : Double W⦄ ⦃ops : Platform H⦄ where
  on-cap_igniter :
      (c : Control W H) (now : W) (p : Output) → on (cap_igniter c now) p ≡ true → on c p ≡ true
  unfolding cap_igniter
  on-cap_igniter c now p h = ground (arith, get-set c.outputs igniter false p)

  -- What a part of the tick may have switched on.
  abbrev pub MaySwitch : Control W H → Control W H → Output → Type 0
  MaySwitch c c' p =
      on c' p ≡ true
      → (on c p ≡ true)
        ⊎ ((p ≡ igniter)
            × (running c ≡ true)
            × (c.safety.igniter_locked_out ≡ false)
            × (c'.safety.proving ≡ true))

  filter_pit_lem :
      (c : Control W H) (now : W)
      → ((filter_pit c now).outputs ≡ c.outputs)
        × ((filter_pit c now).mode ≡ c.mode)
        × ((filter_pit c now).safety.igniter_locked_out ≡ c.safety.igniter_locked_out)
  unfolding filter_pit note_jump
  filter_pit_lem c now = ground arith

  by_mode-MaySwitch : (c : Control W H) (now : W) (p : Output) → MaySwitch c (by_mode c now).0 p
  unfolding by_mode leave_run
  by_mode-MaySwitch c now p h = ground (arith, on-light c now p, on-supervise c now p)

  abbrev valid_reading : Control W H → Control W H
  valid_reading c = record c { safety = record (c.safety) { primary_invalid_since = nought } }

  filtered-MaySwitch :
      (c : Control W H) (now : W) (p : Output) → MaySwitch c (by_mode (filter_pit c now) now).0 p
  filtered-MaySwitch c now p h =
      ground (arith, filter_pit_lem c now, by_mode-MaySwitch (filter_pit c now) now p h)

  tick_reading-MaySwitch :
      (c : Control W H) (now : W) (p : Output) → MaySwitch c (tick_reading c now).0 p
  unfolding tick_reading no_reading
  tick_reading-MaySwitch c now p h =
      ground (arith, filtered-MaySwitch c now p, filtered-MaySwitch (valid_reading c) now p)

  cap_igniter_lem :
      (c : Control W H) (now : W)
      → ((cap_igniter c now).mode ≡ c.mode)
        × (c.safety.igniter_locked_out ≡ true
            → (cap_igniter c now).safety.igniter_locked_out ≡ true)
        × ((cap_igniter c now).safety.reignite_retries_left ≡ c.safety.reignite_retries_left)
  unfolding cap_igniter
  cap_igniter_lem c now = ground arith

  -- A tick never switches on the power, the fan or the auger. It switches on the igniter in Smoke
  -- and Hold alone, to prove a fire after a coast, and not once the igniter cap has tripped.
  pub on-tick :
      (c : Control W H) (now : W) (p : Output)
      → on (tick c now).0 p ≡ true
      → (on c p ≡ true)
        ⊎ ((p ≡ igniter)
            × (running c ≡ true)
            × (c.safety.igniter_locked_out ≡ false)
            × ((tick c now).0.safety.proving ≡ true))
  unfolding tick
  on-tick c now p h = ground (
    arith,
    cap_igniter_lem c now,
    on-cap_igniter c now p,
    tick_reading-MaySwitch (cap_igniter c now) now p,
  )

  locked-by_mode :
      (c : Control W H) (now : W)
      → (by_mode c now).0.safety.igniter_locked_out ≡ c.safety.igniter_locked_out
  unfolding by_mode leave_run
  locked-by_mode c now = ground (arith, locked-light c now, locked-supervise c now)

  locked-tick_reading :
      (c : Control W H) (now : W)
      → (tick_reading c now).0.safety.igniter_locked_out ≡ c.safety.igniter_locked_out
  unfolding tick_reading no_reading
  locked-tick_reading c now = ground (
    arith,
    locked-by_mode (filter_pit c now) now,
    filter_pit_lem c now,
    locked-by_mode (filter_pit (valid_reading c) now) now,
    filter_pit_lem (valid_reading c) now,
  )

  -- the cap has tripped, or this tick finds the igniter on past its time
  abbrev pub CapDue : Control W H → W → Type 0
  CapDue c now =
      (c.safety.igniter_locked_out ≡ true)
      ⊎ ((on c igniter ≡ true)
          × ((c.safety.igniter_on_since ==ᵈ nought) ≡ false)
          × ((c.cfg.igniter_max_on_s <ᵈ (now -ᵈ c.safety.igniter_on_since)) ≡ true))

  cap_igniter_due :
      (c : Control W H) (now : W)
      → is_ok (Outputs.set (c.outputs) igniter false).0 ≡ true
      → CapDue c now
      → ((cap_igniter c now).safety.igniter_locked_out ≡ true)
        × (on (cap_igniter c now) igniter ≡ false)
  unfolding cap_igniter
  cap_igniter_due c now ok due = ground (arith, get-set c.outputs igniter false igniter)

  -- The igniter cap holds in every mode, whether or not the pit can be read: once it has tripped, or
  -- in a tick that finds the igniter on past its time, the tick leaves it tripped and the igniter
  -- off, if the platform takes the write and the pit is not over its limit.
  pub tick_igniter_cap :
      (c : Control W H) (now : W)
      → too_hot c ≡ false
      → is_ok (Outputs.set (c.outputs) igniter false).0 ≡ true
      → CapDue c now
      → ((tick c now).0.safety.igniter_locked_out ≡ true) × (on (tick c now).0 igniter ≡ false)
  unfolding tick
  tick_igniter_cap c now cool ok due = ground (
    arith,
    cap_igniter_due c now ok due,
    locked-tick_reading (cap_igniter c now) now,
    tick_reading-MaySwitch (cap_igniter c now) now igniter,
  )
