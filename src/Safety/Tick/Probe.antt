-- ===== src/Safety/Tick/Probe.antt =====
-- src/core/safety.c, `pf_safety_tick` part 2 over time: a primary probe that gives no reading.
use pifire_c.Common.{
  ◌≡◌, refl, arith, true, false, Option, none, some, List, [], ◌∷◌, ◌++◌, if◌then◌else◌,
}
use pifire_c.Common.Float.{Double, ◌<ᵈ◌, ◌==ᵈ◌, ◌-ᵈ◌, nought}
use pifire_c.Mode.{Mode, is_firing, error}
use pifire_c.Outputs.{Platform}
use pifire_c.Grill.{Control}
use pifire_c.Safety.Tick.{tick, tick_reading, cap_igniter, no_reading}

module _ {W : Type 0} ⦃d : Double W⦄ where
  -- no time lies more than `limit` after `t0`
  abbrev pub AllWithin : W → W → List W → Type 0
  AllWithin limit t0 [] = Unit
  AllWithin limit t0 (t ∷ ts) = ((limit <ᵈ (t -ᵈ t0)) ≡ false) × AllWithin limit t0 ts

module _ {W H : Type 0} ⦃d : Double W⦄ ⦃ops : Platform H⦄ where
  -- the first answer of ticks at the given times, with no reading between them
  unfoldable pub answer_of : Control W H → List W → Option Mode
  answer_of c [] = none
  answer_of c (t ∷ ts) = elim (tick c t).1 [ some m ↦ some m | none ↦ answer_of (tick c t).0 ts ]

  -- blind since `since`
  abbrev pub IsBlind : Control W H → W → W → Type 0
  IsBlind c limit since =
      (is_firing c.mode ≡ true)
      × (c.pit_valid ≡ false)
      × (c.cfg.probe_fault_s ≡ limit)
      × (c.safety.primary_invalid_since ≡ since)

  cap_igniter-IsBlind :
      (c : Control W H) (now limit since : W)
      → IsBlind c limit since
      → IsBlind (cap_igniter c now) limit since
  unfolding cap_igniter
  cap_igniter-IsBlind c now limit since h = ground arith

  blind_tick :
      (c : Control W H) (now : W)
      → is_firing c.mode ≡ true
      → c.pit_valid ≡ false
      → tick c now ≡ no_reading (cap_igniter c now) now
  unfolding tick tick_reading
  blind_tick c now f v =
      ground (arith, cap_igniter-IsBlind c now c.cfg.probe_fault_s c.safety.primary_invalid_since)

  first-IsBlind :
      (c : Control W H) (now limit since : W)
      → IsBlind c limit since
      → (since ==ᵈ nought) ≡ true
      → ((tick c now).1 ≡ none) × IsBlind (tick c now).0 limit now
  unfolding no_reading
  first-IsBlind c now limit since h z =
      ground (arith, blind_tick c now, cap_igniter-IsBlind c now limit since h)

  later-IsBlind :
      (c : Control W H) (now limit since : W)
      → IsBlind c limit since
      → (since ==ᵈ nought) ≡ false
      → ((tick c now).1 ≡ (if limit <ᵈ (now -ᵈ since) then some error else none))
        × ((limit <ᵈ (now -ᵈ since)) ≡ false → IsBlind (tick c now).0 limit since)
  unfolding no_reading
  later-IsBlind c now limit since h z =
      ground (arith, blind_tick c now, cap_igniter-IsBlind c now limit since h)

  waits :
      (ts : List W) (c : Control W H) (limit since t : W)
      → IsBlind c limit since
      → (since ==ᵈ nought) ≡ false
      → AllWithin limit since ts
      → answer_of c (ts ++ (t ∷ [])) ≡ (if limit <ᵈ (t -ᵈ since) then some error else none)
  unfolding answer_of
  waits [] c limit since t h z w = ground (arith, later-IsBlind c t limit since h z)
  waits (s ∷ ts) c limit since t h z w =
      ground (arith, later-IsBlind c s limit since h z, waits ts (tick c s).0 limit since t)

  -- While a fire depends on the pit and the pit cannot be read, the first tick notes the time `t0`
  -- and every later tick answers nothing until one comes more than `probe_fault_s` after `t0`: that
  -- tick answers the error.
  pub probe_fault_in_time :
      (c : Control W H) (t0 t : W) (ts : List W)
      → is_firing c.mode ≡ true
      → c.pit_valid ≡ false
      → (c.safety.primary_invalid_since ==ᵈ nought) ≡ true
      → (t0 ==ᵈ nought) ≡ false
      → AllWithin c.cfg.probe_fault_s t0 ts
      → answer_of c (t0 ∷ (ts ++ (t ∷ [])))
        ≡ (if c.cfg.probe_fault_s <ᵈ (t -ᵈ t0) then some error else none)
  unfolding answer_of
  probe_fault_in_time c t0 t ts f v z z0 w = ground (
    arith,
    first-IsBlind c t0 c.cfg.probe_fault_s c.safety.primary_invalid_since (f, v, refl, refl) z,
    waits ts (tick c t0).0 c.cfg.probe_fault_s t0 t,
  )
