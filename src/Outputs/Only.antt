-- ===== src/Outputs/Only.antt =====
-- src/core/outputs.c: which outputs can be on after a sequence of calls, on a device whose writes that
-- switch off succeed. What the callers rely on is this, and not which writes succeeded.
use pifire_c.Common.{◌≡◌, refl, arith, Bool, true, false, not, ◌&&◌, ◌||◌, Option, none, some}
use pifire_c.Common.Int.{ℤ}
use pifire_c.Mode.{Output, output_eq, output_eq_sound}
use pifire_c.Outputs.{Platform, Outputs, Relays, is_ok, set, get, set_fan_pct, all_off}
use pifire_c.Outputs.Laws.{get-set}

-- a device whose writes that switch off succeed
pub record LetsGo (H : Type 0) ⦃ops : Platform H⦄ : Type 0 where
  pub off_succeeds : (h : H) (o : Output) → is_ok (ops.set_output h o false).0 ≡ true

module _ {H : Type 0} where
  abbrev pub is_there : Option H → Bool
  is_there none = false
  is_there (some h) = true

  -- There is a device and no emergency, and the outputs that are on are among those of `may`.
  abbrev pub OnlyOn : Relays → Outputs H → Type 0
  OnlyOn may s =
      (s.latched ≡ false)
      × (is_there s.device ≡ true)
      × ((p : Output) → s.state p ≡ true → may p ≡ true)

-- with an output more, and with one less
abbrev pub with_on : Relays → Output → Relays
with_on may o p = output_eq o p || may p

abbrev pub without : Relays → Output → Relays
without may o p = not (output_eq o p) && may p

module _ {H : Type 0} ⦃ops : Platform H⦄ where
  pub OnlyOn-set_on :
      (s : Outputs H) (may : Relays) (o : Output)
      → OnlyOn may s
      → OnlyOn (with_on may o) (set s o true).1
  unfolding set get
  OnlyOn-set_on s may o (l, t, h) = (
    ground arith,
    ground arith,
    λ p e. ground (arith, h p, get-set s o true p, output_eq_sound o p),
  )

  pub OnlyOn-set_fan_pct :
      (s : Outputs H) (may : Relays) (pct : ℤ) → OnlyOn may s → OnlyOn may (set_fan_pct s pct).1
  unfolding set_fan_pct get
  OnlyOn-set_fan_pct s may pct (l, t, h) = (ground arith, ground arith, λ p e. ground (arith, h p))

  pub OnlyOn-all_off : (s : Outputs H) (may may' : Relays) → OnlyOn may s → OnlyOn may' (all_off s)
  unfolding all_off get
  OnlyOn-all_off s may may' (l, t, h) = (l, ground arith, λ p e. ground arith)

  pub state-set_fan_pct :
      (s : Outputs H) (pct : ℤ) (o : Output) → (set_fan_pct s pct).1.state o ≡ s.state o
  unfolding set_fan_pct
  state-set_fan_pct s pct o = ground arith

  pub state-all_off : (s : Outputs H) (o : Output) → (all_off s).state o ≡ false
  unfolding all_off
  state-all_off s o = refl

  module _ ⦃goes : LetsGo H⦄ where
    set_off :
        (s : Outputs H) (o : Output)
        → s.latched ≡ false
        → is_there s.device ≡ true
        → is_ok (set s o false).0 ≡ true
    unfolding set get
    set_off s o l t = by_device s.device refl
      where
        by_device : (x : Option H) → x ≡ s.device → is_ok (set s o false).0 ≡ true
        by_device none e = ground arith
        by_device (some h) e = ground (arith, goes.off_succeeds h o)

    pub OnlyOn-set_off :
        (s : Outputs H) (may : Relays) (o : Output)
        → OnlyOn may s
        → OnlyOn (without may o) (set s o false).1
    unfolding set get
    OnlyOn-set_off s may o (l, t, h) = (
      ground arith,
      ground arith,
      λ p e. ground (arith, h p, get-set s o false p, set_off s o l t),
    )
