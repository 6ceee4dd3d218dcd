-- ===== src/Common/Float.antt =====
-- C's `double`, of which the modules below take the operations as an instance and assume no
-- arithmetic: a comparison with NaN is false, as any comparison may be.
use pifire_c.Common.Int.{ℤ}
use Prim.Native.Nat.{ℕ}
use mathlib.Core.Bool.{Bool, not, ◌&&◌}
use pifire_c.Common.Tests.{if◌then◌else◌}

pub record Double (W : Type 0) : Type 0 where
  pub lit : ℕ → ℕ → W  -- `lit n d` is the literal n / d
  pub nan : W
  pub lt : W → W → Bool
  pub le : W → W → Bool
  pub eq : W → W → Bool
  pub is_nan : W → Bool
  pub is_inf : W → Bool
  pub add : W → W → W
  pub sub : W → W → W
  pub mul : W → W → W
  pub div : W → W → W
  pub fmin : W → W → W
  pub fmax : W → W → W
  pub fabs : W → W
  pub of_int : ℤ → W
  pub trunc : W → ℤ  -- the conversion to `int`

module _ {W : Type 0} ⦃d : Double W⦄ where
  infix 50 ◌<ᵈ◌ ◌≤ᵈ◌ ◌==ᵈ◌
  infixl 65 ◌+ᵈ◌ ◌-ᵈ◌
  infixl 70 ◌*ᵈ◌ ◌/ᵈ◌
  abbrev pub ◌<ᵈ◌ : W → W → Bool
  a <ᵈ b = d.lt a b

  abbrev pub ◌≤ᵈ◌ : W → W → Bool
  a ≤ᵈ b = d.le a b

  abbrev pub ◌==ᵈ◌ : W → W → Bool
  a ==ᵈ b = d.eq a b

  abbrev pub ◌+ᵈ◌ : W → W → W
  a +ᵈ b = d.add a b

  abbrev pub ◌-ᵈ◌ : W → W → W
  a -ᵈ b = d.sub a b

  abbrev pub ◌*ᵈ◌ : W → W → W
  a *ᵈ b = d.mul a b

  abbrev pub ◌/ᵈ◌ : W → W → W
  a /ᵈ b = d.div a b

  abbrev pub nought : W
  nought = d.lit 0 1

  -- `pf_clamp` of src/core/util.h
  abbrev pub clamp : W → W → W → W
  clamp v lo hi = if v <ᵈ lo then lo else if hi <ᵈ v then hi else v

  -- `isfinite`
  abbrev pub is_finite : W → Bool
  is_finite a = not (d.is_nan a) && not (d.is_inf a)
