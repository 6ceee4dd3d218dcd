-- ===== src/Version.antt =====
-- src/features/update.c, pf_version_compare: the order of two versions. <stdlib.h>'s `strtol`, in base 10, is a
-- parameter: what it reads at the start of a text, and what is left of it. A text is a list of bytes.
pub mod Swapped
mod Tests
use pifire_c.Common.{
  ℕ, zero, suc, ◌+◌, Bool, true, false, not, ◌&&◌, ◌||◌, Option, none, some, List, [], ◌∷◌, length,
  ltb, ◌==◌, if◌then◌else◌,
}
use pifire_c.Common.Int.{ℤ, pos, negsuc, less_ℤ, eq_ℤ}
use pifire_c.Text.{Bytes}

abbrev pub minus_one : ℤ
minus_one = negsuc 0

abbrev pub is_empty : Bytes → Bool
is_empty [] = true
is_empty (c ∷ s) = false

-- `strcmp`, by its sign
pub strcmp : Bytes → Bytes → ℤ
strcmp [] [] = pos 0
strcmp [] (b ∷ t) = minus_one
strcmp (a ∷ s) [] = pos 1
strcmp (a ∷ s) (b ∷ t) =
    let rest = strcmp s t in if ltb a b then minus_one else if ltb b a then pos 1 else rest

pub compare_int : ℤ → ℤ → ℤ
compare_int x y = if less_ℤ x y then minus_one else if less_ℤ y x then pos 1 else pos 0

-- the part before the next dot, of `room` bytes at most, and what follows it
pub token : ℕ → Bytes → Bytes × Bytes
token zero s = ([], s)
token (suc room) [] = ([], [])
token (suc room) (c ∷ s) =
    let (t, rest) = token room s in if c == b'.' then ([], c ∷ s) else (c ∷ t, rest)

abbrev pub is_dot : Bytes → Bool
is_dot [] = false
is_dot (c ∷ s) = c == b'.'

-- `if (*a == c) a++`
abbrev pub skip : ℕ → Bytes → Bytes
skip k [] = []
skip k (c ∷ s) = if c == k then s else c ∷ s

abbrev pub skip_dot : Bytes → Bytes
skip_dot s = skip b'.' s

abbrev pub skip_dash : Bytes → Bytes
skip_dash s = skip b'-' s

abbrev pub skip_v : Bytes → Bytes
skip_v [] = []
skip_v (c ∷ s) = if c == b'v' || c == b'V' then s else c ∷ s

module _ (strtol : Bytes → ℤ × Bytes) where
  abbrev pub value_of : Bytes → ℤ
  value_of s = (strtol s).0

  abbrev pub after_value : Bytes → Bytes
  after_value s = (strtol s).1

  abbrev pub is_number : Bytes → Bool
  is_number t = not (is_empty t) && is_empty (after_value t)

  -- two identifiers; the sign is the answer
  pub compare_ids : Bytes → Bytes → ℤ
  unfolding strcmp compare_int
  compare_ids s t =
      if is_number s && is_number t
      then compare_int (value_of s) (value_of t)
      else if is_number s
      then minus_one
      else if is_number t
      then pos 1
      else strcmp s t

  -- the loop of `cmp_prerelease`, of `fuel` turns at most
  pub compare_from : ℕ → Bytes → Bytes → Option ℤ
  unfolding token compare_ids
  compare_from zero s t = none
  compare_from (suc fuel) s t =
      let a = token 31 s in
      let b = token 31 t in
      let rest = compare_from fuel (skip_dot a.1) (skip_dot b.1) in
      let c = compare_ids a.0 b.0 in
      if is_empty s && is_empty t then some (pos 0) else if eq_ℤ c (pos 0) then rest else some c

  pub cmp_prerelease : Bytes → Bytes → Option ℤ
  unfolding compare_from
  cmp_prerelease [] [] = some (pos 0)
  cmp_prerelease [] (b ∷ t) = some (pos 1)
  cmp_prerelease (a ∷ s) [] = some minus_one
  cmp_prerelease (a ∷ s) (b ∷ t) =
      compare_from (suc (length (a ∷ s) + length (b ∷ t))) (a ∷ s) (b ∷ t)

  -- the four turns over the numbers, and what follows them
  pub compare_numbers : ℕ → Bytes → Bytes → Option ℤ
  unfolding cmp_prerelease
  compare_numbers zero s t = cmp_prerelease (skip_dash s) (skip_dash t)
  compare_numbers (suc n) s t =
      let s' = after_value s in
      let t' = after_value t in
      let rest = compare_numbers n (skip_dot s') (skip_dot t') in
      let x = value_of s in
      let y = value_of t in
      if not (eq_ℤ x y)
      then some (if less_ℤ x y then minus_one else pos 1)
      else if is_dot s' || is_dot t'
      then rest
      else cmp_prerelease (skip_dash s') (skip_dash t')

  pub version_compare : Bytes → Bytes → Option ℤ
  unfolding compare_numbers
  version_compare s t = compare_numbers 4 (skip_v s) (skip_v t)
