-- ===== src/Version/Swapped.antt =====
-- src/features/update.c, pf_version_compare: two versions the other way round.
use pifire_c.Common.{
  ℕ, zero, suc, ◌+◌, ◌<◌, ◌≤◌, ◌≡◌, refl, ◌∙◌, ap, sym, Bool, true, false, not, ◌&&◌, ◌||◌, Option,
  some, [], ◌∷◌, length, arith, if◌then◌else◌,
}
use pifire_c.Common.Int.{ℤ, pos, negsuc, less_ℤ, eq_ℤ}
use pifire_c.Text.{Bytes}
use pifire_c.Version.{
  strcmp, compare_int, token, skip_dot, skip_dash, skip_v, skip, compare_ids, compare_from,
  cmp_prerelease, compare_numbers, version_compare, minus_one, is_empty, is_dot, value_of,
  after_value,
}

-- the contrary of an answer
abbrev pub opposite : ℤ → ℤ
opposite (pos zero) = pos 0
opposite (pos (suc n)) = negsuc n
opposite (negsuc n) = pos (suc n)

-- The first has an answer and the second the contrary one.
unfoldable pub Swaps : Option ℤ → Option ℤ → Type 0
Swaps p q = (c : ℤ) × (p ≡ some c) × (q ≡ some (opposite c))

some-Swaps : (c d : ℤ) → d ≡ opposite c → Swaps (some c) (some d)
unfolding Swaps
some-Swaps c d e = (c, refl, ap some e)

branch-Swaps :
    (u v : Bool) (p p' q q' : Option ℤ)
    → u ≡ v
    → (u ≡ true → Swaps p q)
    → (u ≡ false → Swaps p' q')
    → Swaps (if u then p else p') (if v then q else q')
branch-Swaps true true p p' q q' e k l = k refl
branch-Swaps true false p p' q q' e k l = ground arith
branch-Swaps false true p p' q q' e k l = ground arith
branch-Swaps false false p p' q q' e k l = l refl

and_swap : (u v : Bool) → (u && v) ≡ (v && u)
and_swap u v = ground arith

or_swap : (u v : Bool) → (u || v) ≡ (v || u)
or_swap u v = ground arith

eq-swap : (x y : ℤ) → eq_ℤ x y ≡ eq_ℤ y x
eq-swap (pos a) (pos b) = ground arith
eq-swap (pos a) (negsuc b) = refl
eq-swap (negsuc a) (pos b) = refl
eq-swap (negsuc a) (negsuc b) = ground arith

-- of two numbers that differ
less-swap :
    (x y : ℤ)
    → eq_ℤ x y ≡ false
    → (if less_ℤ y x then minus_one else pos 1) ≡ opposite (if less_ℤ x y then minus_one else pos 1)
less-swap (pos a) (pos b) e = ground arith
less-swap (pos a) (negsuc b) e = ground arith
less-swap (negsuc a) (pos b) e = ground arith
less-swap (negsuc a) (negsuc b) e = ground arith

strcmp-swap : (s t : Bytes) → strcmp t s ≡ opposite (strcmp s t)
unfolding strcmp
strcmp-swap [] [] = refl
strcmp-swap [] (b ∷ t) = refl
strcmp-swap (a ∷ s) [] = refl
strcmp-swap (a ∷ s) (b ∷ t) = ground (arith, strcmp-swap s t)

compare_int-swap : (x y : ℤ) → compare_int y x ≡ opposite (compare_int x y)
unfolding compare_int
compare_int-swap (pos a) (pos b) = ground arith
compare_int-swap (pos a) (negsuc b) = ground arith
compare_int-swap (negsuc a) (pos b) = ground arith
compare_int-swap (negsuc a) (negsuc b) = ground arith

-- What is left after a part and its dot is no longer, and is shorter where there was something.
length-token : (n : ℕ) (s : Bytes) → length (token n s).1 ≤ length s
unfolding token
length-token zero s = omega arith
length-token (suc n) [] = omega arith
length-token (suc n) (c ∷ s) = ground (arith, length-token n s)

length-skip : (k : ℕ) (s : Bytes) → length (skip k s) ≤ length s
length-skip k [] = omega arith
length-skip k (c ∷ s) = ground arith

length-rest : (s : Bytes) → length (skip_dot (token 31 s).1) ≤ length s
length-rest s = omega (arith, length-skip b'.' (token 31 s).1, length-token 31 s)

rest_shorter : (n c : ℕ) (s : Bytes) → length (skip_dot (token (suc n) (c ∷ s)).1) ≤ length s
unfolding token
rest_shorter n c s = ground (arith, length-skip b'.' (token n s).1, length-token n s)

module _ (strtol : Bytes → ℤ × Bytes) where
  compare_ids-swap : (s t : Bytes) → compare_ids strtol t s ≡ opposite (compare_ids strtol s t)
  unfolding compare_ids
  compare_ids-swap s t =
      ground (arith, strcmp-swap s t, compare_int-swap (value_of strtol s) (value_of strtol t))

  zero_opposite : (c : ℤ) → eq_ℤ (opposite c) (pos 0) ≡ eq_ℤ c (pos 0)
  zero_opposite (pos zero) = refl
  zero_opposite (pos (suc n)) = ground arith
  zero_opposite (negsuc n) = ground arith

  turn_shorter :
      (s t : Bytes)
      → (is_empty s && is_empty t) ≡ false
      → length (skip_dot (token 31 s).1) + length (skip_dot (token 31 t).1) < length s + length t
  turn_shorter [] [] e = ground arith
  turn_shorter [] (b ∷ t) e = omega (arith, length-rest [], rest_shorter 30 b t)
  turn_shorter (a ∷ s) t e = omega (arith, rest_shorter 30 a s, length-rest t)

  compare_from-swap :
      (f g : ℕ) (s t : Bytes)
      → length s + length t < f
      → length s + length t < g
      → Swaps (compare_from strtol f s t) (compare_from strtol g t s)
  unfolding compare_from
  compare_from-swap zero g s t k l = ground arith
  compare_from-swap (suc f) zero s t k l = ground arith
  compare_from-swap (suc f) (suc g) s t k l =
      let a = token 31 s in
      let b = token 31 t in
      let ids = compare_ids-swap a.0 b.0 in
      let sign = ap (λ c. eq_ℤ c (pos 0)) ids ∙ zero_opposite (compare_ids strtol a.0 b.0) in
      branch-Swaps _ _ _ _ _ _ (and_swap (is_empty s) (is_empty t))
        (λ e. some-Swaps (pos 0) (pos 0) refl)
        (λ e.
          let less = turn_shorter s t e in
          branch-Swaps _ _ _ _ _ _ (sym sign)
            (λ d.
              compare_from-swap f g (skip_dot a.1) (skip_dot b.1) (omega (arith, less))
                (omega (arith, less)))
            (λ d. some-Swaps (compare_ids strtol a.0 b.0) (compare_ids strtol b.0 a.0) ids))

  cmp_prerelease-swap :
      (s t : Bytes) → Swaps (cmp_prerelease strtol s t) (cmp_prerelease strtol t s)
  unfolding cmp_prerelease
  cmp_prerelease-swap [] [] = some-Swaps _ _ refl
  cmp_prerelease-swap [] (b ∷ t) = some-Swaps _ _ refl
  cmp_prerelease-swap (a ∷ s) [] = some-Swaps _ _ refl
  cmp_prerelease-swap (a ∷ s) (b ∷ t) =
      compare_from-swap (suc (length (a ∷ s) + length (b ∷ t)))
        (suc (length (b ∷ t) + length (a ∷ s))) (a ∷ s) (b ∷ t) (omega arith) (omega arith)

  compare_numbers-swap :
      (n : ℕ) (s t : Bytes) → Swaps (compare_numbers strtol n s t) (compare_numbers strtol n t s)
  unfolding compare_numbers
  compare_numbers-swap zero s t = cmp_prerelease-swap (skip_dash s) (skip_dash t)
  compare_numbers-swap (suc n) s t =
      let s' = after_value strtol s in
      let t' = after_value strtol t in
      let x = value_of strtol s in
      let y = value_of strtol t in
      branch-Swaps _ _ _ _ _ _ (ap not (eq-swap x y))
        (λ e. some-Swaps _ _ (less-swap x y (ground arith)))
        (λ e.
          branch-Swaps _ _ _ _ _ _ (or_swap (is_dot s') (is_dot t'))
            (λ d. compare_numbers-swap n (skip_dot s') (skip_dot t'))
            (λ d. cmp_prerelease-swap (skip_dash s') (skip_dash t')))

  -- Whatever `strtol` reads, the comparison of two versions ends with an answer, and the comparison
  -- the other way round with the contrary one.
  pub version_compare-swap :
      (s t : Bytes) → Swaps (version_compare strtol s t) (version_compare strtol t s)
  unfolding version_compare
  version_compare-swap s t = compare_numbers-swap 4 (skip_v s) (skip_v t)
