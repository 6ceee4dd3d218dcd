-- ===== src/Text.antt =====
-- src/core/util.c: text as lists of bytes with no zero among them, and the two functions that copy
-- it into a buffer of `n` bytes.
mod Tests
pub mod Escape
use pifire_c.Common.{
  ℕ, zero, suc, ◌+◌, ◌-◌, ◌/◌, ◌%◌, Bool, true, false, ◌&&◌, List, [], ◌∷◌, ◌++◌, length, ltb, leb,
  ◌==◌, if◌then◌else◌, ◌≡◌, refl, arith,
}

abbrev pub Bytes : Type 0
Bytes = List ℕ

-- `strcmp` as a test of equality
abbrev pub same : Bytes → Bytes → Bool
same [] [] = true
same (a ∷ s) (b ∷ t) = a == b && same s t
same _ _ = false

pub same_sound : (s t : Bytes) → same s t ≡ true → s ≡ t
same_sound [] [] e = refl
same_sound [] (b ∷ t) e = ground arith
same_sound (a ∷ s) [] e = ground arith
same_sound (a ∷ s) (b ∷ t) e = ground (arith, same_sound s t)

pub same_refl : (k : Bytes) → same k k ≡ true
same_refl [] = refl
same_refl (a ∷ k) = ground (arith, same_refl k)

abbrev pub take : ℕ → Bytes → Bytes
take zero s = []
take (suc n) [] = []
take (suc n) (a ∷ s) = a ∷ take n s

-- What `pf_strlcpy` leaves in a buffer of `n > 0` bytes; it returns `length s`.
abbrev pub strlcpy : ℕ → Bytes → Bytes
strlcpy n s = take (n - 1) s

-- a digit of `%04x`
abbrev pub hex_digit : ℕ → ℕ
hex_digit k = if ltb k 10 then b'0' + k else b'a' + (k - 10)

-- what one byte becomes
abbrev pub escape_byte : ℕ → Bytes
escape_byte c =
    if c == b'"'
    then b'\\' ∷ b'"' ∷ []
    else if c == b'\\'
    then b'\\' ∷ b'\\' ∷ []
    else if c == 10
    then b'\\' ∷ b'n' ∷ []
    else if c == 13
    then b'\\' ∷ b'r' ∷ []
    else if c == 9
    then b'\\' ∷ b't' ∷ []
    else if ltb c 32
    then b'\\' ∷ b'u' ∷ b'0' ∷ b'0' ∷ hex_digit (c / 16) ∷ hex_digit (c % 16) ∷ []
    else c ∷ []

-- The loop of `pf_json_escape`, `w` bytes having been written to a buffer of `n`.
pub escape_from : Bytes → ℕ → ℕ → Bytes
escape_from [] w n = []
escape_from (c ∷ s) w n =
    let rest = escape_from s (w + length (escape_byte c)) n in
    if ltb (w + 7) n then escape_byte c ++ rest else []

-- What stands in the buffer before the final zero; the function returns its length.
pub json_escape : Bytes → ℕ → Bytes
unfolding escape_from
json_escape s n = escape_from s 0 n
