-- ===== src/Text/Escape.antt =====
-- src/core/util.c, `pf_json_escape`.
use pifire_c.Common.{
  ℕ, zero, suc, ◌+◌, ◌*◌, ◌-◌, ◌/◌, ◌%◌, ◌<◌, ◌≤◌, ◌≡◌, refl, arith, [], ◌∷◌, ◌++◌, length,
  length-append, Option, some, none, ltb, ◌==◌, if◌then◌else◌, true,
}
use mathlib.Core.Option
use mathlib.Core.Bool.{◌||◌}
use pifire_c.Text.{Bytes, escape_byte, escape_from, json_escape, hex_digit}

escape_byte_short : (c : ℕ) → length (escape_byte c) ≤ 6
escape_byte_short c = ground arith

escape_from_fits : (s : Bytes) (w n : ℕ) → w < n → w + length (escape_from s w n) < n
unfolding escape_from
escape_from_fits [] w n h = omega arith
escape_from_fits (c ∷ s) w n h = ground (
  arith,
  escape_byte_short c,
  length-append (escape_byte c) (escape_from s (w + length (escape_byte c)) n),
  escape_from_fits s (w + length (escape_byte c)) n,
)

-- The escaped text and its final zero fit in the buffer, whatever the input, if it has room for the
-- zero.
pub json_escape_fits : (s : Bytes) (n : ℕ) → 0 < n → length (json_escape s n) + 1 ≤ n
unfolding json_escape
json_escape_fits s n h = omega (arith, escape_from_fits s 0 n h)

-- The reading of a JSON string that undoes it: one character of the text between the quotes.
pub hex_value : ℕ → ℕ
hex_value a = if ltb a b'a' then a - b'0' else a - b'a' + 10

pub read_hex : Bytes → Option (ℕ × Bytes)
read_hex (a ∷ b ∷ c ∷ d ∷ t) =
    some (((hex_value a * 16 + hex_value b) * 16 + hex_value c) * 16 + hex_value d, t)
read_hex _ = none

pub read_escape : Bytes → Option (ℕ × Bytes)
read_escape [] = none
read_escape (k ∷ t) =
    if k == b'"'
    then some (b'"', t)
    else if k == b'\\'
    then some (b'\\', t)
    else if k == b'n'
    then some (10, t)
    else if k == b'r'
    then some (13, t)
    else if k == b't'
    then some (9, t)
    else if k == b'u'
    then read_hex t
    else none

pub read_char : Bytes → Option (ℕ × Bytes)
read_char [] = none
read_char (a ∷ t) =
    if a == b'\\' then read_escape t else if a == b'"' || ltb a 32 then none else some (a, t)

-- The whole text, with fuel for each character; a control byte or a bare quote is refused.
pub read_string : ℕ → Bytes → Option Bytes
read_string zero t = none
read_string (suc f) [] = some []
read_string (suc f) (a ∷ t) = elim (read_char (a ∷ t)) [
  | none ↦ none
  | some (c, t') ↦ Option.map (λ s. c ∷ s) (read_string f t')
]

hex_round : (k : ℕ) → k < 16 → hex_value (hex_digit k) ≡ k
unfolding hex_value
hex_round k h = ground arith

hex_zero : hex_value b'0' ≡ 0
unfolding hex_value
hex_zero = refl

hex_byte :
    (c : ℕ)
    → ltb c 32 ≡ true
    → ((hex_value b'0' * 16 + hex_value b'0') * 16 + hex_value (hex_digit (c / 16))) * 16
        + hex_value (hex_digit (c % 16))
      ≡ c
hex_byte c h =
    let below : c < 32 = ground arith in
    omega (arith, hex_round (c / 16) (omega arith), hex_round (c % 16) (omega arith), hex_zero)

read_char-escape_byte : (c : ℕ) (t : Bytes) → read_char (escape_byte c ++ t) ≡ some (c, t)
unfolding read_escape read_hex read_char
read_char-escape_byte c t = ground (arith, hex_byte c)

nothing_read : (t' : Bytes) (c : ℕ) → read_char [] ≡ some (c, t') → ⊥
unfolding read_char
nothing_read t' c e = cc

read_string-nil : (f : ℕ) → read_string (suc f) [] ≡ some []
unfolding read_string
read_string-nil f = refl

room : (c : ℕ) (s : Bytes) (w n : ℕ) → w + 6 * length (c ∷ s) + 7 ≤ n → ltb (w + 7) n ≡ true
room c s w n h = ground arith

read_string-read_char :
    (f : ℕ) (t t' : Bytes) (c : ℕ)
    → read_char t ≡ some (c, t')
    → read_string (suc f) t ≡ Option.map (λ s. c ∷ s) (read_string f t')
unfolding read_string
read_string-read_char f [] t' c e = absurd (nothing_read t' c e)
read_string-read_char f (a ∷ t) t' c e = rw (e, read_string)

escape_from_read :
    (s : Bytes) (w n f : ℕ)
    → w + 6 * length s + 7 ≤ n
    → length s < f
    → read_string f (escape_from s w n) ≡ some s
unfolding escape_from
escape_from_read [] w n zero h k = absurd (omega arith)
escape_from_read [] w n (suc f) h k = read_string-nil f
escape_from_read (c ∷ s) w n zero h k = absurd (omega arith)
escape_from_read (c ∷ s) w n (suc f) h k =
    let rest = escape_from s (w + length (escape_byte c)) n in
    rw (
      room c s w n h,
      read_string-read_char f (escape_byte c ++ rest) rest c (read_char-escape_byte c rest),
      escape_from_read s (w + length (escape_byte c)) n f (omega (arith, escape_byte_short c))
          (omega arith),
    )

-- A text that has room to be escaped reads back as itself, byte for byte; six bytes for each one of
-- the text and seven more are room enough.
pub read_string-json_escape :
    (s : Bytes) (n : ℕ)
    → 6 * length s + 7 ≤ n
    → read_string (suc (length s)) (json_escape s n) ≡ some s
unfolding json_escape
read_string-json_escape s n h = escape_from_read s 0 n (suc (length s)) (omega arith) (omega arith)
