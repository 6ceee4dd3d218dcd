-- ===== src/Sha256.antt =====
-- src/core/sha256.c: SHA-256 over bytes, on words of 32 bits. The bytes of `buf` beyond `buflen` are
-- never read, so the buffer is the list of the others. Reading a file is left out.
pub mod Streaming
pub mod Padding
mod Tests
use Prim.Native.Nat.{bit_and, bit_or, bit_xor}
use pifire_c.Common.{
  ℕ, zero, suc, ◌+◌, ◌-◌, ◌*◌, ◌/◌, ◌%◌, ◌^◌, min, Bool, true, false, List, [], ◌∷◌, ◌++◌, length,
  drop, ◌==◌, if◌then◌else◌,
}
use pifire_c.Text.{Bytes, take}

-- the round constants
abbrev pub k : List ℕ
k =
    1116352408 ∷ 1899447441 ∷ 3049323471 ∷ 3921009573 ∷ 961987163 ∷ 1508970993 ∷ 2453635748
    ∷ 2870763221 ∷ 3624381080 ∷ 310598401 ∷ 607225278 ∷ 1426881987 ∷ 1925078388 ∷ 2162078206
    ∷ 2614888103 ∷ 3248222580 ∷ 3835390401 ∷ 4022224774 ∷ 264347078 ∷ 604807628 ∷ 770255983
    ∷ 1249150122 ∷ 1555081692 ∷ 1996064986 ∷ 2554220882 ∷ 2821834349 ∷ 2952996808 ∷ 3210313671
    ∷ 3336571891 ∷ 3584528711 ∷ 113926993 ∷ 338241895 ∷ 666307205 ∷ 773529912 ∷ 1294757372
    ∷ 1396182291 ∷ 1695183700 ∷ 1986661051 ∷ 2177026350 ∷ 2456956037 ∷ 2730485921 ∷ 2820302411
    ∷ 3259730800 ∷ 3345764771 ∷ 3516065817 ∷ 3600352804 ∷ 4094571909 ∷ 275423344 ∷ 430227734
    ∷ 506948616 ∷ 659060556 ∷ 883997877 ∷ 958139571 ∷ 1322822218 ∷ 1537002063 ∷ 1747873779
    ∷ 1955562222 ∷ 2024104815 ∷ 2227730452 ∷ 2361852424 ∷ 2428436474 ∷ 2756734187 ∷ 3204031479
    ∷ 3329325298 ∷ []

-- `h[8]`
pub record Words : Type 0 where
  pub a : ℕ
  pub b : ℕ
  pub c : ℕ
  pub d : ℕ
  pub e : ℕ
  pub f : ℕ
  pub g : ℕ
  pub h : ℕ

pub record Sha256 : Type 0 where
  pub words : Words
  pub len : ℕ
  pub buf : Bytes

abbrev pub word : ℕ → ℕ
word n = n % 2 ^ 32

-- `ROTR`
abbrev pub rotr : ℕ → ℕ → ℕ
rotr x n = bit_or (x / 2 ^ n) (word (x * 2 ^ (32 - n)))

abbrev pub xor3 : ℕ → ℕ → ℕ → ℕ
xor3 x y z = bit_xor (bit_xor x y) z

-- `~x`
abbrev pub complement : ℕ → ℕ
complement x = 2 ^ 32 - 1 - x

abbrev pub at : ℕ → List ℕ → ℕ
at n [] = 0
at zero (a ∷ l) = a
at (suc n) (a ∷ l) = at n l

-- the sixteen words of a block, the last one first
unfoldable pub words_of : Bytes → List ℕ → List ℕ
words_of (a ∷ b ∷ c ∷ d ∷ p) w =
    words_of p (bit_or (bit_or (bit_or (a * 2 ^ 24) (b * 2 ^ 16)) (c * 2 ^ 8)) d ∷ w)
words_of _ w = w

-- `n` more words of the schedule, the last one first: `w[i - j]` is at `j - 1`
unfoldable pub expand : ℕ → List ℕ → List ℕ
expand zero w = w
expand (suc n) w =
    let s0 = xor3 (rotr (at 14 w) 7) (rotr (at 14 w) 18) (at 14 w / 2 ^ 3) in
    let s1 = xor3 (rotr (at 1 w) 17) (rotr (at 1 w) 19) (at 1 w / 2 ^ 10) in
    expand n (word (at 15 w + s0 + at 6 w + s1) ∷ w)

-- one round, with its constant and its word
unfoldable pub round : Words → ℕ → ℕ → Words
round v k_i w_i =
    let s1 = xor3 (rotr v.e 6) (rotr v.e 11) (rotr v.e 25) in
    let ch = bit_xor (bit_and v.e v.f) (bit_and (complement v.e) v.g) in
    let t1 = word (v.h + s1 + ch + k_i + w_i) in
    let s0 = xor3 (rotr v.a 2) (rotr v.a 13) (rotr v.a 22) in
    let maj = xor3 (bit_and v.a v.b) (bit_and v.a v.c) (bit_and v.b v.c) in
    let t2 = word (s0 + maj) in
    record {
      a = word (t1 + t2);
      b = v.a;
      c = v.b;
      d = v.c;
      e = word (v.d + t1);
      f = v.e;
      g = v.f;
      h = v.g;
    }

unfoldable pub rounds : Words → List ℕ → List ℕ → Words
rounds v (k_i ∷ ks) (w_i ∷ ws) = rounds (round v k_i w_i) ks ws
rounds v _ _ = v

abbrev pub reverse_onto : List ℕ → List ℕ → List ℕ
reverse_onto [] l = l
reverse_onto (a ∷ w) l = reverse_onto w (a ∷ l)

unfoldable pub block : Words → Bytes → Words
unfolding words_of expand round rounds
block s p =
    let v = rounds s k (reverse_onto (expand 48 (words_of p [])) []) in
    record {
      a = word (s.a + v.a);
      b = word (s.b + v.b);
      c = word (s.c + v.c);
      d = word (s.d + v.d);
      e = word (s.e + v.e);
      f = word (s.f + v.f);
      g = word (s.g + v.g);
      h = word (s.h + v.h);
    }

-- `pf_sha256_init`
unfoldable pub init : Sha256
init = record {
  words = record {
    a = 1779033703;
    b = 3144134277;
    c = 1013904242;
    d = 2773480762;
    e = 1359893119;
    f = 2600822924;
    g = 528734635;
    h = 1541459225;
  };
  len = 0;
  buf = [];
}

-- a buffer that is full is compressed
unfoldable pub close : Words → Bytes → Words × Bytes
close v buf = if length buf == 64 then (block v buf, []) else (v, buf)

-- The loop of `pf_sha256_update`: each turn takes a byte at least, so the number of bytes is fuel
-- enough (`fill_lem`).
unfoldable pub fill : ℕ → Words × Bytes → Bytes → Words × Bytes
fill zero s p = s
fill (suc fuel) s [] = s
fill (suc fuel) (v, buf) (a ∷ p) =
    let n = min (64 - length buf) (length (a ∷ p)) in
    fill fuel (close v (buf ++ take n (a ∷ p))) (drop n (a ∷ p))

unfoldable pub update : Sha256 → Bytes → Sha256
update s p =
    let (v, buf) = fill (length p) (s.words, s.buf) p in
    record { words = v; len = (s.len + length p) % 2 ^ 64; buf = buf }

-- the loop of zeros of `pf_sha256_final`, of at most 64 turns (`pad_lem`)
unfoldable pub pad : ℕ → Sha256 → Sha256
pad zero s = s
pad (suc fuel) s = let rest = pad fuel (update s (0 ∷ [])) in if length s.buf == 56 then s else rest

-- the low `8 n` bits of a number, the highest byte first
abbrev pub big_endian : ℕ → ℕ → Bytes
big_endian zero x = []
big_endian (suc n) x = (x / 2 ^ (8 * n)) % 256 ∷ big_endian n x

unfoldable pub padded : Sha256 → Sha256
padded s =
    let bits = s.len * 8 % 2 ^ 64 in update (pad 64 (update s (128 ∷ []))) (big_endian 8 bits)

-- `pf_sha256_final`
unfoldable pub final : Sha256 → Bytes
unfolding padded
final s =
    let v = (padded s).words in
    big_endian 4 v.a
    ++ big_endian 4 v.b
    ++ big_endian 4 v.c
    ++ big_endian 4 v.d
    ++ big_endian 4 v.e
    ++ big_endian 4 v.f
    ++ big_endian 4 v.g
    ++ big_endian 4 v.h
