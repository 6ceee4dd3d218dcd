-- ===== src/Sha256/Padding.antt =====
-- src/core/sha256.c, `pf_sha256_final`: the padding ends, on the end of a block.
use pifire_c.Common.{
  ℕ, zero, suc, ◌+◌, ◌-◌, ◌*◌, ◌%◌, ◌^◌, ◌≤◌, ◌<◌, ◌≡◌, arith, [], ◌∷◌, ◌++◌, length, length-append,
  ◌==◌, inl, inr, Bool-cases, ◌≢◌,
}
use pifire_c.Text.{Bytes}
use pifire_c.Sha256.{Sha256, Words, close, update, pad, padded, big_endian}
use pifire_c.Sha256.Streaming.{feed, update-feed}

length-close :
    (v : Words) (buf : Bytes) → length buf ≤ 64 → length (close v buf).1 ≡ length buf % 64
unfolding close
length-close v buf h = ground arith

length-feed :
    (p : Bytes) (v : Words) (buf : Bytes)
    → length buf < 64
    → length (feed (v, buf) p).1 ≡ (length buf + length p) % 64
unfolding feed
length-feed [] v buf h = omega arith
length-feed (a ∷ p) v buf h =
    let s = close v (buf ++ a ∷ []) in
    let longer = length-append buf (a ∷ []) in
    let closed = length-close v (buf ++ a ∷ []) (omega (arith, longer)) in
    omega (arith, longer, closed, length-feed p s.0 s.1 (omega (arith, closed)))

length-update :
    (s : Sha256) (p : Bytes)
    → length s.buf < 64
    → length (update s p).buf ≡ (length s.buf + length p) % 64
length-update s p h = rw (update-feed s p h) (length-feed p s.words s.buf h)

pad_lem :
    (fuel : ℕ) (s : Sha256)
    → length s.buf < 64
    → (120 - length s.buf) % 64 < fuel
    → length (pad fuel s).buf ≡ 56
unfolding pad
pad_lem zero s h r = absurd (omega arith)
pad_lem (suc fuel) s h r =
    let next = length-update s (0 ∷ []) h in
    elim (Bool-cases (length s.buf == 56)) [
      | inl e ↦ let done : length s.buf ≡ 56 = ground arith in rw e done
      | inr e ↦
          let other : (120 - length s.buf) % 64 ≢ 0 = ground arith in
          rw e (pad_lem fuel (update s (0 ∷ [])) (omega (arith, next)) (omega (arith, next)))
    ]

-- From a buffer that is not full, the loop of zeros ends within its 64 turns, and with the length after it the message ends with a
-- block: the buffer is empty, so every byte has been compressed.
pub length-padded : (s : Sha256) → length s.buf < 64 → length (padded s).buf ≡ 0
unfolding padded
length-padded s h =
    let one = update s (128 ∷ []) in
    let opened = length-update s (128 ∷ []) h in
    let filled = pad_lem 64 one (omega (arith, opened)) (omega (arith, opened)) in
    omega (
      arith,
      filled,
      length-update (pad 64 one) (big_endian 8 (s.len * 8 % 2 ^ 64)) (omega (arith, filled)),
    )
