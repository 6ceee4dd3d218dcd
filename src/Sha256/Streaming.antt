-- ===== src/Sha256/Streaming.antt =====
-- src/core/sha256.c: a message may be handed over in any pieces.
use pifire_c.Common.{
  ℕ, zero, suc, ◌+◌, ◌-◌, ◌%◌, ◌^◌, ◌≤◌, ◌<◌, ◌≡◌, refl, sym, ap, ◌∙◌, arith, min, [], ◌∷◌, ◌++◌,
  length, length-append, drop,
}
use pifire_c.Text.{Bytes, take}
use pifire_c.Sha256.{Sha256, Words, close, fill, update}

-- the description: a byte at a time
unfoldable pub feed : Words × Bytes → Bytes → Words × Bytes
feed s [] = s
feed (v, buf) (a ∷ p) = feed (close v (buf ++ a ∷ [])) p

feed-append : (s : Words × Bytes) (p q : Bytes) → feed s (p ++ q) ≡ feed (feed s p) q
unfolding feed
feed-append s [] q = refl
feed-append (v, buf) (a ∷ p) q = feed-append (close v (buf ++ a ∷ [])) p q

close_open : (v : Words) (buf : Bytes) → length buf < 64 → close v buf ≡ (v, buf)
unfolding close
close_open v buf h = ground arith

close_short : (v : Words) (buf : Bytes) → length buf ≤ 64 → length (close v buf).1 < 64
unfolding close
close_short v buf h = ground arith

append_nil : (p : Bytes) → p ++ [] ≡ p
append_nil [] = refl
append_nil (a ∷ p) = ap (λ l. a ∷ l) (append_nil p)

append_step : (p q : Bytes) (a : ℕ) → (p ++ a ∷ []) ++ q ≡ p ++ a ∷ q
append_step [] q a = refl
append_step (b ∷ p) q a = ap (λ l. b ∷ l) (append_step p q a)

-- a chunk that the buffer has room for
feed_chunk :
    (n : ℕ) (v : Words) (buf p : Bytes)
    → length buf < 64
    → length buf + n ≤ 64
    → n ≤ length p
    → feed (v, buf) p ≡ feed (close v (buf ++ take n p)) (drop n p)
unfolding feed
feed_chunk zero v buf p h r m = rw (append_nil buf, close_open v buf h) refl
feed_chunk (suc n) v buf [] h r m = absurd (omega arith)
feed_chunk (suc zero) v buf (a ∷ p) h r m = refl
feed_chunk (suc (suc n)) v buf (a ∷ p) h r m =
    let longer = length-append buf (a ∷ []) in
    let more : length (buf ++ a ∷ []) < 64 = omega (arith, longer) in
    rw (close_open v (buf ++ a ∷ []) more) (
      feed_chunk (suc n) v (buf ++ a ∷ []) p more (omega (arith, longer)) (omega arith)
      ∙ ap (λ l. feed (close v l) (drop (suc n) p)) (append_step buf (take (suc n) p) a))

length-take_all : (n : ℕ) (p : Bytes) → n ≤ length p → length (take n p) ≡ n
length-take_all zero p h = refl
length-take_all (suc n) [] h = absurd (omega arith)
length-take_all (suc n) (a ∷ p) h = omega (arith, length-take_all n p (omega arith))

length-drop : (n : ℕ) (p : Bytes) → length (drop n p) ≡ length p - n
length-drop zero p = omega arith
length-drop (suc n) [] = omega arith
length-drop (suc n) (a ∷ p) = omega (arith, length-drop n p)

-- The loop that copies chunks does what feeding byte by byte does, with the number of bytes as fuel.
fill_lem :
    (fuel : ℕ) (v : Words) (buf p : Bytes)
    → length p ≤ fuel
    → length buf < 64
    → fill fuel (v, buf) p ≡ feed (v, buf) p
unfolding fill feed
fill_lem zero v buf [] h r = refl
fill_lem zero v buf (a ∷ p) h r = absurd (omega arith)
fill_lem (suc fuel) v buf [] h r = refl
fill_lem (suc fuel) v buf (a ∷ p) h r =
    let n = min (64 - length buf) (length (a ∷ p)) in
    let chunk = buf ++ take n (a ∷ p) in
    let some_taken : 0 < n = omega arith in
    let within : n ≤ length (a ∷ p) = omega arith in
    let room : length buf + n ≤ 64 = omega arith in
    let size : length chunk ≡ length buf + n =
      omega (arith, length-append buf (take n (a ∷ p)), length-take_all n (a ∷ p) within) in
    let s = close v chunk in
    fill_lem fuel s.0 s.1 (drop n (a ∷ p)) (omega (arith, length-drop n (a ∷ p)))
      (close_short v chunk (omega arith))
    ∙ sym (feed_chunk n v buf (a ∷ p) r room within)

feed_short :
    (p : Bytes) (v : Words) (buf : Bytes) → length buf < 64 → length (feed (v, buf) p).1 < 64
unfolding feed
feed_short [] v buf h = h
feed_short (a ∷ p) v buf h =
    let s = close v (buf ++ a ∷ []) in
    feed_short p s.0 s.1 (close_short v (buf ++ a ∷ []) (omega (arith, length-append buf (a ∷ []))))

pub update-feed :
    (s : Sha256) (p : Bytes)
    → length s.buf < 64
    → update s p ≡ record {
      words = (feed (s.words, s.buf) p).0;
      len = (s.len + length p) % 2 ^ 64;
      buf = (feed (s.words, s.buf) p).1;
    }
unfolding update
update-feed s p h = rw (fill_lem (length p) s.words s.buf p (omega arith) h) refl

-- From a buffer that is not full, a message may be handed over in any pieces: the buffer is not full
-- after a call either, and two calls one after the other leave what one call with both pieces leaves.
pub update-append :
    (s : Sha256) (p q : Bytes)
    → length s.buf < 64
    → (length (update s p).buf < 64) × (update (update s p) q ≡ update s (p ++ q))
update-append s p q h =
    let s' : Sha256 = record {
      words = (feed (s.words, s.buf) p).0;
      len = (s.len + length p) % 2 ^ 64;
      buf = (feed (s.words, s.buf) p).1;
    } in
    let short = feed_short p s.words s.buf h in
    (
      rw (update-feed s p h) short,
      ap (λ t. update t q) (update-feed s p h)
          ∙ update-feed s' q short
          ∙ same (feed-append (s.words, s.buf) p q)
          ∙ sym (update-feed s (p ++ q) h),
    )
  where
    same :
        feed (s.words, s.buf) (p ++ q) ≡ feed (feed (s.words, s.buf) p) q
        → ◌≡◌ {A = Sha256}
            (record {
              words = (feed (feed (s.words, s.buf) p) q).0;
              len = ((s.len + length p) % 2 ^ 64 + length q) % 2 ^ 64;
              buf = (feed (feed (s.words, s.buf) p) q).1;
            })
            (record {
              words = (feed (s.words, s.buf) (p ++ q)).0;
              len = (s.len + length (p ++ q)) % 2 ^ 64;
              buf = (feed (s.words, s.buf) (p ++ q)).1;
            })
    same e =
        let counts : ((s.len + length p) % 2 ^ 64 + length q) % 2 ^ 64
            ≡ (s.len + length (p ++ q)) % 2 ^ 64 =
          omega (arith, length-append p q) in
        rw (e, counts) refl
