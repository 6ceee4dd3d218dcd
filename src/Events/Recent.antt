-- ===== src/Events/Recent.antt =====
-- src/core/events.c: which events the ring gives back.
use pifire_c.Common.{
  ℕ, zero, suc, ◌+◌, ◌-◌, ◌%◌, ◌≤◌, ◌<◌, ◌≡◌, ◌⊎◌, inl, inr, refl, sym, ◌∙◌, ap, arith, true, false,
  List, [], ◌∷◌, ◌++◌, length, ltb, ◌==◌, if◌then◌else◌,
}
use pifire_c.Events.{Event, Bus, put, init, recent, slots_from, set_slot}

module _ {W : Type 0} where
  -- of a history with the newest event first, the `k` newest, or all if there are fewer, with the
  -- newest last
  unfoldable pub latest : ℕ → List (Event W) → List (Event W)
  latest zero h = []
  latest (suc k) [] = []
  latest (suc k) (e ∷ h) = latest k h ++ e ∷ []

  latest_all : (k : ℕ) (h : List (Event W)) → length h ≤ k → latest k h ≡ latest (length h) h
  unfolding latest
  latest_all zero [] n = refl
  latest_all zero (e ∷ h) n = absurd (omega arith)
  latest_all (suc k) [] n = refl
  latest_all (suc k) (e ∷ h) n = ap (λ l. l ++ e ∷ []) (latest_all k h (omega arith))

  -- the loop read from its end
  slots_from_end :
      (ring : ℕ → Event W) (start k : ℕ)
      → slots_from ring start (suc k) ≡ slots_from ring start k ++ ring ((start + k) % 32) ∷ []
  unfolding slots_from
  slots_from_end ring start zero = ap (λ n. ring (n % 32) ∷ []) (omega arith)
  slots_from_end ring start (suc k) =
      ap (λ l. ring (start % 32) ∷ l)
        (slots_from_end ring (suc start) k
          ∙ ap (λ n. slots_from ring (suc start) k ++ ring (n % 32) ∷ []) (omega arith))

  -- a write to the slot that the loop stops before
  slots_from_apart :
      (ring : ℕ → Event W) (head : ℕ) (e : Event W) (start k : ℕ)
      → (start + k) % 32 ≡ head
      → k < 32
      → slots_from (set_slot ring head e) start k ≡ slots_from ring start k
  unfolding slots_from
  slots_from_apart ring head e start zero h n = refl
  slots_from_apart ring head e start (suc k) h n =
      let rest = slots_from_apart ring head e (suc start) k (omega arith) (omega arith) in
      let here : (head == start % 32) ≡ false = ground arith in rw (here, rest) refl

  -- the ring gives back the newest events of the history, as many as it counts
  pub record Holds (b : Bus W) (h : List (Event W)) : Type 0 where
    pub in_head : b.head < 32
    pub in_len : b.len ≡ (if ltb (length h) 32 then length h else 32)
    pub held : (k : ℕ) → k ≤ b.len → slots_from b.ring ((b.head + 32 - k) % 32) k ≡ latest k h

  put_held :
      (b : Bus W) (e : Event W) (h : List (Event W))
      → Holds b h
      → (k : ℕ) → k ≤ (if ltb b.len 32 then b.len + 1 else b.len)
      → slots_from (put b e).ring (((put b e).head + 32 - k) % 32) k ≡ latest k (e ∷ h)
  unfolding put latest slots_from
  put_held b e h inv zero n = refl
  put_held b e h inv (suc k) n =
      let size : b.len ≤ 32 = ground (arith, inv.in_len) in
      let kept : k ≤ b.len = ground arith in
      let small : k < 32 = ground arith in
      let start = (b.head + 32 - k) % 32 in
      let meets : (start + k) % 32 ≡ b.head = omega (arith, inv.in_head) in
      let moved : ((b.head + 1) % 32 + 32 - suc k) % 32 ≡ start = omega (arith, inv.in_head) in
      ap (λ m. slots_from (set_slot b.ring b.head e) m (suc k)) moved
      ∙ slots_from_end (set_slot b.ring b.head e) start k
      ∙ last start k meets (slots_from_apart b.ring b.head e start k meets small ∙ inv.held k kept)
    where
      last :
          (start k : ℕ)
          → (start + k) % 32 ≡ b.head
          → slots_from (set_slot b.ring b.head e) start k ≡ latest k h
          → slots_from (set_slot b.ring b.head e) start k
              ++ set_slot b.ring b.head e ((start + k) % 32) ∷ []
            ≡ latest k h ++ e ∷ []
      last start k meets before =
          let here : (b.head == (start + k) % 32) ≡ true = ground arith in rw (before, here) refl

  put-Holds : (b : Bus W) (e : Event W) (h : List (Event W)) → Holds b h → Holds (put b e) (e ∷ h)
  unfolding put
  put-Holds b e h inv = record {
    in_head = omega arith;
    in_len = ground (arith, inv.in_len);
    held = put_held b e h inv;
  }

  init-Holds : (b : Bus W) → Holds (init b) []
  unfolding init slots_from latest
  init-Holds b = record { in_head = omega arith; in_len = refl; held = none_held }
    where
      none_held : (k : ℕ) → k ≤ 0 → slots_from b.ring ((0 + 32 - k) % 32) k ≡ latest k []
      none_held zero n = refl
      none_held (suc k) n = absurd (omega arith)

  -- the bus after it was made anew and the events of a history were put, the newest of them first
  pub published : Bus W → List (Event W) → Bus W
  published b [] = init b
  published b (e ∷ h) = put (published b h) e

  published-Holds : (b : Bus W) (h : List (Event W)) → Holds (published b h) h
  unfolding published
  published-Holds b [] = init-Holds b
  published-Holds b (e ∷ h) = put-Holds (published b h) e h (published-Holds b h)

  -- Whatever events were put since the start, the list of recent ones gives the newest `max` of
  -- them, but 32 at most, in the order in which they came.
  pub recent-published :
      (b : Bus W) (h : List (Event W)) (max : ℕ)
      → recent (published b h) max ≡ latest (if ltb max 32 then max else 32) h
  unfolding recent
  recent-published b h max =
      let inv = published-Holds b h in
      let len = (published b h).len in
      let count = if ltb len max then len else max in
      let within : count ≤ len = ground arith in
      inv.held count within ∙ as_many count (ground (arith, inv.in_len))
    where
      as_many :
          (count : ℕ)
          → (count ≡ (if ltb max 32 then max else 32))
            ⊎ ((count ≡ length h) × (length h ≤ (if ltb max 32 then max else 32)))
          → latest count h ≡ latest (if ltb max 32 then max else 32) h
      as_many count (inl same) = ap (λ n. latest n h) same
      as_many count (inr (whole, less)) =
          ap (λ n. latest n h) whole ∙ sym (latest_all (if ltb max 32 then max else 32) h less)
