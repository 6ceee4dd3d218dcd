-- ===== src/Alarms/Listing.antt =====
-- src/features/alarms.c: acknowledging, clearing, chatter and what the panel flashes.
use pifire_c.Common.{
  ℕ, zero, suc, ◌+◌, ◌-◌, ◌^◌, ◌<◌, ◌≤◌, ◌≡◌, ◌≢◌, refl, arith, ◌⊎◌, inl, inr, Bool, true, false,
  not, ◌&&◌, Option, none, some, List, [], ◌∷◌, length, leb, Bool-cases, Option-cases,
}
use pifire_c.Common.Float.{Double, ◌<ᵈ◌, ◌+ᵈ◌, ◌-ᵈ◌}
use pifire_c.Text.{Bytes, strlcpy}
use pifire_c.Alarms.Slots.{slot_at-modify, slot_at-modify_ne, find-some}
use pifire_c.Alarms.{
  Alarm, Alarms, Report, modify, find, reap, slot_for, slot_at, raise, raise_slot, activate,
  was_active, chatter_window_s, chatter_shelf_s, clear, clear_slot, is_listed, ack_all, ack_each,
  unacked, newest, newer, may_flash, flash_word, crit_high,
}

module _ {W : Type 0} ⦃d : Double W⦄ where
  ack_each_lem :
      (now : W) (l : List (Alarm W))
      → ((ack_each now l).0 ≡ unacked l) × (unacked (ack_each now l).1 ≡ 0)
  unfolding ack_each unacked
  ack_each_lem now [] = (refl, refl)
  ack_each_lem now (a ∷ l) = ground (arith, ack_each_lem now l)

  -- Acknowledging everything returns how many entries of the list nobody had seen, and leaves none.
  pub ack_all_lem :
      (s : Alarms W) (now : W)
      → ((ack_all s now).0 ≡ unacked s.tab) × (unacked (ack_all s now).1.tab ≡ 0)
  unfolding ack_all
  ack_all_lem s now = ack_each_lem now s.tab

  clear_tab :
      (s : Alarms W) (now : W) (key : Bytes) (i : ℕ)
      → find key s.tab ≡ some i
      → (slot_at i s.tab).active ≡ true
      → (clear s now key).tab ≡ modify i (clear_slot now) s.tab
  unfolding clear
  clear_tab s now key i e a = ground arith

  -- Clearing a standing alarm ends it, and it stays in the list exactly if it is high or critical and
  -- nobody has acknowledged it; every other slot is as it was.
  pub clear_keeps_record :
      (s : Alarms W) (now : W) (key : Bytes) (i : ℕ)
      → find key s.tab ≡ some i
      → (slot_at i s.tab).active ≡ true
      → is_listed (slot_at i s.tab) ≡ true
      → ((slot_at i (clear s now key).tab).active ≡ false)
        × (is_listed (slot_at i (clear s now key).tab)
            ≡ (not (slot_at i s.tab).acked && leb crit_high (slot_at i s.tab).crit))
        × ((j : ℕ) → i ≢ j → slot_at j (clear s now key).tab ≡ slot_at j s.tab)
  clear_keeps_record s now key i e a l =
      rw
        (
          clear_tab s now key i e a,
          slot_at-modify (clear_slot now) s.tab i (find-some key s.tab i e).0,
        )
        (ground arith, ground arith, λ j n. slot_at-modify_ne (clear_slot now) s.tab i j n)

  -- A raise is told only as a new activation: the entry was not standing, and the slot as the raise
  -- leaves it stands and is not shelved.
  pub raise_news :
      (s : Alarms W) (now : W) (key : Bytes) (r : Report) (i : ℕ)
      → slot_for key (reap now s.tab) ≡ some i
      → (raise s now key r).0 ≡ true
      → (was_active (slot_at i (reap now s.tab)) ≡ false)
        × ((now <ᵈ (raise_slot now key r (slot_at i (reap now s.tab))).shelved_until) ≡ false)
  unfolding raise
  raise_news s now key r i e h = ground arith

  chatter_slot :
      (now : W) (key : Bytes) (r : Report) (a : Alarm W)
      → a.used ≡ true
      → a.active ≡ false
      → (chatter_window_s <ᵈ (now -ᵈ a.window_start)) ≡ false
      → 4 ≤ a.window_raises
      → a.window_raises < 2 ^ 32 - 1
      → (a.shelved_until <ᵈ now) ≡ true
      → (raise_slot now key r a).shelved_until ≡ now +ᵈ chatter_shelf_s
  unfolding raise_slot activate
  chatter_slot now key r a u f w n m t = ground arith

  -- From the fifth activation within ten minutes on, an alarm that was not shelved is shelved for
  -- half an hour and is not told.
  pub raise_chatter :
      (s : Alarms W) (now : W) (key : Bytes) (r : Report) (i : ℕ)
      → let a = slot_at i (reap now s.tab) in
        slot_for key (reap now s.tab) ≡ some i
        → a.used ≡ true
        → a.active ≡ false
        → (chatter_window_s <ᵈ (now -ᵈ a.window_start)) ≡ false
        → 4 ≤ a.window_raises
        → a.window_raises < 2 ^ 32 - 1
        → (a.shelved_until <ᵈ now) ≡ true
        → (now <ᵈ (now +ᵈ chatter_shelf_s)) ≡ true
        → ((raise s now key r).0 ≡ false)
          × ((raise_slot now key r a).shelved_until ≡ now +ᵈ chatter_shelf_s)
  unfolding raise
  raise_chatter s now key r i e u f w n m t later =
      ground (arith, chatter_slot now key r (slot_at i (reap now s.tab)))

  abbrev pub NoneBefore : (Alarm W → Bool) → List (Alarm W) → Type 0
  NoneBefore test l = (j : ℕ) → j < length l → test (slot_at j l) ≡ false

  newest-none :
      (test : Alarm W → Bool) (l : List (Alarm W)) (i : ℕ) (best : Option (ℕ × Alarm W))
      → newest test l i best ≡ none
      → (best ≡ none) × NoneBefore test l
  unfolding newest slot_at
  newest-none test [] i best h = (h, λ j n. absurd (omega arith))
  newest-none test (a ∷ l) i best h = elim (Bool-cases (test a)) [
    | inl p ↦
        absurd (
          never (newer i a best) refl
            (newest-none test l (suc i) (newer i a best) (ground arith)).0)
    | inr p ↦ let rest = newest-none test l (suc i) best (ground arith) in (rest.0, each p rest.1)
  ]
    where
      never : (o : Option (ℕ × Alarm W)) → o ≡ newer i a best → o ≡ none → ⊥
      never o e f = ground arith

      each : test a ≡ false → NoneBefore test l → NoneBefore test (a ∷ l)
      each p q zero n = p
      each p q (suc j) n = q j (omega arith)

  -- slot `j` counted from `i` passes the test and holds `b`
  abbrev PassesAt : (Alarm W → Bool) → List (Alarm W) → ℕ → ℕ → Alarm W → Type 0
  PassesAt test l i j b =
      (k : ℕ) × (j ≡ i + k) × (k < length l) × (slot_at k l ≡ b) × (test b ≡ true)

  some_pair :
      (i j : ℕ) (a b : Alarm W)
      → ◌≡◌ {A = Option (ℕ × Alarm W)} (some (i, a)) (some (j, b))
      → (j ≡ i) × (a ≡ b)
  some_pair i j a b e = (ground arith, ground arith)

  newer_cases :
      (i : ℕ) (a : Alarm W) (best : Option (ℕ × Alarm W)) (j : ℕ) (b : Alarm W)
      → newer i a best ≡ some (j, b)
      → ((j ≡ i) × (a ≡ b)) ⊎ (best ≡ some (j, b))
  newer_cases i a none j b h = inl (some_pair i j a b h)
  newer_cases i a (some (k, c)) j b h = elim (Bool-cases (c.raised_ts <ᵈ a.raised_ts)) [
    | inl t ↦
        let e : ◌≡◌ {A = Option (ℕ × Alarm W)} (some (i, a)) (some (j, b)) = rw t at h in
        inl (some_pair i j a b e)
    | inr t ↦
        let e : ◌≡◌ {A = Option (ℕ × Alarm W)} (some (k, c)) (some (j, b)) = rw t at h in inr e
  ]

  newest-some :
      (test : Alarm W → Bool) (l : List (Alarm W)) (i : ℕ) (best : Option (ℕ × Alarm W)) (j : ℕ)
      (b : Alarm W)
      → newest test l i best ≡ some (j, b)
      → (best ≡ some (j, b)) ⊎ PassesAt test l i j b
  unfolding newest slot_at
  newest-some test [] i best j b h = inl h
  newest-some test (a ∷ l) i best j b h = elim (Bool-cases (test a)) [
    | inr p ↦ later (newest-some test l (suc i) best j b (ground arith))
    | inl p ↦ elim (newest-some test l (suc i) (newer i a best) j b (ground arith)) [
      | inr q ↦ later (inr q)
      | inl e ↦ elim (newer_cases i a best j b e) [
        | inl (k, same_entry) ↦ inr (0, omega arith, omega arith, same_entry, rw (← same_entry) p)
        | inr f ↦ inl f
      ]
    ]
  ]
    where
      later :
          (best ≡ some (j, b)) ⊎ PassesAt test l (suc i) j b
          → (best ≡ some (j, b)) ⊎ PassesAt test (a ∷ l) i j b
      later (inl e) = inl e
      later (inr (k, e, n, s, t)) = inr (suc k, omega arith, omega arith, s, t)

  -- The panel flashes the word of an entry that is listed, not acknowledged, not shelved, standing or
  -- a notice, and has a word; it flashes nothing exactly if no entry is such.
  pub flash_word_lem :
      (s : Alarms W) (now : W) (n : ℕ)
      → ((flash_word s now n ≡ none) × NoneBefore (may_flash now) s.tab)
        ⊎ ((i : ℕ) × (i < length s.tab)
            × (may_flash now (slot_at i s.tab) ≡ true)
            × (flash_word s now n ≡ some (strlcpy n (slot_at i s.tab).flash)))
  unfolding flash_word
  flash_word_lem s now n = elim (Option-cases (newest (may_flash now) s.tab 0 none)) [
    | inl e ↦ inl (rw (e, flash_word), (newest-none (may_flash now) s.tab 0 none e).1)
    | inr ((j, b), e) ↦ elim (newest-some (may_flash now) s.tab 0 none j b e) [
      | inl f ↦ absurd (nothing f)
      | inr (k, p, m, q, t) ↦ inr (k, m, rw q t, rw (e, flash_word) (rw q))
    ]
  ]
    where
      nothing : {x : ℕ × Alarm W} → none ≡ some x → ⊥
      nothing f = cc
