-- ===== src/Alarms/Slots.antt =====
-- src/features/alarms.c: which slot an alarm gets, and what becomes of the others.
use pifire_c.Common.{
  ℕ, zero, suc, ◌+◌, ◌<◌, ◌≡◌, ◌≢◌, refl, ap, arith, ◌⊎◌, inl, inr, true, false, not, ◌||◌, Option,
  none, some, List, [], ◌∷◌, length, Bool-cases, Option-cases,
}
use pifire_c.Common.Float.{Double}
use pifire_c.Text.{Bytes}
use pifire_c.Alarms.{
  Alarm, modify, is_for, find, first_unused, reap, evict, older, slot_for, slot_at,
}

module _ {W : Type 0} ⦃d : Double W⦄ where
  pub find-some :
      (key : Bytes) (l : List (Alarm W)) (i : ℕ)
      → find key l ≡ some i
      → (i < length l) × (is_for key (slot_at i l) ≡ true)
  unfolding find slot_at
  find-some key [] i h = cc
  find-some key (a ∷ l) zero h = ground (arith, Option-cases (find key l))
  find-some key (a ∷ l) (suc i) h = ground (arith, find-some key l i)

  pub first_unused-some :
      (l : List (Alarm W)) (i : ℕ)
      → first_unused l ≡ some i
      → (i < length l) × ((slot_at i l).used ≡ false)
  unfolding first_unused slot_at
  first_unused-some [] i h = cc
  first_unused-some (a ∷ l) zero h = ground arith
  first_unused-some (a ∷ l) (suc i) h = ground (arith, first_unused-some l i)

  -- an entry that may give up its slot
  abbrev pub Spent : Alarm W → Type 0
  Spent a = (a.retired ≡ true) ⊎ ((a.active ≡ false) × (a.acked ≡ true))

  -- slot `j` of the table, which is slot `j - i` of the rest, is spent
  abbrev SpentAt : List (Alarm W) → ℕ → ℕ → Type 0
  SpentAt l i j = (k : ℕ) × (j ≡ i + k) × (k < length l) × Spent (slot_at k l)

  SpentAt-here :
      (a : Alarm W) (l : List (Alarm W)) (i j : ℕ) → j ≡ i → Spent a → SpentAt (a ∷ l) i j
  unfolding slot_at
  SpentAt-here a l i j e s = (0, omega arith, omega arith, s)

  SpentAt-there :
      (a : Alarm W) (l : List (Alarm W)) (i j : ℕ) → SpentAt l (suc i) j → SpentAt (a ∷ l) i j
  unfolding slot_at
  SpentAt-there a l i j (k, e, b, s) = (suc k, omega arith, omega arith, s)

  older_cases :
      (i : ℕ) (a : Alarm W) (best : Option (ℕ × W)) (j : ℕ) (t : W)
      → older i a best ≡ some (j, t)
      → (j ≡ i) ⊎ (best ≡ some (j, t))
  older_cases i a none j t h = ground arith
  older_cases i a (some (k, u)) j t h = ground arith

  evict-some :
      (l : List (Alarm W)) (i : ℕ) (best : Option (ℕ × W)) (j : ℕ)
      → evict l i best ≡ some j
      → ((t : W) × (best ≡ some (j, t))) ⊎ SpentAt l i j
  unfolding evict
  evict-some [] i none j h = cc
  evict-some [] i (some (k, t)) j h = inl (t, ground arith)
  evict-some (a ∷ l) i best j h = elim (Bool-cases a.retired) [
    | inl r ↦ inr (SpentAt-here a l i j (ground arith) (inl r))
    | inr r ↦ elim (Bool-cases (a.active || not a.acked)) [
      | inl keep ↦ elim (evict-some l (suc i) best j (ground arith)) [
        | inl b ↦ inl b
        | inr s ↦ inr (SpentAt-there a l i j s)
      ]
      | inr drop ↦ elim (evict-some l (suc i) (older i a best) j (ground arith)) [
        | inl (t, b) ↦ elim (older_cases i a best j t b) [
          | inl e ↦ inr (SpentAt-here a l i j e (inr (ground arith)))
          | inr b' ↦ inl (t, b')
        ]
        | inr s ↦ inr (SpentAt-there a l i j s)
      ]
    ]
  ]

  -- the slot that `slot_for` may hand out
  abbrev pub Given : Bytes → Alarm W → Type 0
  Given key a = (is_for key a ≡ true) ⊎ (a.used ≡ false) ⊎ Spent a

  pub slot_for-Given :
      (key : Bytes) (l : List (Alarm W)) (i : ℕ)
      → slot_for key l ≡ some i
      → (i < length l) × Given key (slot_at i l)
  unfolding slot_for
  slot_for-Given key l i h = elim (Option-cases (find key l)) [
    | inr (k, e) ↦ let b = find-some key l i (ground arith) in (b.0, inl b.1)
    | inl e ↦ elim (Option-cases (first_unused l)) [
      | inr (k, f) ↦ let b = first_unused-some l i (ground arith) in (b.0, inr (inl b.1))
      | inl f ↦ elim (evict-some l 0 none i (ground arith)) [
        | inl (t, b) ↦ cc
        | inr (k, p, b, s) ↦ let same_slot : i ≡ k = omega arith in rw same_slot (b, inr (inr s))
      ]
    ]
  ]

  pub slot_at-modify :
      (f : Alarm W → Alarm W) (l : List (Alarm W)) (i : ℕ)
      → i < length l
      → slot_at i (modify i f l) ≡ f (slot_at i l)
  unfolding slot_at modify
  slot_at-modify f [] i h = absurd (omega arith)
  slot_at-modify f (a ∷ l) zero h = refl
  slot_at-modify f (a ∷ l) (suc i) h = slot_at-modify f l i (omega arith)

  pub slot_at-modify_ne :
      (f : Alarm W → Alarm W) (l : List (Alarm W)) (i j : ℕ)
      → i ≢ j
      → slot_at j (modify i f l) ≡ slot_at j l
  unfolding slot_at modify
  slot_at-modify_ne f [] i j h = refl
  slot_at-modify_ne f (a ∷ l) zero zero h = absurd (h refl)
  slot_at-modify_ne f (a ∷ l) zero (suc j) h = refl
  slot_at-modify_ne f (a ∷ l) (suc i) zero h = refl
  slot_at-modify_ne f (a ∷ l) (suc i) (suc j) h = slot_at-modify_ne f l i j (λ e. h (ap suc e))

  pub slot_at-reap :
      (now : W) (l : List (Alarm W)) (j : ℕ)
      → (slot_at j l).retired ≡ false
      → slot_at j (reap now l) ≡ slot_at j l
  unfolding slot_at reap
  slot_at-reap now [] j h = refl
  slot_at-reap now (a ∷ l) zero h = ground arith
  slot_at-reap now (a ∷ l) (suc j) h = slot_at-reap now l j h

  -- What nobody has dealt with: in the list, and still true or not seen.
  abbrev pub IsOpen : Alarm W → Type 0
  IsOpen a = (a.used ≡ true) × (a.retired ≡ false) × ((a.active ≡ true) ⊎ (a.acked ≡ false))

  pub open_refused : (key : Bytes) (a : Alarm W) → IsOpen a → is_for key a ≡ false → Given key a → ⊥
  open_refused key a o f g = ground arith

  pub find-modify :
      (key : Bytes) (f : Alarm W → Alarm W) (l : List (Alarm W)) (i : ℕ)
      → is_for key (f (slot_at i l)) ≡ is_for key (slot_at i l)
      → find key (modify i f l) ≡ find key l
  unfolding find modify slot_at
  find-modify key f [] i h = refl
  find-modify key f (a ∷ l) zero h = ground arith
  find-modify key f (a ∷ l) (suc i) h = ground (arith, find-modify key f l i h)

  pub find-modify_new :
      (key : Bytes) (f : Alarm W → Alarm W) (l : List (Alarm W)) (i : ℕ)
      → find key l ≡ none
      → i < length l
      → is_for key (f (slot_at i l)) ≡ true
      → find key (modify i f l) ≡ some i
  unfolding find modify slot_at
  find-modify_new key f [] i n h e = absurd (omega arith)
  find-modify_new key f (a ∷ l) zero n h e = ground arith
  find-modify_new key f (a ∷ l) (suc i) n h e =
      ground (arith, Option-cases (find key l), find-modify_new key f l i)

  pub first_unused-none :
      (l : List (Alarm W)) (i : ℕ)
      → first_unused l ≡ none
      → i < length l
      → (slot_at i l).used ≡ true
  unfolding first_unused slot_at
  first_unused-none [] i h n = absurd (omega arith)
  first_unused-none (a ∷ l) zero h n = ground arith
  first_unused-none (a ∷ l) (suc i) h n =
      ground (arith, Option-cases (first_unused l), first_unused-none l i)
