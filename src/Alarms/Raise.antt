-- ===== src/Alarms/Raise.antt =====
-- src/features/alarms.c: what raising an alarm does to the table.
use pifire_c.Common.{
  ℕ, zero, suc, ◌<◌, ◌≤◌, ◌≡◌, ◌≢◌, refl, ap, ◌∙◌, arith, ◌⊎◌, inl, inr, true, false, none, some,
  List, [], ◌∷◌, length, Bool-cases, Option-cases,
}
use pifire_c.Common.Float.{Double}
use pifire_c.Text.{Bytes, take, strlcpy, same, same_refl}
use pifire_c.Alarms.Slots.{
  Given, IsOpen, slot_for-Given, slot_at-modify, slot_at-modify_ne, slot_at-reap, find-modify,
  find-modify_new, find-some, first_unused-some, first_unused-none, open_refused,
}
use pifire_c.Alarms.{
  Alarm, Alarms, Report, modify, is_for, find, first_unused, reap, slot_for, slot_at, raise,
  raise_slot, activate, clear,
}

module _ {W : Type 0} ⦃d : Double W⦄ where
  raise-none :
      (s : Alarms W) (now : W) (key : Bytes) (r : Report)
      → slot_for key (reap now s.tab) ≡ none
      → (raise s now key r).1.tab ≡ reap now s.tab
  unfolding raise
  raise-none s now key r e = ground arith

  raise-some :
      (s : Alarms W) (now : W) (key : Bytes) (r : Report) (i : ℕ)
      → slot_for key (reap now s.tab) ≡ some i
      → (raise s now key r).1.tab ≡ modify i (raise_slot now key r) (reap now s.tab)
  unfolding raise
  raise-some s now key r i e = ground arith

  -- Raising an alarm leaves every other entry that is still true, or that nobody has seen, as it was,
  -- however full the table is.
  pub raise_keeps_open :
      (s : Alarms W) (now : W) (key : Bytes) (r : Report) (j : ℕ)
      → IsOpen (slot_at j s.tab)
      → is_for key (slot_at j s.tab) ≡ false
      → slot_at j (raise s now key r).1.tab ≡ slot_at j s.tab
  raise_keeps_open s now key r j o f =
      let kept = slot_at-reap now s.tab j o.1 in
      elim (Option-cases (slot_for key (reap now s.tab))) [
        | inl e ↦ ap (slot_at j) (raise-none s now key r e) ∙ kept
        | inr (i, e) ↦
            ap (slot_at j) (raise-some s now key r i e)
            ∙ (slot_at-modify_ne (raise_slot now key r) (reap now s.tab) i j
                  (other i (slot_for-Given key (reap now s.tab) i e).1)
                ∙ kept)
      ]
    where
      other : (i : ℕ) → Given key (slot_at i (reap now s.tab)) → i ≢ j
      other i g e =
          open_refused key (slot_at j s.tab) o f (rw (← slot_at-reap now s.tab j o.1) (rw e at g))

  -- what a raised slot keeps of the entry that it held
  raise_slot_used :
      (now : W) (key : Bytes) (r : Report) (a : Alarm W)
      → a.used ≡ true
      → ((raise_slot now key r a).used ≡ true)
        × ((raise_slot now key r a).key ≡ a.key)
        × ((raise_slot now key r a).active ≡ true)
        × ((raise_slot now key r a).title ≡ strlcpy 120 r.title)
  unfolding raise_slot activate
  raise_slot_used now key r a u = ground arith

  raise_slot_unused :
      (now : W) (key : Bytes) (r : Report) (a : Alarm W)
      → a.used ≡ false
      → ((raise_slot now key r a).used ≡ true)
        × ((raise_slot now key r a).key ≡ strlcpy 96 key)
        × ((raise_slot now key r a).active ≡ true)
        × ((raise_slot now key r a).title ≡ strlcpy 120 r.title)
  unfolding raise_slot activate
  raise_slot_unused now key r a u = ground arith

take_all : (n : ℕ) (k : Bytes) → length k ≤ n → take n k ≡ k
take_all zero [] h = refl
take_all zero (a ∷ k) h = absurd (omega arith)
take_all (suc n) [] h = refl
take_all (suc n) (a ∷ k) h = ap (λ t. a ∷ t) (take_all n k (omega arith))

module _ {W : Type 0} ⦃d : Double W⦄ where
  -- slot `i` holds the report, standing
  abbrev pub Stands : Report → ℕ → List (Alarm W) → Type 0
  Stands r i l = ((slot_at i l).active ≡ true) × ((slot_at i l).title ≡ strlcpy 120 r.title)

  Stands-modify :
      (now : W) (key : Bytes) (r : Report) (l : List (Alarm W)) (i : ℕ)
      → i < length l
      → Stands r i (modify i (raise_slot now key r) l)
  Stands-modify now key r l i n = elim (Bool-cases (slot_at i l).used) [
    | inl u ↦ ground (
      arith,
      slot_at-modify (raise_slot now key r) l i n,
      raise_slot_used now key r (slot_at i l) u,
    )
    | inr u ↦ ground (
      arith,
      slot_at-modify (raise_slot now key r) l i n,
      raise_slot_unused now key r (slot_at i l) u,
    )
  ]

  slot_for_found :
      (key : Bytes) (l : List (Alarm W)) (i : ℕ) → find key l ≡ some i → slot_for key l ≡ some i
  unfolding slot_for
  slot_for_found key l i e = ground arith

  slot_for_unused :
      (key : Bytes) (l : List (Alarm W)) (i : ℕ)
      → find key l ≡ none
      → first_unused l ≡ some i
      → slot_for key l ≡ some i
  unfolding slot_for
  slot_for_unused key l i e f = ground arith

  is_for_used :
      (now : W) (key : Bytes) (r : Report) (a : Alarm W)
      → a.used ≡ true
      → is_for key (raise_slot now key r a) ≡ is_for key a
  is_for_used now key r a u = ground (arith, raise_slot_used now key r a u)

  is_for_unused :
      (now : W) (key : Bytes) (r : Report) (a : Alarm W)
      → length key < 96
      → a.used ≡ false
      → is_for key (raise_slot now key r a) ≡ true
  is_for_unused now key r a n u =
      ground (arith, raise_slot_unused now key r a u, take_all 95 key (omega arith), same_refl key)

  is_for_other :
      (now : W) (key other : Bytes) (r : Report) (a : Alarm W)
      → same (strlcpy 96 key) other ≡ false
      → is_for other (raise_slot now key r a) ≡ is_for other a
  is_for_other now key other r a n = elim (Bool-cases a.used) [
    | inl u ↦ ground (arith, raise_slot_used now key r a u)
    | inr u ↦ ground (arith, raise_slot_unused now key r a u)
  ]

  -- raising an alarm puts none under another key
  pub find-raise_other :
      (s : Alarms W) (now : W) (key other : Bytes) (r : Report)
      → same (strlcpy 96 key) other ≡ false
      → find other (raise s now key r).1.tab ≡ find other (reap now s.tab)
  find-raise_other s now key other r n =
      let tab = reap now s.tab in
      elim (Option-cases (slot_for key tab)) [
        | inl e ↦ ap (find other) (raise-none s now key r e)
        | inr (i, e) ↦
            ap (find other) (raise-some s now key r i e)
            ∙ find-modify other (raise_slot now key r) tab i
                (is_for_other now key other r (slot_at i tab) n)
      ]

  clear-none : (s : Alarms W) (now : W) (key : Bytes) → find key s.tab ≡ none → clear s now key ≡ s
  unfolding clear
  clear-none s now key e = ground arith

  -- An alarm that has a slot already, or for which a slot is unused, stands in the table after it is
  -- raised, with its message, where its key finds it; its key has at most 95 bytes.
  pub find-raise :
      (s : Alarms W) (now : W) (key : Bytes) (r : Report) (i : ℕ)
      → length key < 96
      → (find key (reap now s.tab) ≡ some i)
        ⊎ ((find key (reap now s.tab) ≡ none) × (first_unused (reap now s.tab) ≡ some i))
      → (find key (raise s now key r).1.tab ≡ some i) × Stands r i (raise s now key r).1.tab
  find-raise s now key r i n (inl e) =
      let tab = reap now s.tab in
      rw (raise-some s now key r i (slot_for_found key tab i e)) (
        find-modify key (raise_slot now key r) tab i
              (is_for_used now key r (slot_at i tab) (ground (arith, find-some key tab i e)))
            ∙ e,
        Stands-modify now key r tab i (find-some key tab i e).0,
      )
  find-raise s now key r i n (inr (e, f)) =
      let tab = reap now s.tab in
      let slot = first_unused-some tab i f in
      rw (raise-some s now key r i (slot_for_unused key tab i e f)) (
        find-modify_new key (raise_slot now key r) tab i e slot.0
            (is_for_unused now key r (slot_at i tab) n slot.1),
        Stands-modify now key r tab i slot.0,
      )

  -- A full table gives the slot of an old entry to a new alarm, and the slot keeps the old key: the
  -- new alarm stands there with its message, its own key finds nothing, and clearing it does nothing.
  pub raise_full_unfound :
      (s : Alarms W) (now now' : W) (key : Bytes) (r : Report) (i : ℕ)
      → find key (reap now s.tab) ≡ none
      → first_unused (reap now s.tab) ≡ none
      → slot_for key (reap now s.tab) ≡ some i
      → Stands r i (raise s now key r).1.tab
        × (find key (raise s now key r).1.tab ≡ none)
        × (clear (raise s now key r).1 now' key ≡ (raise s now key r).1)
  raise_full_unfound s now now' key r i e f g =
      let tab = reap now s.tab in
      let bound = (slot_for-Given key tab i g).0 in
      let lost : find key (raise s now key r).1.tab ≡ none =
        ap (find key) (raise-some s now key r i g)
        ∙ find-modify key (raise_slot now key r) tab i
            (is_for_used now key r (slot_at i tab) (first_unused-none tab i f bound))
        ∙ e in
      (
        rw (raise-some s now key r i g) (Stands-modify now key r tab i bound),
        lost,
        clear-none (raise s now key r).1 now' key lost,
      )
