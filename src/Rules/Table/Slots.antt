-- ===== src/Rules/Table/Slots.antt =====
-- src/features/rules.c, `state_for` and `retire_rule`: whether what a rule remembers is found again.
use pifire_c.Common.{
  ℕ, zero, suc, ◌-◌, ◌≤◌, ◌<◌, ◌≡◌, refl, sym, ap, ◌∙◌, Bool, true, false, ◌&&◌, none, some, List,
  [], ◌∷◌, length, arith, if◌then◌else◌, inl, inr, Bool-cases, Option-cases,
}
use pifire_c.Common.Float.{Double}
use pifire_c.Text.{Bytes, same, same_refl, same_sound, take, strlcpy}
use pifire_c.Alarms
use pifire_c.Alarms.{Alarms, find}
use pifire_c.Rules.Table.{
  Rstate, is_of, find_state, free_state, put_state, first_state, state_for, retire_rule, rule_key,
  is_standing,
}

take_all : (n : ℕ) (k : Bytes) → length k ≤ n → take n k ≡ k
take_all zero [] h = refl
take_all zero (a ∷ k) h = absurd (omega arith)
take_all (suc n) [] h = refl
take_all (suc n) (a ∷ k) h = ap (λ s. a ∷ s) (take_all n k (omega arith))

pub length-take : (n : ℕ) (k : Bytes) → length (take n k) ≤ n
length-take zero k = omega arith
length-take (suc n) [] = omega arith
length-take (suc n) (a ∷ k) = omega (arith, length-take n k)

same-length : (s t : Bytes) → same s t ≡ true → length s ≡ length t
same-length [] [] e = refl
same-length [] (b ∷ t) e = ground arith
same-length (a ∷ s) [] e = ground arith
same-length (a ∷ s) (b ∷ t) e = ground (arith, same-length s t)

module _ {W : Type 0} where
  find_state-put_new :
      (rule inst : Bytes) (st : Rstate W) (l : List (Rstate W)) (i : ℕ)
      → find_state rule inst l ≡ none
      → free_state l ≡ some i
      → is_of rule inst st ≡ true
      → find_state rule inst (put_state i st l) ≡ some i
  unfolding find_state free_state put_state
  find_state-put_new rule inst st [] i n f e = ground arith
  find_state-put_new rule inst st (u ∷ l) zero n f e = ground arith
  find_state-put_new rule inst st (u ∷ l) (suc i) n f e =
      ground (arith, find_state-put_new rule inst st l i)

  find_state-put_other :
      (rule inst : Bytes) (st : Rstate W) (l : List (Rstate W)) (i : ℕ)
      → find_state rule inst l ≡ none
      → is_of rule inst st ≡ false
      → find_state rule inst (put_state i st l) ≡ none
  unfolding find_state put_state
  find_state-put_other rule inst st [] i n e = ground arith
  find_state-put_other rule inst st (u ∷ l) zero n e = ground arith
  find_state-put_other rule inst st (u ∷ l) (suc i) n e =
      ground (arith, find_state-put_other rule inst st l i)

module _ {W : Type 0} ⦃d : Double W⦄ where
  first_state-is_of :
      (rule inst : Bytes) (st : Rstate W)
      → st ≡ first_state rule inst
      → length rule < 40
      → length inst < 40
      → is_of rule inst st ≡ true
  first_state-is_of rule inst st e a b =
      rw
        (
          e,
          take_all 39 rule (omega arith),
          take_all 39 inst (omega arith),
          same_refl rule,
          same_refl inst,
        )
        refl

  state_for_found :
      (rule inst : Bytes) (l : List (Rstate W)) (i : ℕ)
      → find_state rule inst l ≡ some i
      → state_for rule inst l ≡ (some i, l)
  unfolding state_for put_state
  state_for_found rule inst l i e = rw (state_for, e) refl

  state_for_new :
      (rule inst : Bytes) (l : List (Rstate W)) (i : ℕ)
      → find_state rule inst l ≡ none
      → free_state l ≡ some i
      → state_for rule inst l ≡ (some i, put_state i (first_state rule inst) l)
  unfolding state_for put_state
  state_for_new rule inst l i n f = rw (state_for, n, f) refl

  state_for_full :
      (rule inst : Bytes) (l : List (Rstate W))
      → find_state rule inst l ≡ none
      → free_state l ≡ none
      → state_for rule inst l ≡ (none, l)
  unfolding state_for put_state
  state_for_full rule inst l n f = rw (state_for, n, f) refl

  -- An id and a label of at most 39 bytes that are given a slot, found or free, are found there from then
  -- on.
  pub state_for-again :
      (rule inst : Bytes) (l : List (Rstate W)) (i : ℕ)
      → length rule < 40
      → length inst < 40
      → (state_for rule inst l).0 ≡ some i
      → find_state rule inst (state_for rule inst l).1 ≡ some i
  state_for-again rule inst l i a b e = elim (Option-cases (find_state rule inst l)) [
    | inr (j, f) ↦
        let found = state_for_found rule inst l j f in
        let same_slot : some j ≡ some i = sym (ap (λ p. p.0) found) ∙ e in
        ap (λ p. find_state rule inst p.1) found ∙ f ∙ same_slot
    | inl n ↦ elim (Option-cases (free_state l)) [
      | inr (j, f) ↦
          let given = state_for_new rule inst l j n f in
          let same_slot : some j ≡ some i = sym (ap (λ p. p.0) given) ∙ e in
          ap (λ p. find_state rule inst p.1) given
          ∙ find_state-put_new rule inst (first_state rule inst) l j n f
              (first_state-is_of rule inst _ refl a b)
          ∙ same_slot
      | inl f ↦ let full = ap (λ p. p.0) (state_for_full rule inst l n f) in cc
    ]
  ]

  first_state_other :
      (rule inst : Bytes) (st : Rstate W)
      → st ≡ first_state rule inst
      → 40 ≤ length rule
      → is_of rule inst st ≡ false
  first_state_other rule inst st f h = elim (Bool-cases (same (strlcpy 40 rule) rule)) [
    | inl e ↦ absurd (omega (arith, same-length (strlcpy 40 rule) rule e, length-take 39 rule))
    | inr e ↦ rw (f, e) refl
  ]

  -- how many slots are free
  pub room : List (Rstate W) → ℕ
  room [] = 0
  room (st ∷ l) = let rest = room l in if st.used then rest else suc rest

  room-put_state :
      (st : Rstate W) (l : List (Rstate W)) (i : ℕ)
      → st.used ≡ true
      → free_state l ≡ some i
      → room (put_state i st l) ≡ room l - 1
  unfolding room free_state put_state
  room-put_state st [] i u f = ground arith
  room-put_state st (v ∷ l) zero u f = ground arith
  room-put_state st (v ∷ l) (suc i) u f = ground (arith, room-put_state st l i u, spare_some l i)
    where
      spare_some : (l : List (Rstate W)) (i : ℕ) → free_state l ≡ some i → 1 ≤ room l
      spare_some [] i f = ground arith
      spare_some (v ∷ l) zero f = ground arith
      spare_some (v ∷ l) (suc i) f = ground (arith, spare_some l i)

  spare_none : (l : List (Rstate W)) → free_state l ≡ none → room l ≡ 0
  unfolding room free_state
  spare_none [] f = refl
  spare_none (v ∷ l) f = ground (arith, spare_none l)

  -- a table after a look for a rule
  pub looks : ℕ → Bytes → Bytes → List (Rstate W) → List (Rstate W)
  looks zero rule inst l = l
  looks (suc n) rule inst l = looks n rule inst (state_for rule inst l).1

  look_lost :
      (rule inst : Bytes) (l : List (Rstate W))
      → 40 ≤ length rule
      → find_state rule inst l ≡ none
      → (find_state rule inst (state_for rule inst l).1 ≡ none)
        × (room (state_for rule inst l).1 ≡ room l - 1)
  look_lost rule inst l a n = elim (Option-cases (free_state l)) [
    | inr (j, f) ↦
        let given = state_for_new rule inst l j n f in
        let new = first_state rule inst in
        (
          ap (λ p. find_state rule inst p.1) given
              ∙ find_state-put_other rule inst new l j n (first_state_other rule inst _ refl a),
          ap (λ p. room p.1) given ∙ room-put_state new l j refl f,
        )
    | inl f ↦
        let full = state_for_full rule inst l n f in
        (
          ap (λ p. find_state rule inst p.1) full ∙ n,
          ap (λ p. room p.1) full ∙ omega (arith, spare_none l f),
        )
  ]

  -- An id of 40 bytes or more that has no slot gets none that it is found in again, however often it is
  -- looked for: each look takes another slot of the table, until none is free.
  pub state_for_lost :
      (n : ℕ) (rule inst : Bytes) (l : List (Rstate W))
      → 40 ≤ length rule
      → find_state rule inst l ≡ none
      → (find_state rule inst (looks n rule inst l) ≡ none)
        × (room (looks n rule inst l) ≡ room l - n)
  unfolding looks
  state_for_lost zero rule inst l a f = (f, omega arith)
  state_for_lost (suc n) rule inst l a f =
      let (lost, taken) = look_lost rule inst l a f in
      let (unfound, left) = state_for_lost n rule inst (state_for rule inst l).1 a lost in
      (unfound, omega (arith, left, taken))

  -- the slots of a rule that watches all of its instances at once: each that stands has the label "*"
  unfoldable pub stands_alone : Bytes → List (Rstate W) → Bool
  stands_alone id [] = true
  stands_alone id (st ∷ l) =
      let rest = stands_alone id l in
      if st.used && same st.rule id && st.raised then same st.inst (b'*' ∷ []) && rest else rest

  retire_nothing :
      (alarms : Alarms W) (wall : W) (key : Bytes)
      → find key alarms.tab ≡ none
      → Alarms.retire alarms wall key ≡ alarms
  unfolding Alarms.retire
  retire_nothing alarms wall key n = ground arith

  -- Where the slots of a rule that stand have the label "*", and no alarm has the key for it, retiring the
  -- rule leaves the table of alarms as it is, and the rule stands no more.
  pub retire_rule_missed :
      (id : Bytes) (wall : W) (l : List (Rstate W)) (alarms : Alarms W)
      → stands_alone id l ≡ true
      → find (rule_key id (b'*' ∷ [])) alarms.tab ≡ none
      → ((retire_rule id wall l alarms).1 ≡ alarms)
        × (is_standing id (retire_rule id wall l alarms).0 ≡ false)
  unfolding retire_rule stands_alone is_standing
  retire_rule_missed id wall [] alarms s n = (refl, refl)
  retire_rule_missed id wall (st ∷ l) alarms s n =
      elim (Bool-cases (st.used && same st.rule id && st.raised)) [
        | inl e ↦
            let star : st.inst ≡ b'*' ∷ [] = same_sound st.inst (b'*' ∷ []) (ground arith) in
            let one : Alarms.retire alarms wall (rule_key id st.inst) ≡ alarms =
              ap (λ k. Alarms.retire alarms wall (rule_key id k)) star
              ∙ retire_nothing alarms wall (rule_key id (b'*' ∷ [])) n in
            let (same_table, none_left) = retire_rule_missed id wall l alarms (ground arith) n in
            rw (e, one) (same_table, ground (arith, none_left))
        | inr e ↦
            let (same_table, none_left) = retire_rule_missed id wall l alarms (ground arith) n in
            rw e (same_table, ground (arith, e, none_left))
      ]
