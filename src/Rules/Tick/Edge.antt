-- ===== src/Rules/Tick/Edge.antt =====
-- src/features/rules.c, `pf_rules_tick`: how often an instance is told of, and that what is told is also
-- taken back.
use pifire_c.Common.{
  ℕ, suc, ◌+◌, ◌≤◌, ◌≡◌, refl, Bool, true, false, ◌&&◌, List, [], ◌∷◌, arith, if◌then◌else◌, ◌⊎◌,
  inl, inr,
}
use pifire_c.Common.Float.{Double, ◌<ᵈ◌, ◌-ᵈ◌, nought}
use pifire_c.Rules.Table.{Rstate, retired}
use pifire_c.Rules.Tick.{
  Rule, Deed, nothing, clear_it, fire_it, settle, settle_false, settle_true, is_cooling,
}

abbrev pub count_bool : Bool → ℕ
count_bool true = 1
count_bool false = 0

abbrev pub fires : Deed → ℕ
fires (fire_it again) = 1
fires _ = 0

abbrev pub clears : Deed → ℕ
clears clear_it = 1
clears _ = 0

-- what a tick does to an instance: the rule is judged on it, or retired
pub data Turn (W : Type 0) : Type 0 where
  judged : W → Bool → Turn W
  retires : Turn W

module _ {W : Type 0} ⦃d : Double W⦄ where
  -- a run of verdicts on one instance, each with its time
  pub fired : Rule W → Rstate W → List (W × Bool) → ℕ
  fired r st [] = 0
  fired r st ((now, ok) ∷ l) =
      let (deed, st') = settle r now ok st in let rest = fired r st' l in fires deed + rest

  pub cleared : Rule W → Rstate W → List (W × Bool) → ℕ
  cleared r st [] = 0
  cleared r st ((now, ok) ∷ l) =
      let (deed, st') = settle r now ok st in let rest = cleared r st' l in clears deed + rest

  pub settled : Rule W → Rstate W → List (W × Bool) → Rstate W
  settled r st [] = st
  settled r st ((now, ok) ∷ l) = settled r (settle r now ok st).1 l

  settle_edge :
      (r : Rule W) (now : W) (ok : Bool) (st : Rstate W)
      → (nought <ᵈ r.repeat_s) ≡ false
      → fires (settle r now ok st).0 + count_bool (settle r now ok st).1.armed
        ≤ count_bool st.armed + (if ok then 0 else 1)
  unfolding settle settle_true settle_false
  settle_edge r now true st n = ground arith
  settle_edge r now false st n = ground arith

  -- the slot after `retire_rule`
  abbrev pub retire_slot : Rstate W → Rstate W
  retire_slot st = if st.raised then retired st else st

  -- how often an instance is told of
  pub fired_in : Rule W → Rstate W → List (Turn W) → ℕ
  fired_in r st [] = 0
  fired_in r st (judged now ok ∷ l) =
      let (deed, st') = settle r now ok st in let rest = fired_in r st' l in fires deed + rest
  fired_in r st (retires ∷ l) = fired_in r (retire_slot st) l

  -- the moments at which the condition does not hold, or the rule is retired
  pub breaks : List (Turn W) → ℕ
  breaks [] = 0
  breaks (judged now ok ∷ l) = let rest = breaks l in if ok then rest else suc rest
  breaks (retires ∷ l) = suc (breaks l)

  armed-retire_slot : (st : Rstate W) → count_bool (retire_slot st).armed ≤ count_bool st.armed + 1
  armed-retire_slot st = ground arith

  -- A rule that does not repeat itself tells of an instance once, and once more at most for each time that
  -- its condition has not held in between or that it was retired (switched off, superseded, or the cook
  -- over), however its readings swing otherwise and whatever its hold time and its cooldown are.
  pub fired_once :
      (r : Rule W) (st : Rstate W) (l : List (Turn W))
      → (nought <ᵈ r.repeat_s) ≡ false
      → fired_in r st l ≤ count_bool st.armed + breaks l
  unfolding fired_in breaks
  fired_once r st [] n = omega arith
  fired_once r st (judged now true ∷ l) n =
      omega (arith, settle_edge r now true st n, fired_once r (settle r now true st).1 l n)
  fired_once r st (judged now false ∷ l) n =
      omega (arith, settle_edge r now false st n, fired_once r (settle r now false st).1 l n)
  fired_once r st (retires ∷ l) n =
      omega (arith, armed-retire_slot st, fired_once r (retire_slot st) l n)

  settle_raised :
      (r : Rule W) (now : W) (ok : Bool) (st : Rstate W)
      → let (deed, st') = settle r now ok st in
        (clears deed + count_bool st'.raised ≤ count_bool st.raised + fires deed)
        × (count_bool st.raised ≤ clears deed + count_bool st'.raised)
  unfolding settle settle_true settle_false
  settle_raised r now true st = ground arith
  settle_raised r now false st = ground arith

  -- In any run, an alarm is taken back only after it was raised, and what was raised is taken back or
  -- still stands.
  pub raised_kept :
      (r : Rule W) (st : Rstate W) (l : List (W × Bool))
      → (cleared r st l + count_bool (settled r st l).raised ≤ count_bool st.raised + fired r st l)
        × (count_bool st.raised ≤ cleared r st l + count_bool (settled r st l).raised)
  unfolding fired cleared settled
  raised_kept r st [] = (omega arith, omega arith)
  raised_kept r st ((now, ok) ∷ l) =
      let st' = (settle r now ok st).1 in
      let (a, b) = settle_raised r now ok st in
      let (a', b') = raised_kept r st' l in (omega (arith, a, a'), omega (arith, a, b, a', b'))

  -- a time at which it is told of
  abbrev pub with_time : Deed → W → List W → List W
  with_time (fire_it again) now l = now ∷ l
  with_time _ now l = l

  untold : (deed : Deed) (now : W) (l : List W) → fires deed ≡ 0 → with_time deed now l ≡ l
  untold nothing now l e = refl
  untold clear_it now l e = refl
  untold (fire_it again) now l e = absurd (omega arith)

  told : (deed : Deed) (now : W) (l : List W) → fires deed ≡ 1 → with_time deed now l ≡ now ∷ l
  told nothing now l e = absurd (omega arith)
  told clear_it now l e = absurd (omega arith)
  told (fire_it again) now l e = refl

  -- The times of a run at which an instance is told of, the first of them first.
  pub fire_times : Rule W → Rstate W → List (W × Bool) → List W
  fire_times r st [] = []
  fire_times r st ((now, ok) ∷ l) =
      let (deed, st') = settle r now ok st in
      let rest = fire_times r st' l in with_time deed now rest

  -- each one comes a cooldown after the one before, the first of them after `last`
  pub Spaced : W → W → List W → Type 0
  Spaced cooldown last [] = Unit
  Spaced cooldown last (t ∷ l) =
      ((nought <ᵈ last && (t -ᵈ last) <ᵈ cooldown) ≡ false) × Spaced cooldown t l

  respaced : (cooldown a b : W) (l : List W) → a ≡ b → Spaced cooldown a l → Spaced cooldown b l
  respaced cooldown a b l e s = rw (← e) s

  settle_times :
      (r : Rule W) (now : W) (ok : Bool) (st : Rstate W)
      → let (deed, st') = settle r now ok st in
        (((fires deed ≡ 0) × (st'.last_fired ≡ st.last_fired))
          ⊎ ((fires deed ≡ 1) × (st'.last_fired ≡ now) × (is_cooling r now st ≡ false)))
  unfolding settle settle_true settle_false
  settle_times r now true st = ground arith
  settle_times r now false st = ground arith

  -- Whatever the condition does, an instance is not told of again within the cooldown of its rule.
  pub fire_times-Spaced :
      (r : Rule W) (st : Rstate W) (l : List (W × Bool))
      → Spaced r.cooldown_s st.last_fired (fire_times r st l)
  unfolding fire_times Spaced
  fire_times-Spaced r st [] = tt
  fire_times-Spaced r st ((now, ok) ∷ l) =
      let (deed, st') = settle r now ok st in
      let rest = fire_times r st' l in
      elim (settle_times r now ok st) [
        | inl (e, kept) ↦ rw (untold deed now rest e) (
            respaced r.cooldown_s st'.last_fired st.last_fired rest kept
              (fire_times-Spaced r st' l))
        | inr (e, at, free) ↦
            rw (told deed now rest e)
              (free, respaced r.cooldown_s st'.last_fired now rest at (fire_times-Spaced r st' l))
      ]
