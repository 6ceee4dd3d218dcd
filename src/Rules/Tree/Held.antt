-- ===== src/Rules/Tree/Held.antt =====
-- src/features/rules.c, `held_long_enough`: the clock of a node answers whether it has been true without
-- a break for its time.
use pifire_c.Common.{
  ℕ, zero, suc, ◌≡◌, refl, ap, ◌∙◌, Bool, true, false, Option, none, some, Option-cases, inl, inr,
  List, [], ◌∷◌, arith,
}
use pifire_c.Common.Float.{Double, ◌≤ᵈ◌, ◌==ᵈ◌, ◌-ᵈ◌, nought}
use pifire_c.Rules.Tree.{NodeTimer, slot_of, clock_of, write, since_at, run_clock, held_long_enough}

module _ {W : Type 0} where
  -- a slot that is found is found again after it was written
  slot_of-write :
      (path : ℕ) (s : W) (l : List (NodeTimer W)) (i : ℕ)
      → slot_of path l ≡ some i
      → slot_of path (write i (record { path = path; since = s }) l) ≡ some i
  unfolding slot_of write
  slot_of-write path s [] i e = ground arith
  slot_of-write path s (t ∷ l) zero e = ground arith
  slot_of-write path s (t ∷ l) (suc i) e = ground (arith, slot_of-write path s l i)

  -- a spare slot that was taken is found
  slot_of-take :
      (path : ℕ) (s : W) (l : List (NodeTimer W)) (i : ℕ)
      → slot_of path l ≡ none
      → slot_of 0 l ≡ some i
      → slot_of path (write i (record { path = path; since = s }) l) ≡ some i
  unfolding slot_of write
  slot_of-take path s [] i n e = ground arith
  slot_of-take path s (t ∷ l) zero n e = ground arith
  slot_of-take path s (t ∷ l) (suc i) n e = ground (arith, slot_of-take path s l i)

  clock_of_found :
      (path : ℕ) (l : List (NodeTimer W)) (i : ℕ)
      → slot_of path l ≡ some i
      → clock_of path l ≡ some i
  clock_of_found path l i e = rw (clock_of, e) refl

  clock_of_spare :
      (path : ℕ) (l : List (NodeTimer W)) (i : ℕ)
      → slot_of path l ≡ none
      → clock_of path l ≡ some i
      → slot_of 0 l ≡ some i
  clock_of_spare path l i n e = ground arith

  clock_of_own :
      (path : ℕ) (l : List (NodeTimer W)) (i j : ℕ)
      → slot_of path l ≡ some j
      → clock_of path l ≡ some i
      → slot_of path l ≡ some i
  clock_of_own path l i j f e = ground arith

  -- the slot of a path, found or taken, is its slot from then on
  clock_of-write :
      (path : ℕ) (s : W) (l : List (NodeTimer W)) (i : ℕ)
      → clock_of path l ≡ some i
      → clock_of path (write i (record { path = path; since = s }) l) ≡ some i
  clock_of-write path s l i e = go (slot_of path l) refl
    where
      go :
          (o : Option ℕ)
          → slot_of path l ≡ o
          → clock_of path (write i (record { path = path; since = s }) l) ≡ some i
      go none n = clock_of_found path _ i (slot_of-take path s l i n (clock_of_spare path l i n e))
      go (some j) f =
          clock_of_found path _ i (slot_of-write path s l i (clock_of_own path l i j f e))

module _ {W : Type 0} ⦃d : Double W⦄ where
  since_at-write :
      (path q : ℕ) (s : W) (l : List (NodeTimer W)) (i : ℕ)
      → slot_of q l ≡ some i
      → since_at i (write i (record { path = path; since = s }) l) ≡ s
  unfolding slot_of write since_at
  since_at-write path q s [] i e = ground arith
  since_at-write path q s (t ∷ l) zero e = refl
  since_at-write path q s (t ∷ l) (suc i) e = ground (arith, since_at-write path q s l i)

  -- what a node said at so many moments, the latest first
  -- since when it has been true without a break
  pub began : List (W × Bool) → Option W
  began [] = none
  began ((t, false) ∷ h) = none
  began ((t, true) ∷ h) = elim (began h) [ none ↦ some t | some s ↦ some s ]

  pub long_enough : W → W → Option W → Bool
  long_enough need now none = false
  long_enough need now (some s) = need ≤ᵈ (now -ᵈ s)

  -- The clocks after those moments, and the last answer.
  pub clocks_after : W → ℕ → List (NodeTimer W) → List (W × Bool) → Option (List (NodeTimer W))
  clocks_after need path l [] = some l
  clocks_after need path l ((t, b) ∷ h) =
      (held_long_enough t path need b (clocks_after need path l h)).1

  since_at-clock :
      (path : ℕ) (s : W) (l : List (NodeTimer W)) (i : ℕ)
      → clock_of path l ≡ some i
      → since_at i (write i (record { path = path; since = s }) l) ≡ s
  since_at-clock path s l i e = go (slot_of path l) refl
    where
      go :
          (o : Option ℕ)
          → slot_of path l ≡ o
          → since_at i (write i (record { path = path; since = s }) l) ≡ s
      go none n = since_at-write path 0 s l i (clock_of_spare path l i n e)
      go (some j) f = since_at-write path path s l i (clock_of_own path l i j f e)

  -- the times are those of a clock that has started
  unfoldable pub Started : List (W × Bool) → Type 0
  Started [] = Unit
  Started ((t, b) ∷ h) = ((t ==ᵈ nought) ≡ false) × Started h

  -- 0 where there is none
  abbrev pub or_zero : Option W → W
  or_zero none = nought
  or_zero (some s) = s

  began-Started :
      (h : List (W × Bool)) (s : W) → Started h → began h ≡ some s → (s ==ᵈ nought) ≡ false
  unfolding began Started
  began-Started [] s k e = ground arith
  began-Started ((t, true) ∷ h) s (k, ks) e = ground (arith, began-Started h s ks)
  began-Started ((t, false) ∷ h) s k e = ground arith

  run_clock-began :
      (need t : W) (b : Bool) (h : List (W × Bool))
      → d.eq nought nought ≡ true
      → Started h
      → (run_clock need t b (or_zero (began h))).0 ≡ long_enough need t (began ((t, b) ∷ h))
        × ((run_clock need t b (or_zero (began h))).1 ≡ or_zero (began ((t, b) ∷ h)))
  unfolding run_clock began long_enough
  run_clock-began need t b h z k = elim (Option-cases (began h)) [
    | inl e ↦ ground (arith, e)
    | inr (s, e) ↦
        let later : (s ==ᵈ nought) ≡ false = began-Started h s k e in ground (arith, e, later)
  ]

  -- The table after some moments: the clock is where it was, and since when the node has been true.
  Tracks : ℕ → ℕ → List (W × Bool) → Option (List (NodeTimer W)) → Type 0
  Tracks path i h o =
      (l : List (NodeTimer W)) × (o ≡ some l)
      × (clock_of path l ≡ some i)
      × (since_at i l ≡ or_zero (began h))

  held_some :
      (need t : W) (path i : ℕ) (b : Bool) (l : List (NodeTimer W))
      → (need ≤ᵈ nought) ≡ false
      → clock_of path l ≡ some i
      → held_long_enough t path need b (some l) ≡ (
        (run_clock need t b (since_at i l)).0,
        some (write i (record { path = path; since = (run_clock need t b (since_at i l)).1 }) l),
      )
  unfolding held_long_enough
  held_some need t path i b l n f = rw (n, f) refl

  held_lem :
      (need t : W) (path i : ℕ) (b : Bool) (h : List (W × Bool)) (o : Option (List (NodeTimer W)))
      → (need ≤ᵈ nought) ≡ false
      → d.eq nought nought ≡ true
      → Started h
      → Tracks path i h o
      → ((held_long_enough t path need b o).0 ≡ long_enough need t (began ((t, b) ∷ h)))
        × Tracks path i ((t, b) ∷ h) (held_long_enough t path need b o).1
  unfolding Tracks
  held_lem need t path i b h o n z k (l, e, f, g) =
      let r = run_clock need t b (since_at i l) in
      let held = ap (held_long_enough t path need b) e ∙ held_some need t path i b l n f in
      let (answer, since) = run_clock-began need t b h z k in
      (
        ap (λ p. p.0) held ∙ ap (λ s. (run_clock need t b s).0) g ∙ answer,
        (
          write i (record { path = path; since = r.1 }) l,
          ap (λ p. p.1) held,
          clock_of-write path r.1 l i f,
          since_at-clock path r.1 l i f ∙ ap (λ s. (run_clock need t b s).1) g ∙ since,
        ),
      )

  clocks_after-Tracks :
      (need : W) (path i : ℕ) (l : List (NodeTimer W)) (h : List (W × Bool))
      → (need ≤ᵈ nought) ≡ false
      → d.eq nought nought ≡ true
      → clock_of path l ≡ some i
      → since_at i l ≡ nought
      → Started h
      → Tracks path i h (clocks_after need path l h)
  unfolding clocks_after Tracks began Started
  clocks_after-Tracks need path i l [] n z c s k = (l, refl, c, s)
  clocks_after-Tracks need path i l ((t, b) ∷ h) n z c s (k, ks) =
      (held_lem need t path i b h (clocks_after need path l h) n z ks
        (clocks_after-Tracks need path i l h n z c s ks)).1

  -- A node with a time of its own, whose clock has a slot or finds a spare one, answers yes exactly if it
  -- has been true, without a break in the moments it was asked, for that time; the clock has started when
  -- it is asked first.
  pub held_long_enough-began :
      (need t : W) (path i : ℕ) (b : Bool) (l : List (NodeTimer W)) (h : List (W × Bool))
      → (need ≤ᵈ nought) ≡ false
      → d.eq nought nought ≡ true
      → clock_of path l ≡ some i
      → since_at i l ≡ nought
      → Started h
      → (held_long_enough t path need b (clocks_after need path l h)).0
        ≡ long_enough need t (began ((t, b) ∷ h))
  held_long_enough-began need t path i b l h n z c s k =
      (held_lem need t path i b h (clocks_after need path l h) n z k
        (clocks_after-Tracks need path i l h n z c s k)).0
