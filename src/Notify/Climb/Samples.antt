-- ===== src/Notify/Climb/Samples.antt =====
-- src/core/notify.c, `push_sample` and the loops that read the ring: the newest 400 samples, in order.
use pifire_c.Common.{
  ℕ, zero, suc, ◌+◌, ◌-◌, ◌%◌, ◌<◌, ◌≤◌, ◌≡◌, refl, true, false, List, [], ◌∷◌, ◌++◌, arith, length,
  length-append, drop, drop-append, ap, ◌∙◌, sym, ltb, ◌==◌, if◌then◌else◌, inl, inr, Bool-cases,
}
use mathlib.Core.List.{append-nil, append_assoc}
use pifire_c.Common.Float.{Double}
use pifire_c.Notify.{NotifyProbe, eta_samples}
use pifire_c.Notify.Climb.{window_from, window, push_sample}

plus_zero : (s i : ℕ) → s + i ≡ s + (i + 0)
plus_zero s i = omega arith

plus_suc : (s i j : ℕ) → s + (suc i + j) ≡ s + (i + suc j)
plus_suc s i j = omega arith

module _ {W : Type 0} where
  -- The newest 400 of a list of samples.
  pub newest : List W → List W
  newest l = drop (length l - eta_samples) l

  -- The ring as the code keeps it.
  unfoldable pub IsRing : NotifyProbe W → Type 0
  IsRing p = (p.hist_len ≤ eta_samples) × (p.hist_head < eta_samples)

ltb_lt : (a b : ℕ) → ltb a b ≡ true → a < b
ltb_lt a b e = ground arith

plus_one : (n : ℕ) → n + 1 ≡ suc n
plus_one n = omega arith

module _ {W : Type 0} where
  newest_short : (l : List W) → length l ≤ eta_samples → newest l ≡ l
  unfolding newest
  newest_short l h = let e : length l - eta_samples ≡ 0 = omega arith in rw e refl

  newest_over :
      (l : List W) (c : W) → length l ≡ eta_samples → newest (l ++ (c ∷ [])) ≡ drop 1 l ++ (c ∷ [])
  unfolding newest
  newest_over l c h =
      let e : length (l ++ (c ∷ [])) - eta_samples ≡ 1 = omega (arith, length-append l (c ∷ [])) in
      rw e (drop-append 1 l (c ∷ []) (omega arith))

  drop-nil : (n : ℕ) → drop {A = W} n [] ≡ []
  drop-nil zero = refl
  drop-nil (suc n) = refl

  drop-drop : (m n : ℕ) (l : List W) → drop m (drop n l) ≡ drop (n + m) l
  drop-drop m zero l = ap (λ n. drop n l) (omega arith)
  drop-drop m (suc n) [] = drop-nil m ∙ sym (drop-nil (suc n + m))
  drop-drop m (suc n) (a ∷ l) =
      let e : suc (n + m) ≡ suc n + m = omega arith in drop-drop m n l ∙ ap (λ k. drop k (a ∷ l)) e

  length-drop : (n : ℕ) (l : List W) → length (drop n l) ≡ length l - n
  length-drop zero l = omega arith
  length-drop (suc n) [] = omega arith
  length-drop (suc n) (a ∷ l) = omega (arith, length-drop n l)

  newest_again : (l m : List W) → newest (newest l ++ m) ≡ newest (l ++ m)
  unfolding newest
  newest_again l m =
      let k = length l - eta_samples in
      rw (← (drop-append k l m (omega arith))) (
        drop-drop (length (drop k (l ++ m)) - eta_samples) k (l ++ m)
        ∙ ap (λ n. drop n (l ++ m)) (omega (arith, length-drop k (l ++ m), length-append l m)))

module _ {W : Type 0} ⦃d : Double W⦄ where
  window_from-snoc :
      (h : ℕ → W) (s k i : ℕ)
      → window_from h s (suc k) i ≡ window_from h s k i ++ (h ((s + i + k) % eta_samples) ∷ [])
  unfolding window_from
  window_from-snoc h s zero i =
      let e : s + i ≡ s + i + 0 = omega arith in ap (λ j. h (j % eta_samples) ∷ []) e
  window_from-snoc h s (suc k) i =
      let e : s + suc i + k ≡ s + i + suc k = omega arith in
      rw (window_from-snoc h s k (suc i), e) refl

  -- two rings that agree where they are read
  window_from-ext :
      (h h' : ℕ → W) (s s' k i i' : ℕ)
      → ((j : ℕ) → j < k → h ((s + (i + j)) % eta_samples) ≡ h' ((s' + (i' + j)) % eta_samples))
      → window_from h s k i ≡ window_from h' s' k i'
  unfolding window_from
  window_from-ext h h' s s' zero i i' same = refl
  window_from-ext h h' s s' (suc k) i i' same =
      let here : h ((s + i) % eta_samples) ≡ h' ((s' + i') % eta_samples) =
        rw (plus_zero s i, plus_zero s' i') (same 0 (omega arith)) in
      rw
        (
          here,
          window_from-ext h h' s s' k (suc i) (suc i')
              (λ j b. rw (plus_suc s i j, plus_suc s' i' j) (same (suc j) (omega arith))),
        )
        refl

  length-window_from : (h : ℕ → W) (s k i : ℕ) → length (window_from h s k i) ≡ k
  unfolding window_from
  length-window_from h s zero i = refl
  length-window_from h s (suc k) i = ap suc (length-window_from h s k (suc i))

  -- what a window gives without its oldest sample
  window_from-drop :
      (h : ℕ → W) (s k i : ℕ) → drop 1 (window_from h s (suc k) i) ≡ window_from h s k (suc i)
  unfolding window_from
  window_from-drop h s k i = refl

  push_sample-IsRing : (p : NotifyProbe W) (c : W) → IsRing p → IsRing (push_sample p c)
  unfolding push_sample IsRing
  push_sample-IsRing p c h = ground arith

  pub contents : NotifyProbe W → List W
  contents p = window p p.hist_len

  length-contents : (p : NotifyProbe W) → length (contents p) ≡ p.hist_len
  unfolding contents window
  length-contents p =
      length-window_from p.hist (p.hist_head + eta_samples - p.hist_len) p.hist_len 0

  -- a slot is written
  abbrev wrote : (ℕ → W) → ℕ → W → ℕ → W
  wrote h head c i = if i == head then c else h i

  wrote_there : (h : ℕ → W) (head : ℕ) (c : W) (i : ℕ) → i ≡ head → wrote h head c i ≡ c
  wrote_there h head c i e = ground arith

  wrote_elsewhere :
      (h : ℕ → W) (head : ℕ) (c : W) (i k : ℕ) → i ≡ k → (k ≡ head → ⊥) → wrote h head c i ≡ h k
  wrote_elsewhere h head c i k e n = rw e (ground (arith, n))

  -- while there is room
  window_room :
      (h : ℕ → W) (head len : ℕ) (c : W)
      → head < eta_samples
      → len < eta_samples
      → window_from (wrote h head c) ((head + 1) % eta_samples + eta_samples - suc len) (suc len) 0
        ≡ window_from h (head + eta_samples - len) len 0 ++ (c ∷ [])
  window_room h head len c b r =
      let start = (head + 1) % eta_samples + eta_samples - suc len in
      rw
        (
          window_from-snoc (wrote h head c) start len 0,
          wrote_there h head c ((start + 0 + len) % eta_samples) (omega arith),
          window_from-ext (wrote h head c) h start (head + eta_samples - len) len 0 0 (λ j s.
              wrote_elsewhere h head c ((start + (0 + j)) % eta_samples)
                ((head + eta_samples - len + (0 + j)) % eta_samples) (omega arith)
                (λ e. omega arith)),
        )
        refl

  -- when it is full, `k + 1` being the number of the slots
  window_full :
      (h : ℕ → W) (head k : ℕ) (c : W)
      → suc k ≡ eta_samples
      → head < eta_samples
      → window_from (wrote h head c) ((head + 1) % eta_samples + eta_samples - suc k) (suc k) 0
        ≡ drop 1 (window_from h (head + eta_samples - suc k) (suc k) 0) ++ (c ∷ [])
  window_full h head k c full b =
      let start = (head + 1) % eta_samples + eta_samples - suc k in
      let old = head + eta_samples - suc k in
      rw
        (
          window_from-snoc (wrote h head c) start k 0,
          wrote_there h head c ((start + 0 + k) % eta_samples) (omega arith),
          window_from-drop h old k 0,
          window_from-ext (wrote h head c) h start old k 0 1 (λ j s.
              wrote_elsewhere h head c ((start + (0 + j)) % eta_samples)
                ((old + (1 + j)) % eta_samples) (omega arith) (λ e. omega arith)),
        )
        refl

  push_sample_room :
      (p : NotifyProbe W) (c : W)
      → IsRing p
      → ltb p.hist_len eta_samples ≡ true
      → contents (push_sample p c) ≡ contents p ++ (c ∷ [])
  unfolding contents window push_sample IsRing
  push_sample_room p c (l, b) e =
      rw (e, plus_one p.hist_len) (window_room p.hist p.hist_head p.hist_len c b (ground arith))

  push_sample_full :
      (p : NotifyProbe W) (c : W)
      → IsRing p
      → ltb p.hist_len eta_samples ≡ false
      → contents (push_sample p c) ≡ drop 1 (contents p) ++ (c ∷ [])
  unfolding contents window push_sample IsRing
  push_sample_full p c (l, b) e =
      let (k, at_end, full) : (k : ℕ) × (p.hist_len ≡ suc k) × (suc k ≡ eta_samples) =
        (p.hist_len - 1, ground arith, ground arith) in
      rw (e, at_end) (window_full p.hist p.hist_head k c full b)

  ring_short : (p : NotifyProbe W) → IsRing p → length (contents p) ≤ eta_samples
  unfolding IsRing
  ring_short p r = omega (arith, length-contents p, r.0)

  full_ring :
      (p : NotifyProbe W) → IsRing p → ltb p.hist_len eta_samples ≡ false → p.hist_len ≡ eta_samples
  unfolding IsRing
  full_ring p r e = ground arith

  -- A new sample joins the newest 400.
  push_sample-newest :
      (p : NotifyProbe W) (c : W)
      → IsRing p
      → contents (push_sample p c) ≡ newest (contents p ++ (c ∷ []))
  push_sample-newest p c r = elim (Bool-cases (ltb p.hist_len eta_samples)) [
    | inl e ↦
        push_sample_room p c r e
        ∙ sym (
            newest_short (contents p ++ (c ∷ [])) (
              omega (
                arith,
                ltb_lt p.hist_len eta_samples e,
                length-append (contents p) (c ∷ []),
                length-contents p,
              )))
    | inr e ↦
        push_sample_full p c r e
        ∙ sym (newest_over (contents p) c (length-contents p ∙ full_ring p r e))
  ]

  pub push_all : NotifyProbe W → List W → NotifyProbe W
  push_all p [] = p
  push_all p (c ∷ l) = push_all (push_sample p c) l

  -- From any state of the ring on, whatever is pushed, it stays a ring and its samples read in order are
  -- the newest 400 of those it had and the new ones.
  pub contents-push_all :
      (p : NotifyProbe W) (l : List W)
      → IsRing p
      → IsRing (push_all p l) × (contents (push_all p l) ≡ newest (contents p ++ l))
  unfolding push_all
  contents-push_all p [] r =
      (r, rw (append-nil (contents p)) (sym (newest_short (contents p) (ring_short p r))))
  contents-push_all p (c ∷ l) r =
      let (r', e) = contents-push_all (push_sample p c) l (push_sample-IsRing p c r) in
      (
        r',
        e
            ∙ ap (λ m. newest (m ++ l)) (push_sample-newest p c r)
            ∙ newest_again (contents p ++ (c ∷ [])) l
            ∙ ap newest (append_assoc (contents p) (c ∷ []) l),
      )
