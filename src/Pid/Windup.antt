-- ===== src/Pid/Windup.antt =====
-- src/controllers/pid.c, `update`: what bounds the integrator.
use pifire_c.Common.{◌≡◌, refl, ◌∙◌, ap, true, false, List, [], ◌∷◌, arith}
use pifire_c.Common.Float.{Double, ◌==ᵈ◌, ◌+ᵈ◌, ◌-ᵈ◌, ◌≤ᵈ◌, ◌*ᵈ◌, nought, is_finite}
use pifire_c.Pid.{Pid, CtrlIn, integrate, advance, update}

module _ {W : Type 0} ⦃f : Double W⦄ where
  abbrev pub error_of : CtrlIn W → W
  error_of c = c.pit_c -ᵈ c.setpoint_c

  -- a run of updates
  pub updates : Pid W → List (CtrlIn W) → Pid W
  updates s [] = s
  updates s (c ∷ l) = updates (update s c) l

  -- the sum of the errors over their times, with nothing that bounds it
  pub summed : W → W → List (CtrlIn W) → W
  summed inter last [] = inter
  summed inter last (c ∷ l) = summed (inter +ᵈ error_of c *ᵈ (c.now_s -ᵈ last)) c.now_s l

  -- Every reading is a number, the clock goes on, and the sum stays finite.
  unfoldable pub AllFinite : W → W → List (CtrlIn W) → Type 0
  AllFinite inter last [] = Unit
  AllFinite inter last (c ∷ l) =
      (is_finite inter ≡ true)
      × (is_finite (error_of c) ≡ true)
      × (is_finite (c.now_s -ᵈ last) ≡ true)
      × (((c.now_s -ᵈ last) ≤ᵈ nought) ≡ false)
      × AllFinite (inter +ᵈ error_of c *ᵈ (c.now_s -ᵈ last)) c.now_s l

  finite_at :
      (a b t u : W) (l : List (CtrlIn W)) → a ≡ b → t ≡ u → AllFinite b u l → AllFinite a t l
  finite_at a b t u l e g k = rw (e, g) k

  summed_at : (a b t u : W) (l : List (CtrlIn W)) → a ≡ b → t ≡ u → summed a t l ≡ summed b u l
  summed_at a b t u l e g = rw (e, g) refl

  update_inter :
      (s : Pid W) (c : CtrlIn W)
      → (s.center ==ᵈ nought) ≡ true
      → s.have_last ≡ true
      → is_finite s.inter ≡ true
      → is_finite (error_of c) ≡ true
      → is_finite (c.now_s -ᵈ s.last_t) ≡ true
      → ((c.now_s -ᵈ s.last_t) ≤ᵈ nought) ≡ false
      → let s' = update s c in
        (s'.inter ≡ s.inter +ᵈ error_of c *ᵈ (c.now_s -ᵈ s.last_t))
        × (s'.last_t ≡ c.now_s)
        × (s'.have_last ≡ true)
        × (s'.center ≡ s.center)
  unfolding update advance integrate
  update_inter s c z h a b e g = ground arith

  -- With a centre of zero nothing bounds the integrator, whatever its bound is set to: after any run of
  -- updates with finite readings it is the sum of the errors over their times, as long as that is finite.
  pub updates_unbounded :
      (s : Pid W) (l : List (CtrlIn W))
      → (s.center ==ᵈ nought) ≡ true
      → s.have_last ≡ true
      → AllFinite s.inter s.last_t l
      → (updates s l).inter ≡ summed s.inter s.last_t l
  unfolding updates summed AllFinite
  updates_unbounded s [] z h k = refl
  updates_unbounded s (c ∷ l) z h (a, b, e, g, k) =
      let s' = update s c in
      let (sum, last, have, center) = update_inter s c z h a b e g in
      let zero : (s'.center ==ᵈ nought) ≡ true = ap (λ x. x ==ᵈ nought) center ∙ z in
      updates_unbounded s' l zero have (finite_at _ _ _ _ l sum last k)
      ∙ summed_at s'.inter _ s'.last_t _ l sum last
