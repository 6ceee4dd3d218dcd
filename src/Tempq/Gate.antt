-- ===== src/Tempq/Gate.antt =====
-- src/probes/tempq.c: how far a report may move.
use pifire_c.Common.{◌≡◌, ◌⊎◌, true, false}
use pifire_c.Common.Float.{Double, ◌<ᵈ◌, ◌≤ᵈ◌, ◌+ᵈ◌, ◌-ᵈ◌, nought}
use pifire_c.Tempq.{Tempq, allowed}

module _ {W : Type 0} ⦃d : Double W⦄ where
  -- What the gate leaves: the value reported, or a report that moves towards it.
  abbrev pub Outcome : Tempq W → W → W → Tempq W → Type 0
  Outcome t f now t' =
      let near = d.fabs (f -ᵈ t.out_c) ≤ᵈ allowed t now in
      let disagrees = nought <ᵈ t.hold_since in
      let lasted = t.hold_s ≤ᵈ (now -ᵈ t.hold_since) in
      (((near ≡ true) ⊎ ((disagrees ≡ true) × (lasted ≡ true)))
        × (t'.out_c ≡ f)
        × (t'.unstable ≡ false)
        × (t'.hold_since ≡ nought))
      ⊎ ((near ≡ false)
          × (((disagrees ≡ true) × (lasted ≡ false) × (t'.hold_since ≡ t.hold_since))
              ⊎ ((disagrees ≡ false) × (t'.hold_since ≡ now)))
          × ((((nought <ᵈ (f -ᵈ t.out_c)) ≡ true) × (t'.out_c ≡ t.out_c +ᵈ allowed t now))
              ⊎ (((nought <ᵈ (f -ᵈ t.out_c)) ≡ false) × (t'.out_c ≡ t.out_c -ᵈ allowed t now)))
          × (t'.unstable ≡ true))
