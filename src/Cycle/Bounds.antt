-- ===== src/Cycle/Bounds.antt =====
-- src/core/cycle.c: how long the auger can run.
use pifire_c.Common.{◌≡◌, arith, ◌⊎◌, true, false}
use pifire_c.Common.Int.{pos, negsuc}
use pifire_c.Common.Float.{Double, ◌<ᵈ◌, ◌+ᵈ◌, ◌*ᵈ◌, ◌/ᵈ◌, nought}
use pifire_c.Cycle.{CycleCfg, Cycle, begin, begin_fixed, stop}

module _ {W : Type 0} ⦃d : Double W⦄ where
  -- Where a cap above zero is set, and is not below itself (is a number), no cycle by a share has the
  -- auger on for longer than the cap, whatever the share asked for, NaN and infinities too.
  pub begin_capped :
      (c : Cycle W) (cfg : CycleCfg W) (now u_raw : W)
      → (nought <ᵈ cfg.max_on_s) ≡ true
      → (cfg.max_on_s <ᵈ cfg.max_on_s) ≡ false
      → (cfg.max_on_s <ᵈ (begin c cfg now u_raw).on_s) ≡ false
  unfolding begin
  begin_capped c cfg now u_raw h r = ground arith

  -- The same of a cycle by fixed times, where the cap is not below zero either.
  pub begin_fixed_capped :
      (c : Cycle W) (cfg : CycleCfg W) (now on_s off_s : W)
      → (nought <ᵈ cfg.max_on_s) ≡ true
      → (cfg.max_on_s <ᵈ cfg.max_on_s) ≡ false
      → (cfg.max_on_s <ᵈ nought) ≡ false
      → (cfg.max_on_s <ᵈ (begin_fixed c cfg now on_s off_s).on_s) ≡ false
  unfolding begin_fixed stop
  begin_fixed_capped c cfg now on_s off_s h r z = ground (
    arith,
    begin_capped c
        (record {
          cycle_s = on_s +ᵈ off_s;
          u_min = nought;
          u_max = d.lit 1 1;
          max_on_s = cfg.max_on_s;
        })
        now (on_s /ᵈ (on_s +ᵈ off_s)),
  )

  -- Where the bounds of the share are numbers and in order, a cycle by a share either is cut by the
  -- cap, with the share it comes to, or turns a share within the bounds into its seconds, and
  -- `saturated` says at which bound, if any, the share was cut.
  pub begin_share :
      (c : Cycle W) (cfg : CycleCfg W) (now u_raw : W)
      → (cfg.u_max <ᵈ cfg.u_min) ≡ false
      → (cfg.u_min <ᵈ cfg.u_min) ≡ false
      → (cfg.u_max <ᵈ cfg.u_max) ≡ false
      → let c' = begin c cfg now u_raw in
        ((c'.on_s ≡ cfg.max_on_s)
          × (c'.u_applied ≡ cfg.max_on_s /ᵈ cfg.cycle_s)
          × (c'.saturated ≡ pos 1))
        ⊎ ((c'.on_s ≡ cfg.cycle_s *ᵈ c'.u_applied)
            × ((c'.u_applied <ᵈ cfg.u_min) ≡ false)
            × ((cfg.u_max <ᵈ c'.u_applied) ≡ false)
            × (((c'.saturated ≡ negsuc 0) × (c'.u_applied ≡ cfg.u_min))
                ⊎ ((c'.saturated ≡ pos 1) × (c'.u_applied ≡ cfg.u_max))
                ⊎ (c'.saturated ≡ pos 0)))
  unfolding begin
  begin_share c cfg now u_raw h r q = ground arith
