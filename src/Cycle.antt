-- ===== src/Cycle.antt =====
-- src/core/cycle.c: the auger cycle, a share of feed turned into seconds on in a fixed time.
mod Tests
pub mod Bounds
use pifire_c.Common.{Bool, true, false, not, ◌&&◌, ◌||◌, if◌then◌else◌}
use pifire_c.Common.Int.{ℤ, pos, negsuc}
use pifire_c.Common.Float.{Double, ◌<ᵈ◌, ◌≤ᵈ◌, ◌+ᵈ◌, ◌-ᵈ◌, ◌*ᵈ◌, ◌/ᵈ◌, nought}

-- `pf_cycle_cfg`
pub record CycleCfg (W : Type 0) : Type 0 where
  pub cycle_s : W
  pub u_min : W
  pub u_max : W
  pub max_on_s : W

-- `pf_cycle`
pub record Cycle (W : Type 0) : Type 0 where
  pub start : W
  pub cycle_s : W
  pub on_s : W
  pub u_raw : W
  pub u_applied : W
  pub saturated : ℤ
  pub active : Bool

module _ {W : Type 0} ⦃d : Double W⦄ where
  -- the share after the clamps, and on which side it was cut; the two tests come one after the other
  abbrev pub sane : CycleCfg W → W → W
  sane cfg u = if d.is_nan u || d.is_inf u then cfg.u_min else u

  pub clamp_low : CycleCfg W → W → W × ℤ
  clamp_low cfg u = if u <ᵈ cfg.u_min then (cfg.u_min, negsuc 0) else (u, pos 0)

  pub clamp_high : CycleCfg W → W × ℤ → W × ℤ
  clamp_high cfg (u, sat) = if cfg.u_max <ᵈ u then (cfg.u_max, pos 1) else (u, sat)

  pub start_cycle : Cycle W → CycleCfg W → W → W → W × ℤ → Cycle W
  start_cycle c cfg now u_raw (u, sat) =
      let on = cfg.cycle_s *ᵈ u in
      let capped = nought <ᵈ cfg.max_on_s && cfg.max_on_s <ᵈ on in
      record {
        start = now;
        cycle_s = cfg.cycle_s;
        on_s = if capped then cfg.max_on_s else on;
        u_raw = u_raw;
        u_applied = if capped then cfg.max_on_s /ᵈ cfg.cycle_s else u;
        saturated = if capped then pos 1 else sat;
        active = true;
      }

  pub begin : Cycle W → CycleCfg W → W → W → Cycle W
  unfolding clamp_low clamp_high start_cycle
  begin c cfg now u_raw =
      start_cycle c cfg now u_raw (clamp_high cfg (clamp_low cfg (sane cfg u_raw)))

  pub stop : Cycle W → Cycle W
  stop c = record c { active = false; on_s = nought }

  pub begin_fixed : Cycle W → CycleCfg W → W → W → W → Cycle W
  begin_fixed c cfg now on_s off_s =
      let total = on_s +ᵈ off_s in
      if not (nought <ᵈ total)
      then stop c
      else begin c
          (record { cycle_s = total; u_min = nought; u_max = d.lit 1 1; max_on_s = cfg.max_on_s })
          now (on_s /ᵈ total)

  pub auger_on : Cycle W → W → Bool
  auger_on c now = c.active && (now -ᵈ c.start) <ᵈ c.on_s

  pub is_done : Cycle W → W → Bool
  is_done c now = not c.active || c.cycle_s ≤ᵈ (now -ᵈ c.start)
