-- ===== src/Cycle/Tests.antt =====
-- Examples of the auger cycle.
use pifire_c.Common.{◌≡◌, refl, false, some, none}
use pifire_c.Common.Int.{pos}
use pifire_c.Common.Float.{◌<ᵈ◌}
use pifire_c.Cycle.{CycleCfg, Cycle, begin}
use pifire_c.Cycle.Bounds.{begin_capped}
use pifire_c.Sample.{Centi, centi, whole}

-- 20 s, between a tenth and nine tenths, at most 15 s
abbrev smoking : CycleCfg Centi
smoking = record {
  cycle_s = whole 20;
  u_min = some (pos 10);
  u_max = some (pos 90);
  max_on_s = whole 15;
}

abbrev idle : Cycle Centi
idle = record {
  start = whole 0;
  cycle_s = whole 0;
  on_s = whole 0;
  u_raw = whole 0;
  u_applied = whole 0;
  saturated = pos 0;
  active = false;
}

begin_capped_example : (smoking.max_on_s <ᵈ (begin idle smoking (whole 100) none).on_s) ≡ false
begin_capped_example = begin_capped idle smoking (whole 100) none refl refl
