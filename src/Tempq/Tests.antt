-- ===== src/Tempq/Tests.antt =====
-- Examples of the filter of a probe.
use pifire_c.Common.{true, false}
use pifire_c.Tempq.{Tempq, copies}
use pifire_c.Sample.{Centi, centi, whole}

-- 120 C reported a second ago
abbrev steady : Tempq Centi
steady = record {
  med = copies 5 (whole 120);
  q = copies 10 (whole 120);
  len = 10;
  last_avg = whole 120;
  have_avg = true;
  slew_c_s = whole 3;
  hold_s = whole 10;
  out_c = whole 120;
  out_t = whole 99;
  hold_since = whole 0;
  unstable = false;
}
