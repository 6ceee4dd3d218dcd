-- ===== src/Mode/Tests.antt =====
-- Tests of the names of modes.
use pifire_c.Common.{◌≡◌, refl, some}
use pifire_c.Mode.{mode_from_name, bytes, reignite}

old_name : mode_from_name (bytes "reIgnite") ≡ some reignite
unfolding mode_from_name
old_name = refl
