-- ===== src/Pid/Tests.antt =====
-- Examples of the PID controller.
use pifire_c.Common.{ℕ, ◌≡◌, refl, true, List, [], ◌∷◌}
use pifire_c.Sample.{Centi, centi, whole}
use pifire_c.Pid.{Pid, CtrlIn}
use pifire_c.Pid.Windup.{updates, summed, AllFinite, updates_unbounded}

-- a controller with no centre, which has been reset
abbrev pid : Pid Centi
pid = record {
  pb_c = whole 50;
  ti = whole 100;
  td = whole 0;
  center = whole 0;
  kp = whole 0;
  ki = whole 0;
  kd = whole 0;
  inter = whole 0;
  inter_max = whole 10;
  last_pit = whole 90;
  last_t = whole 100;
  have_last = true;
  p = whole 0;
  i = whole 0;
  d = whole 0;
  u = whole 0;
}

abbrev hot_at : ℕ → CtrlIn Centi
hot_at t = record {
  now_s = whole t;
  pit_c = whole 130;
  setpoint_c = whole 120;
  cycle_time_s = whole 25;
  u_prev_applied = whole 0;
}

abbrev readings : List (CtrlIn Centi)
readings = hot_at 125 ∷ hot_at 150 ∷ []

readings-AllFinite : AllFinite pid.inter pid.last_t readings
unfolding AllFinite
readings-AllFinite = (refl, refl, refl, refl, (refl, refl, refl, refl, tt))

updates_unbounded_example : (updates pid readings).inter ≡ summed pid.inter pid.last_t readings
updates_unbounded_example = updates_unbounded pid readings refl refl readings-AllFinite
