-- ===== src/Notify/Climb/Kept.antt =====
-- src/core/notify.c: a sample and the times to a temperature touch nothing else.
use pifire_c.Common.{◌≡◌, refl, List, arith}
use pifire_c.Common.Float.{Double}
use pifire_c.Notify.{NotifyProbe, core}
use pifire_c.Notify.Climb.{Math, push_sample, aim_step, recalc_eta}

module _ {W : Type 0} ⦃d : Double W⦄ where
  pub push_sample-core : (p : NotifyProbe W) (c : W) → core (push_sample p c) ≡ core p
  unfolding push_sample
  push_sample-core p c = refl

  aim_step-core :
      (math : Math W) (p : NotifyProbe W) (lin : List W) (cook : W)
      → core (aim_step math p lin cook) ≡ core p
  unfolding aim_step
  aim_step-core math p lin cook = ground arith

  pub recalc_eta-core :
      (math : Math W) (p : NotifyProbe W) (cook : W) → core (recalc_eta math p cook) ≡ core p
  unfolding recalc_eta
  recalc_eta-core math p cook = aim_step-core math p _ cook
