-- ===== src/Notify/Speak/Limits.antt =====
-- src/core/notify.c, `pf_notify_tick`: how often the alarm of a limit is told.
use pifire_c.Common.{
  ℕ, suc, ◌+◌, ◌≡◌, refl, true, false, Bool, List, [], ◌∷◌, ◌++◌, arith, if◌then◌else◌,
}
use pifire_c.Common.Float.{Double, ◌≤ᵈ◌, ◌-ᵈ◌}
use pifire_c.Mode.{Units}
use pifire_c.Text.{Bytes}
use pifire_c.Notify.{NotifyProbe, Step}
use pifire_c.Notify.CookTimer.{count_of}
use pifire_c.Notify.Speak.{
  Notice, ack_target, too_high, speak_steps, check_limits, check_high, slack,
}

module _ {W : Type 0} where
  -- how many of the notices are that the reading is over the limit
  pub highs : List (Notice W) → ℕ
  highs [] = 0
  highs (too_high label t limit ∷ l) = suc (highs l)
  highs (_ ∷ l) = highs l

  pub highs-append : (l m : List (Notice W)) → highs (l ++ m) ≡ highs l + highs m
  unfolding highs
  highs-append [] m = omega arith
  highs-append (too_high label t limit ∷ l) m = omega (arith, highs-append l m)
  highs-append (_ ∷ l) m = highs-append l m

pub highs-nil : (W : Type 0) → highs {W = W} [] ≡ 0
unfolding highs
highs-nil W = refl

-- the alarm of a target that is acknowledged is none
pub ack-highs :
    (W : Type 0) (b : Bool) (label : Bytes)
    → highs {W = W} (if b then ack_target label ∷ [] else []) ≡ 0
unfolding highs
ack-highs W true label = refl
ack-highs W false label = refl

module _ {W : Type 0} ⦃d : Double W⦄ where
  pub speak_steps-highs :
      (label : Bytes) (l : List (Step W)) (cooking : Bool) (t : W) (units : Units)
      → highs (speak_steps label l cooking t units).0 ≡ 0
  unfolding speak_steps highs
  speak_steps-highs label [] cooking t units = refl
  speak_steps-highs label (s ∷ l) cooking t units =
      ground (arith, speak_steps-highs label l cooking t units)

  -- Above the limit less the slack, the latch is not undone.
  pub check_limits-highs :
      (p : NotifyProbe W) (cooking : Bool) (t : W) (units : Units)
      → (t ≤ᵈ (p.limit_high_c -ᵈ slack units)) ≡ false
      → let (told, q) = check_limits p cooking t units in
        highs told + count_of p.high_tripped ≡ count_of q.high_tripped
  unfolding check_limits check_high highs
  check_limits-highs p cooking t units e = ground arith

  pub check_limits-label :
      (p : NotifyProbe W) (cooking : Bool) (t : W) (units : Units)
      → let (told, q) = check_limits p cooking t units in
        (q.label ≡ p.label)
        × (q.after ≡ p.after)
        × (q.reached ≡ p.reached)
        × (q.limit_high_c ≡ p.limit_high_c)
        × (q.limit_low_c ≡ p.limit_low_c)
  unfolding check_limits
  check_limits-label p cooking t units = (refl, refl, refl, refl, refl)
