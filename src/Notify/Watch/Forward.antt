-- ===== src/Notify/Watch/Forward.antt =====
-- src/core/notify.c, `pf_notify_tick`: what the watching of a probe keeps, and the take-off of a rest.
use pifire_c.Common.{◌≡◌, true, false, Option, none, some, ◌⊎◌, ◌∙◌, arith}
use pifire_c.Common.Float.{Double, ◌<ᵈ◌, ◌≤ᵈ◌, ◌-ᵈ◌, nought}
use pifire_c.Notify.{NotifyProbe, core}
use pifire_c.Notify.Watch.{
  smooth_cook, follow_air, judge_removal, watch_removal, aim_rest, watch_rest, note_high,
}

module _ {W : Type 0} ⦃d : Double W⦄ where
  pub smooth_cook-core : (p : NotifyProbe W) (raw dt : W) → core (smooth_cook p raw dt) ≡ core p
  unfolding smooth_cook
  smooth_cook-core p raw dt = ground arith

  follow_air-core : (p : NotifyProbe W) (amb : W) → core (follow_air p amb) ≡ core p
  unfolding follow_air
  follow_air-core p amb = ground arith

  judge_removal-core :
      (p : NotifyProbe W) (amb : Option W) (t rate now : W)
      → core (judge_removal p amb t rate now).1 ≡ core p
  unfolding judge_removal
  judge_removal-core p amb t rate now = ground arith

  pub watch_removal-core :
      (p : NotifyProbe W) (amb : Option W) (t rate now : W)
      → core (watch_removal p amb t rate now).1 ≡ core p
  unfolding watch_removal
  watch_removal-core p none t rate now = judge_removal-core p none t rate now
  watch_removal-core p (some amb) t rate now =
      judge_removal-core (follow_air p amb) (some amb) t rate now ∙ follow_air-core p amb

  pub aim_rest-core :
      (p : NotifyProbe W) (t rate cook dt k margin : W)
      → core (aim_rest p t rate cook dt k margin) ≡ core p
  unfolding aim_rest
  aim_rest-core p t rate cook dt k margin = ground arith

  note_high-core : (p : NotifyProbe W) (t now : W) → core (note_high p t now) ≡ core p
  note_high-core p t now = ground arith

  pub watch_rest-core :
      (p : NotifyProbe W) (amb : Option W) (t now : W) → core (watch_rest p amb t now).1 ≡ core p
  unfolding watch_rest
  watch_rest-core p amb t now = ground (arith, note_high-core p t now)

  -- Within 3 degrees of its take-off a target never moves back: it stays, or is not above what it was,
  -- whatever the climb, the heat and what the grill has learned.
  pub aim_rest-forward :
      (p : NotifyProbe W) (t rate cook dt k margin : W)
      → (nought <ᵈ p.target_c) ≡ true
      → ((p.target_c -ᵈ d.lit 3 1) ≤ᵈ t) ≡ true
      → let p' = aim_rest p t rate cook dt k margin in
        (p'.target_c ≡ p.target_c) ⊎ ((p.target_c <ᵈ p'.target_c) ≡ false)
  unfolding aim_rest
  aim_rest-forward p t rate cook dt k margin h near = ground (arith)
