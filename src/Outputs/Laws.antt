-- ===== src/Outputs/Laws.antt =====
-- src/core/outputs.c: what the relays do, against what the daemon believes of them.
use pifire_c.Common.{
  ◌≡◌, refl, Bool, true, false, Option, none, some, arith, ◌&&◌, if◌then◌else◌, ◌∙◌, if_ind,
}
use pifire_c.Common.Int.{ℤ, is_pos}
use mathlib.Core.Path.{subst}
use pifire_c.Mode.{Output, output_eq, output_eq_sound}
use pifire_c.Outputs.{
  Rc, Relays, Platform, Outputs, is_ok, differs, set_relay, all_off_relays, all_off_device,
  drive_off, init, set_device, set_locked, set, set_fan_locked, pwm_frequency_locked, get, all_off,
}

-- What the daemon relies on in a platform: `wire` is the level of a relay.
pub record PlatformLaws (H : Type 0) ⦃ops : Platform H⦄ : Type 0 where
  pub wire : H → Output → Bool
  pub wire-all_off : (h : H) (o : Output) → wire (ops.all_off h) o ≡ false
  -- a write that succeeds moves the relay that it names, and no other
  pub wire-set_output :
      (h : H) (o p : Output) (on : Bool)
      → is_ok (ops.set_output h o on).0 ≡ true
      → wire (ops.set_output h o on).1 p ≡ set_relay (wire h) o on p
  -- a write that fails moves none
  pub wire-set_output_failed :
      (h : H) (o p : Output) (on : Bool)
      → is_ok (ops.set_output h o on).0 ≡ false
      → wire (ops.set_output h o on).1 p ≡ wire h p
  pub wire-set_fan_pct :
      (h : H) (pct : ℤ) (p : Output) → wire (ops.set_fan_pct h pct).1 p ≡ wire h p
  pub wire-set_pwm_frequency :
      (h : H) (hz : ℤ) (p : Output) → wire (ops.set_pwm_frequency h hz).1 p ≡ wire h p

module _ {H : Type 0} ⦃ops : Platform H⦄ ⦃laws : PlatformLaws H⦄ where
  -- The relays of a device are as listed; with no device there is nothing to say.
  abbrev pub Wired : Option H → Relays → Type 0
  Wired none g = Unit
  Wired (some h) g = (p : Output) → laws.wire h p ≡ g p

  -- What `pf_outputs_get` reports of each output is what its relay does.
  abbrev pub Agrees : Outputs H → Type 0
  Agrees s = Wired s.device s.state

  pub Wired-all_off : (d : Option H) → Wired (all_off_device d) all_off_relays
  Wired-all_off none = tt
  Wired-all_off (some h) = laws.wire-all_off h

  pub device-all_off : (s : Outputs H) → Wired (all_off s).device all_off_relays
  unfolding all_off
  device-all_off s = Wired-all_off s.device

  pub drive_off-Agrees : (s : Outputs H) → Agrees (drive_off s)
  drive_off-Agrees s = Wired-all_off s.device

  Wired-write :
      (h : H) (g : Relays) (o : Output) (on : Bool)
      → ((p : Output) → laws.wire h p ≡ g p)
      → (b : Bool) → is_ok (ops.set_output h o on).0 ≡ b
      → (p : Output) → laws.wire (ops.set_output h o on).1 p ≡ (if b then set_relay g o on else g) p
  Wired-write h g o on w true e p = laws.wire-set_output h o p on e ∙ same (output_eq o p)
    where
      same : (t : Bool) → (if t then on else laws.wire h p) ≡ (if t then on else g p)
      same true = refl
      same false = w p
  Wired-write h g o on w false e p = laws.wire-set_output_failed h o p on e ∙ w p

  module _ (o : Output) (on : Bool) where
    set_device-Agrees :
        (s : Outputs H) (h : H)
        → ((p : Output) → laws.wire h p ≡ s.state p)
        → Agrees (set_device s h o on).1
    unfolding set_device
    set_device-Agrees s h w p =
        Wired-write h s.state o on w (is_ok (ops.set_output h o on).0) refl p
        ∙ push (is_ok (ops.set_output h o on).0)
      where
        push :
            (b : Bool)
            → (if b then set_relay s.state o on else s.state) p
              ≡ (if b then set_relay s.state o on else s.state) p
        push b = refl

    set_locked_on :
        (d : Option H) (s : Outputs H) → s.device ≡ d → Agrees s → Agrees (set_locked s o on).1
    unfolding set_locked
    set_locked_on none s e w =
        if_ind (λ (r : Rc × Outputs H). Agrees r.1) (s.latched && on) (λ _. w) (λ _. rw e w)
    set_locked_on (some h) s e w =
        if_ind (λ (r : Rc × Outputs H). Agrees r.1) (s.latched && on) (λ _. w)
          (λ _. rw e (
            if_ind (λ (r : Rc × Outputs H). Agrees r.1) (differs (s.state o) on)
              (λ _. set_device-Agrees s h (subst (λ d. Wired d s.state) e w)) (λ _. w)))

    pub set_locked-Agrees : (s : Outputs H) → Agrees s → Agrees (set_locked s o on).1
    set_locked-Agrees s w = set_locked_on s.device s refl w

  fan_on :
      (d : Option H) (pct : ℤ) (s : Outputs H)
      → s.device ≡ d
      → Agrees s
      → Agrees (set_fan_locked s pct).1
  unfolding set_fan_locked
  fan_on none pct s e w =
      if_ind (λ (r : Rc × Outputs H). Agrees r.1) (s.latched && is_pos pct) (λ _. w) (λ _. rw e w)
  fan_on (some h) pct s e w =
      if_ind (λ (r : Rc × Outputs H). Agrees r.1) (s.latched && is_pos pct) (λ _. w)
        (λ _. rw e (λ p. laws.wire-set_fan_pct h pct p ∙ subst (λ d. Wired d s.state) e w p))

  pub set_fan_locked-Agrees : (s : Outputs H) (pct : ℤ) → Agrees s → Agrees (set_fan_locked s pct).1
  set_fan_locked-Agrees s pct w = fan_on s.device pct s refl w

  freq_on :
      (d : Option H) (hz : ℤ) (s : Outputs H)
      → Wired d s.state
      → Agrees (pwm_frequency_locked (record s { device = d }) hz).1
  unfolding pwm_frequency_locked
  freq_on none hz s w = tt
  freq_on (some h) hz s w = λ p. laws.wire-set_pwm_frequency h hz p ∙ w p

  pub pwm_frequency_locked-Agrees :
      (s : Outputs H) (hz : ℤ) → Agrees s → Agrees (pwm_frequency_locked s hz).1
  pwm_frequency_locked-Agrees s hz w = freq_on s.device hz s w

  pub init-Agrees : (s : Outputs H) (inst : Option H) → Agrees (init s inst)
  unfolding init
  init-Agrees s inst = Wired-all_off inst

module _ {H : Type 0} ⦃ops : Platform H⦄ where
  -- `pf_outputs_set` moves exactly the output that it names if it returns 0, and none if it does
  -- not: refused by the latch, with no device, or failed by the platform.
  pub get-set :
      (s : Outputs H) (o : Output) (on : Bool) (p : Output)
      → get (set s o on).1 p ≡ (if is_ok (set s o on).0 then set_relay (get s) o on p else get s p)
  unfolding get set
  get-set s o on p = ground (arith, output_eq_sound o p)
