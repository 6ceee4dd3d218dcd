-- ===== src/Outputs/Race.antt =====
-- src/core/outputs.c under its threads. A request first looks at the latch without the lock and may
-- then wait; what it does under the lock is one step. Between the two anything else may happen, the
-- emergency included, which here has the lock: the branch of `pf_outputs_emergency_off` that gives the
-- lock up after its time, and may then run beside a call that is still under it, is not a step. A call
-- that never comes back from the platform makes no step either.
use pifire_c.Common.{
  ℕ, ◌≡◌, refl, Bool, true, false, Option, none, some, if◌then◌else◌, ◌==◌, if_ind, sym, ◌∙◌,
}
use mathlib.Core.Path.{subst}
use pifire_c.Common.Int.{ℤ, is_pos}
use pifire_c.Mode.{Output}
use pifire_c.Outputs.{
  Rc, Relays, Platform, Outputs, all_off_relays, init, shutdown, set_locked, set_fan_locked,
  pwm_frequency_locked, all_off, emergency_off, differs,
}
use pifire_c.Outputs.Laws
use pifire_c.Outputs.Laws.{PlatformLaws, Wired, Agrees}

-- What a thread asks for.
pub data Request : Type 0 where
  set_output : Output → Bool → Request
  set_fan : ℤ → Request
  set_frequency : ℤ → Request

module _ {H : Type 0} ⦃ops : Platform H⦄ where
  -- the part of the request under the lock
  pub serve : Outputs H → Request → Outputs H
  serve s (set_output o on) = (set_locked s o on).1
  serve s (set_fan pct) = (set_fan_locked s pct).1
  serve s (set_frequency hz) = (pwm_frequency_locked s hz).1

-- The outputs, and the request of each thread that has passed its first look at the latch.
pub record System (H : Type 0) : Type 0 where
  pub out : Outputs H
  pub pending : ℕ → Option Request

abbrev pub put : (ℕ → Option Request) → ℕ → Option Request → ℕ → Option Request
put f i r j = if i == j then r else f j

module _ {H : Type 0} ⦃ops : Platform H⦄ where
  pub data Step : System H → System H → Type 0 where
    ask :
        (s : System H) (i : ℕ) (r : Request)
        → s.out.latched ≡ false
        → Step s (record s { pending = put s.pending i (some r) })
    lock :
        (s : System H) (i : ℕ) (r : Request)
        → s.pending i ≡ some r
        → Step s (record s { out = serve s.out r; pending = put s.pending i none })
    switch_off : (s : System H) → Step s (record s { out = all_off s.out })
    start : (s : System H) (inst : Option H) → Step s (record s { out = init s.out inst })
    finish : (s : System H) → Step s (record s { out = (shutdown s.out).0 })
    emergency : (s : System H) → Step s (record s { out = (emergency_off s.out false).1 })
    -- the latch alone: an emergency that waits for the lock
    latch : (s : System H) → Step s (record s { out = record (s.out) { latched = true } })

  pub data Steps (s : System H) : System H → Type 0 where
    here : Steps s s
    next : {t u : System H} → Steps s t → Step t u → Steps s u

  -- The latch is set, and every output is off, as the daemon sees it.
  abbrev pub IsOff : Outputs H → Type 0
  IsOff s = (s.latched ≡ true) × ((o : Output) → s.state o ≡ false)

  -- Under the latch a request that has waited leaves everything off.
  set_locked-IsOff :
      (d : Option H) (o : Output) (on : Bool) (s : Outputs H)
      → ((p : Output) → s.state p ≡ false)
      → IsOff (set_locked (record s { device = d; latched = true }) o on).1
  unfolding set_locked
  set_locked-IsOff d o true s h = (refl, h)
  set_locked-IsOff none o false s h = (refl, h)
  set_locked-IsOff (some k) o false s h =
      if_ind (λ (r : Rc × Outputs H). IsOff r.1) (differs (s.state o) false)
        (λ e. absurd (impossible (s.state o) (h o) e)) (λ _. (refl, h))
    where
      impossible : (b : Bool) → b ≡ false → differs b false ≡ true → ⊥
      impossible true e f = cc
      impossible false e f = cc

  set_fan-IsOff :
      (d : Option H) (pct : ℤ) (s : Outputs H)
      → ((p : Output) → s.state p ≡ false)
      → IsOff (set_fan_locked (record s { device = d; latched = true }) pct).1
  unfolding set_fan_locked
  set_fan-IsOff none pct s h =
      if_ind (λ (r : Rc × Outputs H). IsOff r.1) (is_pos pct) (λ _. (refl, h)) (λ _. (refl, h))
  set_fan-IsOff (some k) pct s h =
      if_ind (λ (r : Rc × Outputs H). IsOff r.1) (is_pos pct) (λ _. (refl, h)) (λ _. (refl, h))

  frequency-IsOff :
      (d : Option H) (hz : ℤ) (s : Outputs H)
      → IsOff s
      → IsOff (pwm_frequency_locked (record s { device = d }) hz).1
  unfolding pwm_frequency_locked
  frequency-IsOff none hz s h = h
  frequency-IsOff (some k) hz s h = h

  serve-IsOff : (r : Request) (s : Outputs H) → IsOff s → IsOff (serve s r)
  unfolding serve
  serve-IsOff (set_output o on) s h =
      subst (λ l. IsOff (set_locked (record s { latched = l }) o on).1) (sym h.0)
        (set_locked-IsOff s.device o on s h.1)
  serve-IsOff (set_fan pct) s h =
      subst (λ l. IsOff (set_fan_locked (record s { latched = l }) pct).1) (sym h.0)
        (set_fan-IsOff s.device pct s h.1)
  serve-IsOff (set_frequency hz) s h = frequency-IsOff s.device hz s h

  Step-IsOff : {s t : System H} → Step s t → IsOff s.out → IsOff t.out
  unfolding all_off init shutdown emergency_off
  Step-IsOff (ask s i r l) h = h
  Step-IsOff (lock s i r e) h = serve-IsOff r s.out h
  Step-IsOff (switch_off s) h = (h.0, λ o. refl)
  Step-IsOff (start s inst) h = (h.0, λ o. refl)
  Step-IsOff (finish s) h = h
  Step-IsOff (emergency s) h = (refl, λ o. refl)
  Step-IsOff (latch s) h = (refl, h.1)

  Steps-IsOff : {s t : System H} → Steps s t → IsOff s.out → IsOff t.out
  Steps-IsOff here h = h
  Steps-IsOff (next r st) h = Step-IsOff st (Steps-IsOff r h)

  emergency_off-IsOff : (s : Outputs H) → IsOff (emergency_off s false).1
  unfolding emergency_off
  emergency_off-IsOff s = (refl, λ o. refl)

  module _ ⦃laws : PlatformLaws H⦄ where
    serve-Agrees : (r : Request) (s : Outputs H) → Agrees s → Agrees (serve s r)
    unfolding serve
    serve-Agrees (set_output o on) s w = Laws.set_locked-Agrees o on s w
    serve-Agrees (set_fan pct) s w = Laws.set_fan_locked-Agrees s pct w
    serve-Agrees (set_frequency hz) s w = Laws.pwm_frequency_locked-Agrees s hz w

    emergency_off-Agrees : (s : Outputs H) → Agrees (emergency_off s false).1
    unfolding emergency_off
    emergency_off-Agrees s = Laws.Wired-all_off s.device

    -- Whatever the threads do, what `pf_outputs_get` reports stays what the relays do.
    pub Step-Agrees : {s t : System H} → Step s t → Agrees s.out → Agrees t.out
    unfolding all_off init shutdown
    Step-Agrees (ask s i r l) w = w
    Step-Agrees (lock s i r e) w = serve-Agrees r s.out w
    Step-Agrees (switch_off s) w = Laws.Wired-all_off s.out.device
    Step-Agrees (start s inst) w = Laws.Wired-all_off inst
    Step-Agrees (finish s) w = tt
    Step-Agrees (emergency s) w = emergency_off-Agrees s.out
    Step-Agrees (latch s) w = w

    Steps-Agrees : {s t : System H} → Steps s t → Agrees s.out → Agrees t.out
    Steps-Agrees here w = w
    Steps-Agrees (next r st) w = Step-Agrees st (Steps-Agrees r w)

    -- the relays themselves are off
    abbrev pub WiresOff : Option H → Type 0
    WiresOff d = Wired d all_off_relays

    wires_off : (d : Option H) (g : Relays) → Wired d g → ((o : Output) → g o ≡ false) → WiresOff d
    wires_off none g w h = tt
    wires_off (some k) g w h = λ p. w p ∙ h p

    -- After an emergency off that has the lock, no sequence of steps of the threads under the lock
    -- (requests that had passed their first look at the latch before it was set included) switches an
    -- output on again: the latch stays set, and each relay of the device stays off.
    pub emergency_is_final :
        (s t : System H)
        → Steps (record s { out = (emergency_off s.out false).1 }) t
        → IsOff t.out × WiresOff t.out.device
    emergency_is_final s t r =
        let off = Steps-IsOff r (emergency_off-IsOff s.out) in
        (
          off,
          wires_off t.out.device t.out.state (Steps-Agrees r (emergency_off-Agrees s.out)) off.1,
        )
