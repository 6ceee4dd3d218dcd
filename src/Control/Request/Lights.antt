-- ===== src/Control/Request/Lights.antt =====
-- src/core/control.c: that no request takes a grill that is not burning straight to Smoke or Hold.
use pifire_c.Common.{
  ◌≡◌, refl, ap, ◌∙◌, sym, arith, ◌⊎◌, inl, inr, Bool, true, false, not, ◌&&◌, if◌then◌else◌,
  if_ind,
}
use mathlib.Core.Path.{subst}
use pifire_c.Common.Float.{Double, ◌<ᵈ◌, nought}
use pifire_c.Mode.{
  Mode, stop, monitor, prime, startup, reignite, smoke, hold, shutdown, manual, error, mode_eq,
  mode_eq_sound,
}
use pifire_c.Outputs.{Platform}
use pifire_c.Control.{Machine, Parts}
use pifire_c.Control.Enter.{is_lighting}
use pifire_c.Control.Enter.Entered.{mode-enter_mode}
use pifire_c.Control.Recipe.{finish_now, is_idle}
use pifire_c.Control.Recipe.Finish.{mode-finish_now}
use pifire_c.Control.Request.{
  is_run, is_cold, is_refused, grant, answer_request, apply_request, hold_setpoint, plan_startup,
  new_setpoint, keep_for_later, clear_for_stop, taken,
}

-- the same decision on modes alone
abbrev decision : Bool → Mode → Mode → Mode
decision primes from to =
    if mode_eq to startup && primes && is_cold from
    then prime
    else if is_run to && is_idle from
    then startup
    else if mode_eq to hold && mode_eq from hold
    then from
    else if is_lighting from && is_run to
    then from
    else to

-- What may come of a request: the mode stays, a light is begun, or a mode is entered that does not
-- burn, or the other of Smoke and Hold from the one.
abbrev pub MayCome : Mode → Mode → Mode → Type 0
MayCome from to after =
    (after ≡ from)
    ⊎ ((after ≡ startup) × ((to ≡ startup) ⊎ (is_run to ≡ true) × (is_idle from ≡ true)))
    ⊎ ((after ≡ prime) × (is_cold from ≡ true) × ((to ≡ prime) ⊎ (to ≡ startup)))
    ⊎ ((after ≡ manual) × (to ≡ manual) × (is_cold from ≡ true))
    ⊎ ((after ≡ to) × ((to ≡ stop) ⊎ (to ≡ monitor) ⊎ (to ≡ shutdown)))
    ⊎ ((after ≡ to) × (is_run to ≡ true) × (is_run from ≡ true))

decision-MayCome :
    (primes : Bool) (from to : Mode)
    → is_refused to from ≡ false
    → (mode_eq from error && not (mode_eq to stop)) ≡ false
    → MayCome from to (decision primes from to)
decision-MayCome primes from stop h e = ground arith
decision-MayCome primes from monitor h e = ground arith
decision-MayCome primes from prime h e = ground arith
decision-MayCome primes from startup h e = ground arith
decision-MayCome primes from smoke h e = ground arith
decision-MayCome primes from hold h e = ground arith
decision-MayCome primes from shutdown h e = ground arith
decision-MayCome primes from manual h e = ground arith
decision-MayCome primes from reignite h e = ground arith
decision-MayCome primes from error h e = ground arith

and_left : (a b : Bool) → (a && b) ≡ true → a ≡ true
and_left true b h = refl
and_left false b h = h

module _ {W H : Type 0} ⦃d : Double W⦄ ⦃ops : Platform H⦄ where
  -- the preparations leave the mode
  mode-prepare :
      (m : Machine W H) (to : Mode) → (plan_startup (hold_setpoint m to) to).base.mode ≡ m.base.mode
  unfolding plan_startup hold_setpoint
  mode-prepare m to = ground arith

  mode-if :
      (b : Bool) (x y : Machine W H) (u v : Mode)
      → x.base.mode ≡ u
      → y.base.mode ≡ v
      → (if b then x else y).base.mode ≡ (if b then u else v)
  mode-if true x y u v h k = h
  mode-if false x y u v h k = k

  mode-keep_for_later :
      (m : Machine W H) (to : Mode) → (keep_for_later m to).base.mode ≡ m.base.mode
  unfolding keep_for_later
  mode-keep_for_later m to =
      if_ind (λ (r : Machine W H). r.base.mode ≡ m.base.mode) (mode_eq m.base.mode reignite)
        (λ _. refl) (λ _. refl)

  mode-grant :
      (parts : Parts W) (m : Machine W H) (to : Mode) (now : W)
      → (grant parts m to now).base.mode
        ≡ decision (nought <ᵈ m.conf.prime_on_startup_g) m.base.mode to
  unfolding grant new_setpoint
  mode-grant parts m to now =
      let m1 = plan_startup (hold_setpoint m to) to in
      let kept = mode-prepare m to in
      mode-if _ _ _ _ _
        (mode-enter_mode parts
          (record m1 { prime_amount_g = m.conf.prime_on_startup_g; next_mode = startup }) prime now)
        (mode-if _ _ _ _ _ (mode-enter_mode parts (record m1 { next_mode = to }) startup now) (
          mode-if _ _ _ _ _ kept (
            mode-if _ _ _ _ _ (mode-keep_for_later m1 to ∙ kept)
              (mode-enter_mode parts m1 to now))))

  mode-clear_for_stop : (m : Machine W H) → (clear_for_stop m).base.mode ≡ m.base.mode
  unfolding clear_for_stop
  mode-clear_for_stop m = refl

  -- a request that is neither refused nor for the recipe's finish
  answer-MayCome :
      (parts : Parts W) (m : Machine W H) (to : Mode) (now : W)
      → MayCome m.base.mode to (answer_request parts m to now).base.mode
  unfolding answer_request
  answer-MayCome parts m to now =
      let ready = if mode_eq to stop then clear_for_stop m else m in
      let same : ready.base.mode ≡ m.base.mode =
        if_ind (λ (r : Machine W H). r.base.mode ≡ m.base.mode) (mode_eq to stop)
          (λ _. mode-clear_for_stop m) (λ _. refl) in
      if_ind Fits (mode_eq m.base.mode error && not (mode_eq to stop)) (λ _. inl refl)
        (λ e.
          if_ind Fits (is_refused to m.base.mode) (λ _. inl refl)
            (λ h.
              if_ind Fits (mode_eq to shutdown && m.recipe.active)
                (λ s. finished (mode_eq_sound to shutdown (and_left _ _ s)))
                (λ _. granted ready same (mode-grant parts ready to now) h e)))
    where
      Fits : Machine W H → Type 0
      Fits r = MayCome m.base.mode to r.base.mode

      finished : to ≡ shutdown → Fits (finish_now parts m now)
      finished e = inr (inr (inr (inr (inl (mode-finish_now parts m now ∙ sym e, inr (inr e))))))

      granted :
          (r : Machine W H)
          → r.base.mode ≡ m.base.mode
          → (grant parts r to now).base.mode
            ≡ decision (nought <ᵈ r.conf.prime_on_startup_g) r.base.mode to
          → is_refused to m.base.mode ≡ false
          → (mode_eq m.base.mode error && not (mode_eq to stop)) ≡ false
          → Fits (grant parts r to now)
      granted r same e h f =
          subst (λ x. MayCome m.base.mode to x)
            (sym (e ∙ ap (λ x. decision (nought <ᵈ r.conf.prime_on_startup_g) x to) same))
            (decision-MayCome (nought <ᵈ r.conf.prime_on_startup_g) m.base.mode to h f)

  -- Whatever is asked for, in any mode: the mode stays, or a light is begun for a Startup or for a
  -- Smoke or Hold asked of a grill that does not burn, or a prime or Manual of a cold grill, or Stop,
  -- Monitor or Shutdown; Smoke and Hold are entered by a request only from one another, a relight and
  -- an error never.
  pub request_lights :
      (parts : Parts W) (m : Machine W H) (now : W)
      → MayCome m.base.mode m.req_mode (apply_request parts m now).base.mode
  unfolding apply_request
  request_lights parts m now =
      if_ind (λ (r : Machine W H). MayCome m.base.mode m.req_mode r.base.mode) (not m.req_pending)
        (λ _. inl refl) (λ _. answer-MayCome parts (taken m) m.req_mode now)

  -- without a request the state stays
  pub apply_request_idle :
      (parts : Parts W) (m : Machine W H) (now : W)
      → m.req_pending ≡ false
      → apply_request parts m now ≡ m
  unfolding apply_request
  apply_request_idle parts m now h = rw h refl
