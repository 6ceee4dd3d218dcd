-- ===== src/Control/Enter/Allowed.antt =====
-- src/core/control.c, `enter_mode`: what each mode may have on, and what the parts
-- of an entry do to the outputs.
use pifire_c.Common.{
  ◌≡◌, refl, ap, ◌∙◌, sym, arith, Bool, true, false, not, ◌&&◌, ◌||◌, if◌then◌else◌, if_ind,
}
use mathlib.Core.Path.{subst}
use pifire_c.Common.Int.{ℤ}
use pifire_c.Common.Float.{Double, ◌<ᵈ◌, ◌+ᵈ◌, nought}
use pifire_c.Mode.{
  Mode, prime, startup, reignite, smoke, hold, shutdown, error, Output, power, fan, auger, igniter,
  output_eq, mode_eq,
}
use pifire_c.Outputs.{Platform, Relays}
use pifire_c.Outputs.Only.{OnlyOn, with_on, without, OnlyOn-set_on, OnlyOn-set_fan_pct}
use pifire_c.Safety.Start
use pifire_c.Safety.Start.{pit_or_nan}
use pifire_c.Safety.Start.Kept
use pifire_c.Control.{Machine, Parts, turn, with_base}
use pifire_c.Control.Enter.{
  fan_on, smoke_cycle, leave_mode, change_mode, begin_cook, ambient_provisional, autotune_failed,
  cycle_cfg_for, select_smartstart_profile,
}

-- What the modes may have on: power and the fan, those and the auger, and what a prime does.
abbrev pub blown : Bool → Relays
blown b power = b
blown b fan = b
blown b auger = false
blown b igniter = false

abbrev pub burning : Relays
burning o = not (output_eq o igniter)

abbrev pub priming : Bool → Relays
priming lit power = true
priming lit fan = false
priming lit auger = true
priming lit igniter = lit

-- what is left on between two modes
abbrev pub left : Relays
left = without (without (λ o. true) igniter) auger

pub idle_table : (o : Output) → without (without left fan) power o ≡ true → false ≡ true
idle_table o e = ground arith

pub priming_table :
    (lit : Bool) (o : Output)
    → with_on (λ p. (output_eq igniter p && lit) || with_on (without left fan) power p) auger o
      ≡ true
    → priming lit o ≡ true
priming_table lit power e = refl
priming_table lit fan e = e
priming_table lit auger e = refl
priming_table true igniter e = refl
priming_table false igniter e = e

pub burning_table :
    (o : Output) → with_on (with_on (with_on left power) fan) auger o ≡ true → burning o ≡ true
burning_table power e = refl
burning_table fan e = refl
burning_table auger e = refl
burning_table igniter e = e

pub blown_table : (o : Output) → with_on (with_on left power) fan o ≡ true → blown true o ≡ true
blown_table power e = refl
blown_table fan e = refl
blown_table auger e = e
blown_table igniter e = e

pub cooling_table :
    (b : Bool)
    → b ≡ true
    → (o : Output) → with_on (with_on left power) fan o ≡ true
    → blown b o ≡ true
cooling_table true t o e = blown_table o e
cooling_table false t o e = cc

pub turn_if_table :
    (b : Bool) (may : Relays) (o p : Output)
    → (if b then with_on may o p else may p) ≡ true
    → ((output_eq o p && b) || may p) ≡ true
turn_if_table true may o p e = ground arith
turn_if_table false may o p e = ground arith

module _ {W H : Type 0} ⦃d : Double W⦄ ⦃ops : Platform H⦄ where
  -- the error's fan, for a pit that is hot
  abbrev pub cools : Machine W H → W → Bool
  cools m now = now <ᵈ (
      if m.base.pit_valid && m.conf.restart_hot_c <ᵈ m.base.pit_c
      then now +ᵈ m.conf.error_cooldown_fan_s
      else nought)

  -- What a mode may have on when it is entered.
  abbrev pub allowed : Machine W H → W → Mode → Relays
  allowed m now prime = priming (m.conf.prime_ignition && mode_eq m.next_mode startup)
  allowed m now startup = λ o. true
  allowed m now reignite = λ o. true
  allowed m now smoke = burning
  allowed m now hold = burning
  allowed m now shutdown = blown true
  allowed m now error = blown (cools m now)
  allowed m now _ = λ o. false

  abbrev pub Only : Relays → Machine W H → Type 0
  Only may m = OnlyOn may m.base.outputs

  pub Only-fan_on :
      (m : Machine W H) (pct : ℤ) (may : Relays)
      → Only may m
      → Only (with_on may fan) (fan_on m pct)
  unfolding fan_on
  Only-fan_on m pct may h =
      let on = OnlyOn-set_on m.base.outputs may fan h in
      if_ind (λ (r : Machine W H). Only (with_on may fan) r) m.conf.dc_fan
        (λ _. OnlyOn-set_fan_pct (turn m fan true).base.outputs (with_on may fan) _ on) (λ _. on)

  pub outputs-smoke_cycle :
      (parts : Parts W) (m : Machine W H) (now : W) → (smoke_cycle parts m now).base ≡ m.base
  unfolding smoke_cycle
  outputs-smoke_cycle parts m now = ground arith

  pub outputs-begin_cook :
      (parts : Parts W) (m : Machine W H) (prev : Mode)
      → (begin_cook parts m prev).base.outputs ≡ m.base.outputs
  unfolding begin_cook ambient_provisional
  outputs-begin_cook parts m prev = ground (arith, Kept.outputs-reset m.base)

  -- more may be on than is said
  pub Only-weaken :
      (m : Machine W H) (may may' : Relays)
      → ((o : Output) → may o ≡ true → may' o ≡ true)
      → Only may m
      → Only may' m
  Only-weaken m may may' w (l, t, h) = (l, t, λ p e. w p (h p e))

  pub Only-turn_if :
      (b : Bool) (m : Machine W H) (o : Output) (may : Relays)
      → Only may m
      → Only (λ p. (output_eq o p && b) || may p) (if b then turn m o true else m)
  Only-turn_if true m o may h =
      Only-weaken (turn m o true) (with_on may o) (λ p. (output_eq o p && true) || may p)
        (turn_if_table true may o) (OnlyOn-set_on m.base.outputs may o h)
  Only-turn_if false m o may h =
      Only-weaken m may (λ p. (output_eq o p && false) || may p) (turn_if_table false may o) h

  pub Only-same :
      (m m' : Machine W H) (may : Relays)
      → m'.base.outputs ≡ m.base.outputs
      → Only may m
      → Only may m'
  Only-same m m' may e h = subst (λ s. OnlyOn may s) (sym e) h

  pub outputs-change_mode :
      (m : Machine W H) (to : Mode) (now : W) → (change_mode m to now).base.outputs ≡ m.base.outputs
  unfolding change_mode autotune_failed cycle_cfg_for
  outputs-change_mode m to now = ground arith

  -- what the entries read of the machine that left its mode
  pub kept-leave_mode :
      (m : Machine W H) (to : Mode) (now : W)
      → let m' = leave_mode m to now in
        (m'.conf ≡ m.conf)
        × (m'.next_mode ≡ m.next_mode)
        × (m'.base.pit_valid ≡ m.base.pit_valid)
        × (m'.base.pit_c ≡ m.base.pit_c)
  unfolding leave_mode change_mode autotune_failed cycle_cfg_for
  kept-leave_mode m to now = ground arith

  pub outputs-light :
      (parts : Parts W) (m : Machine W H) (to prev : Mode)
      → (if mode_eq to startup then begin_cook parts m prev else m).base.outputs ≡ m.base.outputs
  outputs-light parts m to prev =
      if_ind (λ (r : Machine W H). r.base.outputs ≡ m.base.outputs) (mode_eq to startup)
        (λ _. outputs-begin_cook parts m prev) (λ _. refl)

  -- from the igniter to the first cycle
  pub outputs-lit :
      (parts : Parts W) (m : Machine W H) (now : W)
      → let m3 = select_smartstart_profile (turn m igniter true) in
        (smoke_cycle parts (with_base m3 (Start.on_startup_enter (m3.base) now)) now).base.outputs
        ≡ (turn m igniter true).base.outputs
  unfolding select_smartstart_profile
  outputs-lit parts m now =
      let m3 = select_smartstart_profile (turn m igniter true) in
      ap (λ c. c.outputs)
        (outputs-smoke_cycle parts (with_base m3 (Start.on_startup_enter (m3.base) now)) now)
      ∙ Kept.outputs-on_startup_enter m3.base now
