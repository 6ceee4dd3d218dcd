-- ===== src/Control/Run/Moves.antt =====
-- src/core/control.c, `run_mode`: which outputs a turn may switch on, and where a mode ends.
use pifire_c.Common.{◌≡◌, refl, ◌∙◌, arith, ◌⊎◌, inl, inr, Bool, true, false, ◌||◌, if◌then◌else◌}
use mathlib.Core.Path.{subst}
use pifire_c.Common.Float.{Double, ◌<ᵈ◌, ◌-ᵈ◌}
use pifire_c.Mode.{
  Mode, stop, monitor, prime, startup, reignite, smoke, hold, shutdown, manual, error,
  mode_eq_sound, Output, power, fan, auger, igniter,
}
use pifire_c.Outputs
use pifire_c.Outputs.{Platform, Outputs, Relays}
use pifire_c.Outputs.Only.{
  LetsGo, OnlyOn, with_on, without, OnlyOn-set_on, OnlyOn-set_off, OnlyOn-set_fan_pct,
}
use pifire_c.Safety.Start.{startup_done}
use pifire_c.Control.{Machine, Parts}
use pifire_c.Control.Enter.{enter_mode}
use pifire_c.Control.Enter.Entered.{mode-enter_mode}
use pifire_c.Control.Recipe.{run_or_smoke}
use pifire_c.Control.Request.{is_run}
use pifire_c.Control.Run.Feed.{is_feeding}
use pifire_c.Control.Run.Kept.{RunKeeps, keep-run_outputs}
use pifire_c.Control.Run.Timed.{
  end_mode, end_light, end_shutdown, end_prime, end_cooling, stop_cooling_fire, has_cooled,
  lit_mode,
}
use pifire_c.Control.Run.{run_outputs, run_mode}

-- what a turn may switch on in a mode
abbrev pub adds : Mode → Relays
adds md power = false
adds md fan = is_run md
adds md auger = is_feeding md
adds md igniter = false

auger_table :
    (md : Mode) (may : Relays) (o : Output)
    → is_feeding md ≡ true
    → with_on (λ p. adds md p || may p) auger o ≡ true
    → (adds md o || may o) ≡ true
auger_table md may power f h = h
auger_table md may fan f h = h
auger_table md may auger f h = ground arith
auger_table md may igniter f h = h

fan_table :
    (md : Mode) (may : Relays) (o : Output)
    → is_run md ≡ true
    → with_on (λ p. adds md p || may p) fan o ≡ true
    → (adds md o || may o) ≡ true
fan_table md may power r h = h
fan_table md may fan r h = ground arith
fan_table md may auger r h = h
fan_table md may igniter r h = h

without_table : (may : Relays) (p o : Output) → without may p o ≡ true → may o ≡ true
without_table may p o h = ground arith

module _ {H : Type 0} ⦃ops : Platform H⦄ ⦃goes : LetsGo H⦄ where
  pub weaken :
      (s : Outputs H) (may may' : Relays)
      → ((o : Output) → may o ≡ true → may' o ≡ true)
      → OnlyOn may s
      → OnlyOn may' s
  weaken s may may' w (l, t, h) = (l, t, λ p e. w p (h p e))

  fan-adds :
      (md : Mode) (may : Relays)
      → is_run md ≡ true
      → (s : Outputs H) (on : Bool) → OnlyOn (λ o. adds md o || may o) s
      → OnlyOn (λ o. adds md o || may o) (Outputs.set s fan on).1
  fan-adds md may r s true h =
      let all : Relays = λ o. adds md o || may o in
      weaken (Outputs.set s fan true).1 (with_on all fan) all (λ o. fan_table md may o r)
        (OnlyOn-set_on s all fan h)
  fan-adds md may r s false h =
      let all : Relays = λ o. adds md o || may o in
      weaken (Outputs.set s fan false).1 (without all fan) all (without_table all fan)
        (OnlyOn-set_off s all fan h)

  -- no switch of a turn goes beyond
  pub adds-RunKeeps :
      (md : Mode) (may : Relays) → RunKeeps md (OnlyOn {H = H} (λ o. adds md o || may o))
  adds-RunKeeps md may =
      let all : Relays = λ o. adds md o || may o in
      record {
        auger_off = λ s h.
            weaken (Outputs.set s auger false).1 (without all auger) all (without_table all auger)
              (OnlyOn-set_off s all auger h);
        auger_on = λ f s h.
            weaken (Outputs.set s auger true).1 (with_on all auger) all
              (λ o. auger_table md may o f) (OnlyOn-set_on s all auger h);
        fan_turned = fan-adds md may;
        fan_paced = λ r s pct h. OnlyOn-set_fan_pct s all pct h;
      }

is_run-run_or_smoke : (md : Mode) → is_run (run_or_smoke md) ≡ true
is_run-run_or_smoke md = ground arith

module _ {W H : Type 0} ⦃d : Double W⦄ ⦃ops : Platform H⦄ where
  -- A turn in which the mode does not end switches on the auger at most, in the modes that feed, and
  -- the fan, in Smoke and Hold; power and the igniter it never switches on, and in Stop, Monitor,
  -- Shutdown, Manual and Error nothing.
  pub run_outputs-adds :
      ⦃goes : LetsGo H⦄
      → (parts : Parts W) (m : Machine W H) (now : W) (may : Relays) → OnlyOn may m.base.outputs
      → OnlyOn (λ o. adds m.base.mode o || may o) (run_outputs parts m now).base.outputs
  run_outputs-adds parts m now may h =
      (keep-run_outputs (adds-RunKeeps m.base.mode may) parts m now (
        refl,
        weaken m.base.outputs may (λ o. adds m.base.mode o || may o) (λ o e. ground arith) h,
      )).1

  -- any predicate will do
  pub mode-run_outputs :
      (parts : Parts W) (m : Machine W H) (now : W)
      → (run_outputs parts m now).base.mode ≡ m.base.mode
  mode-run_outputs parts m now = (keep-run_outputs trivial parts m now (refl, refl)).0
    where
      trivial : RunKeeps m.base.mode (λ (s : Outputs H). true ≡ true)
      trivial = record {
        auger_off = λ s h. h;
        auger_on = λ f s h. h;
        fan_turned = λ r s on h. h;
        fan_paced = λ r s pct h. h;
      }

  -- Where a mode may end, by the state at the end of the turn: a light when it is done, in Smoke or
  -- Hold; the cool-down when the grill has cooled, in Stop; a prime at its time, in Stop or in the
  -- Startup that was asked for; and no other mode.
  abbrev pub Ends : Mode → Machine W H → W → Mode → Type 0
  Ends startup m now after =
      ((startup_done m.base ≡ true) × (is_run after ≡ true))
      ⊎ ((startup_done m.base ≡ false) × (after ≡ startup))
  Ends reignite m now after =
      ((startup_done m.base ≡ true) × (is_run after ≡ true))
      ⊎ ((startup_done m.base ≡ false) × (after ≡ reignite))
  Ends shutdown m now after =
      ((has_cooled m now ≡ true) × (after ≡ stop))
      ⊎ ((has_cooled m now ≡ false) × (after ≡ shutdown))
  Ends prime m now after =
      (((m.prime_duration_s <ᵈ (now -ᵈ m.mode_start)) ≡ true)
        × ((after ≡ stop) ⊎ ((after ≡ startup) × (m.next_mode ≡ startup))))
      ⊎ (((m.prime_duration_s <ᵈ (now -ᵈ m.mode_start)) ≡ false) × (after ≡ prime))
  Ends md m now after = after ≡ md

  -- by the test's value
  if-cases :
      (b : Bool) (x y : Machine W H) (A B : Mode → Type 0)
      → A x.base.mode
      → B y.base.mode
      → ((b ≡ true) × A (if b then x else y).base.mode)
        ⊎ ((b ≡ false) × B (if b then x else y).base.mode)
  if-cases true x y A B h k = inl (refl, h)
  if-cases false x y A B h k = inr (refl, k)

  end_light-Ends :
      (parts : Parts W) (m : Machine W H) (now : W) (md : Mode)
      → m.base.mode ≡ md
      → ((startup_done m.base ≡ true) × (is_run (end_light parts m now).base.mode ≡ true))
        ⊎ ((startup_done m.base ≡ false) × ((end_light parts m now).base.mode ≡ md))
  unfolding end_light
  end_light-Ends parts m now md e =
      if-cases (startup_done m.base) _ m (λ after. is_run after ≡ true) (λ after. after ≡ md)
        (rw (mode-enter_mode parts _ (lit_mode m) now) (is_run-run_or_smoke _)) e

  end_shutdown-Ends :
      (parts : Parts W) (m : Machine W H) (now : W)
      → m.base.mode ≡ shutdown
      → Ends shutdown m now (end_shutdown parts m now).base.mode
  unfolding end_shutdown
  end_shutdown-Ends parts m now e =
      let m1 = enter_mode parts m stop now in
      if-cases (has_cooled m now)
        (if m.conf.auto_power_off then record m1 { power_off_requested = true } else m1) m
        (λ after. after ≡ stop) (λ after. after ≡ shutdown)
        (ground (arith, mode-enter_mode parts m stop now)) e

  end_cooling-mode :
      (m : Machine W H) (now : W) → (stop_cooling_fire (end_cooling m now)).base.mode ≡ m.base.mode
  unfolding end_cooling stop_cooling_fire
  end_cooling-mode m now = ground arith

  end_prime-Ends :
      (parts : Parts W) (m : Machine W H) (now : W)
      → m.base.mode ≡ prime
      → Ends prime m now (end_prime parts m now).base.mode
  unfolding end_prime
  end_prime-Ends parts m now e = ground (
    arith,
    mode-enter_mode parts (record m { next_mode = m.conf.after_startup_mode }) startup now,
    mode-enter_mode parts m stop now,
    mode_eq_sound m.next_mode startup,
  )

  end_mode-Ends :
      (md : Mode) (parts : Parts W) (m : Machine W H) (now : W)
      → m.base.mode ≡ md
      → Ends md m now (end_mode md parts m now).base.mode
  unfolding end_mode
  end_mode-Ends startup parts m now e = end_light-Ends parts m now startup e
  end_mode-Ends reignite parts m now e = end_light-Ends parts m now reignite e
  end_mode-Ends shutdown parts m now e = end_shutdown-Ends parts m now e
  end_mode-Ends prime parts m now e = end_prime-Ends parts m now e
  end_mode-Ends error parts m now e = end_cooling-mode m now ∙ e
  end_mode-Ends stop parts m now e = e
  end_mode-Ends monitor parts m now e = e
  end_mode-Ends manual parts m now e = e
  end_mode-Ends smoke parts m now e = e
  end_mode-Ends hold parts m now e = e

  -- A turn ends the mode of a light when it is done, and then in Smoke or Hold, that of the cool-down
  -- when the grill has cooled, and then in Stop, that of a prime at its time, in Stop or in the
  -- Startup that was asked for, each exactly then, by the state that the turn's outputs leave; every
  -- other mode stays.
  pub run_mode-Ends :
      (parts : Parts W) (m : Machine W H) (now : W)
      → Ends m.base.mode (run_outputs parts m now) now (run_mode parts m now).base.mode
  unfolding run_mode
  run_mode-Ends parts m now =
      let m1 = run_outputs parts m now in
      subst (λ md. Ends md m1 now (end_mode m1.base.mode parts m1 now).base.mode)
        (mode-run_outputs parts m now) (end_mode-Ends m1.base.mode parts m1 now refl)
