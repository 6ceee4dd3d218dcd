-- ===== src/Control/Step/Overheat.antt =====
-- src/core/control.c, `pf_control_step`: a turn that finds the pit over its limit.
use mathlib.Core.Path.{subst}
use pifire_c.Common.{
  ◌≡◌, refl, ◌∙◌, sym, arith, Bool, true, false, not, ◌&&◌, ◌||◌, List, if◌then◌else◌, if_ind,
}
use pifire_c.Common.Float.{Double}
use pifire_c.Mode.{Mode, stop, smoke, hold, shutdown, error, mode_eq, Output}
use pifire_c.Outputs
use pifire_c.Outputs.{Platform, Outputs, Relays, Input}
use pifire_c.Outputs.Only.{LetsGo, OnlyOn, OnlyOn-all_off}
use pifire_c.CmdQueue.{Cmd}
use pifire_c.Safety.{set_error}
use pifire_c.Safety.Tick.{tick, too_hot}
use pifire_c.Control.{Machine, Parts, with_base}
use pifire_c.Control.Enter.{enter_mode}
use pifire_c.Control.Enter.Entered.{mode-enter_mode}
use pifire_c.Control.Enter.Allowed.{blown, cools}
use pifire_c.Control.Enter.Switched.{enter_mode-allowed}
use pifire_c.Control.Run.{run_outputs, run_mode}
use pifire_c.Control.Run.Moves.{
  adds, run_outputs-adds, mode-run_outputs, run_mode-Ends, Ends, weaken,
}
use pifire_c.Control.Run.Timed.{
  end_mode, end_cooling, stop_cooling_fire, fan_is_due, pit_climbs, end_fan,
}
use pifire_c.Control.Step.{Others, step, act, prepare, judge_safety, press_shutdown, enter_answer}

blown_less : (b : Bool) (o : Output) → blown b o ≡ true → blown true o ≡ true
blown_less b o h = ground arith

adds_error_table : (o : Output) → (adds error o || blown true o) ≡ true → blown true o ≡ true
adds_error_table o h = ground arith

module _ {W H : Type 0} ⦃d : Double W⦄ ⦃ops : Platform H⦄ where
  judge_overheat :
      (parts : Parts W) (m : Machine W H) (now : W)
      → too_hot m.base ≡ true
      → judge_safety parts m now
        ≡ enter_mode parts (with_base m (set_error (m.base) "E01_OVERTEMP")) error now
  unfolding judge_safety enter_answer tick
  judge_overheat parts m now h = rw h refl

  module _ ⦃goes : LetsGo H⦄ where
    -- in Error a turn adds nothing
    error-turn :
        (parts : Parts W) (m : Machine W H) (now : W)
        → m.base.mode ≡ error
        → OnlyOn (blown true) m.base.outputs
        → OnlyOn (blown true) (run_mode parts m now).base.outputs
    unfolding run_mode end_mode end_cooling stop_cooling_fire
    error-turn parts m now e h =
        let m1 = run_outputs parts m now in
        let Cold : Machine W H → Type 0 = λ r. OnlyOn (blown true) r.base.outputs in
        let added : OnlyOn (λ o. adds error o || blown true o) m1.base.outputs =
          subst (λ md. OnlyOn (λ o. adds md o || blown true o) m1.base.outputs) e
            (run_outputs-adds parts m now (blown true) h) in
        let kept : Cold m1 = weaken m1.base.outputs _ (blown true) adds_error_table added in
        let off : (x : Machine W H) → Cold x → Cold (end_fan x) =
          λ x c. OnlyOn-all_off x.base.outputs (blown true) (blown true) c in
        let m2 = end_cooling m1 now in
        let cooled : Cold m2 = if_ind Cold (fan_is_due m1 now) (λ _. off m1 kept) (λ _. kept) in
        let ended : Cold (stop_cooling_fire m2) =
          if_ind Cold (pit_climbs m2) (λ _. off m2 cooled) (λ _. cooled) in
        subst (λ md. Cold (end_mode md parts m1 now)) (sym (mode-run_outputs parts m now ∙ e)) ended

    abbrev pub button_held : Machine W H → Bool
    button_held m = Outputs.read_input (m.base.outputs) Input.shutdown_button

    -- The grill is in Error, or in Stop if the button was held, and has on the fan and the power at most.
    abbrev pub IsCold : Bool → Machine W H → Type 0
    IsCold held m =
        (m.base.mode ≡ (if held then stop else error)) × OnlyOn (blown true) m.base.outputs

    press-IsCold :
        (parts : Parts W) (m : Machine W H) (now : W)
        → m.base.mode ≡ error
        → OnlyOn (blown true) m.base.outputs
        → IsCold (button_held m) (press_shutdown parts m now)
    unfolding press_shutdown
    press-IsCold parts m now e h =
        let target : Mode → Mode =
          λ md. if mode_eq md hold || mode_eq md smoke then shutdown else stop in
        let wide = weaken m.base.outputs (blown true) (λ o. true) (λ o b. refl) h in
        let stopped : IsCold true (enter_mode parts m stop now) = (
          mode-enter_mode parts m stop now,
          weaken (enter_mode parts m stop now).base.outputs (λ o. false) (blown true)
              (λ o f. absurd (ground arith)) (enter_mode-allowed parts m stop now wide),
        ) in
        subst
          (λ md. IsCold (button_held m) (
            if button_held m && not (mode_eq md stop)
            then enter_mode parts m (target md) now
            else m))
          (sym e) (by_button (button_held m) (enter_mode parts m stop now) stopped (e, h))
      where
        by_button :
            (b : Bool) (x : Machine W H)
            → IsCold true x
            → IsCold false m
            → IsCold b (if b && true then x else m)
        by_button true x k l = k
        by_button false x k l = l

    act-IsCold :
        (parts : Parts W) (m : Machine W H) (now : W)
        → too_hot m.base ≡ true
        → OnlyOn (λ o. true) m.base.outputs
        → IsCold (button_held (run_mode parts (judge_safety parts m now) now)) (act parts m now)
    unfolding act
    act-IsCold parts m now hot h =
        let told = with_base m (set_error (m.base) "E01_OVERTEMP") in
        let m1 = enter_mode parts told error now in
        let e1 = mode-enter_mode parts told error now in
        let h1 =
          weaken m1.base.outputs (blown (cools told now)) (blown true) (blown_less (cools told now))
            (enter_mode-allowed parts told error now h) in
        let m2 = run_mode parts m1 now in
        let e2 : m2.base.mode ≡ error =
          subst (λ md. (run_mode parts m1 now).base.mode ≡ md) e1 (error-stays parts m1 now e1) in
        let h2 = error-turn parts m1 now e1 h1 in
        subst
          (λ x.
            IsCold (button_held (run_mode parts x now))
              (press_shutdown parts (run_mode parts x now) now))
          (sym (judge_overheat parts m now hot)) (press-IsCold parts m2 now e2 h2)
      where
        error-stays :
            (parts : Parts W) (m : Machine W H) (now : W)
            → m.base.mode ≡ error
            → (run_mode parts m now).base.mode ≡ m.base.mode
        error-stays parts m now e =
            subst (λ md. Ends md (run_outputs parts m now) now (run_mode parts m now).base.mode) e
              (run_mode-Ends parts m now)
            ∙ sym e

    -- A turn that judges the pit to be over its limit ends in Stop if the shutdown button is held when the
    -- turn reads it, and else in Error, with the auger and the igniter off, on a device whose writes that switch off succeed,
    -- whatever was on before, whatever was asked and whatever the other components did in the turn
    -- up to then.
    pub overheat_stops :
        (o : Others W H) (parts : Parts W) (m : Machine W H) (cmds : List (Cmd W)) (now : W)
        → too_hot (prepare o parts m cmds now).base ≡ true
        → OnlyOn (λ p. true) (prepare o parts m cmds now).base.outputs
        → IsCold
            (button_held (run_mode parts (judge_safety parts (prepare o parts m cmds now) now) now))
            (step o parts m cmds now)
    unfolding step
    overheat_stops o parts m cmds now hot h =
        act-IsCold parts (prepare o parts m cmds now) now hot h
