-- ===== src/Control/Run/Kept.antt =====
-- src/core/control.c, `run_mode`: what a turn does to the outputs before the mode may end, for any
-- predicate of the outputs that the switches of this mode keep.
use pifire_c.Common.{◌≡◌, refl, ap, ◌∙◌, arith, Bool, true, false, not, ◌&&◌, ◌||◌, if◌then◌else◌}
use pifire_c.Common.Int.{ℤ}
use pifire_c.Common.Float.{Double, ◌<ᵈ◌, ◌≤ᵈ◌, ◌+ᵈ◌}
use pifire_c.Mode.{Mode, prime, smoke, hold, manual, mode_eq, fan, auger}
use pifire_c.Outputs
use pifire_c.Outputs.{Platform, Outputs}
use pifire_c.Cycle
use pifire_c.Control.{Machine, Parts, turn, with_base}
use pifire_c.Control.Enter.{fan_on, smoke_cycle}
use pifire_c.Control.Enter.Allowed.{outputs-smoke_cycle}
use pifire_c.Control.Request.{is_run}
use pifire_c.Control.Run.Hold.{
  hold_cycle, choose_feed, ask_controller, count_fault, load_pid, autotune_turn, begin_feed,
}
use pifire_c.Control.Run.Feed.{
  is_feeding, auger_is_on, next_cycle, follow_cycle, feed, rest, cap, end_run, run_auger,
}
use pifire_c.Control.Run.Lid.{
  watch_lid, reach_target, lid_watch, begin_event, end_event, open_lid, close_lid, track_low,
}
use pifire_c.Control.Run.Timed.{expire_manual}
use pifire_c.Control.Run.Keeps.{FanKeeps, keep-fan_logic, keep-fan_on}
use pifire_c.Control.Run.{run_fan, run_outputs}

module _ {H : Type 0} ⦃ops : Platform H⦄ where
  -- what the switches of a turn in the mode `md` keep
  pub record RunKeeps (md : Mode) (R : Outputs H → Type 0) : Type 0 where
    pub auger_off : (s : Outputs H) → R s → R (Outputs.set s auger false).1
    pub auger_on : is_feeding md ≡ true → (s : Outputs H) → R s → R (Outputs.set s auger true).1
    pub fan_turned :
        is_run md ≡ true → (s : Outputs H) (on : Bool) → R s → R (Outputs.set s fan on).1
    pub fan_paced :
        is_run md ≡ true → (s : Outputs H) (pct : ℤ) → R s → R (Outputs.set_fan_pct s pct).1

module _ {W H : Type 0} ⦃d : Double W⦄ ⦃ops : Platform H⦄ where
  mode-hold_cycle :
      (parts : Parts W) (m : Machine W H) (now : W)
      → ((hold_cycle parts m now).base.mode ≡ m.base.mode)
        × ((hold_cycle parts m now).base.outputs ≡ m.base.outputs)
  unfolding hold_cycle choose_feed ask_controller count_fault load_pid autotune_turn begin_feed
  mode-hold_cycle parts m now = ground arith

  module _ {md : Mode} {R : Outputs H → Type 0} (k : RunKeeps md R) where
    abbrev P : Machine W H → Type 0
    P m = (m.base.mode ≡ md) × R m.base.outputs

    keep-if : (b : Bool) (x y : Machine W H) → P x → P y → P (if b then x else y)
    keep-if true x y h k = h
    keep-if false x y h k = k

    keep-when : (b : Bool) (x y : Machine W H) → (b ≡ true → P x) → P y → P (if b then x else y)
    keep-when true x y h k = h refl
    keep-when false x y h k = k

    keep-same :
        (m m' : Machine W H)
        → (m'.base.mode ≡ m.base.mode) × (m'.base.outputs ≡ m.base.outputs)
        → P m
        → P m'
    keep-same m m' (e, o) (h, r) = (e ∙ h, rw o r)

    keep-auger_off : (m : Machine W H) → P m → P (turn m auger false)
    keep-auger_off m (h, r) = (h, k.auger_off m.base.outputs r)

    keep-end_run : (m : Machine W H) (now : W) → P m → P (end_run m now)
    unfolding end_run
    keep-end_run m now h = keep-auger_off m h

    keep-follow_cycle :
        (m : Machine W H) (now : W) → is_feeding md ≡ true → P m → P (follow_cycle m now)
    unfolding follow_cycle
    keep-follow_cycle m now f h =
        let want = Cycle.auger_on m.cycle now in
        let on = record (turn m auger true) { auger_on_since = now } in
        let on_kept : P on = (h.0, k.auger_on f m.base.outputs h.1) in
        let ends = if not want && auger_is_on m then end_run m now else m in
        let ends_kept : P ends =
          keep-if (not want && auger_is_on m) (end_run m now) m (keep-end_run m now h) h in
        let starts = want && not (auger_is_on m) && m.auger_rest_until ≤ᵈ now in
        keep-if (not (m.manual_until auger ≤ᵈ now)) m (if starts then on else ends) h
          (keep-if starts on ends on_kept ends_kept)

    keep-next_cycle :
        (parts : Parts W) (m : Machine W H) (now : W) → P m → P (next_cycle parts m now)
    unfolding next_cycle
    keep-next_cycle parts m now h =
        let fed = smoke_cycle parts m now in
        let fed_kept : P fed =
          keep-same m fed
            (
              ap (λ c. c.mode) (outputs-smoke_cycle parts m now),
              ap (λ c. c.outputs) (outputs-smoke_cycle parts m now),
            )
            h in
        let over = not (mode_eq m.base.mode prime) && Cycle.is_done m.cycle now in
        keep-if (mode_eq m.base.mode hold) (hold_cycle parts m now) (if over then fed else m)
          (keep-same m (hold_cycle parts m now) (mode-hold_cycle parts m now) h)
          (keep-if over fed m fed_kept h)

    feeding_of :
        (m : Machine W H) (b : Bool)
        → m.base.mode ≡ md
        → (is_feeding m.base.mode && b) ≡ true
        → is_feeding md ≡ true
    feeding_of m b e t = ground arith

    pub keep-feed : (parts : Parts W) (m : Machine W H) (now : W) → P m → P (feed parts m now)
    unfolding feed
    keep-feed parts m now h =
        let runs = not m.base.lid_open || mode_eq m.base.mode hold in
        let drops =
          not (mode_eq m.base.mode manual) && auger_is_on m && m.manual_until auger ≤ᵈ now in
        keep-when (is_feeding m.base.mode && runs) (follow_cycle (next_cycle parts m now) now)
          (if drops then turn m auger false else m)
          (λ t.
            keep-follow_cycle (next_cycle parts m now) now (feeding_of m runs h.0 t)
              (keep-next_cycle parts m now h))
          (keep-if drops (turn m auger false) m (keep-auger_off m h) h)

    pub keep-rest : (m : Machine W H) (now : W) → P m → P (rest m now)
    unfolding rest
    keep-rest m now h = keep-if _ _ _ (keep-end_run m now h) h

    keep-cap : (m : Machine W H) (now : W) → P m → P (cap m now)
    unfolding cap
    keep-cap m now h = keep-if _ _ _ (keep-end_run m now h) h

    keep-run_auger : (parts : Parts W) (m : Machine W H) (now : W) → P m → P (run_auger parts m now)
    unfolding run_auger
    keep-run_auger parts m now h =
        keep-cap (rest (feed parts m now) now) now
          (keep-rest (feed parts m now) now (keep-feed parts m now h))

    -- in Smoke and Hold the fan may be switched
    fan_keeps :
        is_run md ≡ true
        → FanKeeps {W = W} {H = H} (λ c conf since until. (c.mode ≡ md) × R c.outputs)
    fan_keeps r = record {
      fan_turned = λ c conf since until on h. (h.0, k.fan_turned r c.outputs on h.1);
      fan_paced = λ c conf since until pct h. (h.0, k.fan_paced r c.outputs pct h.1);
    }

    run_of :
        (m : Machine W H)
        → m.base.mode ≡ md
        → (mode_eq m.base.mode hold || mode_eq m.base.mode smoke) ≡ true
        → is_run md ≡ true
    run_of m e t = ground arith

    pub keep-run_fan : (m : Machine W H) (now : W) → P m → P (run_fan m now)
    unfolding run_fan
    keep-run_fan m now h =
        keep-when _ _ _ (λ t. keep-fan_logic (fan_keeps (ground (arith, h.0))) m now h) h

    keep-open_lid :
        (m : Machine W H) (dropped : Bool) (now : W)
        → is_run md ≡ true
        → P m
        → P (open_lid m dropped now)
    unfolding open_lid
    keep-open_lid m dropped now r h =
        let m1 = record m {
          base = record (m.base) { lid_open = true; target_reached = false };
          lid_open_until = now +ᵈ m.conf.lid_pause_s;
          lid_low_c = m.base.pit_c;
        } in
        keep-if _ _ _
          (keep-fan_on (fan_keeps r) (turn m1 auger false) m.duty_cycle (keep-auger_off m1 h)) h

    keep-close_lid : (m : Machine W H) (now : W) → is_run md ≡ true → P m → P (close_lid m now)
    unfolding close_lid track_low
    keep-close_lid m now r h =
        let low = record m { lid_low_c = m.base.pit_c } in
        let sinks = m.base.pit_valid && m.base.pit_c <ᵈ m.lid_low_c in
        let m1 = if sinks then low else m in
        let shut = with_base m1 (record (m.base) { lid_open = false }) in
        let m2 = fan_on shut m.duty_cycle in
        let low_kept : P m1 = keep-if sinks low m h h in
        let shut_kept : P m2 = keep-fan_on (fan_keeps r) shut m.duty_cycle h in
        let begun = record m2 { cycle = Cycle.begin m2.cycle m2.ccfg now m.conf.u_min } in
        let ended = if not (mode_eq m.base.mode hold) then begun else m2 in
        let ended_kept : P ended =
          keep-if (not (mode_eq m.base.mode hold)) begun m2 shut_kept shut_kept in
        keep-if _ m _ h (keep-if _ ended m1 ended_kept low_kept)

    keep-end_event :
        (m : Machine W H) (dropped : Bool) (now : W) → P m → P (end_event m dropped now)
    unfolding end_event
    keep-end_event m dropped now h =
        keep-if _ (with_base m (record (m.base) { lid_event = false })) m h h

    keep-begin_event :
        (m : Machine W H) (dropped : Bool) (now : W) → P m → P (begin_event m dropped now)
    unfolding begin_event
    keep-begin_event m dropped now h = keep-if (dropped && not m.base.lid_event) _ m h h

    same-lid_watch :
        (m : Machine W H) (now : W)
        → ((lid_watch (reach_target m) now).1.base.mode ≡ m.base.mode)
          × ((lid_watch (reach_target m) now).1.base.outputs ≡ m.base.outputs)
    unfolding lid_watch reach_target
    same-lid_watch m now = ground arith

    pub keep-watch_lid : (m : Machine W H) (now : W) → P m → P (watch_lid m now)
    unfolding watch_lid
    keep-watch_lid m now h =
        let (dropped, m1) = lid_watch (reach_target m) now in
        let m2 = begin_event m1 dropped now in
        let m3 = end_event m2 dropped now in
        let h1 : P m1 = keep-same m m1 (same-lid_watch m now) h in
        let h3 : P m3 = keep-end_event m2 dropped now (keep-begin_event m1 dropped now h1) in
        keep-when (mode_eq m.base.mode hold || mode_eq m.base.mode smoke)
          (close_lid (open_lid m3 dropped now) now) m
          (λ t.
            keep-close_lid (open_lid m3 dropped now) now (run_of m h.0 t)
              (keep-open_lid m3 dropped now (run_of m h.0 t) h3))
          h

    -- What the switches of the mode keep, a turn keeps that does not end it.
    pub keep-run_outputs :
        (parts : Parts W) (m : Machine W H) (now : W) → P m → P (run_outputs parts m now)
    unfolding run_outputs expire_manual
    keep-run_outputs parts m now h =
        let m1 = watch_lid m now in
        keep-run_fan (run_auger parts m1 now) now
          (keep-run_auger parts m1 now (keep-watch_lid m now h))
