-- ===== src/Control/Run/Feed.antt =====
-- src/core/control.c, `run_mode`: the auger, which follows the cycle, rests, and has a cap.
use pifire_c.Common.{Bool, true, false, not, ◌&&◌, ◌||◌, if◌then◌else◌}
use pifire_c.Common.Float.{Double, ◌<ᵈ◌, ◌≤ᵈ◌, ◌+ᵈ◌, ◌-ᵈ◌, nought}
use pifire_c.Mode.{Mode, prime, startup, reignite, smoke, hold, manual, mode_eq, auger, output_eq}
use pifire_c.Outputs
use pifire_c.Outputs.{Platform}
use pifire_c.Cycle
use pifire_c.Control.{Machine, Parts, turn}
use pifire_c.Control.Enter.{smoke_cycle}
use pifire_c.Control.Run.Hold.{hold_cycle}

abbrev pub is_feeding : Mode → Bool
is_feeding startup = true
is_feeding reignite = true
is_feeding smoke = true
is_feeding hold = true
is_feeding prime = true
is_feeding _ = false

module _ {W H : Type 0} ⦃d : Double W⦄ ⦃ops : Platform H⦄ where
  abbrev pub auger_is_on : Machine W H → Bool
  auger_is_on m = Outputs.get (m.base.outputs) auger

  -- off, and what it fed is counted
  unfoldable pub end_run : Machine W H → W → Machine W H
  end_run m now = record (turn m auger false) {
    auger_total_on_s = m.auger_total_on_s +ᵈ (now -ᵈ m.auger_on_since);
  }

  -- the next cycle, once the last is over; a prime has one
  unfoldable pub next_cycle : Parts W → Machine W H → W → Machine W H
  next_cycle parts m now =
      if mode_eq m.base.mode hold
      then hold_cycle parts m now
      else if not (mode_eq m.base.mode prime) && Cycle.is_done m.cycle now
      then smoke_cycle parts m now
      else m

  -- the auger does what the cycle wants, unless it was set by hand or rests
  unfoldable pub follow_cycle : Machine W H → W → Machine W H
  unfolding end_run
  follow_cycle m now =
      let want = Cycle.auger_on m.cycle now in
      if not (m.manual_until auger ≤ᵈ now)
      then m
      else if want && not (auger_is_on m) && m.auger_rest_until ≤ᵈ now
      then record (turn m auger true) { auger_on_since = now }
      else if not want && auger_is_on m
      then end_run m now
      else m

  unfoldable pub feed : Parts W → Machine W H → W → Machine W H
  unfolding next_cycle follow_cycle
  feed parts m now =
      if is_feeding m.base.mode && (not m.base.lid_open || mode_eq m.base.mode hold)
      then follow_cycle (next_cycle parts m now) now
      else if not (mode_eq m.base.mode manual) && auger_is_on m && m.manual_until auger ≤ᵈ now
      then turn m auger false
      else m

  -- off after a cap, whoever switched it on
  unfoldable pub rest : Machine W H → W → Machine W H
  unfolding end_run
  rest m now = if now <ᵈ m.auger_rest_until && auger_is_on m then end_run m now else m

  -- on for too long, whoever switched it on: off, and no more for 15 s
  unfoldable pub cap : Machine W H → W → Machine W H
  unfolding end_run
  cap m now =
      if auger_is_on m && m.conf.auger_max_on_s <ᵈ (now -ᵈ m.auger_on_since)
      then record (end_run m now) {
        manual_until = λ o. if output_eq auger o then nought else m.manual_until o;
        auger_rest_until = now +ᵈ d.lit 15 1;
      }
      else m

  unfoldable pub run_auger : Parts W → Machine W H → W → Machine W H
  unfolding feed rest cap
  run_auger parts m now = cap (rest (feed parts m now) now) now
