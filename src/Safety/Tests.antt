-- ===== src/Safety/Tests.antt =====
-- Examples of the safety code, at a grill that holds 120 C.
use pifire_c.Common.{◌≡◌, refl, ◌⊎◌, inr, ◌≤◌, true, false, some, [], ◌∷◌, ◌++◌}
use pifire_c.Common.Int.{pos}
use pifire_c.Mode.{igniter, auger, error, reignite}
use pifire_c.Outputs
use pifire_c.Outputs.{Relays, set_relay, all_off_relays, is_ok}
use pifire_c.Grill.{Safety, Control}
use pifire_c.Safety.{flameout}
use pifire_c.Safety.Switch.{on}
use pifire_c.Safety.Light.{prove}
use pifire_c.Safety.Light.Proof.{History}
use pifire_c.Safety.Supervise.{supervise, note_setpoint, judge, note_peak, set_fall, finish_run}
use pifire_c.Safety.Tick.{tick, running, tick_reading, by_mode, cap_igniter, filter_pit, note_jump}
use pifire_c.Safety.Tick.Switching.{on-tick, tick_igniter_cap}
use pifire_c.Safety.Tick.Probe.{answer_of, probe_fault_in_time}
use pifire_c.Safety.Relights.{over, relit, relights_bounded, tries}
use pifire_c.Sample.{Centi, centi, board, whole, holding, cfg}

-- the pit has lain 20 C under the set point for 31 s
abbrev out : Control Centi Relays
out = record holding {
  pit_c = whole 100;
  safety = record (holding.safety) { fire_c = whole 100; fall_since = whole 969 };
}

relights : (tick out (whole 1000)).1 ≡ some reignite
unfolding tick tick_reading by_mode cap_igniter filter_pit note_jump supervise note_setpoint judge
    note_peak set_fall flameout finish_run Outputs.get
relights = refl

relights_bounded_example : 1 ≤ tries (pos 1)
relights_bounded_example =
    relights_bounded (relit out (whole 1000) relights (over (tick out (whole 1000)).0))

-- The auger runs, and a tick that relights leaves it as it was.
abbrev feeding : Control Centi Relays
feeding = record out {
  outputs = record (out.outputs) { state = set_relay all_off_relays auger true };
}

on-tick_example :
    (on feeding auger ≡ true)
    ⊎ ((auger ≡ igniter)
        × (running feeding ≡ true)
        × (feeding.safety.igniter_locked_out ≡ false)
        × ((tick feeding (whole 1000)).0.safety.proving ≡ true))
unfolding tick tick_reading by_mode cap_igniter filter_pit note_jump supervise note_setpoint judge
    note_peak set_fall flameout finish_run Outputs.get Outputs.set
on-tick_example = on-tick feeding (whole 1000) auger refl

-- The igniter has been on for 1201 s.
abbrev capped : Control Centi Relays
capped = record holding {
  outputs = record (holding.outputs) { state = set_relay all_off_relays igniter true };
  safety = record (holding.safety) { igniter_on_since = whole 5 };
}

tick_igniter_cap_example :
    ((tick capped (whole 1206)).0.safety.igniter_locked_out ≡ true)
    × (on (tick capped (whole 1206)).0 igniter ≡ false)
unfolding Outputs.get Outputs.set
tick_igniter_cap_example = tick_igniter_cap capped (whole 1206) refl refl (inr (refl, refl, refl))

-- The probe falls silent at 100 s.
abbrev blind : Control Centi Relays
blind = record holding { pit_valid = false }

probe_fault_in_time_example :
    answer_of blind (whole 100 ∷ (whole 120 ∷ whole 130 ∷ []) ++ (whole 131 ∷ [])) ≡ some error
probe_fault_in_time_example =
    probe_fault_in_time blind (whole 100) (whole 131) (whole 120 ∷ whole 130 ∷ []) refl refl refl
      refl (refl, (refl, tt))

-- A light that reads 130 C at 200 s, where it had been at 100 C, and again at 215 s.
abbrev unlit : Safety Centi
unlit = record (holding.safety) {
  ss_active = true;
  ss_proven = false;
  ss_baseline_c = whole 100;
  ss_above_since = whole 0;
  ss_flat_t = whole 0;
}

abbrev risen : Safety Centi
risen = prove cfg (whole 20) (record (unlit) { filt_c = whole 130 }) (whole 200)

abbrev proven : Safety Centi
proven = prove cfg (whole 20) (record (risen) { filt_c = whole 130 }) (whole 215)

abbrev seen : History Centi
seen = (risen, whole 200) ∷ []
