-- ===== src/Notify/Watch.antt =====
-- src/core/notify.c, `pf_notify_tick`: what a tick works out for one probe before its target is judged,
-- the heat around the meat, whether it came off, the take-off for a rest and the rest itself.
pub mod Forward
use pifire_c.Common.{
  ℕ, Bool, true, false, not, ◌&&◌, ◌||◌, Option, none, some, List, [], ◌∷◌, ◌+◌, leb, if◌then◌else◌,
}
use pifire_c.Common.Float.{Double, ◌<ᵈ◌, ◌≤ᵈ◌, ◌+ᵈ◌, ◌-ᵈ◌, ◌*ᵈ◌, ◌/ᵈ◌, nought, is_finite}
use pifire_c.Notify.{NotifyProbe, Reading, Sensors, at_index}
use pifire_c.Notify.Carry.{model_c, carry_learned_max_c}

module _ {W : Type 0} ⦃d : Double W⦄ where
  -- a reading that is valid and a number
  abbrev pub sound : Option (Reading W) → Option W
  sound none = none
  sound (some r) = if r.valid && is_finite r.temp_c then some r.temp_c else none

  -- the probe's own ambient sensor, when it has one that is reading: `amb_ok` and `amb`
  abbrev pub ambient : Sensors W → Reading W → Option W
  ambient s r = sound (at_index r.companion s.p)

  -- the temperature of a reading that is valid
  abbrev pub pit_of : Option (Reading W) → W
  pit_of none = d.nan
  pit_of (some r) = if r.valid then r.temp_c else d.nan

  -- `cook_temp_c`, with the set point of the grill
  pub cook_temp : W → Sensors W → Reading W → W
  cook_temp setpoint s r = elim (ambient s r) [
    | some a ↦ a
    | none ↦ if nought <ᵈ setpoint then setpoint else pit_of (at_index s.primary s.p)
  ]

  -- the air round the meat, averaged over four minutes
  pub smooth_cook : NotifyProbe W → W → W → NotifyProbe W
  smooth_cook p raw dt = if not (is_finite raw) then p else record p {
    cook_sm_c =
        if not (nought <ᵈ p.cook_sm_c)
        then raw
        else p.cook_sm_c +ᵈ (raw -ᵈ p.cook_sm_c) *ᵈ d.fmin (d.lit 1 1) (dt /ᵈ d.lit 240 1);
  }

  -- what the ambient sensor read on the heat, followed
  pub follow_air : NotifyProbe W → W → NotifyProbe W
  follow_air p amb =
      if p.removed
      then p
      else if not (nought <ᵈ p.amb_on) || p.amb_on <ᵈ amb
      then record p { amb_on = amb }
      else if (p.amb_on -ᵈ d.lit 20 1) <ᵈ amb
      then record p { amb_on = p.amb_on +ᵈ (amb -ᵈ p.amb_on) *ᵈ d.lit 2 100 }
      else p

  -- the air is well under what it was
  abbrev pub is_cold : NotifyProbe W → W → W → Bool
  is_cold p t amb =
      nought <ᵈ p.target_c && (t +ᵈ d.lit 10 1) <ᵈ p.amb_on && amb <ᵈ (p.amb_on -ᵈ d.lit 20 1)

  -- the rest begins
  abbrev pub start_watch : NotifyProbe W → W → W → W → NotifyProbe W
  start_watch p t rate now = record p {
    rest_watch = true;
    pull_c = t;
    pull_rate = rate;
    pull_predicted_c = p.carry_sm_c;
    rest_peak_c = t;
    rest_peak_t = now;
    rest_watch_t = now;
  }

  -- Whether the meat was found to be off, on which its alarm is acknowledged, and the state after it.
  pub judge_removal : NotifyProbe W → Option W → W → W → W → Bool × NotifyProbe W
  judge_removal p none t rate now = (false, if p.removed then p else record p { removed_n = 0 })
  judge_removal p (some amb) t rate now =
      if is_cold p t amb
      then (if p.removed
          then (false, p)
          else if leb 2 (p.removed_n + 1)
          then (
            true,
            record (start_watch p t rate now) { removed = true; removed_n = p.removed_n + 1 },
          )
          else (false, record p { removed_n = p.removed_n + 1 }))
      else if p.removed && (p.amb_on -ᵈ d.lit 10 1) <ᵈ amb
      then (false, record p { removed = false; removed_n = 0 })
      else (false, if p.removed then p else record p { removed_n = 0 })

  abbrev pub follow_ambient : NotifyProbe W → Option W → NotifyProbe W
  follow_ambient p none = p
  follow_ambient p (some amb) = follow_air p amb

  pub watch_removal : NotifyProbe W → Option W → W → W → W → Bool × NotifyProbe W
  unfolding follow_air judge_removal
  watch_removal p amb t rate now = judge_removal (follow_ambient p amb) amb t rate now

  -- The take-off of a rest-to target; `rate` is the climb of the last five minutes, `k` the correction
  -- for the meat and `margin` what is aimed above the rest.
  unfoldable pub aim_rest : NotifyProbe W → W → W → W → W → W → W → NotifyProbe W
  aim_rest p t rate cook dt k margin =
      let raw = model_c rate t cook in
      let sm =
        if not (nought ≤ᵈ p.carry_sm_c)
        then raw
        else p.carry_sm_c +ᵈ (raw -ᵈ p.carry_sm_c) *ᵈ d.fmin (d.lit 1 1) (dt /ᵈ d.lit 300 1) in
      let carry = if carry_learned_max_c <ᵈ (sm *ᵈ k) then carry_learned_max_c else sm *ᵈ k in
      let off = p.rest_c +ᵈ margin -ᵈ carry in
      if nought <ᵈ p.rest_c && not p.reached
      then record p {
        carry_sm_c = sm;
        target_c =
            if nought <ᵈ p.target_c && (p.target_c -ᵈ d.lit 3 1) ≤ᵈ t && p.target_c <ᵈ off
            then p.target_c
            else off;
      }
      else p

  abbrev pub note_high : NotifyProbe W → W → W → NotifyProbe W
  note_high p t now =
      if p.rest_peak_c <ᵈ t then record p { rest_peak_c = t; rest_peak_t = now } else p

  -- out of the meat: both tips read the air of the room
  abbrev pub in_room_air : Option W → W → Bool
  in_room_air none t = false
  in_room_air (some amb) t = amb <ᵈ d.lit 40 1 && t ≤ᵈ (amb +ᵈ d.lit 3 1)

  -- The rest after the alert: what it teaches, predicted and actual, when it has been a real one.
  pub watch_rest : NotifyProbe W → Option W → W → W → Option (W × W) × NotifyProbe W
  watch_rest p amb t now =
      let p1 = note_high p t now in
      let fall = p1.rest_peak_c -ᵈ t in
      let ended = record p1 { rest_watch = false } in
      if not p.rest_watch
      then (none, p)
      else if in_room_air amb t
      then (none, ended)
      else if d.lit 11 10 ≤ᵈ fall
      then (
        if fall /ᵈ d.fmax (now -ᵈ p1.rest_peak_t) (d.lit 1 1) <ᵈ d.lit 1 10
            then some (p1.pull_predicted_c, p1.rest_peak_c -ᵈ p1.pull_c)
            else none,
        ended,
      )
      else if d.lit 1800 1 <ᵈ (now -ᵈ p1.rest_watch_t)
      then (none, ended)
      else (none, p1)
