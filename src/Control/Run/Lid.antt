-- ===== src/Control/Run/Lid.antt =====
-- src/core/control.c, `lid_watch` and the part of `run_mode` on the lid: opened, and closed again.
use pifire_c.Common.{
  ℕ, zero, suc, ◌+◌, ◌-◌, ◌%◌, Bool, true, false, not, ◌&&◌, ◌||◌, ltb, ◌==◌, if◌then◌else◌,
}
use pifire_c.Common.Float.{Double, ◌<ᵈ◌, ◌≤ᵈ◌, ◌+ᵈ◌, ◌-ᵈ◌, ◌*ᵈ◌, ◌/ᵈ◌}
use pifire_c.Mode.{smoke, hold, mode_eq, Units, fahrenheit, celsius, auger}
use pifire_c.Outputs.{Platform}
use pifire_c.Cycle
use pifire_c.Control.{Machine, LidHist, with_base, turn}
use pifire_c.Control.Enter.{fan_on}
use pifire_c.Control.Command.{to_c}

module _ {W : Type 0} ⦃d : Double W⦄ where
  -- `pf_from_c`
  abbrev pub from_c : W → Units → W
  from_c c celsius = c
  from_c c fahrenheit = c *ᵈ d.lit 9 1 /ᵈ d.lit 5 1 +ᵈ d.lit 32 1

  -- one slot of the ring
  abbrev pub set_slot : (ℕ → W) → ℕ → W → ℕ → W
  set_slot f i v j = if i == j then v else f j

  -- a sample a second
  pub sample_pit : LidHist W → W → W → LidHist W
  sample_pit h pit now =
      if d.lit 1 1 ≤ᵈ (now -ᵈ h.last)
      then record {
        t = set_slot h.t h.head now;
        c = set_slot h.c h.head pit;
        n = if ltb h.n 20 then h.n + 1 else h.n;
        head = (h.head + 1) % 20;
        last = now;
      }
      else h

  -- fallen from near the set point, by 4 C at least, faster than 0.3 C a second
  abbrev pub has_fallen : LidHist W → W → W → W → ℕ → Bool
  has_fallen h pit setpoint now i =
      (setpoint -ᵈ d.lit 8 1) ≤ᵈ h.c i
      && d.lit 4 1 ≤ᵈ (h.c i -ᵈ pit)
      && d.lit 3 10 ≤ᵈ ((h.c i -ᵈ pit) /ᵈ (now -ᵈ h.t i))

  -- The loop over the samples, the newest first, from the `k`th with `left` to go: the first that is
  -- 15 s old decides.
  pub scan_fall : LidHist W → W → W → W → ℕ → ℕ → Bool
  scan_fall h pit setpoint now k zero = false
  scan_fall h pit setpoint now k (suc left) =
      let i = (h.head + 39 - k) % 20 in
      let older = scan_fall h pit setpoint now (suc k) left in
      if (now -ᵈ h.t i) <ᵈ d.lit 15 1 then older else has_fallen h pit setpoint now i

module _ {W H : Type 0} ⦃d : Double W⦄ ⦃ops : Platform H⦄ where
  unfoldable pub lid_watch : Machine W H → W → Bool × Machine W H
  unfolding sample_pit scan_fall
  lid_watch m now =
      let h = sample_pit m.lid_hist m.base.pit_c now in
      if not m.base.pit_valid
      then (false, m)
      else (scan_fall h m.base.pit_c m.base.setpoint_c now 0 h.n, record m { lid_hist = h })

  -- the pit has reached the set point
  unfoldable pub reach_target : Machine W H → Machine W H
  reach_target m =
      if mode_eq m.base.mode hold && m.base.setpoint_c ≤ᵈ m.base.pit_c
      then with_base m (record (m.base) { target_reached = true })
      else m

  unfoldable pub begin_event : Machine W H → Bool → W → Machine W H
  begin_event m dropped now =
      if dropped && not m.base.lid_event
      then record m {
        base = record (m.base) { lid_event = true; lid_event_t = now };
        aim_since = now;
        aim_pit_c = m.base.pit_c;
      }
      else m

  -- recovered, or five minutes later
  unfoldable pub end_event : Machine W H → Bool → W → Machine W H
  end_event m dropped now =
      if m.base.lid_event
        && not dropped
        && ((m.base.setpoint_c -ᵈ d.lit 3 1) ≤ᵈ m.base.pit_c
            || d.lit 300 1 <ᵈ (now -ᵈ m.base.lid_event_t))
      then with_base m (record (m.base) { lid_event = false })
      else m

  -- a share of the set point in the user's units
  abbrev pub lid_threshold : Machine W H → W
  lid_threshold m =
      to_c
        (from_c m.base.setpoint_c m.conf.units
          *ᵈ (d.lit 100 1 -ᵈ m.conf.lid_threshold_pct)
          /ᵈ d.lit 100 1)
        m.conf.units

  -- the feed pauses and the fan does not
  unfoldable pub open_lid : Machine W H → Bool → W → Machine W H
  open_lid m dropped now =
      if m.base.target_reached
        && m.conf.lid_detect
        && not m.base.lid_open
        && (m.base.pit_c <ᵈ lid_threshold m || dropped)
      then (let m1 = record m {
        base = record (m.base) { lid_open = true; target_reached = false };
        lid_open_until = now +ᵈ m.conf.lid_pause_s;
        lid_low_c = m.base.pit_c;
      } in
          let m2 = fan_on (turn m1 auger false) m.duty_cycle in
          record m2 { cycle = Cycle.stop m2.cycle })
      else m

  -- the lowest pit since the lid was opened
  unfoldable pub track_low : Machine W H → Machine W H
  track_low m =
      if m.base.pit_valid && m.base.pit_c <ᵈ m.lid_low_c
      then record m { lid_low_c = m.base.pit_c }
      else m

  -- the pit has climbed off its low, or the pause is over
  unfoldable pub close_lid : Machine W H → W → Machine W H
  unfolding track_low
  close_lid m now =
      let m1 = track_low m in
      let risen = m.base.pit_valid && (m1.lid_low_c +ᵈ m.conf.lid_resume_rise_c) ≤ᵈ m.base.pit_c in
      if not m.base.lid_open
      then m
      else if risen || m.lid_open_until <ᵈ now
      then (let m2 = fan_on (with_base m1 (record (m.base) { lid_open = false })) m.duty_cycle in
          if not (mode_eq m.base.mode hold)
          then record m2 { cycle = Cycle.begin m2.cycle m2.ccfg now m.conf.u_min }
          else m2)
      else m1

  unfoldable pub watch_lid : Machine W H → W → Machine W H
  unfolding reach_target lid_watch begin_event end_event open_lid close_lid
  watch_lid m now =
      let (dropped, m1) = lid_watch (reach_target m) now in
      if mode_eq m.base.mode hold || mode_eq m.base.mode smoke
      then close_lid (open_lid (end_event (begin_event m1 dropped now) dropped now) dropped now) now
      else m
