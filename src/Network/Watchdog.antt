-- ===== src/Network/Watchdog.antt =====
-- src/net/netmgr.c, `watchdog`: what the grill does when it cannot reach its gateway. What the
-- commands, the status and the files answer is `Around`; what it does to them is a list of acts.
pub mod Reboot
use pifire_c.Common.{ℕ, suc, Bool, true, false, not, ◌&&◌, ◌||◌, List, [], ◌∷◌, ltb, if◌then◌else◌}
use pifire_c.Common.Float.{Double, ◌<ᵈ◌, ◌==ᵈ◌, ◌+ᵈ◌, ◌-ᵈ◌, ◌*ᵈ◌, ◌/ᵈ◌, nought}
use pifire_c.Text.{Bytes, same, take}
use pifire_c.Mode.{Mode, bytes, stop}
use pifire_c.Network.{NetState, boot, online, hotspot, connecting, offline}

-- `pf_probe_role`
pub data Role : Type 0 where
  primary food aux : Role

-- the fields of `pf_probe_reading` that are read
pub record Reading (W : Type 0) : Type 0 where
  pub role : Role
  pub valid : Bool
  pub temp_c : W

-- what `reachable`, `helper("diagnose")`, `pf_status_get`, `pf_wall` and `last_reboot_wall` answer
pub record Around (W : Type 0) : Type 0 where
  pub reachable : Bool
  pub diagnosis : Bytes
  pub mode : Mode
  pub readings : List (Reading W)
  pub wall : W
  pub last_reboot : W

-- what the watchdog runs and writes; the rest of its commands only look
pub data Act (W : Type 0) : Type 0 where
  reset_radio : Act W
  note_reboot : W → Act W
  note_resume : Act W
  reboot : Act W

-- its static variables
pub record Watch (W : Type 0) : Type 0 where
  pub next : W
  pub fail_since : W
  pub resets : ℕ
  pub ever_online : Bool

abbrev pub is_online : NetState → Bool
is_online online = true
is_online _ = false

-- up as a hotspot, or joining: nothing to watch
abbrev pub is_elsewhere : NetState → Bool
is_elsewhere hotspot = true
is_elsewhere connecting = true
is_elsewhere _ = false

abbrev pub is_stop : Mode → Bool
is_stop stop = true
is_stop _ = false

abbrev pub is_primary : Role → Bool
is_primary primary = true
is_primary _ = false

module _ {W : Type 0} ⦃d : Double W⦄ where
  -- the loop over the readings: the last valid one of a primary probe
  unfoldable pub pit_of : List (Reading W) → W → W
  pit_of [] pit = pit
  pit_of (r ∷ l) pit = pit_of l (if is_primary r.role && r.valid then r.temp_c else pit)

  -- a finite reading below 150 F
  unfoldable pub is_cool : List (Reading W) → Bool
  unfolding pit_of
  is_cool l =
      let pit = pit_of l d.nan in
      not (d.is_nan pit)
      && not (d.is_inf pit)
      && pit <ᵈ ((d.lit 150 1 -ᵈ d.lit 32 1) *ᵈ d.lit 5 1 /ᵈ d.lit 9 1)

  -- two reloads have not brought the radio back
  unfoldable pub restart : Around W → List (Act W)
  restart a =
      if not (is_stop a.mode) || not (is_cool a.readings)
      then []
      else if (a.wall -ᵈ a.last_reboot) <ᵈ d.lit 3600 1
      then []
      else note_reboot a.wall ∷ note_resume ∷ reboot ∷ []

  -- the radio does not answer
  unfoldable pub recover : Watch W → W → Around W → Watch W × List (Act W)
  unfolding restart
  recover w now a =
      if ltb w.resets 2
      then (record w { resets = suc w.resets; next = now +ᵈ d.lit 30 1 }, reset_radio ∷ [])
      else (w, restart a)

  -- the gateway was asked for
  unfoldable pub check : Watch W → W → Around W → Watch W × List (Act W)
  unfolding recover
  check w now a =
      if a.reachable
      then (record w { fail_since = nought; resets = 0 }, [])
      else if w.fail_since ==ᵈ nought
      then (record w { fail_since = now }, [])
      else if (now -ᵈ w.fail_since) <ᵈ d.lit 60 1
      then (w, [])
      else if not (same (take 4 a.diagnosis) (bytes "hung"))
      then (w, [])
      else recover w now a

  unfoldable pub watchdog : Watch W → Bool → NetState → Bool → W → Around W → Watch W × List (Act W)
  unfolding check
  watchdog w sim state hs_active now a =
      if sim || now <ᵈ w.next
      then (w, [])
      else (let w1 = record w {
        next = now +ᵈ d.lit 15 1;
        ever_online = w.ever_online || is_online state;
      } in
          if not w1.ever_online || hs_active || is_elsewhere state
          then (record w1 { fail_since = nought }, [])
          else check w1 now a)
