-- ===== src/Network/Watchdog/Reboot.antt =====
-- src/net/netmgr.c, `watchdog`: when it restarts the machine, and how often it reloads the driver.
use pifire_c.Common.{
  ℕ, suc, ◌+◌, ◌≤◌, ◌≡◌, arith, Bool, true, false, ◌||◌, List, [], ◌∷◌, if◌then◌else◌,
}
use pifire_c.Common.Float.{Double, ◌<ᵈ◌, ◌==ᵈ◌, ◌-ᵈ◌, ◌+ᵈ◌, nought}
use pifire_c.Text.{same, take}
use pifire_c.Mode.{bytes, Mode, stop}
use pifire_c.Network.{NetState}
use pifire_c.Network.Watchdog.{
  Watch, Around, Act, reset_radio, note_reboot, note_resume, reboot, is_online, is_cool, restart,
  recover, check, watchdog,
}

module _ {W : Type 0} where
  abbrev pub reboots : List (Act W) → Bool
  reboots [] = false
  reboots (reboot ∷ l) = true
  reboots (reset_radio ∷ l) = reboots l
  reboots (note_reboot t ∷ l) = reboots l
  reboots (note_resume ∷ l) = reboots l

  abbrev pub resets_in : List (Act W) → ℕ
  resets_in [] = 0
  resets_in (reset_radio ∷ l) = suc (resets_in l)
  resets_in (reboot ∷ l) = resets_in l
  resets_in (note_reboot t ∷ l) = resets_in l
  resets_in (note_resume ∷ l) = resets_in l

  -- two if the gateway could be reached
  abbrev pub if_reached : Around W → ℕ
  if_reached a = if a.reachable then 2 else 0

module _ {W : Type 0} ⦃d : Double W⦄ where
  -- what a restart stands on, as far as the world around tells
  abbrev pub Excused : Around W → List (Act W) → Type 0
  Excused a acts =
      (acts ≡ note_reboot a.wall ∷ note_resume ∷ reboot ∷ [])
      × (a.mode ≡ stop)
      × (is_cool a.readings ≡ true)
      × (((a.wall -ᵈ a.last_reboot) <ᵈ d.lit 3600 1) ≡ false)

  -- and what the watchdog found
  abbrev pub Hung : Watch W → W → Around W → Type 0
  Hung w now a =
      (a.reachable ≡ false)
      × ((w.fail_since ==ᵈ nought) ≡ false)
      × (((now -ᵈ w.fail_since) <ᵈ d.lit 60 1) ≡ false)
      × (same (take 4 a.diagnosis) (bytes "hung") ≡ true)
      × (2 ≤ w.resets)

  -- the watchdog that has noted that it looks
  abbrev looking : Watch W → NetState → W → Watch W
  looking w state now = record w {
    next = now +ᵈ d.lit 15 1;
    ever_online = w.ever_online || is_online state;
  }

  -- one look, as the count of reloads sees it
  check_resets :
      (w : Watch W) (now : W) (a : Around W)
      → w.resets ≤ 2
      → ((check w now a).0.resets ≤ 2)
        × (resets_in (check w now a).1 + w.resets ≤ (check w now a).0.resets + if_reached a)
  unfolding check recover restart
  check_resets w now a h = ground arith

  pub watchdog_resets :
      (w : Watch W) (sim : Bool) (state : NetState) (hs_active : Bool) (now : W) (a : Around W)
      → w.resets ≤ 2
      → ((watchdog w sim state hs_active now a).0.resets ≤ 2)
        × (resets_in (watchdog w sim state hs_active now a).1 + w.resets
            ≤ (watchdog w sim state hs_active now a).0.resets + if_reached a)
  unfolding watchdog
  watchdog_resets w sim state hs_active now a h =
      ground (arith, check_resets (looking w state now) now a h)

  -- Looks of the watchdog one after the other, whatever it is told at each; `n` reloads of the
  -- driver, and `m` twice the looks at which the gateway could be reached.
  pub data Watched : Watch W → ℕ → ℕ → Type 0 where
    rested : (w : Watch W) → Watched w 0 0
    looked :
        (w : Watch W) (sim : Bool) (state : NetState) (hs_active : Bool) (now : W) (a : Around W)
        {n m : ℕ}
        → Watched (watchdog w sim state hs_active now a).0 n m
        → Watched w (resets_in (watchdog w sim state hs_active now a).1 + n) (if_reached a + m)

  -- Over any run of looks that begins with at most two reloads counted, the reloads are at most two
  -- and two for each look that reached the gateway, less those that were counted.
  pub resets_bounded : (w : Watch W) (n m : ℕ) → w.resets ≤ 2 → Watched w n m → n + w.resets ≤ 2 + m
  resets_bounded w0 n m h (rested w) = omega arith
  resets_bounded w0 n m h (looked w sim state hs_active now a {n = n'} {m = m'} rest) =
      let one = watchdog_resets w sim state hs_active now a h in
      let more = resets_bounded (watchdog w sim state hs_active now a).0 n' m' one.0 rest in
      omega (arith, one.1, more)
