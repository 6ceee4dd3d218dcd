-- ===== src/Notify/Speak.antt =====
-- src/core/notify.c, `load_steps` and the end of a probe's turn in `pf_notify_tick`: the steps on the way
-- and the limits, with what they say.
pub mod Limits
use pifire_c.Common.{
  ℕ, zero, suc, ◌+◌, Bool, true, false, not, ◌&&◌, ◌||◌, Option, none, some, List, [], ◌∷◌, ◌++◌,
  if◌then◌else◌,
}
use pifire_c.Common.Float.{Double, ◌<ᵈ◌, ◌≤ᵈ◌, ◌+ᵈ◌, ◌-ᵈ◌, nought}
use pifire_c.Mode.{Mode, startup, reignite, smoke, hold, bytes, Units}
use pifire_c.Text.{Bytes, same, strlcpy}
use pifire_c.Control.Command.{to_c}
use pifire_c.Notify.{After, NotifyProbe, Step}
use pifire_c.Notify.Carry.{delta_to_c}

-- What is told, by event or alarm, with the numbers of its message.
pub data Notice (W : Type 0) : Type 0 where
  ack_target : Bytes → Notice W
  probe_step : Bytes → Bytes → W → Notice W
  too_high : Bytes → W → W → Notice W
  too_low : Bytes → W → W → Notice W
  timer_over : W → After → Notice W

-- `cooking`
abbrev pub is_cooking : Mode → Bool
is_cooking startup = true
is_cooking reignite = true
is_cooking smoke = true
is_cooking hold = true
is_cooking _ = false

abbrev pub max_steps : ℕ
max_steps = 4

abbrev pub named : Option Bytes → Bytes
named none = bytes "Step"
named (some s) = s

module _ {W : Type 0} ⦃d : Double W⦄ where
  -- what a step of that name and temperature had said
  pub said_before : List (Step W) → Bytes → W → Bool
  said_before [] name temp = false
  said_before (k ∷ keep) name temp =
      let rest = said_before keep name temp in
      if d.fabs (k.temp_c -ᵈ temp) <ᵈ d.lit 1 100 && same k.name name then k.fired else rest

  -- The loop of `load_steps`, with room for so many steps.
  pub load : ℕ → List (Step W) → List (W × Option Bytes) → Units → List (Step W)
  unfolding said_before
  load room keep [] units = []
  load zero keep (it ∷ l) units = []
  load (suc room) keep ((t, text) ∷ l) units =
      let name = strlcpy 24 (named text) in
      let temp = to_c t units in
      let this = load (suc room) keep l units in
      let rest = load room keep l units in
      if nought <ᵈ t
      then record { name = name; temp_c = temp; fired = said_before keep name temp } ∷ rest
      else this

  -- 2 degrees of the user's
  abbrev pub slack : Units → W
  slack units = delta_to_c (d.lit 2 1) units

  -- A step says something when it is crossed going up.
  abbrev pub says : Step W → Bool → W → Bool
  says s cooking t = not s.fired && cooking && s.temp_c ≤ᵈ t

  pub latch_step : Step W → Bool → W → Units → Step W
  latch_step s cooking t units =
      if says s cooking t
      then record s { fired = true }
      else if s.fired && t <ᵈ (s.temp_c -ᵈ slack units)
      then record s { fired = false }
      else s

  pub speak_steps : Bytes → List (Step W) → Bool → W → Units → List (Notice W) × List (Step W)
  unfolding latch_step
  speak_steps label [] cooking t units = ([], [])
  speak_steps label (s ∷ l) cooking t units =
      let (told, l') = speak_steps label l cooking t units in
      (
        if says s cooking t then probe_step label s.name t ∷ told else told,
        latch_step s cooking t units ∷ l',
      )

  -- whether the limit is told of, and whether it is tripped then
  unfoldable pub check_high : NotifyProbe W → W → Units → Bool × Bool
  check_high p t units =
      if not (nought <ᵈ p.limit_high_c)
      then (false, p.high_tripped)
      else if p.limit_high_c <ᵈ t && not p.high_tripped
      then (true, true)
      else if t ≤ᵈ (p.limit_high_c -ᵈ slack units)
      then (false, false)
      else (false, p.high_tripped)

  unfoldable pub check_low : NotifyProbe W → Bool → W → Units → Bool × Bool
  check_low p cooking t units =
      if not (nought <ᵈ p.limit_low_c && cooking)
      then (false, p.low_tripped)
      else if t <ᵈ p.limit_low_c && not p.low_tripped
      then (true, true)
      else if (p.limit_low_c +ᵈ slack units) ≤ᵈ t
      then (false, false)
      else (false, p.low_tripped)

  unfoldable pub check_limits : NotifyProbe W → Bool → W → Units → List (Notice W) × NotifyProbe W
  unfolding check_high check_low
  check_limits p cooking t units =
      let (high, high_tripped) = check_high p t units in
      let (low, low_tripped) = check_low p cooking t units in
      (
        (if high then too_high p.label t p.limit_high_c ∷ [] else [])
            ++ (if low then too_low p.label t p.limit_low_c ∷ [] else []),
        record p { high_tripped = high_tripped; low_tripped = low_tripped },
      )
