-- ===== src/Rules.antt =====
-- src/features/rules.c: the notifications that a user writes as rules. JSON is read through the record
-- `Facts`, which says what a path of the status holds and which probes there are, each as the values of
-- its keys; a value that is neither a number, a Boolean nor a string is none.
pub mod Tree
pub mod Table
pub mod Traits
pub mod Select
pub mod Tick
mod Tests
use pifire_c.Common.{
  ℕ, zero, suc, ◌+◌, ◌-◌, Bool, true, false, not, ◌&&◌, ◌||◌, Option, none, some, List, [], ◌∷◌,
  ◌++◌, length, ltb, ◌==◌, if◌then◌else◌,
}
use pifire_c.Common.Float.{Double, ◌<ᵈ◌, ◌≤ᵈ◌, ◌==ᵈ◌, ◌+ᵈ◌, ◌-ᵈ◌, nought}
use pifire_c.Mode.{bytes, same_nocase}
use pifire_c.Text.{Bytes, same, take}

-- `val`
pub data Val (W : Type 0) : Type 0 where
  v_none : Val W
  v_num : W → Val W
  v_bool : Bool → Val W
  v_str : Bytes → Val W

-- an object of the status, by its keys
pub record Facts (W : Type 0) : Type 0 where
  pub at : Bytes → Val W
  pub probes : List (Bytes → Val W)
  pub number_in : Bytes → Option W  -- `strtod`, where it reads something

-- `inst`
pub record Inst (W : Type 0) : Type 0 where
  pub domain : Bytes
  pub name : Bytes
  pub label : Bytes
  pub obj : Option (Bytes → Val W)

abbrev pub has_chars : Bytes → Bool
has_chars [] = false
has_chars (b ∷ s) = true

abbrev pub any_of : Bytes → List Bytes → Bool
any_of s [] = false
any_of s (a ∷ l) = same s a || any_of s l

module _ {W : Type 0} where
  -- `cJSON_IsTrue`
  abbrev pub is_true : Val W → Bool
  is_true (v_bool b) = b
  is_true _ = false

  -- a number, or nothing
  abbrev pub only_num : Val W → Val W
  only_num (v_num x) = v_num x
  only_num _ = v_none

  -- `pf_json_str`
  abbrev pub text_or : Val W → Bytes → Bytes
  text_or (v_str s) fallback = s
  text_or _ fallback = fallback

  -- a string, or nothing
  abbrev pub only_str : Val W → Val W
  only_str (v_str s) = v_str s
  only_str _ = v_none

-- the traits that are a number under their own key
abbrev pub plain_traits : List Bytes
plain_traits =
    bytes "temp"
    ∷ bytes "battery"
    ∷ bytes "signal"
    ∷ bytes "rssi"
    ∷ bytes "limit_high"
    ∷ bytes "limit_low"
    ∷ bytes "ambient"
    ∷ []

abbrev pub flag_traits : List Bytes
flag_traits = bytes "wireless" ∷ bytes "in_use" ∷ bytes "enabled" ∷ []

module _ {W : Type 0} ⦃d : Double W⦄ where
  -- `pf_json_bool`
  abbrev pub bool_or : Val W → Bool → Bool
  bool_or (v_bool b) fallback = b
  bool_or (v_num x) fallback = not (x ==ᵈ nought)
  bool_or (v_str s) fallback =
      if has_chars s
      then same_nocase s (bytes "true") || same s (bytes "1") || same_nocase s (bytes "yes")
      else fallback
  bool_or v_none fallback = fallback

  -- `pf_json_num`
  abbrev pub num_or : (Bytes → Option W) → Val W → W → W
  num_or number (v_num x) fallback = x
  num_or number (v_bool b) fallback = if b then d.lit 1 1 else nought
  num_or number (v_str s) fallback = elim (number s) [ some x ↦ x | none ↦ fallback ]
  num_or number v_none fallback = fallback

  -- a number that is positive, or nothing
  abbrev pub positive : Val W → Val W
  positive (v_num x) = if nought <ᵈ x then v_num x else v_none
  positive _ = v_none

  -- a number that is not negative, or nothing
  abbrev pub not_negative : Val W → Val W
  not_negative (v_num x) = if nought ≤ᵈ x then v_num x else v_none
  not_negative _ = v_none

  -- how far a temperature is over a target
  abbrev pub over : Val W → Val W → Val W
  over (v_num t) (v_num g) = if g ≤ᵈ nought then v_none else v_num (t -ᵈ g)
  over _ _ = v_none

  -- a trait of a probe
  pub probe_trait : (Bytes → Val W) → Bytes → Val W
  probe_trait o trait =
      if same trait (bytes "target")
      then positive (o (bytes "target"))
      else if same trait (bytes "next_step")
      then only_str (o (bytes "next_step"))
      else if same trait (bytes "eta_step")
      then not_negative (o (bytes "eta_step_s"))
      else if same trait (bytes "eta")
      then only_num (o (bytes "eta_s"))
      else if any_of trait plain_traits
      then only_num (o trait)
      else if same trait (bytes "over")
      then over (o (bytes "temp")) (o (bytes "target"))
      else if same trait (bytes "valid") || same trait (bytes "connected")
      then v_bool (is_true (o (bytes "valid")))
      else if any_of trait flag_traits
      then v_bool (is_true (o trait))
      else if same trait (bytes "name") || same trait (bytes "role")
      then v_str (text_or (o trait) [])
      else v_none

  -- the first probe that is the pit's
  pub primary_of : List (Bytes → Val W) → Option (Bytes → Val W)
  primary_of [] = none
  primary_of (p ∷ l) =
      let rest = primary_of l in
      if same (text_or (p (bytes "role")) []) (bytes "Primary") then some p else rest

  abbrev pub pit_reading : Option (Bytes → Val W) → Val W
  pit_reading none = v_none
  pit_reading (some p) = only_num (p (bytes "temp"))

  abbrev pub less_by : Val W → W → Val W
  less_by (v_num t) sp = v_num (t -ᵈ sp)
  less_by v sp = v

  -- "temp" and "over" of the grill
  pub pit_trait : Facts W → Bytes → Val W
  pit_trait f trait =
      let sp = num_or f.number_in (f.at (bytes "setpoint")) nought in
      let t = pit_reading (primary_of f.probes) in
      if same trait (bytes "over")
      then if sp ≤ᵈ nought || bool_or (f.at (bytes "autotune.active")) false
        then v_none
        else less_by t sp
      else t

  abbrev pub output_trait : Facts W → Bytes → Bytes → Val W
  output_trait f label trait =
      if same trait (bytes "state")
      then v_bool (bool_or (f.at (bytes "outputs." ++ take 24 label)) false)
      else if same trait (bytes "percent")
      then v_num (num_or f.number_in (f.at (bytes "outputs.fan_pct")) nought)
      else v_none

-- the table `MAP`, less the two rows that have no path
abbrev pub path_map : List (Bytes × Bytes × Bytes)
path_map =
    (bytes "grill", bytes "mode", bytes "mode")
    ∷ (bytes "grill", bytes "setpoint", bytes "setpoint")
    ∷ (bytes "grill", bytes "error", bytes "safety.error_code")
    ∷ (bytes "grill", bytes "cook_elapsed", bytes "cook_elapsed")
    ∷ (bytes "grill", bytes "mode_remaining", bytes "timers.mode_remaining")
    ∷ (bytes "grill", bytes "lid_open", bytes "lid_open")
    ∷ (bytes "grill", bytes "hopper", bytes "hopper_pct")
    ∷ (bytes "grill", bytes "aiming_s", bytes "aiming_s")
    ∷ (bytes "grill", bytes "heating", bytes "heating.active")
    ∷ (bytes "grill", bytes "heating_to", bytes "heating.text")
    ∷ (bytes "hopper", bytes "level", bytes "hopper_pct")
    ∷ (bytes "controller", bytes "duty", bytes "cycle.u_applied")
    ∷ (bytes "controller", bytes "feedforward", bytes "cycle.u_ff")
    ∷ (bytes "controller", bytes "error", bytes "controller.error")
    ∷ (bytes "weather", bytes "temp", bytes "weather.temp")
    ∷ (bytes "weather", bytes "wind", bytes "weather.wind_kmh")
    ∷ (bytes "weather", bytes "humidity", bytes "weather.humidity")
    ∷ (bytes "system", bytes "wifi_signal", bytes "net.signal")
    ∷ (bytes "system", bytes "tailscale_online", bytes "net.tailscale.online")
    ∷ (bytes "system", bytes "update_available", bytes "update.available")
    ∷ (bytes "system", bytes "update_version", bytes "update.latest")
    ∷ (bytes "system", bytes "system_updates", bytes "update.system")
    ∷ (bytes "system", bytes "backup_done", bytes "backup.done")
    ∷ (bytes "system", bytes "backup_failed", bytes "backup.failed")
    ∷ (bytes "system", bytes "restarted", bytes "restarted.active")
    ∷ (bytes "system", bytes "restart_reason", bytes "restarted.reason")
    ∷ (bytes "system", bytes "restart_resuming", bytes "restarted.resuming")
    ∷ (bytes "timer", bytes "remaining", bytes "timer.remaining")
    ∷ (bytes "timer", bytes "running", bytes "timer.running")
    ∷ (bytes "step", bytes "elapsed", bytes "step.elapsed")
    ∷ (bytes "step", bytes "food_max", bytes "step.food_max")
    ∷ (bytes "step", bytes "food_min", bytes "step.food_min")
    ∷ (bytes "step", bytes "food_rested", bytes "step.food_rested")
    ∷ (bytes "step", bytes "food_avg", bytes "step.food_avg")
    ∷ (bytes "step", bytes "food_battery", bytes "step.food_battery")
    ∷ (bytes "step", bytes "food_eta", bytes "step.food_eta")
    ∷ (bytes "step", bytes "prompt", bytes "step.prompt")
    ∷ (bytes "step", bytes "lid", bytes "step.lid")
    ∷ []

pub path_of : List (Bytes × Bytes × Bytes) → Bytes → Bytes → Option Bytes
path_of [] domain trait = none
path_of ((dom, tr, path) ∷ l) domain trait =
    let rest = path_of l domain trait in
    if same dom domain && same tr trait then some path else rest

module _ {W : Type 0} ⦃d : Double W⦄ where
  abbrev pub value_at : Facts W → Option Bytes → Val W
  value_at f none = v_none
  value_at f (some path) = f.at path

  -- the trait of anything but a probe
  pub other_trait : Facts W → Bytes → Bytes → Bytes → Val W
  other_trait f domain label trait =
      if same domain (bytes "output")
      then output_trait f label trait
      else if same domain (bytes "grill")
          && (same trait (bytes "temp") || same trait (bytes "over"))
      then pit_trait f trait
      else value_at f (path_of path_map domain trait)

  abbrev pub trait_in : Facts W → Bytes → Bytes → Option (Bytes → Val W) → Bytes → Val W
  trait_in f domain label none trait = other_trait f domain label trait
  trait_in f domain label (some o) trait =
      if same domain (bytes "probe") then probe_trait o trait else other_trait f domain label trait

  -- `trait_of`, for an instance; an empty text stands for no entity
  pub trait_of : Facts W → Inst W → Bytes → Bytes → Val W
  trait_of f i entity trait =
      if has_chars entity && not (same entity (bytes "this"))
      then trait_in f entity i.label none trait
      else trait_in f i.domain i.label i.obj trait

-- `strcasestr`, as a test
abbrev pub starts_nocase : Bytes → Bytes → Bool
starts_nocase s t = same_nocase (take (length t) s) t

pub contains : Bytes → Bytes → Bool
contains [] t = starts_nocase [] t
contains (b ∷ s) t = starts_nocase (b ∷ s) t || contains s t

-- `compare` for texts
pub compare_text : Bytes → Bytes → Bytes → Bool
compare_text op a b =
    if same op (bytes "is") || same op (bytes "==")
    then same_nocase a b
    else if same op (bytes "is_not") || same op (bytes "!=")
    then not (same_nocase a b)
    else if same op (bytes "empty")
    then not (has_chars a)
    else if same op (bytes "not_empty")
    then has_chars a
    else if same op (bytes "contains")
    then contains a b
    else false

-- for Booleans
pub compare_flag : Bytes → Bool → Bool → Bool
compare_flag op a b =
    if same op (bytes "is_on") || same op (bytes "on")
    then a
    else if same op (bytes "is_off") || same op (bytes "off")
    then not a
    else if same op (bytes "is") || same op (bytes "==")
    then (if a then b else not b)
    else if same op (bytes "is_not") || same op (bytes "!=")
    then (if a then not b else b)
    else false

module _ {W : Type 0} ⦃d : Double W⦄ where
  -- the second bound of "between", and the width of "within": `b2->num`, where there is one
  abbrev pub raw_num : Val W → W
  raw_num (v_num x) = x
  raw_num (v_bool b) = if b then d.lit 1 1 else nought
  raw_num _ = nought

  abbrev pub is_given : Val W → Bool
  is_given v_none = false
  is_given _ = true

  -- for numbers, with the deadband `db`
  pub compare_num : Bytes → W → W → Val W → W → Bool
  compare_num op x y b2 db =
      if same op (bytes ">")
      then (y -ᵈ db) <ᵈ x
      else if same op (bytes ">=")
      then (y -ᵈ db) ≤ᵈ x
      else if same op (bytes "<")
      then x <ᵈ (y +ᵈ db)
      else if same op (bytes "<=")
      then x ≤ᵈ (y +ᵈ db)
      else if same op (bytes "==") || same op (bytes "is")
      then d.fabs (x -ᵈ y) <ᵈ (if nought <ᵈ db then db else d.lit 1 1000000000)
      else if same op (bytes "!=") || same op (bytes "is_not")
      then d.lit 1 1000000000 ≤ᵈ d.fabs (x -ᵈ y)
      else if same op (bytes "between")
      then is_given b2 && (y -ᵈ db) ≤ᵈ x && x ≤ᵈ (raw_num b2 +ᵈ db)
      else if same op (bytes "within")
      then is_given b2 && d.fabs (x -ᵈ y) ≤ᵈ (raw_num b2 +ᵈ db)
      else false

  -- by the kinds of the two sides, the left one being there
  abbrev pub compare_by : Bytes → Val W → Val W → Val W → W → Bool
  compare_by op v_none b b2 db = false
  compare_by op (v_str s) (v_str t) b2 db = compare_text op s t
  compare_by op (v_str s) _ b2 db = compare_text op s []
  compare_by op _ (v_str t) b2 db = compare_text op [] t
  compare_by op (v_bool a) v_none b2 db = compare_flag op a true
  compare_by op (v_bool a) (v_bool b) b2 db = compare_flag op a b
  compare_by op (v_bool a) (v_num y) b2 db = compare_flag op a false
  compare_by op (v_num x) (v_bool b) b2 db = compare_flag op false b
  compare_by op (v_num x) v_none b2 db = false
  compare_by op (v_num x) (v_num y) b2 db = compare_num op x y b2 db

  -- `compare`
  pub compare : Val W → Bytes → Val W → Val W → W → Bool
  compare a op b b2 db =
      if same op (bytes "unavailable")
      then not (is_given a)
      else if same op (bytes "available")
      then is_given a
      else compare_by op a b b2 db
