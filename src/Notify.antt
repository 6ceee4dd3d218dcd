-- ===== src/Notify.antt =====
-- src/core/notify.c, src/core/notify.h: the targets of the probes, the take-off for a rest, the steps,
-- the limits and the timer of a cook. The state is here; a list holds the first `n` probes. The ring of
-- samples is a function on its 400 slots. What an `after` asks for is one of the three of the header.
pub mod Climb
pub mod Carry
pub mod Target
pub mod CookTimer
pub mod Watch
pub mod Speak
pub mod Tick
mod Tests
pub mod Known
use pifire_c.Common.{
  ℕ, zero, suc, Bool, true, false, not, ◌&&◌, Option, none, some, List, [], ◌∷◌, ◌++◌, ltb, ◌==◌,
  if◌then◌else◌,
}
use pifire_c.Common.Int.{ℤ, pos, negsuc}
use pifire_c.Common.Float.{Double, ◌<ᵈ◌, nought}
use pifire_c.Text.{Bytes, same}

-- `PF_AFTER_*`, what a target that was reached asks for
pub data After : Type 0 where
  after_none after_keepwarm after_shutdown : After

-- `!= PF_AFTER_NONE`
abbrev pub asks : After → Bool
asks after_none = false
asks _ = true

-- `pf_notify_step`
pub record Step (W : Type 0) : Type 0 where
  pub name : Bytes
  pub temp_c : W
  pub fired : Bool

-- `pf_notify_probe`
pub record NotifyProbe (W : Type 0) : Type 0 where
  pub label : Bytes
  pub target_c : W
  pub meat : Bytes
  pub done : Bytes
  pub finish_c : W
  pub rest_c : W
  pub cook_sm_c : W
  pub last_tick_t : W
  pub carry_sm_c : W
  pub rest_watch : Bool
  pub pull_c : W
  pub pull_rate : W
  pub pull_predicted_c : W
  pub rest_peak_c : W
  pub rest_peak_t : W
  pub rest_watch_t : W
  pub amb_on : W
  pub removed : Bool
  pub removed_n : ℕ
  pub steps : List (Step W)
  pub after : After
  pub limit_high_c : W
  pub limit_low_c : W
  pub high_tripped : Bool
  pub low_tripped : Bool
  pub eta_s : W
  pub eta_step_s : W
  pub next_step : Bytes
  pub reached : Bool
  pub eta_warned : Bool
  pub eta_hits : ℕ
  pub hist : ℕ → W
  pub hist_len : ℕ
  pub hist_head : ℕ
  pub last_sample_t : W

-- `pf_timer`
pub record Timer (W : Type 0) : Type 0 where
  pub running : Bool
  pub paused : Bool
  pub end_t : W
  pub remaining : W
  pub duration : W
  pub after : After

-- `pf_notify`
pub record Notify (W : Type 0) : Type 0 where
  pub probes : List (NotifyProbe W)
  pub timer : Timer W
  pub last_eta_t : W
  pub pending_action : After
  pub cook_temp_c : W

-- `pf_probe_reading`, the fields that are read here; `companion` is an index, or none for -1
pub record Reading (W : Type 0) : Type 0 where
  pub label : Bytes
  pub name : Bytes
  pub valid : Bool
  pub temp_c : W
  pub companion : Option ℕ

-- `pf_sensors`
pub record Sensors (W : Type 0) : Type 0 where
  pub primary : Option ℕ
  pub p : List (Reading W)

-- `PF_ETA_SAMPLES` and `PF_MAX_PROBES`
abbrev pub eta_samples : ℕ
eta_samples = 400

abbrev pub max_probes : ℕ
max_probes = 16

module _ {ℓ} {A : Type ℓ} where
  abbrev pub nth : ℕ → List A → Option A
  nth i [] = none
  nth zero (a ∷ l) = some a
  nth (suc i) (a ∷ l) = nth i l

  -- the element an index names, if it names one
  abbrev pub at_index : Option ℕ → List A → Option A
  at_index none l = none
  at_index (some i) l = nth i l

module _ {W : Type 0} where
  -- `pf_notify_find`
  pub find : Bytes → List (NotifyProbe W) → Option (NotifyProbe W)
  find label [] = none
  find label (p ∷ l) = let rest = find label l in if same p.label label then some p else rest

  -- what is done through the pointer of `find_mut`; false for a NULL
  pub at_label :
      Bytes → (NotifyProbe W → NotifyProbe W) → List (NotifyProbe W) → Bool × List (NotifyProbe W)
  at_label label f [] = (false, [])
  at_label label f (p ∷ l) =
      let (found, l') = at_label label f l in
      if same p.label label then (true, f p ∷ l) else (found, p ∷ l')

  -- `pf_probes_find`: the reading it names
  pub reading_of : Bytes → List (Reading W) → Option (Reading W)
  reading_of label [] = none
  reading_of label (r ∷ l) =
      let rest = reading_of label l in if same r.label label then some r else rest

module _ {W : Type 0} ⦃d : Double W⦄ where
  abbrev pub minus_one : W
  minus_one = d.of_int (negsuc 0)

  -- `memset`, `eta_s`, `eta_step_s` and the label
  abbrev pub fresh : Bytes → NotifyProbe W
  fresh label = record {
    label = label;
    target_c = nought;
    meat = [];
    done = [];
    finish_c = nought;
    rest_c = nought;
    cook_sm_c = nought;
    last_tick_t = nought;
    carry_sm_c = nought;
    rest_watch = false;
    pull_c = nought;
    pull_rate = nought;
    pull_predicted_c = nought;
    rest_peak_c = nought;
    rest_peak_t = nought;
    rest_watch_t = nought;
    amb_on = nought;
    removed = false;
    removed_n = 0;
    steps = [];
    after = after_none;
    limit_high_c = nought;
    limit_low_c = nought;
    high_tripped = false;
    low_tripped = false;
    eta_s = minus_one;
    eta_step_s = minus_one;
    next_step = [];
    reached = false;
    eta_warned = false;
    eta_hits = 0;
    hist = λ i. nought;
    hist_len = 0;
    hist_head = 0;
    last_sample_t = nought;
  }

  abbrev pub no_timer : Timer W
  no_timer = record {
    running = false;
    paused = false;
    end_t = nought;
    remaining = nought;
    duration = nought;
    after = after_none;
  }

  pub init : Notify W
  init = record {
    probes = [];
    timer = no_timer;
    last_eta_t = nought;
    pending_action = after_none;
    cook_temp_c = nought;
  }

  -- The loop of `pf_notify_sync`: the first 16 sensors, each with what is known under its label.
  pub sync_probes : ℕ → List (NotifyProbe W) → List (Reading W) → List (NotifyProbe W)
  sync_probes zero old l = []
  sync_probes (suc room) old [] = []
  sync_probes (suc room) old (r ∷ l) =
      (elim (find r.label old) [ some p ↦ p | none ↦ fresh r.label ]) ∷ sync_probes room old l

  pub sync : Notify W → Sensors W → Notify W
  sync n s = record n { probes = sync_probes max_probes n.probes s.p }

-- What only the cook's orders, the judging of the target and the limits change.
pub record Core (W : Type 0) : Type 0 where
  pub label : Bytes
  pub after : After
  pub reached : Bool
  pub limit_high_c : W
  pub limit_low_c : W
  pub high_tripped : Bool
  pub low_tripped : Bool

abbrev pub core : {W : Type 0} → NotifyProbe W → Core W
core p = record {
  label = p.label;
  after = p.after;
  reached = p.reached;
  limit_high_c = p.limit_high_c;
  limit_low_c = p.limit_low_c;
  high_tripped = p.high_tripped;
  low_tripped = p.low_tripped;
}
