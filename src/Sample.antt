-- ===== src/Sample.antt =====
-- Concrete doubles and a concrete platform for the examples: hundredths with a NaN, and a board of
-- relays that takes every write. They model no code; they show that the interfaces can be met.
use pifire_c.Common.{
  ℕ, suc, ◌+◌, ◌-◌, ◌*◌, ◌/◌, ◌≡◌, refl, Bool, true, false, Option, none, some, [], ltb, leb, ◌==◌,
  if◌then◌else◌,
}
use pifire_c.Common.Int.{ℤ, pos, negsuc}
use pifire_c.Common.Float.{Double}
use pifire_c.Mode.{hold}
use pifire_c.Outputs.{ok, Relays, Platform, Outputs, set_relay, all_off_relays}
use pifire_c.Outputs.Laws.{PlatformLaws}
use pifire_c.Grill.{Cfg, Control}
use pifire_c.Safety.Start.{zeroed}

abbrev pub up : ℤ → ℕ
up (pos n) = n
up (negsuc n) = 0

abbrev pub down : ℤ → ℕ
down (pos n) = 0
down (negsuc n) = suc n

abbrev pub difference : ℕ → ℕ → ℤ
difference a b = if leb b a then pos (a - b) else negsuc (b - a - 1)

-- hundredths, `none` for NaN
abbrev pub Centi : Type 0
Centi = Option ℤ

abbrev pub test2 : (ℤ → ℤ → Bool) → Centi → Centi → Bool
test2 f (some a) (some b) = f a b
test2 f _ _ = false

abbrev pub lift2 : (ℤ → ℤ → ℤ) → Centi → Centi → Centi
lift2 f (some a) (some b) = some (f a b)
lift2 f _ _ = none

abbrev pub less : ℤ → ℤ → Bool
less a b = ltb (up a + down b) (up b + down a)

abbrev pub at_most : ℤ → ℤ → Bool
at_most a b = leb (up a + down b) (up b + down a)

abbrev pub product : ℤ → ℤ → ℤ
product a b =
    difference ((up a * up b + down a * down b) / 100) ((up a * down b + down a * up b) / 100)

abbrev pub quotient : ℤ → ℤ → ℤ
quotient a b = difference (up a * 100 / up b) (down a * 100 / up b)

abbrev pub is_none : Centi → Bool
is_none none = true
is_none (some a) = false

abbrev pub to_whole : Centi → ℤ
to_whole (some (pos n)) = pos (n / 100)
to_whole _ = pos 0

instance abbrev pub centi : Double Centi
centi = record {
  lit = λ n m. some (pos (n * 100 / m));
  nan = none;
  lt = test2 less;
  le = test2 at_most;
  eq = test2 (λ a b. up a + down b == up b + down a);
  is_nan = is_none;
  is_inf = λ a. false;
  add = lift2 (λ a b. difference (up a + up b) (down a + down b));
  sub = lift2 (λ a b. difference (up a + down b) (down a + up b));
  mul = lift2 product;
  div = lift2 quotient;
  fmin = lift2 (λ a b. if less a b then a else b);
  fmax = lift2 (λ a b. if less a b then b else a);
  fabs = λ a. lift2 (λ x y. pos (up x + down x)) a a;
  of_int = λ n. some (product n (pos 10000));
  trunc = to_whole;
}

-- a board of relays
instance abbrev pub board : Platform Relays
board = record {
  set_output = λ g o on. (ok, set_relay g o on);
  set_fan_pct = λ g pct. (ok, g);
  set_pwm_frequency = λ g hz. (ok, g);
  read_input = λ g i. false;
  all_off = λ g. all_off_relays;
}

pub not_ok : true ≡ false → ⊥
not_ok e = cc

instance abbrev pub board_laws : PlatformLaws Relays
board_laws = record {
  wire = λ g o. g o;
  wire-all_off = λ g o. refl;
  wire-set_output = λ g o p on e. refl;
  wire-set_output_failed = λ g o p on e. absurd (not_ok e);
  wire-set_fan_pct = λ g pct p. refl;
  wire-set_pwm_frequency = λ g hz p. refl;
}

-- whole seconds or degrees
abbrev pub whole : ℕ → Centi
whole n = some (pos (n * 100))

abbrev pub cfg : Cfg Centi
cfg = record {
  max_temp_c = whole 315;
  igniter_max_on_s = whole 1200;
  probe_fault_s = whole 30;
  ss_prove_s = whole 300;
  ss_prove_rise_c = whole 2;
  ss_exit_rise_c = whole 6;
  smoke_min_c = whole 82;
  relight_enabled = true;
  reignite_retries = pos 1;
  relight_drop_c = whole 11;
  relight_prove_s = whole 60;
  relight_confirm_s = whole 30;
}

abbrev pub outputs : Outputs Relays
outputs = record {
  device = some all_off_relays;
  state = all_off_relays;
  fan_pct = pos 0;
  latched = false;
}

-- a Hold at 120 C, steady
abbrev pub holding : Control Centi Relays
holding = record {
  cfg = cfg;
  mode = hold;
  setpoint_c = whole 120;
  pit_c = whole 120;
  pit_valid = true;
  ambient_c = whole 20;
  last_step = whole 999;
  lid_open = false;
  lid_event = false;
  lid_event_t = whole 0;
  autotune_active = false;
  target_reached = true;
  safety = record (zeroed) {
    reignite_retries_left = pos 1;
    fire_c = whole 120;
    filt_c = whole 120;
    peak_c = whole 120;
    established = true;
  };
  outputs = outputs;
  events = [];
}
