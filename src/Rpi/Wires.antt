-- ===== src/Rpi/Wires.antt =====
-- src/platform/rpi.c: that the Raspberry Pi is a platform as the daemon relies on it.
use pifire_c.Common.{
  ℕ, ◌-◌, ◌≤◌, ◌≡◌, refl, arith, ◌⊎◌, Bool, true, false, ◌&&◌, ltb, ◌==◌, if◌then◌else◌,
}
use pifire_c.Common.Int.{ℤ}
use pifire_c.Mode.{Output, power, fan, auger, igniter, output_eq_sound}
use pifire_c.Outputs.{set_relay, is_ok}
use pifire_c.Outputs.Laws.{PlatformLaws}
use pifire_c.Rpi.{
  Lines, Rpi, clamp_pct, drive_fan, drive_line, set_output, set_fan_pct, set_pwm_frequency,
  off_line, all_off, rpi_ops,
}

-- What the driver relies on in the kernel: a write that succeeds sets the line that it names, a
-- write that fails sets none, and the PWM channel is apart.
pub record LinesLaws (G : Type 0) ⦃kernel : Lines G⦄ : Type 0 where
  pub level : G → Output → Bool
  pub level-gpio_set :
      (g : G) (o p : Output) (on : Bool)
      → level (kernel.gpio_set g o on).1 p
        ≡ (if (kernel.gpio_set g o on).0 then set_relay (level g) o on p else level g p)
  pub level-pwm_config :
      (g : G) (hz : ℤ) (duty : ℕ) (p : Output) → level (kernel.pwm_config g hz duty).1 p ≡ level g p
  pub level-pwm_enable :
      (g : G) (on : Bool) (p : Output) → level (kernel.pwm_enable g on) p ≡ level g p

-- lines that can all be let go
pub record LinesGo (G : Type 0) ⦃kernel : Lines G⦄ : Type 0 where
  pub takes_off : (g : G) (o : Output) → (kernel.gpio_set g o false).0 ≡ true

module _ {G : Type 0} ⦃kernel : Lines G⦄ ⦃laws : LinesLaws G⦄ where
  -- the relay of an output: off where the driver has no line for it
  abbrev pub wire_of : Rpi G → Output → Bool
  wire_of r o = r.out o && laws.level r.lines o

  drive_fan_level : (r : Rpi G) (on : Bool) (p : Output) → wire_of (drive_fan r on) p ≡ wire_of r p
  unfolding drive_fan
  drive_fan_level r true p =
      let pct = if r.fan_pct == 0 then 100 else r.fan_pct in
      ground (
        arith,
        laws.level-pwm_enable (kernel.pwm_config r.lines r.pwm_hz (100 - pct)).1 true p,
        laws.level-pwm_config r.lines r.pwm_hz (100 - pct) p,
      )
  drive_fan_level r false p = rw (laws.level-pwm_enable r.lines false p) refl

  -- A write that succeeds, to an output that has a line, moves its relay and no other, with the fan's
  -- channel or without.
  pub wire-set_output :
      (r : Rpi G) (o p : Output) (on : Bool)
      → is_ok (set_output r o on).0 ≡ true
      → wire_of (set_output r o on).1 p ≡ set_relay (wire_of r) o on p
  unfolding set_output drive_line
  wire-set_output r o p on h =
      ground (arith, laws.level-gpio_set r.lines o p on, drive_fan_level (drive_line r o on).1 on p)

  pub set_output_failed :
      (r : Rpi G) (o p : Output) (on : Bool)
      → is_ok (set_output r o on).0 ≡ false
      → wire_of (set_output r o on).1 p ≡ wire_of r p
  unfolding set_output drive_line
  set_output_failed r o p on h =
      ground (arith, laws.level-gpio_set r.lines o p on, drive_fan_level (drive_line r o on).1 on p)

  pub fan_pct_level :
      (r : Rpi G) (pct : ℤ) (p : Output) → wire_of (set_fan_pct r pct).1 p ≡ wire_of r p
  unfolding set_fan_pct
  fan_pct_level r pct p =
      ground (arith, laws.level-pwm_config r.lines r.pwm_hz (100 - clamp_pct pct) p)

  pub frequency_level :
      (r : Rpi G) (hz : ℤ) (p : Output) → wire_of (set_pwm_frequency r hz).1 p ≡ wire_of r p
  unfolding set_pwm_frequency
  frequency_level r hz p = ground (arith, laws.level-pwm_config r.lines hz (100 - r.fan_pct) p)

  off_line_keeps :
      (r : Rpi G) (o p : Output) → wire_of r p ≡ false → wire_of (off_line r o) p ≡ false
  unfolding off_line
  off_line_keeps r o p h = ground (arith, laws.level-gpio_set r.lines o p false)

  off_line_off :
      (r : Rpi G) (o : Output)
      → ((g : G) → (kernel.gpio_set g o false).0 ≡ true)
      → wire_of (off_line r o) o ≡ false
  unfolding off_line
  off_line_off r o takes =
      let same = output_eq_sound o o in
      ground (arith, same, laws.level-gpio_set r.lines o o false, takes r.lines)

  -- a turn for each output: its own switches it off, the others leave it off
  each_off :
      (r : Rpi G) (p : Output)
      → ((g : G) → (kernel.gpio_set g p false).0 ≡ true)
      → wire_of (off_line (off_line (off_line (off_line r power) fan) auger) igniter) p ≡ false
  each_off r power takes =
      off_line_keeps _ igniter power
        (off_line_keeps _ auger power (off_line_keeps _ fan power (off_line_off r power takes)))
  each_off r fan takes =
      off_line_keeps _ igniter fan
        (off_line_keeps _ auger fan (off_line_off (off_line r power) fan takes))
  each_off r auger takes =
      off_line_keeps _ igniter auger (off_line_off (off_line (off_line r power) fan) auger takes)
  each_off r igniter takes =
      off_line_off (off_line (off_line (off_line r power) fan) auger) igniter takes

  -- Switching everything off leaves the relay of an output off if the kernel takes the write that
  -- switches its line off, whatever becomes of the writes to the other lines.
  pub wire-all_off :
      (r : Rpi G) (o : Output)
      → ((g : G) → (kernel.gpio_set g o false).0 ≡ true)
      → wire_of (all_off r) o ≡ false
  unfolding all_off
  wire-all_off r o takes =
      let r4 = off_line (off_line (off_line (off_line r power) fan) auger) igniter in
      ground (arith, each_off r o takes, laws.level-pwm_enable r4.lines false o)

  -- The Raspberry Pi does what the daemon relies on in a platform.
  module _ ⦃go : LinesGo G⦄ where
    instance abbrev pub rpi_laws : PlatformLaws (Rpi G)
    rpi_laws = record {
      wire = wire_of;
      wire-all_off = λ r o. wire-all_off r o (λ g. go.takes_off g o);
      wire-set_output = wire-set_output;
      wire-set_output_failed = set_output_failed;
      wire-set_fan_pct = fan_pct_level;
      wire-set_pwm_frequency = frequency_level;
    }

module _ {G : Type 0} ⦃kernel : Lines G⦄ where
  -- Switching a fan that has a line and a channel, and a percentage of at most 100, on never leaves it
  -- standing, and off always does:
  -- the percentage is above 0 exactly if it was switched on, and one that was not 0 stays.
  pub set_output_fan :
      (r : Rpi G) (on : Bool)
      → r.out fan ≡ true
      → r.has_pwm ≡ true
      → r.fan_pct ≤ 100
      → let pct = (set_output r fan on).1.fan_pct in
        (pct ≤ 100) × (ltb 0 pct ≡ on) × ((on ≡ false) ⊎ (r.fan_pct ≡ 0) ⊎ (pct ≡ r.fan_pct))
  unfolding set_output drive_line drive_fan
  set_output_fan r on h q b = ground arith
