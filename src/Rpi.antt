-- ===== src/Rpi.antt =====
-- src/platform/rpi.c: the Raspberry Pi as a platform. The lines and the PWM channel of the kernel
-- (hal/gpio.c, hal/pwm.c) are the interface `Lines`; the making of the instance from its
-- configuration is left out.
mod Tests
pub mod Wires
use pifire_c.Common.{ℕ, suc, ◌-◌, Bool, true, false, not, ◌&&◌, Option, ltb, ◌==◌, if◌then◌else◌}
use pifire_c.Common.Int.{ℤ, pos, negsuc, is_pos}
use pifire_c.Mode.{Output, power, fan, auger, igniter}
use pifire_c.Outputs.{Rc, ok, driver, Input, Relays, set_relay, is_fan, Platform}

-- `pf_gpio_set` and `pf_pwm_config` (whether they succeed), `pf_pwm_enable`, and `pf_gpio_get` as
-- the test that it is 1
pub record Lines (G : Type 0) : Type 0 where
  pub gpio_set : G → Output → Bool → Bool × G
  pub gpio_get : G → Input → Bool
  pub pwm_config : G → ℤ → ℕ → Bool × G
  pub pwm_enable : G → Bool → G

-- `rpi_t`: which lines were had, and `fan_pct` as a number, which `clamp_pct` keeps at most 100
pub record Rpi (G : Type 0) : Type 0 where
  pub lines : G
  pub out : Output → Bool
  pub in_line : Input → Bool
  pub has_pwm : Bool
  pub dc_fan : Bool
  pub pwm_hz : ℤ
  pub fan_pct : ℕ
  pub state : Relays

-- 0, or a code of the kernel's
abbrev pub rc_of : Bool → Rc
rc_of true = ok
rc_of false = driver 1

abbrev pub clamp_pct : ℤ → ℕ
clamp_pct (negsuc n) = 0
clamp_pct (pos n) = if ltb 100 n then 100 else n

module _ {G : Type 0} ⦃kernel : Lines G⦄ where
  -- the fan's channel: the board inverts the signal
  pub drive_fan : Rpi G → Bool → Rpi G
  drive_fan r true =
      let pct = if r.fan_pct == 0 then 100 else r.fan_pct in
      record r {
        fan_pct = pct;
        lines = kernel.pwm_enable (kernel.pwm_config r.lines r.pwm_hz (100 - pct)).1 true;
      }
  drive_fan r false = record r { fan_pct = 0; lines = kernel.pwm_enable r.lines false }

  -- a line that was had is driven
  pub drive_line : Rpi G → Output → Bool → Bool × Rpi G
  drive_line r o on =
      let (done, g) = kernel.gpio_set r.lines o on in
      (done, record r { lines = g; state = if done then set_relay r.state o on else r.state })

  pub set_output : Rpi G → Output → Bool → Rc × Rpi G
  unfolding drive_line drive_fan
  set_output r o on =
      if not (r.out o)
      then (driver 0, r)
      else (let (done, r1) = drive_line r o on in
          (rc_of done, if is_fan o && r1.has_pwm then drive_fan r1 on else r1))

  pub set_fan_pct : Rpi G → ℤ → Rc × Rpi G
  set_fan_pct r pct =
      if not r.dc_fan
      then (ok, r)
      else (let r1 = record r { fan_pct = clamp_pct pct } in
          if not r.has_pwm
          then (ok, r1)
          else (let (done, g) = kernel.pwm_config r.lines r.pwm_hz (100 - clamp_pct pct) in
              (rc_of done, record r1 { lines = g })))

  pub set_pwm_frequency : Rpi G → ℤ → Rc × Rpi G
  set_pwm_frequency r hz =
      if not (is_pos hz)
      then (driver 0, r)
      else if r.has_pwm
      then (let (done, g) = kernel.pwm_config r.lines hz (100 - r.fan_pct) in
          (rc_of done, record r { pwm_hz = hz; lines = g }))
      else (ok, record r { pwm_hz = hz })

  pub read_input : Rpi G → Input → Bool
  read_input r i = if r.in_line i then kernel.gpio_get r.lines i else false

  -- one turn of the loop of `all_off`
  pub off_line : Rpi G → Output → Rpi G
  off_line r o =
      if r.out o
      then record r {
        lines = (kernel.gpio_set r.lines o false).1;
        state = set_relay r.state o false;
      }
      else r

  pub all_off : Rpi G → Rpi G
  unfolding off_line
  all_off r =
      let r1 = off_line (off_line (off_line (off_line r power) fan) auger) igniter in
      record r1 {
        lines = if r1.has_pwm then kernel.pwm_enable r1.lines false else r1.lines;
        fan_pct = 0;
      }

  -- `pf_platform_rpi`
  instance abbrev pub rpi_ops : Platform (Rpi G)
  rpi_ops = record {
    set_output = set_output;
    set_fan_pct = set_fan_pct;
    set_pwm_frequency = set_pwm_frequency;
    read_input = read_input;
    all_off = all_off;
  }
