-- ===== src/Outputs.antt =====
-- src/core/outputs.c and include/pifire/platform.h: the relays, the fan and the latch that an
-- emergency sets. `g_ops` and `g_inst` are `device`: none before `init`, after `shutdown`, or where
-- the platform could not be created. Logging is left out.
pub mod Laws
pub mod Race
pub mod Only
mod Tests
use pifire_c.Common.{
  ℕ, zero, suc, ◌+◌, Bool, true, false, not, Option, none, some, ◌||◌, ◌&&◌, ◌≡◌, if◌then◌else◌,
  ltb, List,
}
use pifire_c.Common.Int.{ℤ, pos, negsuc, is_pos, eq_ℤ}
use pifire_c.Mode.{Output, power, fan, auger, igniter, output_eq}

-- What the functions return: 0, or a negative errno; `driver` is a code of the platform's own.
pub data Rc : Type 0 where
  ok einval eperm enodev ebusy : Rc
  driver : ℕ → Rc

-- `pf_input`
pub data Input : Type 0 where
  selector shutdown_button : Input

-- `g_state`, a flag for each output
abbrev pub Relays : Type 0
Relays = Output → Bool

abbrev pub all_off_relays : Relays
all_off_relays o = false

abbrev pub set_relay : Relays → Output → Bool → Relays
set_relay g o on p = if output_eq o p then on else g p

-- `pf_platform_ops`: the functions take the instance's state and return the new one.
pub record Platform (H : Type 0) : Type 0 where
  pub set_output : H → Output → Bool → Rc × H
  pub set_fan_pct : H → ℤ → Rc × H
  pub set_pwm_frequency : H → ℤ → Rc × H
  pub read_input : H → Input → Bool
  pub all_off : H → H

pub record Outputs (H : Type 0) : Type 0 where
  pub device : Option H
  pub state : Relays
  pub fan_pct : ℤ
  pub latched : Bool

abbrev pub is_ok : Rc → Bool
is_ok ok = true
is_ok _ = false

abbrev pub is_fan : Output → Bool
is_fan fan = true
is_fan _ = false

-- `!=` of two `bool`s
abbrev pub differs : Bool → Bool → Bool
differs true b = not b
differs false b = b

-- the outputs by number
abbrev pub output_of : ℕ → Option Output
output_of zero = some power
output_of (suc zero) = some fan
output_of (suc (suc zero)) = some auger
output_of (suc (suc (suc zero))) = some igniter
output_of (suc (suc (suc (suc n)))) = none

abbrev pub bit : Bool → ℕ → ℕ
bit true n = n
bit false n = 0

module _ {H : Type 0} ⦃ops : Platform H⦄ where
  abbrev pub all_off_device : Option H → Option H
  all_off_device none = none
  all_off_device (some h) = some (ops.all_off h)

  -- `g_ops->all_off`, then `memset(g_state, 0)` and `g_fan_pct = 0`: the body that
  -- `pf_outputs_init`, `pf_outputs_all_off` and `pf_outputs_emergency_off` share.
  abbrev pub drive_off : Outputs H → Outputs H
  drive_off s = record s {
    device = all_off_device s.device;
    state = all_off_relays;
    fan_pct = pos 0;
  }

  pub init : Outputs H → Option H → Outputs H
  init s inst = drive_off (record s { device = inst })

  -- The instance that `shutdown` switches off is destroyed with it; the second part is its last state.
  pub shutdown : Outputs H → Outputs H × Option H
  shutdown s = (record s { device = none }, all_off_device s.device)

  -- the part of `pf_outputs_set` that writes to the platform
  set_device : Outputs H → H → Output → Bool → Rc × Outputs H
  set_device s h o on =
      let (rc, h') = ops.set_output h o on in
      (
        rc,
        record s {
          device = some h';
          state = if is_ok rc then set_relay s.state o on else s.state;
          fan_pct = if is_fan o && not on then pos 0 else s.fan_pct;
        },
      )

  -- `pf_outputs_set` from the lock on: the second look at the latch, and the write.
  pub set_locked : Outputs H → Output → Bool → Rc × Outputs H
  unfolding set_device
  set_locked s o on = if s.latched && on then (eperm, s) else (elim s.device [
    | none ↦ (enodev, s)
    | some h ↦ if differs (s.state o) on then set_device s h o on else (ok, s)
  ])

  -- `pf_outputs_set` with the first look at the latch before the lock
  unfoldable pub set : Outputs H → Output → Bool → Rc × Outputs H
  unfolding set_locked
  set s o on = if s.latched then (eperm, s) else set_locked s o on

  -- the same behind the test that the number names an output
  pub set_number : Outputs H → ℕ → Bool → Rc × Outputs H
  unfolding set
  set_number s n on = elim (output_of n) [ none ↦ (einval, s) | some o ↦ set s o on ]

  pub set_fan_locked : Outputs H → ℤ → Rc × Outputs H
  set_fan_locked s pct = if s.latched && is_pos pct then (eperm, s) else (elim s.device [
    | none ↦ (enodev, s)
    | some h ↦
        let (rc, h') = ops.set_fan_pct h pct in
        (rc, record s { device = some h'; fan_pct = if is_ok rc then pct else s.fan_pct })
  ])

  pub set_fan_pct : Outputs H → ℤ → Rc × Outputs H
  unfolding set_fan_locked
  set_fan_pct s pct = if s.latched then (eperm, s) else set_fan_locked s pct

  -- `pf_outputs_pwm_frequency` does not look at the latch again under the lock.
  pub pwm_frequency_locked : Outputs H → ℤ → Rc × Outputs H
  pwm_frequency_locked s hz = elim s.device [
    | none ↦ (enodev, s)
    | some h ↦ let (rc, h') = ops.set_pwm_frequency h hz in (rc, record s { device = some h' })
  ]

  pub pwm_frequency : Outputs H → ℤ → Rc × Outputs H
  unfolding pwm_frequency_locked
  pwm_frequency s hz = if s.latched then (eperm, s) else pwm_frequency_locked s hz

  pub all_off : Outputs H → Outputs H
  all_off s = drive_off s

  unfoldable pub get : Outputs H → Output → Bool
  get s o = s.state o

  -- `m |= 1u << i` sets bits that are not set yet, so it adds them.
  pub mask : Outputs H → ℕ
  mask s =
      bit (s.state power) 1 + bit (s.state fan) 2 + bit (s.state auger) 4 + bit (s.state igniter) 8

  pub read_input : Outputs H → Input → Bool
  read_input s i = elim s.device [ none ↦ false | some h ↦ ops.read_input h i ]

  -- The latch is set before the lock is asked for; `timed_out` says that the lock was not had in
  -- time. Both branches drive the outputs off.
  pub emergency_off : Outputs H → Bool → Rc × Outputs H
  emergency_off s timed_out =
      let latched = record s { latched = true } in
      if timed_out then (ebusy, drive_off latched) else (ok, drive_off latched)
