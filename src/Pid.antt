-- ===== src/Pid.antt =====
-- src/controllers/pid.c: the PID controller. The JSON of its configuration is the record `PidCfg`; what
-- it shows of itself as JSON is left out.
pub mod Windup
mod Tests
use pifire_c.Common.{
  ℕ, Bool, true, false, not, ◌&&◌, Option, none, some, List, [], ◌∷◌, if◌then◌else◌,
}
use pifire_c.Common.Int.{negsuc}
use pifire_c.Common.Float.{Double, ◌<ᵈ◌, ◌≤ᵈ◌, ◌==ᵈ◌, ◌+ᵈ◌, ◌-ᵈ◌, ◌*ᵈ◌, ◌/ᵈ◌, nought, is_finite}
use pifire_c.Mode.{Units}
use pifire_c.Notify.Carry.{delta_to_c}

-- `pid_t_`
pub record Pid (W : Type 0) : Type 0 where
  pub pb_c : W
  pub ti : W
  pub td : W
  pub center : W
  pub kp : W
  pub ki : W
  pub kd : W
  pub inter : W
  pub inter_max : W
  pub last_pit : W
  pub last_t : W
  pub have_last : Bool
  pub p : W
  pub i : W
  pub d : W
  pub u : W

-- the options, each where it is a number
pub record PidCfg (W : Type 0) : Type 0 where
  pub units : Units
  pub pb : Option W
  pub ti : Option W
  pub td : Option W
  pub center : Option W

-- `pf_ctrl_in`, the fields that are read here
pub record CtrlIn (W : Type 0) : Type 0 where
  pub now_s : W
  pub pit_c : W
  pub setpoint_c : W
  pub cycle_time_s : W
  pub u_prev_applied : W

module _ {W : Type 0} ⦃f : Double W⦄ where
  -- `pf_pid_cfg_num`
  abbrev pub cfg_num : Option W → W → W
  cfg_num none fallback = fallback
  cfg_num (some x) fallback = x

  abbrev pub minus_1 : W
  minus_1 = f.of_int (negsuc 0)

  -- -x
  abbrev pub negative : W → W
  negative x = minus_1 *ᵈ x

  pub calc_gains : Pid W → Pid W
  calc_gains s =
      let kp = if s.pb_c ==ᵈ nought then nought else minus_1 /ᵈ s.pb_c in
      let ki = if s.ti ==ᵈ nought then nought else kp /ᵈ s.ti in
      record s {
        kp = kp;
        ki = ki;
        kd = kp *ᵈ s.td;
        inter_max =
            if not (ki ==ᵈ nought)
            then f.fabs ((if not (s.center ==ᵈ nought) then s.center else f.lit 1 1) /ᵈ ki)
            else nought;
      }

  pub apply_config : Pid W → PidCfg W → Pid W
  unfolding calc_gains
  apply_config s c = calc_gains (record s {
    pb_c = delta_to_c (cfg_num c.pb (f.lit 60 1)) c.units;
    ti = cfg_num c.ti (f.lit 180 1);
    td = cfg_num c.td (f.lit 45 1);
    center = cfg_num c.center (f.lit 1 2);
  })

  abbrev pub blank : Pid W
  blank = record {
    pb_c = nought;
    ti = nought;
    td = nought;
    center = nought;
    kp = nought;
    ki = nought;
    kd = nought;
    inter = nought;
    inter_max = nought;
    last_pit = nought;
    last_t = nought;
    have_last = false;
    p = nought;
    i = nought;
    d = nought;
    u = nought;
  }

  pub create : PidCfg W → Pid W
  unfolding apply_config
  create c = apply_config blank c

  -- what bounds the integrator
  abbrev pub bound_inter : Pid W → W → W
  bound_inter s x = f.fmax (negative s.inter_max) (f.fmin s.inter_max x)

  pub reset : Pid W → CtrlIn W → Pid W
  reset s c =
      let e = c.pit_c -ᵈ c.setpoint_c in
      let want_i = c.u_prev_applied -ᵈ (s.kp *ᵈ e +ᵈ s.center) in
      let inter = if not (s.ki ==ᵈ nought) then want_i /ᵈ s.ki else nought in
      record s {
        last_pit = c.pit_c;
        last_t = c.now_s;
        have_last = true;
        inter = if nought <ᵈ s.inter_max then bound_inter s inter else inter;
      }

  -- the time since the last update, or a cycle
  abbrev pub time_step : Pid W → CtrlIn W → W
  time_step s c =
      let dt = c.now_s -ᵈ s.last_t in
      if dt ≤ᵈ nought then if nought <ᵈ c.cycle_time_s then c.cycle_time_s else f.lit 1 1 else dt

  -- the integrator after an update
  unfoldable pub integrate : Pid W → W → W → W
  integrate s e dt =
      let kept = if is_finite s.inter then s.inter else nought in
      let sum = if is_finite e && is_finite dt then kept +ᵈ e *ᵈ dt else kept in
      if not (s.center ==ᵈ nought) then bound_inter s sum else sum

  -- the rest of `update`; what is returned is its `u`
  pub advance : Pid W → CtrlIn W → Pid W
  unfolding integrate
  advance s c =
      let dt = time_step s c in
      let e = c.pit_c -ᵈ c.setpoint_c in
      let p = s.kp *ᵈ e +ᵈ s.center in
      let inter = integrate s e dt in
      let i = s.ki *ᵈ inter in
      let der = s.kd *ᵈ ((c.pit_c -ᵈ s.last_pit) /ᵈ dt) in
      record s {
        p = p;
        inter = inter;
        i = i;
        d = der;
        u = f.fmax minus_1 (f.fmin (f.lit 2 1) (p +ᵈ i +ᵈ der));
        last_pit = c.pit_c;
        last_t = c.now_s;
      }

  pub update : Pid W → CtrlIn W → Pid W
  unfolding reset advance
  update s c = advance (if s.have_last then s else reset s c) c

  pub configure : Pid W → PidCfg W → Pid W
  unfolding apply_config
  configure s c = record (apply_config s c) { inter = nought; have_last = false }
