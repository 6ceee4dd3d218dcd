-- ===== src/Control/Tests/Grill.antt =====
-- src/core/control.c: the grill of the examples, which models no code.
use pifire_c.Common.{refl, true, false, [], ◌∷◌, none, some}
use pifire_c.Common.Int.{pos}
use pifire_c.Mode.{stop, hold, shutdown, power, fan, auger, fahrenheit}
use pifire_c.Outputs.{Relays, Outputs, set_relay, all_off_relays}
use pifire_c.Outputs.Only.{LetsGo}
use pifire_c.CmdQueue.{Cmd, CmdType}
use pifire_c.CmdQueue
use pifire_c.Sample
use pifire_c.Sample.{Centi, whole, centi, board}
use pifire_c.Control.{Conf, Machine, Parts, RecipeStep, RecipeRun, LidHist}
use pifire_c.Control.Recipe.Follow.{Ending}
use pifire_c.Notify.{after_none}
use pifire_c.Control.Step.{Others}

instance abbrev pub board_goes : LetsGo Relays
board_goes = record { off_succeeds = λ h o. refl }

abbrev pub conf : Conf Centi
conf = record {
  units = fahrenheit;
  hold_cycle_s = whole 20;
  smoke_on_s = whole 15;
  smoke_off_s = whole 45;
  pmode = 2;
  u_min = some (pos 10);
  u_max = some (pos 90);
  lid_detect = true;
  lid_threshold_pct = whole 15;
  lid_pause_s = whole 60;
  lid_resume_rise_c = whole 3;
  fan_pid = false;
  restart_hot_c = whole 65;
  min_target_c = whole 50;
  max_target_c = whole 300;
  allow_manual = false;
  manual_override_s = whole 30;
  auger_max_on_s = whole 60;
  error_cooldown_fan_s = whole 600;
  prime_on_startup_g = whole 0;
  after_startup_mode = hold;
  after_startup_setpoint_c = whole 110;
  ss_ranges_c = whole 10 ∷ whole 25 ∷ [];
  ss_prof = (whole 15, 0) ∷ (whole 15, 1) ∷ (whole 15, 2) ∷ [];
  startup_pwm_duty = pos 100;
  shutdown_s = whole 240;
  auto_power_off = false;
  splus_default = false;
  splus_max_c = whole 105;
  splus_on_s = whole 10;
  splus_off_s = whole 10;
  splus_duty = pos 75;
  splus_ramp = false;
  dc_fan = false;
  pwm_update_s = whole 10;
  pwm_min_duty = pos 20;
  pwm_max_duty = pos 100;
  pwm_ranges_c = whole 3 ∷ whole 7 ∷ [];
  pwm_profiles = pos 20 ∷ pos 50 ∷ [];
  augerrate = some (pos 30);
  keepwarm_c = whole 70;
  keepwarm_splus = false;
  prime_ignition = false;
  clear_history_on_startup = true;
}

abbrev pub lid_hist : LidHist Centi
lid_hist = record { t = λ i. whole 0; c = λ i. whole 0; n = 0; head = 0; last = whole 0 }

abbrev pub cooking : RecipeStep Centi
cooking = record {
  mode = hold;
  setpoint_c = whole 120;
  s_plus = false;
  message = "";
  lead_s = whole 0;
}

abbrev pub ending : RecipeStep Centi
ending = record {
  mode = shutdown;
  setpoint_c = whole 0;
  s_plus = false;
  message = "Done";
  lead_s = whole 0;
}

abbrev pub recipe : RecipeRun Centi
recipe = record {
  active = true;
  triggered = false;
  waiting = false;
  lead_fired = false;
  prompt_given = false;
  lid_seen = false;
  flags = λ i. 0;
  said = false;
  left_running = false;
  step = 0;
  steps = cooking ∷ ending ∷ [];
  step_start = whole 900;
  at_temp_since = whole 0;
  last_eval = whole 0;
}

-- power, the fan and the auger on, the auger for 80 s
abbrev pub burning : Outputs Relays
burning = record {
  device = some (set_relay (set_relay (set_relay all_off_relays power true) fan true) auger true);
  state = set_relay (set_relay (set_relay all_off_relays power true) fan true) auger true;
  fan_pct = pos 0;
  latched = false;
}

abbrev pub grill : Machine Centi Relays
grill = record {
  base = record (Sample.holding) { outputs = burning };
  conf = conf;
  next_mode = hold;
  mode_start = whole 100;
  aim_since = whole 100;
  aim_pit_c = whole 20;
  req_pending = false;
  req_mode = stop;
  req_setpoint_c = whole 0;
  s_plus = false;
  pwm_control = false;
  duty_cycle = pos 100;
  cycle = record {
    start = whole 990;
    cycle_s = whole 20;
    on_s = whole 15;
    u_raw = some (pos 75);
    u_applied = some (pos 75);
    saturated = pos 0;
    active = true;
  };
  ccfg = record {
    cycle_s = whole 20;
    u_min = some (pos 10);
    u_max = some (pos 90);
    max_on_s = whole 60;
  };
  has_controller = true;
  is_builtin = true;
  u_raw = some (pos 75);
  u_applied = some (pos 75);
  saturated = pos 0;
  ctrl_reset_needed = false;
  fan_pid_active = false;
  lid_open_until = whole 0;
  lid_low_c = whole 0;
  recoveries = 0;
  auger_rest_until = whole 0;
  fan_toggle_t = whole 900;
  fan_update_t = whole 900;
  fan_ramping = false;
  ramp_end_t = whole 0;
  manual_until = λ o. whole 0;
  prime_duration_s = whole 0;
  prime_amount_g = whole 0;
  ss_profile = 0;
  autotune_last_load = whole 0;
  autotune_u_center = whole 0;
  ambient_from_probe = false;
  auger_on_since = whole 920;
  auger_total_on_s = whole 300;
  cook_start_wall = whole 5000;
  cook_max_pit_c = whole 125;
  power_off_requested = false;
  cooking = true;
  recipe = recipe;
  lid_hist = lid_hist;
  asks = [];
}

abbrev pub parts : Parts Centi
parts = record {
  uff = λ sp ambient lo hi. lo;
  wall = whole 6000;
  ambient_last = none;
  controller_u = some (pos 40);
  pid_loads = true;
  autotune_u = some (pos 30);
  autotune_ends = none;
  recipe_steps = λ n. some (cooking ∷ ending ∷ []);
}

abbrev pub now : Centi
now = whole 1000

abbrev pub stop_it : Cmd Centi
stop_it = CmdQueue.zeroed CmdType.stop_cmd

-- a condition that does not hold yet
abbrev pub unmet : Ending Centi
unmet = record {
  mentions_lid = false;
  wants_prompt = false;
  is_empty = false;
  done = false;
  done_but_cook = false;
  done_again = false;
  eta_s = whole 600;
}

abbrev pub others : Others Centi Relays
others = record {
  elsewhere = λ m cmd. m;
  read_sensors = λ m. m;
  notify = λ m t. m;
  pending_action = λ m. after_none;
  ending = λ m. unmet;
  learn = λ m t. m;
}
