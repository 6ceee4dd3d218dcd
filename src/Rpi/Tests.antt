-- ===== src/Rpi/Tests.antt =====
-- Examples of the Raspberry Pi's driver: four lines, of which the auger's takes no write.
use pifire_c.Common.{◌≡◌, refl, Bool, true, false, if◌then◌else◌}
use pifire_c.Common.Int.{pos}
use pifire_c.Mode.{Output, power, fan, auger, igniter, output_eq}
use pifire_c.Outputs.{Relays, set_relay, all_off_relays}
use pifire_c.Rpi.{Lines, Rpi, all_off}
use pifire_c.Rpi.Wires.{LinesLaws, wire_of, wire-all_off}

instance abbrev chip : Lines Relays
chip = record {
  gpio_set = λ g o on. if output_eq o auger then (false, g) else (true, set_relay g o on);
  gpio_get = λ g i. false;
  pwm_config = λ g hz duty. (true, g);
  pwm_enable = λ g on. g;
}

level_lem :
    (o : Output) (g : Relays) (p : Output) (on : Bool)
    → (chip.gpio_set g o on).1 p ≡ (if (chip.gpio_set g o on).0 then set_relay g o on p else g p)
level_lem power g p on = refl
level_lem fan g p on = refl
level_lem auger g p on = refl
level_lem igniter g p on = refl

instance abbrev chip_laws : LinesLaws Relays
chip_laws = record {
  level = λ g o. g o;
  level-gpio_set = λ g o p on. level_lem o g p on;
  level-pwm_config = λ g hz duty p. refl;
  level-pwm_enable = λ g on p. refl;
}

-- the fan runs, the igniter has no line
abbrev grill : Rpi Relays
grill = record {
  lines = set_relay all_off_relays fan true;
  out = λ o. if output_eq o igniter then false else true;
  in_line = λ i. false;
  has_pwm = true;
  dc_fan = true;
  pwm_hz = pos 25000;
  fan_pct = 0;
  state = set_relay all_off_relays fan true;
}

wire-all_off_example : wire_of (all_off grill) fan ≡ false
wire-all_off_example = wire-all_off grill fan (λ g. refl)
