-- ===== src/Network/Tests.antt =====
-- Examples of the network's thread: a radio that joins one network and no other.
use pifire_c.Common.{
  ◌+◌, ◌≤◌, ◌≡◌, refl, arith, Bool, true, false, none, some, [], ◌∷◌, if◌then◌else◌,
}
use pifire_c.Common.Int.{pos}
use pifire_c.Text.{same}
use pifire_c.Mode.{bytes, stop}
use pifire_c.Network.{Net, Wifi, WifiStatus, offline, connecting, request_hotspot}
use pifire_c.Network.Thread.{Thread, turn}
use pifire_c.Network.Requests.{hotspot_request_dropped}
use pifire_c.Network.Watchdog.{Watch, Around, primary, watchdog}
use pifire_c.Network.Watchdog.Reboot.{rested, looked, resets_bounded}
use pifire_c.Sample.{Centi, centi, whole}

-- whether it is joined, and whether its hotspot is up
abbrev status_of : Bool × Bool → WifiStatus
status_of (up, hs) = record { ssid = []; ip = []; signal = pos 82; hotspot_on = hs; connected = up }

instance abbrev radio_ops : Wifi (Bool × Bool)
radio_ops = record {
  wifi_status = λ x. (status_of x, x);
  wifi_connect = λ x ssid psk.
      if same ssid (bytes "home")
      then (none, (true, false))
      else (some (bytes "not found"), (false, false));
  hotspot_start = λ x ssid psk. (true, (false, true));
  hotspot_stop = λ x. (false, false);
  hotspot_is_up = λ x. (x.1, x);
}

abbrev net : Net (Bool × Bool)
net = record {
  state = offline;
  ssid = [];
  ip = [];
  err = [];
  hs_ssid = bytes "PiFire-0000";
  hs_psk = bytes "pifire1234";
  signal = pos 0;
  hs_active = false;
  req_connect = false;
  req_hotspot = false;
  req_hotspot_on = false;
  req_ssid = [];
  req_psk = [];
  api_hotspot = false;
  radio = (false, false);
}

-- two reloads behind it, and no gateway for two minutes
abbrev watch : Watch Centi
watch = record { next = whole 0; fail_since = whole 880; resets = 2; ever_online = true }

abbrev stuck : Around Centi
stuck = record {
  reachable = false;
  diagnosis = bytes "hung";
  mode = stop;
  readings = (record { role = primary; valid = true; temp_c = whole 20 }) ∷ [];
  wall = whole 90000;
  last_reboot = whole 0;
}

abbrev thread : Thread Centi (Bool × Bool)
thread = record {
  net = net;
  sim = false;
  force = false;
  force_setting = false;
  boot_deadline = whole 45;
  tick = 0;
  watch = watch;
}

-- a join is pending
abbrev asked : Thread Centi (Bool × Bool)
asked = record thread {
  net = record net { state = connecting; req_connect = true; req_ssid = bytes "away" };
}

hotspot_request_dropped_example :
    let wanted = record asked { net = request_hotspot asked.net true } in
    let after = (turn wanted (whole 1000) stuck).0.net in
    (after.req_hotspot ≡ false)
    × (after.req_connect ≡ false)
    × (after.radio ≡ (turn asked (whole 1000) stuck).0.net.radio)
    × (after.state ≡ (turn asked (whole 1000) stuck).0.net.state)
    × (after.hs_active ≡ (turn asked (whole 1000) stuck).0.net.hs_active)
hotspot_request_dropped_example = hotspot_request_dropped asked true (whole 1000) stuck refl

-- one look that finds the radio hung for the first time
resets_bounded_example : 1 + 0 ≤ 2 + 0
unfolding watchdog
resets_bounded_example =
    resets_bounded (record watch { resets = 0 }) 1 0 (omega arith)
      (looked (record watch { resets = 0 }) false offline false (whole 1000) stuck
        (rested (watchdog (record watch { resets = 0 }) false offline false (whole 1000) stuck).0))
