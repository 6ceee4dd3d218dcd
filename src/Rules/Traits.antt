-- ===== src/Rules/Traits.antt =====
-- src/features/rules.c, the catalogue: what can be asked of the grill, and as what.
use Prim.Native.String.{String}
use pifire_c.Common.{Bool, true, false, ◌&&◌, Option, none, some, List, [], ◌∷◌, if◌then◌else◌}
use pifire_c.Mode.{bytes}
use pifire_c.Text.{Bytes, same}

-- `trait_def`; `delta` marks a temperature that is a difference
pub record TraitDef : Type 0 where
  pub domain : Bytes
  pub trait : Bytes
  pub kind : Bytes
  pub unit : Bytes
  pub label : Bytes
  pub delta : Bool

-- a row
abbrev pub trait_def : String → String → String → String → String → Bool → TraitDef
trait_def domain trait kind unit label delta = record {
  domain = bytes domain;
  trait = bytes trait;
  kind = bytes kind;
  unit = bytes unit;
  label = bytes label;
  delta = delta;
}

-- `TRAIT_TABLE`
abbrev pub trait_table : List TraitDef
trait_table =
    trait_def "probe" "temp" "temperature" "deg" "Temperature" false
    ∷ trait_def "probe" "target" "temperature" "deg" "Target" false
    ∷ trait_def "probe" "over" "temperature" "deg" "Degrees Past Target" true
    ∷ trait_def "probe" "eta" "duration" "s" "Time To Target" false
    ∷ trait_def "probe" "battery" "percent" "%" "Battery" false
    ∷ trait_def "probe" "signal" "number" "bars" "Signal Bars" false
    ∷ trait_def "probe" "rssi" "number" "dBm" "Signal Strength" false
    ∷ trait_def "probe" "connected" "bool" "" "Connected" false
    ∷ trait_def "probe" "wireless" "bool" "" "Is Bluetooth" false
    ∷ trait_def "probe" "name" "string" "" "Name" false
    ∷ trait_def "probe" "in_use" "bool" "" "In This Cook" false
    ∷ trait_def "grill" "mode" "enum" "" "Mode" false
    ∷ trait_def "grill" "temp" "temperature" "deg" "Pit Temperature" false
    ∷ trait_def "grill" "over" "temperature" "deg" "Degrees From Set Point" true
    ∷ trait_def "grill" "setpoint" "temperature" "deg" "Set Point" false
    ∷ trait_def "grill" "error" "string" "" "Error Code" false
    ∷ trait_def "grill" "cook_elapsed" "duration" "s" "Cook Time" false
    ∷ trait_def "grill" "mode_remaining" "duration" "s" "Time Left In Mode" false
    ∷ trait_def "grill" "aiming_s" "duration" "s" "Time Since Mode Or Target Changed" false
    ∷ trait_def "grill" "lid_open" "bool" "" "Lid Open" false
    ∷ trait_def "grill" "heating" "bool" "" "Heating To Working Temperature" false
    ∷ trait_def "grill" "heating_to" "string" "" "Heating Text" false
    ∷ trait_def "output" "state" "bool" "" "State" false
    ∷ trait_def "output" "percent" "percent" "%" "Fan Percent" false
    ∷ trait_def "hopper" "level" "percent" "%" "Hopper Level" false
    ∷ trait_def "controller" "duty" "number" "" "Auger Duty" false
    ∷ trait_def "controller" "feedforward" "number" "" "Feed Forward" false
    ∷ trait_def "weather" "temp" "temperature" "deg" "Outdoor Temperature" false
    ∷ trait_def "weather" "wind" "number" "km/h" "Wind" false
    ∷ trait_def "weather" "humidity" "percent" "%" "Humidity" false
    ∷ trait_def "system" "wifi_signal" "percent" "%" "Wi-Fi Signal" false
    ∷ trait_def "system" "tailscale_online" "bool" "" "Tailscale Online" false
    ∷ trait_def "system" "update_available" "bool" "" "PiFire Update Available" false
    ∷ trait_def "system" "update_version" "string" "" "PiFire Update Version" false
    ∷ trait_def "system" "system_updates" "number" "" "System Updates Pending" false
    ∷ trait_def "system" "backup_done" "bool" "" "Backup Just Finished" false
    ∷ trait_def "system" "backup_failed" "bool" "" "Last Backup Failed" false
    ∷ trait_def "system" "restarted" "bool" "" "Grill Restarted" false
    ∷ trait_def "system" "restart_reason" "string" "" "Restart Reason" false
    ∷ trait_def "timer" "remaining" "duration" "s" "Time Remaining" false
    ∷ trait_def "timer" "running" "bool" "" "Timer Running" false
    ∷ trait_def "step" "elapsed" "duration" "s" "Time In This Step" false
    ∷ trait_def "step" "food_max" "temperature" "deg" "Hottest Food Probe" false
    ∷ trait_def "step" "food_min" "temperature" "deg" "Coolest Food Probe" false
    ∷ trait_def "step" "food_rested" "temperature" "deg" "Hottest Food Probe, Rested" false
    ∷ trait_def "step" "food_avg" "temperature" "deg" "Average Food Probe" false
    ∷ trait_def "step" "food_battery" "percent" "%" "Lowest Food Probe Battery" false
    ∷ trait_def "step" "food_eta" "duration" "s" "Soonest Food Probe To Its Target" false
    ∷ trait_def "step" "prompt" "bool" "" "You Confirmed" false
    ∷ trait_def "step" "lid" "bool" "" "Lid Opened" false
    ∷ []

-- `trait_def_of`
pub trait_def_of : List TraitDef → Bytes → Bytes → Option TraitDef
trait_def_of [] domain trait = none
trait_def_of (d ∷ l) domain trait =
    let rest = trait_def_of l domain trait in
    if same d.domain domain && same d.trait trait then some d else rest

-- a temperature's `delta`
abbrev pub delta_of : Option TraitDef → Option Bool
delta_of none = none
delta_of (some d) = if same d.kind (bytes "temperature") then some d.delta else none
