-- ===== src/Network.antt =====
-- src/net/netmgr.c and src/net/netmgr.h: the state machine of the network. What src/net/wifi.c does,
-- which runs the commands of NetworkManager, is the interface `Wifi`. A function that holds the lock
-- is one step. Log lines and rows of the events table are left out.
mod Tests
pub mod Watchdog
pub mod Thread
pub mod Requests
use pifire_c.Common.{
  ℕ, suc, ◌≡◌, Bool, true, false, not, ◌&&◌, ◌||◌, Option, none, some, List, [], ◌++◌, length, ltb,
  if◌then◌else◌,
}
use pifire_c.Common.Int.{ℤ, pos}
use pifire_c.Text.{Bytes, take, strlcpy}
use pifire_c.Mode.{bytes}

-- `pf_net_state`
pub data NetState : Type 0 where
  boot online hotspot connecting offline : NetState

abbrev pub state_name : NetState → Bytes
state_name boot = bytes "boot"
state_name online = bytes "online"
state_name hotspot = bytes "hotspot"
state_name connecting = bytes "connecting"
state_name offline = bytes "offline"

abbrev pub is_boot : NetState → Bool
is_boot boot = true
is_boot _ = false

abbrev pub is_connecting : NetState → Bool
is_connecting connecting = true
is_connecting _ = false

-- The fields of `pf_wifi_status` that are read.
pub record WifiStatus : Type 0 where
  pub ssid : Bytes
  pub ip : Bytes
  pub signal : ℤ
  pub hotspot_on : Bool
  pub connected : Bool

-- `pf_wifi_status`, `pf_wifi_connect` (with its message where it fails), `pf_hotspot_start`,
-- `pf_hotspot_stop` and `pf_hotspot_is_up`, on the state `X` of the radio
pub record Wifi (X : Type 0) : Type 0 where
  pub wifi_status : X → WifiStatus × X
  pub wifi_connect : X → Bytes → Bytes → Option Bytes × X
  pub hotspot_start : X → Bytes → Bytes → Bool × X
  pub hotspot_stop : X → X
  pub hotspot_is_up : X → Bool × X

-- the globals, and the radio; `api_hotspot` is what `pf_api_set_hotspot_active` was last told
pub record Net (X : Type 0) : Type 0 where
  pub state : NetState
  pub ssid : Bytes
  pub ip : Bytes
  pub err : Bytes
  pub hs_ssid : Bytes
  pub hs_psk : Bytes
  pub signal : ℤ
  pub hs_active : Bool
  pub req_connect : Bool
  pub req_hotspot : Bool
  pub req_hotspot_on : Bool
  pub req_ssid : Bytes
  pub req_psk : Bytes
  pub api_hotspot : Bool
  pub radio : X

-- the state after a look at the radio
abbrev pub next_state : NetState → WifiStatus → NetState
next_state connecting st = connecting
next_state s st =
    if st.hotspot_on
    then hotspot
    else if st.connected
    then online
    else if is_boot s
    then boot
    else offline

-- `Could not join %.60s: %.160s`, or no message
abbrev pub join_error : Bytes → Option Bytes → Bytes
join_error ssid none = []
join_error ssid (some e) = bytes "Could not join " ++ take 60 ssid ++ bytes ": " ++ take 160 e

abbrev pub or_empty : Option Bytes → Bytes
or_empty none = []
or_empty (some s) = s

-- the hotspot's name and password from the settings, the name made from the address where there is
-- none, the password replaced where it is too short
abbrev pub default_psk : Bytes
default_psk = bytes "pifire1234"

abbrev pub or_default : Bytes → Option Bytes → Bytes
or_default dflt none = dflt
or_default dflt (some s) = s

abbrev pub hotspot_name : Option Bytes → Bytes → Bytes
hotspot_name setting made =
    let s = strlcpy 64 (or_default [] setting) in
    strlcpy 64 (if ltb 0 (length s) then s else strlcpy 64 made)

abbrev pub hotspot_password : Option Bytes → Bytes
hotspot_password setting =
    let s = strlcpy 64 (or_default default_psk setting) in
    if ltb (length s) 8 then strlcpy 64 default_psk else s

module _ {X : Type 0} ⦃wifi : Wifi X⦄ where
  -- `pf_netmgr_start` before it creates the thread
  pub start : Net X → Option Bytes → Bytes → Option Bytes → Net X
  start s name_setting made psk_setting = record s {
    hs_ssid = hotspot_name name_setting made;
    hs_psk = hotspot_password psk_setting;
  }

  pub refresh : Net X → Net X
  refresh s =
      let (st, x) = wifi.wifi_status s.radio in
      record s {
        ssid = strlcpy 64 st.ssid;
        ip = strlcpy 32 st.ip;
        signal = st.signal;
        hs_active = st.hotspot_on;
        state = next_state s.state st;
        api_hotspot = st.hotspot_on;
        radio = x;
      }

  pub hotspot_up : Net X → Net X
  unfolding refresh
  hotspot_up s = refresh (record s { radio = (wifi.hotspot_start s.radio s.hs_ssid s.hs_psk).1 })

  pub hotspot_down : Net X → Net X
  unfolding refresh
  hotspot_down s = refresh (record s { radio = wifi.hotspot_stop s.radio })

  -- the first locked part of `do_connect`
  pub take_request : Net X → Net X
  take_request s = record s { req_connect = false; state = connecting; err = [] }

  -- what follows the answer of `pf_wifi_connect`, up to the last refresh
  pub joined : Net X → Bool → Option Bytes → Net X
  unfolding hotspot_up
  joined s was_hotspot none = record s { state = online }
  joined s was_hotspot (some e) =
      let s1 = record s { err = join_error s.req_ssid (some e); state = offline } in
      if was_hotspot then hotspot_up s1 else s1

  pub do_connect : Net X → Net X
  unfolding take_request joined refresh
  do_connect s =
      let s1 = take_request s in
      let (up, x) = wifi.hotspot_is_up s1.radio in
      let (answer, x') = wifi.wifi_connect x s1.req_ssid s1.req_psk in
      refresh (joined (record s1 { radio = x' }) up answer)

  -- `pf_netmgr_connect`; the answer is whether it was queued
  pub connect : Net X → Bytes → Option Bytes → Bool × Net X
  connect s ssid psk =
      if not (is_connecting s.state) && not s.req_connect
      then (
        true,
        record s {
          req_ssid = strlcpy 64 ssid;
          req_psk = strlcpy 64 (or_empty psk);
          req_connect = true;
          state = connecting;
          err = [];
        },
      )
      else (false, s)

  -- `pf_netmgr_hotspot`
  pub request_hotspot : Net X → Bool → Net X
  request_hotspot s on = record s { req_hotspot = true; req_hotspot_on = on }

  -- `pf_netmgr_brief` with every pointer given: address, name, signal, hotspot
  pub brief : Net X → ℕ → ℕ → Bytes × Bytes × ℤ × Bool
  brief s ipn ssidn = (
    strlcpy ipn s.ip,
    strlcpy ssidn (if s.hs_active then s.hs_ssid else s.ssid),
    if s.hs_active then pos 0 else s.signal,
    s.hs_active,
  )
