-- ===== src/Network/Requests.antt =====
-- src/net/netmgr.c: what becomes of a request to join a network or to switch the hotspot.
use pifire_c.Common.{
  ℕ, zero, suc, [], ◌∷◌, ◌≤◌, ◌≡◌, refl, arith, Bool, true, false, Option, length,
}
use pifire_c.Common.Float.{Double}
use pifire_c.Text.{Bytes, take}
use pifire_c.Network.{
  Net, Wifi, NetState, is_connecting, next_state, refresh, hotspot_up, hotspot_down, take_request,
  joined, join_error, do_connect, connect, request_hotspot, hotspot_password, default_psk,
  or_default,
}
use pifire_c.Network.Thread.{Thread, turn, boot_turn, idle_turn}
use pifire_c.Network.Watchdog.{Around}

module _ {X : Type 0} ⦃wifi : Wifi X⦄ where
  -- a look at the radio never ends or begins a join
  refresh_connecting : (s : Net X) → is_connecting (refresh s).state ≡ is_connecting s.state
  unfolding refresh
  refresh_connecting s = at (s.state) refl
    where
      at :
          (k : NetState)
          → k ≡ s.state
          → is_connecting (next_state k (wifi.wifi_status s.radio).0) ≡ is_connecting k
      at k e = ground arith

  refresh_pending : (s : Net X) → (refresh s).req_connect ≡ s.req_connect
  unfolding refresh
  refresh_pending s = refl

  -- What a join leaves: no request, a state that is settled, and the message exactly of the failure
  -- that the radio reported.
  pub do_connect_settles :
      (s : Net X)
      → let answer = (wifi.wifi_connect (wifi.hotspot_is_up s.radio).1 s.req_ssid s.req_psk).0 in
        ((do_connect s).req_connect ≡ false)
        × (is_connecting (do_connect s).state ≡ false)
        × ((do_connect s).err ≡ join_error s.req_ssid answer)
  unfolding do_connect take_request joined hotspot_up refresh
  do_connect_settles s = ground arith

  -- the requests that are pending and the state agree
  abbrev pub Agrees : Net X → Type 0
  Agrees s = is_connecting s.state ≡ s.req_connect

  refresh-Agrees : (s : Net X) → Agrees s → Agrees (refresh s)
  refresh-Agrees s h = rw (refresh_connecting s, refresh_pending s) h

  hotspot_up-Agrees : (s : Net X) → Agrees s → Agrees (hotspot_up s)
  unfolding hotspot_up
  hotspot_up-Agrees s h =
      refresh-Agrees (record s { radio = (wifi.hotspot_start s.radio s.hs_ssid s.hs_psk).1 }) h

  hotspot_down-Agrees : (s : Net X) → Agrees s → Agrees (hotspot_down s)
  unfolding hotspot_down
  hotspot_down-Agrees s h = refresh-Agrees (record s { radio = wifi.hotspot_stop s.radio }) h

  do_connect-Agrees : (s : Net X) → Agrees (do_connect s)
  do_connect-Agrees s = ground (arith, do_connect_settles s)

module _ {W X : Type 0} ⦃d : Double W⦄ ⦃wifi : Wifi X⦄ where
  turn-Agrees :
      (t : Thread W X) (now : W) (a : Around W) → Agrees t.net → Agrees (turn t now a).0.net
  unfolding turn boot_turn idle_turn
  turn-Agrees t now a h =
      let n = record (t.net) { req_hotspot = false } in
      ground (
        arith,
        refresh-Agrees n h,
        hotspot_up-Agrees n h,
        hotspot_down-Agrees n h,
        do_connect-Agrees n,
      )

  -- The thread and the callers of its functions, a turn or a request at a time.
  pub data Reached (t0 : Thread W X) : Thread W X → Type 0 where
    begun : Reached t0 t0
    turned : {t : Thread W X} (now : W) (a : Around W) → Reached t0 t → Reached t0 (turn t now a).0
    asked_join :
        {t : Thread W X} (ssid : Bytes) (psk : Option Bytes)
        → Reached t0 t
        → Reached t0 (record t { net = (connect t.net ssid psk).1 })
    asked_hotspot :
        {t : Thread W X} (on : Bool)
        → Reached t0 t
        → Reached t0 (record t { net = request_hotspot t.net on })

  -- Between the turns of the thread its state is "connecting" exactly while a join is pending, so a
  -- request is refused only while another waits.
  pub Reached-Agrees : (t0 t : Thread W X) → Agrees t0.net → Reached t0 t → Agrees t.net
  unfolding connect request_hotspot
  Reached-Agrees t0 t h begun = h
  Reached-Agrees t0 t h (turned {t = t'} now a r) = turn-Agrees t' now a (Reached-Agrees t0 t' h r)
  Reached-Agrees t0 t h (asked_join {t = t'} ssid psk r) =
      let before = Reached-Agrees t0 t' h r in ground arith
  Reached-Agrees t0 t h (asked_hotspot {t = t'} on r) = Reached-Agrees t0 t' h r

  -- The turn after a request to join takes it: no request is left, the state is not "connecting",
  -- and the message is empty if the radio joined and else says the name and the reason.
  pub turn_joins :
      (t : Thread W X) (now : W) (a : Around W)
      → t.net.req_connect ≡ true
      → let net = t.net in
        let after = (turn t now a).0.net in
        (after.req_connect ≡ false)
        × (is_connecting after.state ≡ false)
        × (after.err
            ≡ join_error net.req_ssid
                (wifi.wifi_connect (wifi.hotspot_is_up net.radio).1 net.req_ssid net.req_psk).0)
  unfolding turn
  turn_joins t now a h = ground (arith, do_connect_settles (record (t.net) { req_hotspot = false }))

  -- A request to switch the hotspot that comes while a join is pending is dropped by the turn that
  -- takes the join: the turn leaves the same as without it, but for the flag that says which way.
  pub hotspot_request_dropped :
      (t : Thread W X) (on : Bool) (now : W) (a : Around W)
      → t.net.req_connect ≡ true
      → let asked = record t { net = request_hotspot t.net on } in
        let after = (turn asked now a).0.net in
        (after.req_hotspot ≡ false)
        × (after.req_connect ≡ false)
        × (after.radio ≡ (turn t now a).0.net.radio)
        × (after.state ≡ (turn t now a).0.net.state)
        × (after.hs_active ≡ (turn t now a).0.net.hs_active)
  unfolding turn request_hotspot do_connect take_request joined hotspot_up refresh
  hotspot_request_dropped t on now a h = ground arith

length-take : (n : ℕ) (s : Bytes) → length (take n s) ≤ n
length-take zero s = omega arith
length-take (suc n) [] = omega arith
length-take (suc n) (a ∷ s) = omega (arith, length-take n s)

-- The password of the hotspot has the 8 to 63 bytes that a hotspot takes, whatever the settings say.
pub hotspot_password_fits :
    (setting : Option Bytes)
    → (8 ≤ length (hotspot_password setting)) × (length (hotspot_password setting) ≤ 63)
hotspot_password_fits setting = ground (arith, length-take 63 (or_default default_psk setting))
