-- ===== src/Network/Thread.antt =====
-- src/net/netmgr.c, `net_thread`: one turn of its loop. `force_setting` is the setting
-- network.force_setup, of which `force` is the value read when the thread began.
use pifire_c.Common.{ℕ, suc, ◌%◌, Bool, false, List, [], ◌==◌, if◌then◌else◌}
use pifire_c.Common.Float.{Double, ◌<ᵈ◌}
use pifire_c.Network.{Net, Wifi, is_boot, refresh, hotspot_up, hotspot_down, do_connect}
use pifire_c.Network.Watchdog.{Watch, Around, Act, watchdog}

pub record Thread (W X : Type 0) : Type 0 where
  pub net : Net X
  pub sim : Bool
  pub force : Bool
  pub force_setting : Bool
  pub boot_deadline : W
  pub tick : ℕ
  pub watch : Watch W

module _ {W X : Type 0} ⦃d : Double W⦄ ⦃wifi : Wifi X⦄ where
  -- waiting for a network after the start
  unfoldable pub boot_turn : Thread W X → W → Thread W X
  boot_turn t now =
      if t.force
      then record t { force_setting = false; net = hotspot_up t.net }
      else if t.boot_deadline <ᵈ now
      then record t { net = hotspot_up t.net }
      else record t { net = refresh t.net }

  -- up, or given up
  unfoldable pub idle_turn : Thread W X → W → Around W → Thread W X × List (Act W)
  idle_turn t now a =
      let tick = suc t.tick in
      let net = if tick % 10 == 0 then refresh t.net else t.net in
      let (w, acts) = watchdog t.watch t.sim net.state net.hs_active now a in
      (record t { tick = tick; net = net; watch = w }, acts)

  unfoldable pub turn : Thread W X → W → Around W → Thread W X × List (Act W)
  unfolding boot_turn idle_turn
  turn t now a =
      let n = record (t.net) { req_hotspot = false } in
      let t1 = record t { net = n } in
      if t.net.req_connect
      then (record t1 { net = do_connect n }, [])
      else if t.net.req_hotspot
      then (record t1 { net = if t.net.req_hotspot_on then hotspot_up n else hotspot_down n }, [])
      else if is_boot t.net.state
      then (boot_turn t1 now, [])
      else idle_turn t1 now a
