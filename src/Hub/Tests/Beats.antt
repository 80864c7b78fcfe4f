-- ===== src/Hub/Tests/Beats.antt =====
-- A heartbeat of a node with one link.
use light_pn.Prelude.{replicate, ◌≡◌, refl, [], ◌∷◌, some, pos}
use light_pn.Prelude.Map.{lookup}
use light_pn.Hub.State.{Hub, World}
use light_pn.Metrics.{NodeRing, blank}
use light_pn.Hub.Session.{handle_heartbeat}
use light_pn.Hub.Handshakes.{Keeps, handle_heartbeat-Keeps}
use light_pn.Hub.Tests.{some_json, world, rt, hub, request}
use light_pn.Metrics.{ingest}

abbrev beating : World Unit
beating = record world {
  heartbeats = some_json (record {
    ts = pos 90;
    sys = record {
      cpu_pct = tt;
      load1 = tt;
      mem_used = 1;
      mem_total = 2;
      disk_used = 1;
      disk_total = 2;
      net_rx = 0;
      net_tx = 0;
      uptime_s = 1;
    };
    wg =
        record {
          peer_node_id = "b";
          last_handshake_ts = pos 80;
          rx_bytes = 1;
          tx_bytes = 1;
          endpoint = "";
        }
        ∷ [];
  });
}

abbrev ring : NodeRing Unit
ring = record {
  slots = replicate 4 (blank world.floats);
  last_ts = pos 30;
  prev_rx = 0;
  prev_tx = 0;
  prev_ts = pos 30;
}

abbrev beating_hub : Hub Unit
beating_hub = record hub { metrics = ("a", ring) ∷ [] }

beaten : (h : Hub Unit) × (handle_heartbeat beating 0 request 90 beating_hub ≡ some h)
unfolding handle_heartbeat lookup ingest
beaten = (_, refl)

rt_found : lookup "l" beating_hub.links ≡ some rt
unfolding lookup
rt_found = refl

handle_heartbeat-Keeps_example : Keeps "l" rt beaten.0.links
handle_heartbeat-Keeps_example =
    handle_heartbeat-Keeps beating 0 request 90 beating_hub beaten.0 "l" rt beaten.1 rt_found
