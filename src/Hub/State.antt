-- ===== src/Hub/State.antt =====
-- The state of internal/hub/hub.go and of the sessions of internal/hub/control.go, and what the
-- hub uses of other libraries.
use light_pn.Prelude.{ℕ, String, Bool, true, false, List, Option, ℤ, pos, get_elem?, set}
use light_pn.Prelude.Map.{Map, lookup}
use light_pn.Proto.{
  Bytes, Envelope, Json, EnrollData, EnrollAckData, RegisterData, RegisterAckData, PeerSpec,
  PeerRemoveData, HeartbeatData, AckData, KickData, SvcActionData, ErrorData, WgPeerStatus,
}
use light_pn.Store.{Node, Store}
use light_pn.Store.Ipam.{Netip}
use light_pn.Metrics.{Floats, Metrics}

-- the tunables of internal/hub/config.go
pub record Config : Type 0 where
  pub data_dir : String
  pub control_addr : String
  pub api_addr : String
  pub overlay_cidr : String
  pub public_addr : String
  pub secure_cookie : Bool
  pub heartbeat_s : ℕ
  pub dead_after_s : ℕ
  pub peer_gc_after_s : ℕ
  pub keepalive_s : ℕ
  pub token_ttl_s : ℕ
  pub cert_ttl_days : ℕ
  pub ip_cooldown_s : ℕ

-- Defaults()
abbrev pub defaults : Config
defaults = record {
  data_dir = "/var/lib/lightpn/hub";
  control_addr = "0.0.0.0:7440";
  api_addr = "127.0.0.1:7441";
  overlay_cidr = "100.100.0.0/24";
  public_addr = "";
  secure_cookie = true;
  heartbeat_s = 15;
  dead_after_s = 45;
  peer_gc_after_s = 300;
  keepalive_s = 25;
  token_ttl_s = 900;
  cert_ttl_days = 365;
  ip_cooldown_s = 2_592_000;
}

pub record WgIdent : Type 0 where
  pub pubkey : String
  pub port : ℤ
  pub ip : String
  pub socks_port : ℤ

-- which ack flag of a link a node owns
pub data Side : Type 0 where
  side_a side_b : Side

pub record AckRef : Type 0 where
  pub link_id : String
  pub side : Side

-- `out` is the ordered outbound queue; `direct` are the error frames that the reader writes to the
-- connection itself; `remote_ip` is the source address of the connection.
pub record Session : Type 0 where
  pub node : Node
  pub remote_ip : String
  pub out : List Envelope
  pub direct : List Envelope
  pub registered : Bool
  pub agent_version : String
  pub os : String
  pub last_hb : ℕ
  pub hb_wg : List WgPeerStatus
  pub pending_acks : Map AckRef
  pub closed : Bool

pub record LinkRt (F : Type 0) : Type 0 where
  pub ack_a : Bool
  pub ack_b : Bool
  pub last_hs : ℤ
  pub rx_rate : F
  pub tx_rate : F
  pub prev_rx : ℕ
  pub prev_tx : ℕ
  pub prev_ts : ℕ

-- online / stale / offline of a node, and pending / active / degraded of a link
pub data Status : Type 0 where
  online stale offline pending active degraded : Status

-- the events that the panel sees; a status of `none` is "deleted"
pub data Event : Type 0 where
  node_changed link_changed : String → Option Status → Event
  heartbeat : String → Event
  enrolled : String → String → Event

-- Sessions are pointers: `heap` holds every session that was opened, and `sessions` the place of a
-- node's live one. `replies` is what the channels of the waiting calls hold, `events` what was
-- published, and `next_id` counts the ULIDs that were made.
pub record Hub (F : Type 0) : Type 0 where
  pub cfg : Config
  pub store : Store
  pub metrics : Metrics F
  pub heap : List Session
  pub sessions : Map ℕ
  pub links : Map (LinkRt F)
  pub last_wg : Map WgIdent
  pub revoked : Map Bool
  pub gc_done : Map Bool
  pub conf_wait : Map String
  pub replies : Map Bytes
  pub events : List Event
  pub enroll_tries : Map (List ℕ)
  pub next_id : ℕ

-- What the hub uses of other libraries: fresh ULIDs, decimal printing, encoding/json at each
-- payload (a kick always marshals), net/netip with the text
-- of its error, SHA-256 and the quotients in float64.
pub record World (F : Type 0) : Type 0 where
  pub ulid : ℕ → String
  pub itoa : ℤ → String
  pub peer_spec : Json PeerSpec
  pub peer_remove : Json PeerRemoveData
  pub register : Json RegisterData
  pub register_ack : Json RegisterAckData
  pub heartbeats : Json (HeartbeatData F)
  pub acks : Json AckData
  pub kick : KickData → Bytes
  pub errors : Json ErrorData
  pub empty : Json (Unit {0})
  pub svc_action : Json SvcActionData
  pub enroll : Json EnrollData
  pub enroll_ack : Json EnrollAckData
  pub netip : Netip
  pub bad_range : String
  pub sha256 : String → String
  pub floats : Floats F

module _ {F : Type 0} where
  -- h.sessions[id], a pointer or nil
  abbrev pub session_of : Hub F → String → Option ℕ
  session_of h id = lookup id h.sessions

  abbrev pub session_at : Hub F → ℕ → Option Session
  session_at h r = get_elem? h.heap r

  -- writes through a pointer
  abbrev pub set_session : ℕ → Session → Hub F → Hub F
  set_session r s h = record h { heap = set h.heap r s }

  -- &linkRT{}
  abbrev pub new_link_rt : World F → LinkRt F
  new_link_rt w = record {
    ack_a = false;
    ack_b = false;
    last_hs = pos 0;
    rx_rate = w.floats.nought;
    tx_rate = w.floats.nought;
    prev_rx = 0;
    prev_tx = 0;
    prev_ts = 0;
  }
