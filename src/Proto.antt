-- ===== src/Proto.antt =====
-- internal/proto/proto.go: the control channel's envelope, its message types, error codes and
-- payloads. The framing is in the modules below.
pub mod Kind
pub mod Code
pub mod Frame
use light_pn.Prelude.{ℕ, String, ◌^◌, Bool, Option, none, some, List, ℤ, pos, Result, ok, err}

-- the bytes of a text or of a JSON value
abbrev pub Bytes : Type 0
Bytes = List ℕ

-- const Version
abbrev pub version : ℤ
version = pos 1

-- const MaxFrame
abbrev pub max_frame : ℕ
max_frame = 2 ^ 20

pub record Envelope : Type 0 where
  pub v : ℤ
  pub kind : String
  pub id : String
  pub payload : Bytes

-- encoding/json at one type, a parameter of every definition that uses it
pub record Json {ℓ} (A : Type ℓ) : Type ℓ where
  pub marshal : A → Option Bytes
  pub unmarshal : Bytes → Option A

pub data FrameError : Type 0 where
  marshal_failed too_large invalid_length short_read write_failed bad_json : FrameError

-- NewEnvelope
unfoldable pub new_envelope {ℓ} : {A : Type ℓ} → Json A → String → String → A → Option Envelope
new_envelope j kind id a = elim (j.marshal a) [
  | none ↦ none
  | some raw ↦ some (record { v = version; kind = kind; id = id; payload = raw })
]

pub record EnrollData : Type 0 where
  pub token : String
  pub hostname : String
  pub csr_pem : String

pub record EnrollAckData : Type 0 where
  pub node_id : String
  pub cert_pem : String
  pub ca_pem : String
  pub overlay_ip : String
  pub overlay_cidr : String
  pub control_addr : String

pub record RegisterData : Type 0 where
  pub wg_pubkey : String
  pub wg_port : ℤ
  pub agent_version : String
  pub os : String
  pub socks_port : ℤ

pub record PeerSpec : Type 0 where
  pub link_id : String
  pub peer_node_id : String
  pub peer_name : String
  pub wg_pubkey : String
  pub endpoint : String
  pub allowed_ips : List String
  pub keepalive_s : ℕ
  pub exit : Bool
  pub exit_addr : String

pub record RegisterAckData : Type 0 where
  pub node_id : String
  pub overlay_ip : String
  pub peers_expected : List PeerSpec

pub record PeerRemoveData : Type 0 where
  pub link_id : String
  pub wg_pubkey : String

-- The float64 fields (cpu_pct, load1) are of a type that the program's metrics choose.
pub record SysMetrics (F : Type 0) : Type 0 where
  pub cpu_pct : F
  pub load1 : F
  pub mem_used : ℕ
  pub mem_total : ℕ
  pub disk_used : ℕ
  pub disk_total : ℕ
  pub net_rx : ℕ
  pub net_tx : ℕ
  pub uptime_s : ℕ

pub record WgPeerStatus : Type 0 where
  pub peer_node_id : String
  pub last_handshake_ts : ℤ
  pub rx_bytes : ℕ
  pub tx_bytes : ℕ
  pub endpoint : String

pub record HeartbeatData (F : Type 0) : Type 0 where
  pub ts : ℤ
  pub sys : SysMetrics F
  pub wg : List WgPeerStatus

pub record AckData : Type 0 where
  pub okay : Bool
  pub error : String

pub record KickData : Type 0 where
  pub reason : String

pub record RotateCertData : Type 0 where
  pub cert_pem : String

-- The content of a file is its bytes.
pub record ConfFile : Type 0 where
  pub tool : String
  pub path : String
  pub mod_time : ℤ
  pub size : ℤ
  pub content : Bytes
  pub truncated : Bool
  pub error : String
  pub registered : Bool

-- `peers` is `none` for nil.
pub record ConfWg : Type 0 where
  pub iface : String
  pub pubkey : String
  pub listen_port : ℤ
  pub peers : Option (List WgPeerStatus)

pub record ConfEnc : Type 0 where
  pub kdf : String
  pub mem_kib : ℕ
  pub time : ℕ
  pub par : ℕ
  pub salt : String
  pub nonce : String
  pub ct : String

pub record SvcActionData : Type 0 where
  pub nonce : String
  pub ct : String

pub record SvcStatus : Type 0 where
  pub alias : String
  pub active : String
  pub enabled : String

pub record ConfResultData : Type 0 where
  pub wg : ConfWg
  pub files : List ConfFile
  pub services : List SvcStatus
  pub enc : Option ConfEnc
  pub no_key : Bool

pub record SvcResultData : Type 0 where
  pub okay : Bool
  pub error : String
  pub services : List SvcStatus

pub record ErrorData : Type 0 where
  pub code : String
  pub msg : String
