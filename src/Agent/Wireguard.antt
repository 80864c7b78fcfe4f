-- ===== src/Agent/Wireguard.antt =====
-- The Linux WireGuard manager, internal/agent/wg_linux.go. The kernel is a state of a type `K`, and
-- wgctrl, iproute2 and package net are parameters. A method returns `none` or the text of its error.
pub mod Lifecycle
pub mod Laws
pub mod Exact
pub mod Tracked
pub mod Failed
pub mod Update
pub mod Replace
pub mod Run
use Prim.Native.String.{◌++◌ as text_append}
use light_pn.Prelude.{
  ℕ, ◌*◌, String, Bool, true, false, not, ◌&&◌, List, [], ◌∷◌, ◌++◌, map, Option, none, some,
  Result, ok, err, ℤ, pos, if◌then◌else◌, ◌is◌,
}
use light_pn.Prelude.Io.{Io, return, fail, ◌>>=◌, ◌>>◌}
use light_pn.Prelude.Map.{Map, lookup, insert, delete}
use light_pn.Proto.{Bytes, PeerSpec, WgPeerStatus}

-- const deviceName
abbrev pub device_name : String
device_name = "lightpn0"

-- wgtypes.PeerConfig
pub record PeerConfig : Type 0 where
  pub public_key : Bytes
  pub remove : Bool
  pub endpoint : Option String
  pub allowed_ips : List String
  pub replace_allowed_ips : Bool
  pub keepalive_ns : Option ℕ

-- wgtypes.Config
pub record DeviceConfig : Type 0 where
  pub private_key : Option Bytes
  pub listen_port : Option ℤ
  pub replace_peers : Bool
  pub peers : List PeerConfig

-- wgtypes.Peer and wgtypes.Device
pub record Peer : Type 0 where
  pub public_key : String
  pub rx_bytes : ℕ
  pub tx_bytes : ℕ
  pub last_handshake : Option ℤ
  pub endpoint : Option String

pub record Device : Type 0 where
  pub listen_port : ℤ
  pub peers : List Peer

-- The errors of `resolve` and `parse_cidr` carry the words that the code puts before them, which name
-- the argument. `parse_prefix` gives the prefix length; `prefixed` is fmt's "%s/%d".
pub record Kernel (K : Type 0) : Type 0 where
  pub exists : K → Bool
  pub ip : List String → K → Option String × K
  pub configure : DeviceConfig → K → Option String × K
  pub device : K → Result String Device
  pub generate : K → Result String (Bytes × String) × K
  pub parse_key : String → Result String Bytes
  pub resolve : String → Result String String
  pub parse_cidr : String → Result String String
  pub parse_addr : String → Result String String
  pub parse_prefix : String → Result String ℕ
  pub before_slash : String → String
  pub prefixed : String → ℕ → String
  pub contains : String → String → Bool

-- linuxWG, with the kernel
pub record LinuxWg (K : Type 0) : Type 0 where
  pub kernel : K
  pub priv : Bytes
  pub port : ℤ
  pub peer_nodes : Map String
  pub node_keys : Map String

module _ {K : Type 0} (os : Kernel K) where
  -- the loop over the allowed addresses
  unfoldable pub parse_all : List String → Result String (List String)
  parse_all [] = ok []
  parse_all (cidr ∷ cidrs) = elim (os.parse_cidr cidr) [
    | err e ↦ err e
    | ok net ↦ elim (parse_all cidrs) [ err e ↦ err e | ok nets ↦ ok (net ∷ nets) ]
  ]

  -- specToPeerConfig
  unfoldable pub spec_to_peer_config : PeerSpec → Result String PeerConfig
  unfolding parse_all
  spec_to_peer_config spec = elim (os.parse_key spec.wg_pubkey) [
    | err e ↦ err (text_append "peer pubkey: " e)
    | ok key ↦ elim (os.resolve spec.endpoint) [
      | err e ↦ err e
      | ok endpoint ↦ elim (parse_all spec.allowed_ips) [
        | err e ↦ err e
        | ok nets ↦ ok (record {
          public_key = key;
          remove = false;
          endpoint = some endpoint;
          allowed_ips = nets;
          replace_allowed_ips = true;
          keepalive_ns = some (spec.keepalive_s * 1_000_000_000);
        })
      ]
    ]
  ]

  -- the loop of Reconcile: the peers of the configuration
  unfoldable pub peer_configs : List PeerSpec → Result String (List PeerConfig)
  unfolding spec_to_peer_config
  peer_configs [] = ok []
  peer_configs (spec ∷ specs) = elim (spec_to_peer_config spec) [
    | err e ↦ err e
    | ok pc ↦ elim (peer_configs specs) [ err e ↦ err e | ok pcs ↦ ok (pc ∷ pcs) ]
  ]

-- the two maps of the loop of Reconcile
unfoldable pub nodes_of : List PeerSpec → Map String → Map String
nodes_of [] m = m
nodes_of (spec ∷ specs) m = nodes_of specs (insert spec.wg_pubkey spec.peer_node_id m)

unfoldable pub keys_of : List PeerSpec → Map String → Map String
keys_of [] m = m
keys_of (spec ∷ specs) m = keys_of specs (insert spec.peer_node_id spec.wg_pubkey m)

abbrev pub peers_only : Bool → List PeerConfig → DeviceConfig
peers_only replace peers = record {
  private_key = none;
  listen_port = none;
  replace_peers = replace;
  peers = peers;
}

-- wgtypes.PeerConfig{PublicKey: key, Remove: true}
abbrev pub removal : Bytes → PeerConfig
removal key = record {
  public_key = key;
  remove = true;
  endpoint = none;
  allowed_ips = [];
  replace_allowed_ips = false;
  keepalive_ns = none;
}

-- delete(w.nodeKeys, nodeID) if it holds this key
abbrev drop_key : String → String → Map String → Map String
drop_key node pubkey keys = elim (lookup node keys) [
  | none ↦ keys
  | some k ↦ if k is pubkey then delete node keys else keys
]

module _ {K : Type 0} where
  abbrev pub forgotten : String → LinuxWg K → LinuxWg K
  forgotten pubkey w = elim (lookup pubkey w.peer_nodes) [
    | none ↦ w
    | some node ↦ record w {
      peer_nodes = delete pubkey w.peer_nodes;
      node_keys = drop_key node pubkey w.node_keys;
    }
  ]

module _ {K : Type 0} (os : Kernel K) where
  abbrev pub reconciled : List PeerSpec → LinuxWg K → Option String × K → Option String × LinuxWg K
  reconciled specs w (some e, k) = (some e, record w { kernel = k })
  reconciled specs w (none, k) =
      (none, record w { kernel = k; peer_nodes = nodes_of specs []; node_keys = keys_of specs [] })

  -- Reconcile
  unfoldable pub reconcile : List PeerSpec → LinuxWg K → Option String × LinuxWg K
  unfolding peer_configs nodes_of keys_of
  reconcile specs w = elim (peer_configs os specs) [
    | err e ↦ (some e, w)
    | ok peers ↦ reconciled specs w (os.configure (peers_only true peers) w.kernel)
  ]

  abbrev pub added : PeerSpec → LinuxWg K → Option String × K → Option String × LinuxWg K
  added spec w (some e, k) = (some e, record w { kernel = k })
  added spec w (none, k) = (
    none,
    record w {
      kernel = k;
      peer_nodes = insert spec.wg_pubkey spec.peer_node_id w.peer_nodes;
      node_keys = insert spec.peer_node_id spec.wg_pubkey w.node_keys;
    },
  )

  -- addPeerLocked, which is AddPeer
  unfoldable pub add_peer : PeerSpec → LinuxWg K → Option String × LinuxWg K
  unfolding spec_to_peer_config
  add_peer spec w = elim (spec_to_peer_config os spec) [
    | err e ↦ (some e, w)
    | ok pc ↦ added spec w (os.configure (peers_only false (pc ∷ [])) w.kernel)
  ]

  abbrev pub key_removed : String → LinuxWg K → Option String × K → Option String × LinuxWg K
  key_removed pubkey w (none, k) = (none, forgotten pubkey (record w { kernel = k }))
  key_removed pubkey w (some e, k) =
      if os.contains e "no such"
      then (none, forgotten pubkey (record w { kernel = k }))
      else (some e, record w { kernel = k })

  -- removeKeyLocked, which is RemovePeer
  unfoldable pub remove_peer : String → LinuxWg K → Option String × LinuxWg K
  remove_peer pubkey w = elim (os.parse_key pubkey) [
    | err e ↦ (some e, w)
    | ok key ↦ key_removed pubkey w (os.configure (peers_only false (removal key ∷ [])) w.kernel)
  ]

  abbrev pub then_add : PeerSpec → Option String × LinuxWg K → Option String × LinuxWg K
  then_add spec (some e, w) = (some e, w)
  then_add spec (none, w) = add_peer spec w

  -- UpdatePeer
  unfoldable pub update_peer : PeerSpec → LinuxWg K → Option String × LinuxWg K
  unfolding add_peer remove_peer
  update_peer spec w = elim (lookup spec.peer_node_id w.node_keys) [
    | none ↦ add_peer spec w
    | some old ↦
        if old is spec.wg_pubkey then add_peer spec w else then_add spec (remove_peer old w)
  ]
