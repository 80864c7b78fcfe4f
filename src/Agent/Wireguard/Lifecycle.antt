-- ===== src/Agent/Wireguard/Lifecycle.antt =====
-- The device of the Linux WireGuard manager, internal/agent/wg_linux.go: Init, Status, Rotate and
-- Teardown.
use Prim.Native.String.{◌++◌ as text_append}
use light_pn.Prelude.{
  String, true, List, [], ◌∷◌, map, Option, none, some, Result, ok, err, ℤ, pos, if◌then◌else◌,
}
use light_pn.Prelude.Io.{Io, return, ◌>>=◌, ◌>>◌}
use light_pn.Prelude.Map.{lookup}
use light_pn.Proto.{Bytes, WgPeerStatus}
use light_pn.Agent.Wireguard.{Peer, Kernel, LinuxWg, device_name}

module _ {K : Type 0} (os : Kernel K) where
  -- overlayAddr
  unfoldable pub overlay_addr : String → String → Result String String
  overlay_addr overlay_ip overlay_cidr = elim (os.parse_addr (os.before_slash overlay_ip)) [
    | err e ↦ err e
    | ok addr ↦ elim (os.parse_prefix overlay_cidr) [
      | err e ↦ err e
      | ok bits ↦ ok (os.prefixed addr bits)
    ]
  ]

  -- a call on the kernel that gives an error or nothing
  abbrev on_kernel : (K → Option String × K) → Io String (LinuxWg K) Unit
  on_kernel f w = elim ((f w.kernel).0) [
    | none ↦ (ok tt, record w { kernel = (f w.kernel).1 })
    | some e ↦ (err e, record w { kernel = (f w.kernel).1 })
  ]

  abbrev named : Option String × K → Option String × K
  named (none, k) = (none, k)
  named (some e, k) = (some (text_append "configure lightpn0: " e), k)

  abbrev ip_cmd : List String → Io String (LinuxWg K) Unit
  ip_cmd args = on_kernel (os.ip args)

  -- the leftover device of an earlier process
  abbrev drop_device : Io String (LinuxWg K) Unit
  drop_device w =
      let del = ip_cmd ("link" ∷ "del" ∷ "dev" ∷ device_name ∷ []) w in
      if os.exists w.kernel then del else (ok tt, w)

  abbrev lift : {A : Type 0} → Result String A → Io String (LinuxWg K) A
  lift (ok a) w = (ok a, w)
  lift (err e) w = (err e, w)

  abbrev generate_key : Io String (LinuxWg K) (Bytes × String)
  generate_key w = ((os.generate w.kernel).0, record w { kernel = (os.generate w.kernel).1 })

  abbrev set_priv : Bytes → Io String (LinuxWg K) Unit
  set_priv priv w = (ok tt, record w { priv = priv })

  abbrev forget_peers : ℤ → Io String (LinuxWg K) Unit
  forget_peers port w = (ok tt, record w { port = port; peer_nodes = []; node_keys = [] })

  -- Init: the public key and the port
  unfoldable pub init : String → String → ℤ → Io String (LinuxWg K) (String × ℤ)
  unfolding overlay_addr
  init overlay_ip overlay_cidr listen_port = do
    drop_device
    ip_cmd ("link" ∷ "add" ∷ device_name ∷ "type" ∷ "wireguard" ∷ [])
    addr ← lift (overlay_addr overlay_ip overlay_cidr)
    ip_cmd ("addr" ∷ "replace" ∷ addr ∷ "dev" ∷ device_name ∷ [])
    key ← generate_key
    set_priv key.0
    on_kernel (λ k. named (
        os.configure
          (record {
            private_key = some key.0;
            listen_port = some listen_port;
            replace_peers = true;
            peers = [];
          })
          k))
    ip_cmd ("link" ∷ "set" ∷ "up" ∷ "dev" ∷ device_name ∷ [])
    dev ← (λ w. (os.device w.kernel, w))
    forget_peers dev.listen_port
    return (key.1, dev.listen_port)

  abbrev status_of : LinuxWg K → Peer → WgPeerStatus
  status_of w p = record {
    peer_node_id = elim (lookup p.public_key w.peer_nodes) [ none ↦ "" | some node ↦ node ];
    last_handshake_ts = elim p.last_handshake [ none ↦ pos 0 | some ts ↦ ts ];
    rx_bytes = p.rx_bytes;
    tx_bytes = p.tx_bytes;
    endpoint = elim p.endpoint [ none ↦ "" | some e ↦ e ];
  }

  -- Status
  unfoldable pub status : LinuxWg K → Result String (List WgPeerStatus)
  status w = elim (os.device w.kernel) [
    | err e ↦ err e
    | ok dev ↦ ok (map (λ p. status_of w p) dev.peers)
  ]

  abbrev pub rotated :
      LinuxWg K → Bytes → String → Option String × K → Result String String × LinuxWg K
  rotated w priv pub_key (some e, k) = (err e, record w { kernel = k })
  rotated w priv pub_key (none, k) =
      (ok pub_key, record w { kernel = k; priv = priv; peer_nodes = []; node_keys = [] })

  abbrev generated :
      LinuxWg K → Result String (Bytes × String) × K → Result String String × LinuxWg K
  generated w (err e, k) = (err e, record w { kernel = k })
  generated w (ok (priv, pub_key), k) = rotated w priv pub_key (
      os.configure
        (record { private_key = some priv; listen_port = none; replace_peers = true; peers = [] })
        k)

  -- Rotate
  unfoldable pub rotate : LinuxWg K → Result String String × LinuxWg K
  rotate w = generated w (os.generate w.kernel)

  -- Teardown
  unfoldable pub teardown : LinuxWg K → Option String × LinuxWg K
  teardown w =
      if os.exists w.kernel
      then (let r = os.ip ("link" ∷ "del" ∷ "dev" ∷ device_name ∷ []) w.kernel in
          (r.0, record w { kernel = r.1 }))
      else (none, w)
