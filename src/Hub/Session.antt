-- ===== src/Hub/Session.antt =====
-- The handlers of an authenticated session, internal/hub/control.go: register, heartbeat, ack, and
-- the start and the end of a session.
use Prim.Native.String.{◌++◌ as text_append}
use light_pn.Prelude.{
  ℕ, ◌+◌, ◌-◌, String, Bool, true, ◌&&◌, ◌||◌, List, [], ◌∷◌, ◌++◌, Option, none, some, ok, err,
  pos, ltb, leb, ltb_ℤ, leb_ℤ, if◌then◌else◌, ◌is◌, set,
}
use light_pn.Prelude.Map.{Map, lookup, insert}
use light_pn.Proto.{Envelope, PeerSpec, RegisterData, HeartbeatData, WgPeerStatus, new_envelope}
use light_pn.Proto.Kind
use light_pn.Proto.Code
use light_pn.Store.{Link, Store}
use light_pn.Store.Nodes.{touch_node, links_of_node}
use light_pn.Store.Links.{other}
use light_pn.Metrics.{ingest}
use light_pn.Hub.State.{
  WgIdent, Side, side_a, side_b, Session, LinkRt, Event, heartbeat, Hub, World, session_at,
  set_session, new_link_rt,
}
use light_pn.Hub.Push.{send, peer_side, peer_spec, send_peer_spec, ready, ensure_link}

-- d.WGPubkey == "" || d.WGPort <= 0 || d.WGPort > 65535
unfoldable pub bad_register : RegisterData → Bool
bad_register d = d.wg_pubkey is "" || leb_ℤ d.wg_port (pos 0) || ltb_ℤ (pos 65535) d.wg_port

unfoldable pub ident_of : Session → RegisterData → WgIdent
ident_of s d = record {
  pubkey = d.wg_pubkey;
  port = d.wg_port;
  ip = s.remote_ip;
  socks_port = d.socks_port;
}

unfoldable pub links_or_none : String → Store → List Link
links_or_none me st = elim ((links_of_node me st).0) [ err _ ↦ [] | ok ls ↦ ls ]

module _ {F : Type 0} where
  -- h.publish(ev)
  abbrev pub publish : Event → Hub F → Hub F
  publish e h = record h { events = h.events ++ e ∷ [] }

  -- h.Store.TouchNode(id, now)
  abbrev pub touch : String → ℕ → Hub F → Hub F
  touch id now h = record h { store = (touch_node id now h.store).1 }

  -- rt.ackA = true, or rt.ackB
  unfoldable pub mark_ack : Side → LinkRt F → LinkRt F
  mark_ack side_a rt = record rt { ack_a = true }
  mark_ack side_b rt = record rt { ack_b = true }

  -- h.links[id] with its flag set, if there is a record
  unfoldable pub ack_link : String → Side → Hub F → Hub F
  unfolding mark_ack
  ack_link id side h = elim (lookup id h.links) [
    | none ↦ h
    | some rt ↦ record h { links = insert id (mark_ack side rt) h.links }
  ]

module _ {F : Type 0} (w : World F) where
  -- sendError: written by the reader, past the queue
  unfoldable pub send_error : ℕ → String → String → Hub F → Hub F
  send_error r code msg h = elim (session_at h r) [
    | none ↦ h
    | some s ↦
        elim (new_envelope w.errors Kind.error (w.ulid h.next_id)
          (record { code = code; msg = msg })) [
            | none ↦ record h { next_id = h.next_id + 1 }
            | some env ↦ record h {
              heap = set h.heap r (record s { direct = s.direct ++ env ∷ [] });
              next_id = h.next_id + 1;
            }
          ]
  ]

  -- One round of the loop of handleRegister: the node's link `l`, the specs so far and the hub.
  abbrev pub reconcile_with :
      String → WgIdent → Link → Option (ℕ × WgIdent) → List PeerSpec × Hub F → List PeerSpec × Hub F
  reconcile_with me i l none (specs, h) = (specs, h)
  reconcile_with me i l (some (r, peer)) (specs, h) = elim (peer_spec w h l (other l me) peer) [
    | none ↦ (specs, h)
    | some spec ↦ (
      specs ++ spec ∷ [],
      send_peer_spec w r l Kind.peer_update me i (ack_link l.id (peer_side l me) h),
    )
  ]

  unfoldable pub reconcile_link :
      String → WgIdent → Link → List PeerSpec × Hub F → List PeerSpec × Hub F
  unfolding ensure_link ready
  reconcile_link me i l (specs, h) =
      let h' = ensure_link w l h in reconcile_with me i l (ready h' (other l me)) (specs, h')

  unfoldable pub reconcile :
      String → WgIdent → List Link → List PeerSpec × Hub F → List PeerSpec × Hub F
  unfolding reconcile_link
  reconcile me i [] acc = acc
  reconcile me i (l ∷ ls) acc = reconcile me i ls (reconcile_link me i l acc)

  -- h.lastWG[id] = ident; s.registered = true; …
  unfoldable pub record_register : ℕ → Session → WgIdent → RegisterData → Hub F → Hub F
  record_register r s i d h = record h {
    last_wg = insert s.node.id i h.last_wg;
    heap =
        set h.heap r (record s { registered = true; agent_version = d.agent_version; os = d.os });
  }

  -- register_ack, and the node's last-seen time
  unfoldable pub send_register_ack : ℕ → Session → String → ℕ → List PeerSpec × Hub F → Hub F
  unfolding send
  send_register_ack r s id now (specs, h) =
      elim (new_envelope w.register_ack Kind.register_ack id (record {
        node_id = s.node.id;
        overlay_ip = text_append s.node.overlay_ip "/32";
        peers_expected = specs;
      })) [
        | none ↦ h
        | some env ↦ elim (session_at h r) [
          | none ↦ h
          | some s' ↦ touch s.node.id now (set_session r (send env s') h)
        ]
      ]

  abbrev pub register_session : ℕ → Session → String → ℕ → Option RegisterData → Hub F → Hub F
  register_session r s id now none h = send_error r Code.internal "bad register payload" h
  register_session r s id now (some d) h =
      if bad_register d
      then send_error r Code.internal "bad register payload" h
      else elim ((links_of_node s.node.id h.store).0) [
        | err _ ↦ send_error r Code.internal "link lookup failed" h
        | ok links ↦
            send_register_ack r s id now (
              reconcile s.node.id (ident_of s d) links ([], record_register r s (ident_of s d) d h))
      ]

  -- handleRegister
  unfoldable pub handle_register : ℕ → Envelope → ℕ → Hub F → Hub F
  unfolding bad_register reconcile record_register send_register_ack send_error ident_of
  handle_register r env now h = elim (session_at h r) [
    | none ↦ h
    | some s ↦ register_session r s env.id now (w.register.unmarshal env.payload) h
  ]

  -- the runtime record of a link after one entry of a heartbeat's peer table
  unfoldable pub beat_link : WgPeerStatus → ℕ → LinkRt F → LinkRt F
  beat_link p now rt =
      let counted =
        ltb 0 rt.prev_ts
        && ltb rt.prev_ts now
        && leb rt.prev_rx p.rx_bytes
        && leb rt.prev_tx p.tx_bytes in
      let dt = pos (now - rt.prev_ts) in
      record rt {
        last_hs = if ltb_ℤ rt.last_hs p.last_handshake_ts then p.last_handshake_ts else rt.last_hs;
        rx_rate = if counted then w.floats.rate (p.rx_bytes - rt.prev_rx) dt else rt.rx_rate;
        tx_rate = if counted then w.floats.rate (p.tx_bytes - rt.prev_tx) dt else rt.tx_rate;
        prev_rx = p.rx_bytes;
        prev_tx = p.tx_bytes;
        prev_ts = now;
      }

  abbrev pub rt_or_new : Option (LinkRt F) → LinkRt F
  rt_or_new none = new_link_rt w
  rt_or_new (some rt) = rt

  -- the inner loop over the node's links
  unfoldable pub beat_links :
      String → WgPeerStatus → ℕ → List Link → Map (LinkRt F) → Map (LinkRt F)
  unfolding beat_link other
  beat_links me p now [] m = m
  beat_links me p now (l ∷ ls) m = beat_links me p now ls (
      if other l me is p.peer_node_id
      then insert l.id (beat_link p now (rt_or_new (lookup l.id m))) m
      else m)

  -- the outer loop over the peer table
  unfoldable pub beat_peers :
      String → List WgPeerStatus → ℕ → List Link → Map (LinkRt F) → Map (LinkRt F)
  unfolding beat_links
  beat_peers me [] now ls m = m
  beat_peers me (p ∷ ps) now ls m = beat_peers me ps now ls (beat_links me p now ls m)

  abbrev pub beat_session : ℕ → Session → ℕ → Option (HeartbeatData F) → Hub F → Option (Hub F)
  beat_session r s now none h = some h
  beat_session r s now (some d) h =
      let me = s.node.id in
      let seen = record h {
        heap = set h.heap r (record s { last_hb = now; hb_wg = d.wg });
        links = beat_peers me d.wg now (links_or_none me h.store) h.links;
      } in
      elim (ingest w.floats me d.ts d.sys seen.metrics) [
        | none ↦ none
        | some m ↦ some (publish (heartbeat me) (touch me now (record seen { metrics = m })))
      ]

  -- handleHeartbeat; `none` is the panic of Ingest
  unfoldable pub handle_heartbeat : ℕ → Envelope → ℕ → Hub F → Option (Hub F)
  unfolding beat_peers links_or_none
  handle_heartbeat r env now h = elim (session_at h r) [
    | none ↦ some h
    | some s ↦ beat_session r s now (w.heartbeats.unmarshal env.payload) h
  ]
