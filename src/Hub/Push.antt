-- ===== src/Hub/Push.antt =====
-- Pushing peers to sessions: send, close, peerSpecLocked, sendPeerSpecLocked, pushPairLocked and
-- pushLink of internal/hub/hub.go and control.go.
use Prim.Native.String.{◌++◌ as text_append}
use light_pn.Prelude.{
  ℕ, ◌+◌, String, Bool, true, false, not, ◌&&◌, [], ◌∷◌, ◌++◌, Option, none, some, ok, err, pos,
  ltb, ltb_ℤ, if◌then◌else◌, ◌is◌, length, set,
}
use light_pn.Prelude.Map.{lookup, insert}
use light_pn.Proto.{Envelope, PeerSpec, new_envelope}
use light_pn.Proto.Kind
use light_pn.Store.{Node, Link}
use light_pn.Store.Nodes.{get_node}
use light_pn.Store.Links.{other}
use light_pn.Hub.State.{
  Config, WgIdent, Side, side_a, side_b, Session, Hub, World, session_of, session_at, new_link_rt,
}

-- (s *session) close()
unfoldable pub close : Session → Session
close s = record s { closed = true }

-- (s *session) send(env): the queue holds 64 envelopes
unfoldable pub send : Envelope → Session → Session
unfolding close
send env s = if ltb (length s.out) 64 then record s { out = s.out ++ env ∷ [] } else close s

-- peerSide
unfoldable pub peer_side : Link → String → Side
peer_side l id = if l.a is id then side_a else side_b

module _ {F : Type 0} (w : World F) where
  -- (w wgIdent) endpoint()
  unfoldable pub endpoint : WgIdent → String
  endpoint i = text_append i.ip (text_append ":" (w.itoa i.port))

  unfoldable pub is_exit : Link → String → WgIdent → Bool
  unfolding other
  is_exit l peer i = l.exit_node is peer && not (peer is other l peer) && ltb_ℤ (pos 0) i.socks_port

  -- the spec of a peer whose row was read
  unfoldable pub spec_of : Config → Link → Node → String → WgIdent → PeerSpec
  unfolding endpoint is_exit
  spec_of cfg l row peer i = record {
    link_id = l.id;
    peer_node_id = peer;
    peer_name = row.name;
    wg_pubkey = i.pubkey;
    endpoint = endpoint i;
    allowed_ips = text_append row.overlay_ip "/32" ∷ [];
    keepalive_s = cfg.keepalive_s;
    exit = is_exit l peer i;
    exit_addr =
        if is_exit l peer i
        then text_append row.overlay_ip (text_append ":" (w.itoa i.socks_port))
        else "";
  }

  -- peerSpecLocked
  unfoldable pub peer_spec : Hub F → Link → String → WgIdent → Option PeerSpec
  unfolding spec_of get_node
  peer_spec h l peer i = elim ((get_node peer h.store).0) [
    | err _ ↦ none
    | ok row ↦ some (spec_of h.cfg l row peer i)
  ]

  -- the pending ack and the frame, once the spec is built
  unfoldable pub post_spec : Link → String → String → PeerSpec → Session → Session
  unfolding send peer_side new_envelope
  post_spec l kind id spec s =
      let waiting = record s {
        pending_acks =
            insert id (record { link_id = l.id; side = peer_side l s.node.id }) s.pending_acks;
      } in
      elim (new_envelope w.peer_spec kind id spec) [ none ↦ waiting | some env ↦ send env waiting ]

  -- sendPeerSpecLocked
  unfoldable pub send_peer_spec : ℕ → Link → String → String → WgIdent → Hub F → Hub F
  unfolding peer_spec post_spec
  send_peer_spec r l kind peer i h = elim (peer_spec h l peer i) [
    | none ↦ h
    | some spec ↦ elim (session_at h r) [
      | none ↦ h
      | some s ↦ record h {
        heap = set h.heap r (post_spec l kind (w.ulid h.next_id) spec s);
        next_id = h.next_id + 1;
      }
    ]
  ]

abbrev pub if_registered : ℕ → Option Session → Option ℕ
if_registered r none = none
if_registered r (some s) = if s.registered then some r else none

abbrev pub both : {A B : Type 0} → Option A → Option B → Option (A × B)
both none y = none
both (some a) none = none
both (some a) (some b) = some (a, b)

module _ {F : Type 0} where
  -- the session of a node that is online and registered
  unfoldable pub registered_ref : Hub F → String → Option ℕ
  registered_ref h id = elim (session_of h id) [
    | none ↦ none
    | some r ↦ if_registered r (session_at h r)
  ]

  -- the session and the WireGuard material of a node that is online, registered and known
  unfoldable pub ready : Hub F → String → Option (ℕ × WgIdent)
  unfolding registered_ref
  ready h id = both (registered_ref h id) (lookup id h.last_wg)

module _ {F : Type 0} (w : World F) where
  abbrev pub push_ready :
      Link → String → Option ((ℕ × WgIdent) × (ℕ × WgIdent)) → Hub F → Option (Hub F)
  push_ready l kind none h = some h
  push_ready l kind (some ((ra, wa), (rb, wb))) h = elim (lookup l.id h.links) [
    | none ↦ none
    | some rt ↦
        let reset = record h {
          links = insert l.id (record rt { ack_a = false; ack_b = false }) h.links;
        } in
        some (send_peer_spec w rb l kind l.a wa (send_peer_spec w ra l kind l.b wb reset))
  ]

  -- pushPairLocked; `none` is the panic on a link with no runtime record
  unfoldable pub push_pair : Link → String → Hub F → Option (Hub F)
  unfolding ready send_peer_spec
  push_pair l kind h = push_ready l kind (both (ready h l.a) (ready h l.b)) h

  -- if h.links[l.ID] == nil { h.links[l.ID] = &linkRT{} }
  unfoldable pub ensure_link : Link → Hub F → Hub F
  ensure_link l h = elim (lookup l.id h.links) [
    | none ↦ record h { links = insert l.id (new_link_rt w) h.links }
    | some _ ↦ h
  ]

  unfoldable pub push_link : Link → Hub F → Option (Hub F)
  unfolding push_pair ensure_link
  push_link l h = push_pair l Kind.peer_add (ensure_link l h)
