-- ===== src/Hub/Removal.antt =====
-- What the hub tells the peers of a link or a node that goes away: New, removeSideLocked,
-- removeLinkFromPeers and gcOfflinePeers of internal/hub/hub.go.
use light_pn.Prelude.{
  ℕ, ◌+◌, ◌-◌, String, Bool, true, false, ◌||◌, List, [], ◌∷◌, Option, none, some, Result, ok, err,
  ltb, ◌==◌, if◌then◌else◌,
}
use light_pn.Prelude.Map.{Map, lookup, insert, delete}
use light_pn.Proto.{Envelope, new_envelope}
use light_pn.Proto.Kind
use light_pn.Store.{Node, Link, Store, StoreError}
use light_pn.Store.Nodes.{list_nodes, links_of_node, revoked_serials}
use light_pn.Store.Links.{other}
use light_pn.Hub.State.{Config, WgIdent, Hub, World, session_of, session_at, set_session}
use light_pn.Hub.Push.{send}

abbrev pub flag : String → Map Bool → Bool
flag k m = elim (lookup k m) [ none ↦ false | some b ↦ b ]

unfoldable pub flags_of : List String → Map Bool
flags_of [] = []
flags_of (k ∷ ks) = insert k true (flags_of ks)

-- New: the runtime state is empty but for the revocation list
unfoldable pub new_hub : {F : Type 0} → Config → Store → Result StoreError (Hub F)
unfolding revoked_serials flags_of
new_hub cfg st = elim ((revoked_serials st).0) [
  | err e ↦ err e
  | ok serials ↦ ok (record {
    cfg = cfg;
    store = st;
    metrics = [];
    heap = [];
    sessions = [];
    links = [];
    last_wg = [];
    revoked = flags_of serials;
    gc_done = [];
    conf_wait = [];
    replies = [];
    events = [];
    enroll_tries = [];
    next_id = 0;
  })
]

module _ {F : Type 0} where
  -- isRevoked
  unfoldable pub is_revoked : String → Hub F → Bool
  is_revoked serial h = flag serial h.revoked

  -- s.send(env) through the pointer
  unfoldable pub send_to : ℕ → Envelope → Hub F → Hub F
  unfolding send
  send_to r env h = elim (session_at h r) [ none ↦ h | some s ↦ set_session r (send env s) h ]

  abbrev pub is_skipped : Node → ℕ → Hub F → Bool
  is_skipped n now h =
      elim (session_of h n.id) [ none ↦ false | some _ ↦ true ]
      || flag n.id h.gc_done
      || n.last_seen == 0
      || ltb (now - n.last_seen) h.cfg.peer_gc_after_s

module _ {F : Type 0} (w : World F) where
  abbrev pub send_remove : Link → Option ℕ → Option WgIdent → Hub F → Hub F
  send_remove l none i h = h
  send_remove l (some r) none h = h
  send_remove l (some r) (some i) h =
      let h' = record h { next_id = h.next_id + 1 } in
      elim (new_envelope w.peer_remove Kind.peer_remove (w.ulid h.next_id)
        (record { link_id = l.id; wg_pubkey = i.pubkey })) [
          | none ↦ h'
          | some env ↦ send_to r env h'
        ]

  -- removeSideLocked
  unfoldable pub remove_side : Link → String → String → Hub F → Hub F
  unfolding send_to new_envelope
  remove_side l to peer h = send_remove l (session_of h to) (lookup peer h.last_wg) h

  -- removeLinkFromPeers
  unfoldable pub remove_link_from_peers : Link → Hub F → Hub F
  unfolding remove_side
  remove_link_from_peers l h =
      let h' = remove_side l l.b l.a (remove_side l l.a l.b h) in
      record h' { links = delete l.id h'.links }

  -- the links of a node that went away, each withdrawn from its other end
  unfoldable pub remove_sides : String → List Link → Hub F → Hub F
  unfolding remove_side other
  remove_sides id [] h = h
  remove_sides id (l ∷ ls) h = remove_sides id ls (remove_side l (other l id) id h)

  -- one round of the loop of gcOfflinePeers
  unfoldable pub gc_node : Node → ℕ → Hub F → Hub F
  unfolding remove_sides links_of_node
  gc_node n now h = if is_skipped n now h then h else elim ((links_of_node n.id h.store).0) [
    | err _ ↦ h
    | ok links ↦
        let h' = remove_sides n.id links h in record h' { gc_done = insert n.id true h'.gc_done }
  ]

  unfoldable pub gc_nodes : List Node → ℕ → Hub F → Hub F
  unfolding gc_node
  gc_nodes [] now h = h
  gc_nodes (n ∷ ns) now h = gc_nodes ns now (gc_node n now h)

  -- gcOfflinePeers
  unfoldable pub gc_offline_peers : ℕ → Hub F → Hub F
  unfolding gc_nodes list_nodes
  gc_offline_peers now h = elim ((list_nodes h.store).0) [ err _ ↦ h | ok ns ↦ gc_nodes ns now h ]
