-- ===== src/Hub/Admin.antt =====
-- The operations of the panel on links and nodes, of internal/hub/hub.go.
use light_pn.Prelude.{ℕ, ◌+◌, String, true, List, [], ◌∷◌, Option, none, some, Result, ok, err}
use light_pn.Prelude.Map.{insert, delete}
use light_pn.Proto.{version}
use light_pn.Proto.Kind
use light_pn.Store.{Node, Link, Store, StoreError}
use light_pn.Store.Nodes.{list_nodes, links_of_node, revoked_serials}
use light_pn.Store.Links.{other, get_link}
use light_pn.Store.Nodes as Nodes
use light_pn.Store.Links as Links
use light_pn.Metrics.{drop_node}
use light_pn.Hub.State.{link_changed, node_changed, Hub, World, session_of}
use light_pn.Hub.Push.{push_link, push_pair, ensure_link}
use light_pn.Hub.Status.{link_status}
use light_pn.Hub.Session.{publish}
use light_pn.Hub.Removal.{remove_link_from_peers, remove_side, send_to}

pub data HubError : Type 0 where
  refused : StoreError → HubError
  node_offline marshal_failed : HubError

module _ {F : Type 0} where
  abbrev pub forget_node : String → Hub F → Hub F
  forget_node id h = record h {
    metrics = drop_node id h.metrics;
    last_wg = delete id h.last_wg;
    gc_done = delete id h.gc_done;
  }

  abbrev pub pushed : Link → ℕ → Option (Hub F) → Option (Result HubError Link × Hub F)
  pushed l now none = none
  pushed l now (some h) = some (ok l, publish (link_changed l.id (some (link_status l now h))) h)

module _ {F : Type 0} (w : World F) where
  abbrev pub created :
      ℕ → Hub F → Result StoreError Link × Store → Option (Result HubError Link × Hub F)
  created now h (err e, st) = some (err (refused e), record h { store = st })
  created now h (ok l, st) = pushed l now (push_link w l (record h { store = st }))

  -- CreateLink; `none` is a panic of pushPairLocked
  unfoldable pub create_link : String → String → ℕ → Hub F → Option (Result HubError Link × Hub F)
  unfolding Links.create_link push_link link_status
  create_link a b now h =
      created now (record h { next_id = h.next_id + 1 })
        (Links.create_link (w.ulid h.next_id) a b now h.store)

  abbrev pub exit_set :
      ℕ → Hub F → Result StoreError Link × Store → Option (Result HubError Link × Hub F)
  exit_set now h (err e, st) = some (err (refused e), record h { store = st })
  exit_set now h (ok l, st) =
      pushed l now (push_pair w l Kind.peer_update (ensure_link w l (record h { store = st })))

  -- SetLinkExit
  unfoldable pub set_link_exit : String → String → ℕ → Hub F → Option (Result HubError Link × Hub F)
  unfolding Links.set_link_exit push_pair ensure_link link_status
  set_link_exit id exit now h = exit_set now h (Links.set_link_exit id exit h.store)

  abbrev pub link_deleted :
      Link → Hub F → Result StoreError Unit × Store → Result HubError Unit × Hub F
  link_deleted l h (err e, st) = (err (refused e), record h { store = st })
  link_deleted l h (ok _, st) = (
    ok tt,
    publish (link_changed l.id none) (remove_link_from_peers w l (record h { store = st })),
  )

  -- DeleteLink
  unfoldable pub delete_link : String → Hub F → Result HubError Unit × Hub F
  unfolding get_link Links.delete_link remove_link_from_peers
  delete_link id h = elim ((get_link id h.store).0) [
    | err e ↦ (err (refused e), h)
    | ok l ↦ link_deleted l h (Links.delete_link id h.store)
  ]

  -- the loop of DeleteNode over the links of the node
  unfoldable pub withdraw : String → List Link → Hub F → Hub F
  unfolding remove_side other
  withdraw id [] h = h
  withdraw id (l ∷ ls) h =
      let h' = remove_side w l (other l id) id h in
      withdraw id ls (record h' { links = delete l.id h'.links })

  abbrev pub kick_ref : Option ℕ → Hub F → Hub F
  kick_ref none h = h
  kick_ref (some r) h =
      send_to r
        (record {
          v = version;
          kind = Kind.kick;
          id = w.ulid h.next_id;
          payload = w.kick (record { reason = "removed by admin" });
        })
        (record h { next_id = h.next_id + 1 })

  abbrev pub node_deleted :
      String → Hub F → Result StoreError (Node × List Link) × Store → Result HubError Unit × Hub F
  node_deleted id h (err e, st) = (err (refused e), record h { store = st })
  node_deleted id h (ok (n, ls), st) =
      let h' = withdraw id ls (record h { store = st }) in
      let revoked = record h' { revoked = insert n.cert_serial true h'.revoked } in
      (
        ok tt,
        publish (node_changed id none) (forget_node id (kick_ref (session_of revoked id) revoked)),
      )

  -- DeleteNode; its session is closed two seconds later
  unfoldable pub delete_node : String → ℕ → Hub F → Result HubError Unit × Hub F
  unfolding Nodes.delete_node withdraw send_to drop_node
  delete_node id now h = node_deleted id h (Nodes.delete_node id now h.store)
