-- ===== src/Hub/Revoked.antt =====
-- A deleted node stays out: DeleteNode, New and handleConn of internal/hub.
use light_pn.Prelude.{
  ℕ, String, ◌≡◌, refl, sym, ap, ◌∙◌, subst, Bool, true, List, [], ◌∷◌, map, Option, none, some,
  Result, ok, err, arith, if◌then◌else◌, ◌is◌, is_iff, is_refl, keep_if, find_first,
}
use light_pn.Prelude.Map.{
  Map, lookup, insert, delete, lookup-insert, lookup-insert_self, lookup-delete_self,
}
use light_pn.Proto.Code
use light_pn.Store.{Node, Link, Store, StoreError, update_where}
use light_pn.Store.Nodes.{is_node, revoke, revoked_serials}
use light_pn.Store.Nodes as Nodes
use light_pn.Store.Nodes.Delete.{delete_node-ok}
use light_pn.Hub.State.{Config, WgIdent, node_changed, Hub, World, session_of}
use light_pn.Hub.Session.{publish}
use light_pn.Store.Links.{other}
use light_pn.Hub.Removal.{flag, flags_of, new_hub, is_revoked, send_to, send_remove, remove_side}
use light_pn.Hub.Admin.{node_deleted, delete_node, withdraw, kick_ref, forget_node}
use light_pn.Hub.Enroll.{rejects, handle_conn}

-- the serials of a table's revoked rows
abbrev serials : List Node → List String
serials ns = map (λ n. n.cert_serial) (keep_if (λ n. n.revoked) ns)

flag-flags_of :
    (k : String) (j : String) (ks : List String)
    → flag k (flags_of (j ∷ ks)) ≡ (if j is k then true else flag k (flags_of ks))
unfolding flags_of
flag-flags_of k j ks = ground (arith, lookup-insert k j true (flags_of ks))

flag-insert_self : (k : String) (m : Map Bool) → flag k (insert k true m) ≡ true
flag-insert_self k m = ground (arith, lookup-insert_self k true m)

-- the serial of a row that is revoked now
flag-revoked :
    (id : String) (ns : List Node) (n : Node)
    → find_first (is_node id) ns ≡ some n
    → flag n.cert_serial (flags_of (serials (update_where (is_node n.id) revoke ns))) ≡ true
unfolding update_where
flag-revoked id [] n e = cc
flag-revoked id (m ∷ ns) n e = ground (
  arith,
  e,
  is_refl n.id,
  is_refl n.cert_serial,
  flag-revoked id ns n,
  is_iff m.id id,
  flag-flags_of n.cert_serial m.cert_serial (serials (update_where (is_node n.id) revoke ns)),
)

module _ {F : Type 0} where
  refused_if :
      (serial name : String) (h : Hub F)
      → flag serial h.revoked ≡ true
      → handle_conn (some (record { common_name = name; serial = serial })) h
        ≡ rejects Code.cert_revoked "certificate revoked"
  unfolding handle_conn is_revoked
  refused_if serial name h e = rw (e, handle_conn) refl

  restarted :
      (cfg : Config) (st : Store) (h : Hub F)
      → new_hub cfg st ≡ ok h
      → h.revoked ≡ flags_of (serials st.nodes)
  unfolding new_hub revoked_serials
  restarted cfg st h e = cc

module _ {F : Type 0} (w : World F) where
  kick_ref-kept :
      (r : Option ℕ) (h : Hub F)
      → ((kick_ref w r h).revoked ≡ h.revoked) × ((kick_ref w r h).store ≡ h.store)
  unfolding send_to
  kick_ref-kept none h = (refl, refl)
  kick_ref-kept (some r) h = (ground arith, ground arith)

  send_remove-store :
      (l : Link) (r : Option ℕ) (i : Option WgIdent) (h : Hub F)
      → (send_remove w l r i h).store ≡ h.store
  unfolding send_to
  send_remove-store l none i h = refl
  send_remove-store l (some r) none h = refl
  send_remove-store l (some r) (some i) h = ground arith

  withdraw-store : (id : String) (ls : List Link) (h : Hub F) → (withdraw w id ls h).store ≡ h.store
  unfolding withdraw remove_side
  withdraw-store id [] h = refl
  withdraw-store id (l ∷ ls) h =
      let h₁ = remove_side w l (other l id) id h in
      withdraw-store id ls (record h₁ { links = delete l.id h₁.links })
      ∙ send_remove-store l (session_of h (other l id)) (lookup id h.last_wg) h

  node_deleted-ok :
      (id : String) (h h' : Hub F) (n : Node) (ls : List Link) (st : Store)
      → node_deleted w id h (ok (n, ls), st) ≡ (ok tt, h')
      → (flag n.cert_serial h'.revoked ≡ true) × (h'.store ≡ st) × (lookup id h'.last_wg ≡ none)
  node_deleted-ok id h h' n ls st e =
      let h₁ = withdraw w id ls (record h { store = st }) in
      let h₂ = record h₁ { revoked = insert n.cert_serial true h₁.revoked } in
      let h₃ = kick_ref w (session_of h₂ id) h₂ in
      let (revoked, store) = kick_ref-kept (session_of h₂ id) h₂ in
      let is_h : publish (node_changed id none) (forget_node id h₃) ≡ h' = ap (λ p. p.1) e in
      (
        subst (λ (k : Hub F). flag n.cert_serial k.revoked ≡ true) is_h
            (rw revoked (flag-insert_self n.cert_serial h₁.revoked)),
        ap (λ (k : Hub F). k.store) (sym is_h)
            ∙ store
            ∙ withdraw-store id ls (record h { store = st }),
        subst (λ (k : Hub F). lookup id k.last_wg ≡ none) is_h (lookup-delete_self id h₃.last_wg),
      )

abbrev pub Refuses : {F : Type 0} → String → Hub F → Type 0
Refuses serial h =
    (name : String)
    → handle_conn (some (record { common_name = name; serial = serial })) h
      ≡ rejects Code.cert_revoked "certificate revoked"

-- After DeleteNode succeeds, the hub refuses the certificate of the node's row as revoked and has
-- no WireGuard material of the node; a hub that is started again on the stored tables refuses the
-- certificate as well.
pub delete_node-refused :
    {F : Type 0} (w : World F) (id : String) (now : ℕ) (h h' : Hub F)
    → delete_node w id now h ≡ (ok tt, h')
    → (n : Node) × (find_first (is_node id) h.store.nodes ≡ some n)
      × Refuses n.cert_serial h'
      × (lookup id h'.last_wg ≡ none)
      × ((cfg : Config) (h'' : Hub F) → new_hub cfg h'.store ≡ ok h'' → Refuses n.cert_serial h'')
unfolding delete_node
delete_node-refused {F} w id now h h' = go (Nodes.delete_node id now h.store) refl
  where
    go :
        (p : Result StoreError (Node × List Link) × Store)
        → Nodes.delete_node id now h.store ≡ p
        → node_deleted w id h p ≡ (ok tt, h')
        → (n : Node) × (find_first (is_node id) h.store.nodes ≡ some n)
          × Refuses n.cert_serial h'
          × (lookup id h'.last_wg ≡ none)
          × ((cfg : Config) (h'' : Hub F)
              → new_hub cfg h'.store ≡ ok h''
              → Refuses n.cert_serial h'')
    go (err e, st) d k = cc (ap (λ p. p.0) k)
    go (ok (n, ls), st) d k =
        let (found, _, after) = delete_node-ok id now h.store st n ls d in
        let (revoked, store, gone) = node_deleted-ok w id h h' n ls st k in
        (
          n,
          found,
          λ name. refused_if n.cert_serial name h' revoked,
          gone,
          λ cfg h'' started name. refused_if n.cert_serial name h'' (
              rw (restarted cfg h'.store h'' started, store, after)
                (flag-revoked id h.store.nodes n found)),
        )
