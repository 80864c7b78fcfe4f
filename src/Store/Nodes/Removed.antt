-- ===== src/Store/Nodes/Removed.antt =====
-- What DeleteNode leaves of a node, and what it leaves alone: internal/hub/store.go.
use Prim.Native.String.{◌++◌ as text_append}
use light_pn.Prelude.{
  ℕ, String, ◌≡◌, ◌≢◌, refl, sym, ◌∙◌, ap, Bool, true, not, List, [], ◌∷◌, Option, none, some, ok,
  arith, ◌is◌, is_iff, find_first, keep_if,
}
use light_pn.Prelude.Map.{lookup, lookup-insert_self}
use light_pn.Store.{Node, Link, SvcName, Store, update_where, or_not_found}
use light_pn.Store.Nodes.{is_node, touches, revoke, delete_node, get_node, links_of_node}
use light_pn.Store.Nodes.Delete.{delete_node-ok}
use light_pn.Store.Names.{svc_names, names_of}

find-revoked :
    (id : String) (ns : List Node) (n : Node)
    → find_first (is_node id) ns ≡ some n
    → find_first (is_node id) (update_where (is_node id) revoke ns) ≡ some (revoke n)
unfolding update_where
find-revoked id [] n e = cc e
find-revoked id (m ∷ ns) n e = ground (arith, find-revoked id ns n, e, ap revoke)

find-revoked_other :
    (id j : String) (ns : List Node)
    → j ≢ id
    → find_first (is_node j) (update_where (is_node id) revoke ns) ≡ find_first (is_node j) ns
unfolding update_where
find-revoked_other id j [] d = refl
find-revoked_other id j (m ∷ ns) d =
    ground (arith, find-revoked_other id j ns d, is_iff m.id id, is_iff m.id j, d)

find_first-id :
    (id : String) (ns : List Node) (n : Node) → find_first (is_node id) ns ≡ some n → n.id ≡ id
find_first-id id [] n e = cc e
find_first-id id (m ∷ ns) n e =
    ground (arith, find_first-id id ns n, e, is_iff m.id id, ap (λ (k : Node). k.id))

module _ {ℓ} {A : Type ℓ} where
  keep_if-not : (p : A → Bool) (xs : List A) → keep_if p (keep_if (λ x. not (p x)) xs) ≡ []
  keep_if-not p [] = refl
  keep_if-not p (x ∷ xs) = ground (arith, keep_if-not p xs)

  keep_if-swap :
      (p q : A → Bool) (xs : List A) → keep_if p (keep_if q xs) ≡ keep_if q (keep_if p xs)
  keep_if-swap p q [] = refl
  keep_if-swap p q (x ∷ xs) = ground (arith, keep_if-swap p q xs)

or_not_found-same :
    {A : Type 0} (o o' : Option A) (st st' : Store)
    → o' ≡ o
    → (or_not_found o' st').0 ≡ (or_not_found o st).0
or_not_found-same none none st st' e = refl
or_not_found-same none (some a) st st' e = cc e
or_not_found-same (some a) none st st' e = cc e
or_not_found-same (some a) (some b) st st' e = cc e

-- A successful DeleteNode returns the node's row and its links as they were. Afterwards the row is
-- still found, revoked, with its serial and without its address, and every other node's row is as
-- before; the node has no link and no service names, and another node has its links but those with
-- the deleted one; and the address is in the cooldown table with the time of the call.
pub delete_node-removes :
    (id : String) (now : ℕ) (st st' : Store) (n : Node) (ls : List Link)
    → delete_node id now st ≡ (ok (n, ls), st')
    → ((get_node id st).0 ≡ ok n)
      × ((links_of_node id st).0 ≡ ok ls)
      × ((m : Node) × ((get_node id st').0 ≡ ok m)
          × (m.revoked ≡ true)
          × (m.cert_serial ≡ n.cert_serial)
          × (m.overlay_ip ≡ text_append "freed:" id))
      × ((j : String) → j ≢ id → (get_node j st').0 ≡ (get_node j st).0)
      × ((links_of_node id st').0 ≡ ok [])
      × ((j : String) (ks : List Link)
          → (links_of_node j st).0 ≡ ok ks
          → (links_of_node j st').0 ≡ ok (keep_if (λ l. not (touches id l)) ks))
      × ((svc_names id st').0 ≡ ok [])
      × (lookup n.overlay_ip st'.ip_cooldown ≡ some now)
unfolding get_node links_of_node svc_names
delete_node-removes id now st st' n ls h =
    let (found, links, after) = delete_node-ok id now st st' n ls h in
    let mine : n.id ≡ id = find_first-id id st.nodes n found in
    let nodes : st'.nodes ≡ update_where (is_node id) revoke st.nodes =
      ap (λ (s : Store). s.nodes) after ∙ ap (λ i. update_where (is_node i) revoke st.nodes) mine in
    let kept : st'.links ≡ keep_if (λ l. not (touches id l)) st.links =
      ap (λ (s : Store). s.links) after
      ∙ ap (λ i. keep_if (λ l. not (touches i l)) st.links) mine in
    let names : st'.svc_names ≡ keep_if (λ (s : SvcName). not (s.node_id is id)) st.svc_names =
      ap (λ (s : Store). s.svc_names) after
      ∙ ap (λ i. keep_if (λ (s : SvcName). not (s.node_id is i)) st.svc_names) mine in
    (
      rw found refl,
      ap ok (sym links),
      (
        revoke n,
        rw nodes (rw (find-revoked id st.nodes n found) refl),
        refl,
        refl,
        ap (text_append "freed:") mine,
      ),
      λ j d.
          or_not_found-same (find_first (is_node j) st.nodes) (find_first (is_node j) st'.nodes) st
            st' (ap (find_first (is_node j)) nodes ∙ find-revoked_other id j st.nodes d),
      rw kept (ap ok (keep_if-not (touches id) st.links)),
      λ j ks e.
          rw kept (ap ok (keep_if-swap (touches j) (λ l. not (touches id l)) st.links) ∙ cc e),
      rw names (
          ap (λ ss. ok (names_of ss))
            (keep_if-not (λ (s : SvcName). s.node_id is id) st.svc_names)),
      ap (λ (s : Store). lookup n.overlay_ip s.ip_cooldown) after
          ∙ lookup-insert_self n.overlay_ip now st.ip_cooldown,
    )
