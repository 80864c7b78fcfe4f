-- ===== src/Store/Nodes.antt =====
-- The node registry of internal/hub/store.go: CreateNode to UpdateCertSerial.
pub mod Delete
pub mod Removed
use Prim.Native.String.{◌++◌ as text_append}
use light_pn.Prelude.{
  ℕ, String, Bool, true, false, not, ◌&&◌, ◌||◌, List, [], ◌∷◌, ◌++◌, map, Option, none, some, ok,
  err, if◌then◌else◌, ◌is◌, has, find_first, keep_if,
}
use light_pn.Prelude.Map.{insert}
use light_pn.Prelude.Io.{Io, return, fail, ◌>>=◌, ◌>>◌}
use light_pn.Store.{
  Node, Link, Store, SvcName, StoreError, not_found, unique_violation, Tx, update_where, order_by,
  or_not_found,
}

abbrev pub is_node : String → Node → Bool
is_node id n = n.id is id

abbrev pub touches : String → Link → Bool
touches id l = l.a is id || l.b is id

-- INSERT INTO nodes, under PRIMARY KEY (id) and UNIQUE (overlay_ip)
unfoldable pub create_node : Node → Tx Unit
create_node n st =
    if has (is_node n.id) st.nodes || has (λ m. m.overlay_ip is n.overlay_ip) st.nodes
    then (err unique_violation, st)
    else (ok tt, record st { nodes = st.nodes ++ record n { revoked = false } ∷ [] })

unfoldable pub get_node : String → Tx Node
get_node id st = or_not_found (find_first (is_node id) st.nodes) st

unfoldable pub list_nodes : Tx (List Node)
unfolding order_by
list_nodes st = (ok (order_by (λ n. n.created_at) (keep_if (λ n. not n.revoked) st.nodes)), st)

unfoldable pub rename_node : String → String → Tx Unit
unfolding update_where
rename_node id name st =
    let live = λ (n : Node). n.id is id && not n.revoked in
    if has live st.nodes
    then (ok tt, record st { nodes = update_where live (λ n. record n { name = name }) st.nodes })
    else (err not_found, st)

unfoldable pub touch_node : String → ℕ → Tx Unit
unfolding update_where
touch_node id ts st = (
  ok tt,
  record st { nodes = update_where (is_node id) (λ n. record n { last_seen = ts }) st.nodes },
)

unfoldable pub links_of_node : String → Tx (List Link)
links_of_node id st = (ok (keep_if (touches id) st.links), st)

-- overlay_ip='freed:'||id
abbrev pub freed_ip : String → String
freed_ip id = text_append "freed:" id

-- UPDATE nodes SET revoked=1, overlay_ip='freed:'||id
abbrev pub revoke : Node → Node
revoke n = record n { revoked = true; overlay_ip = freed_ip n.id }

-- another row holds the text that a deleted node's address becomes
abbrev pub parks_at : String → Node → Bool
parks_at id m = not (m.id is id) && m.overlay_ip is freed_ip id

-- The four statements of the transaction, once the node was read; the update of the UNIQUE
-- column can be refused, and then all is rolled back.
unfoldable pub remove_node : Node → List Link → ℕ → Tx (Node × List Link)
unfolding update_where insert
remove_node node links now st =
    if has (parks_at node.id) st.nodes then (err unique_violation, st) else (
      ok (node, links),
      record st {
        links = keep_if (λ l. not (touches node.id l)) st.links;
        nodes = update_where (is_node node.id) revoke st.nodes;
        ip_cooldown = insert node.overlay_ip now st.ip_cooldown;
        svc_names = keep_if (λ s. not (s.node_id is node.id)) st.svc_names;
      },
    )

unfoldable pub delete_node : String → ℕ → Tx (Node × List Link)
unfolding get_node links_of_node remove_node
delete_node id now = do node ← get_node id; links ← links_of_node id; remove_node node links now

unfoldable pub revoked_serials : Tx (List String)
revoked_serials st = (ok (map (λ n. n.cert_serial) (keep_if (λ n. n.revoked) st.nodes)), st)

unfoldable pub update_cert_serial : String → String → Tx Unit
unfolding update_where
update_cert_serial id serial st = (
  ok tt,
  record st { nodes = update_where (is_node id) (λ n. record n { cert_serial = serial }) st.nodes },
)
