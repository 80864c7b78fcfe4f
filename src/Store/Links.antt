-- ===== src/Store/Links.antt =====
-- The links of internal/hub/store.go.
use Prim.Native.String.{compare}
use text.Mathlib.Text.{is_lt}
use light_pn.Prelude.{
  ℕ, String, Bool, not, ◌&&◌, ◌||◌, List, [], ◌∷◌, ◌++◌, ok, err, if◌then◌else◌, ◌is◌, has,
  find_first, keep_if,
}
use light_pn.Prelude.Io.{return, fail, ◌>>=◌, ◌>>◌}
use light_pn.Store.{
  Link, not_found, unique_violation, foreign_key_violation, self_link, bad_exit_node, Tx,
  update_where, order_by, or_not_found,
}
use light_pn.Store.Nodes.{is_node}

abbrev pub is_link : String → Link → Bool
is_link id l = l.id is id

-- sort.Strings on a pair
unfoldable pub sort_pair : String → String → String × String
sort_pair a b = if is_lt (compare b a) then (b, a) else (a, b)

abbrev pub same_pair : String → String → Link → Bool
same_pair a b l = l.a is a && l.b is b

-- INSERT INTO links, under PRIMARY KEY (id), UNIQUE (a, b) and the two foreign keys
unfoldable pub insert_link : Link → Tx Unit
insert_link l st =
    if has (is_link l.id) st.links || has (same_pair l.a l.b) st.links
    then (err unique_violation, st)
    else if not (has (is_node l.a) st.nodes && has (is_node l.b) st.nodes)
    then (err foreign_key_violation, st)
    else (ok tt, record st { links = st.links ++ l ∷ [] })

-- `id` is the new ULID
unfoldable pub create_link : String → String → String → ℕ → Tx Link
unfolding sort_pair insert_link
create_link id a b now =
    if a is b
    then fail self_link
    else (let (x, y) = sort_pair a b in
        let l : Link = record { id = id; a = x; b = y; created_at = now; exit_node = "" } in
        do insert_link l; return l)

unfoldable pub get_link : String → Tx Link
get_link id st = or_not_found (find_first (is_link id) st.links) st

abbrev pub is_end : String → Link → Bool
is_end n l = n is "" || n is l.a || n is l.b

unfoldable pub set_exit : Link → String → Tx Link
unfolding update_where
set_exit l exit st =
    if is_end exit l
    then (
      ok (record l { exit_node = exit }),
      record st {
        links = update_where (is_link l.id) (λ x. record x { exit_node = exit }) st.links;
      },
    )
    else (err bad_exit_node, st)

unfoldable pub set_link_exit : String → String → Tx Link
unfolding get_link set_exit
set_link_exit id exit = do l ← get_link id; set_exit l exit

unfoldable pub delete_link : String → Tx Unit
delete_link id st =
    if has (is_link id) st.links
    then (ok tt, record st { links = keep_if (λ l. not (is_link id l)) st.links })
    else (err not_found, st)

unfoldable pub list_links : Tx (List Link)
unfolding order_by
list_links st = (ok (order_by (λ l. l.created_at) st.links), st)

-- (l *Link) Other(id)
unfoldable pub other : Link → String → String
other l id = if l.a is id then l.b else l.a
