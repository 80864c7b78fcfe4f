-- ===== src/Store/Names.antt =====
-- The service display names and the admin accounts of internal/hub/store.go.
use light_pn.Prelude.{
  ℕ, String, ◌+◌, Bool, not, ◌&&◌, List, [], ◌∷◌, ◌++◌, ok, ltb, if◌then◌else◌, ◌is◌, has,
  find_first, keep_if, length,
}
use light_pn.Prelude.Map.{Map, insert}
use light_pn.Prelude.Io.{return, ◌>>=◌}
use light_pn.Store.{SvcName, AdminRow, Tx, update_where, or_not_found}

abbrev pub is_entry : String → String → SvcName → Bool
is_entry node alias s = s.node_id is node && s.alias is alias

-- the result map, filled row by row
unfoldable pub names_of : List SvcName → Map String
unfolding insert
names_of [] = []
names_of (s ∷ rows) = insert s.alias s.display (names_of rows)

unfoldable pub svc_names : String → Tx (Map String)
unfolding names_of
svc_names node st = (ok (names_of (keep_if (λ s. s.node_id is node) st.svc_names)), st)

abbrev pub drop_entry : String → String → List SvcName → List SvcName
drop_entry node alias = keep_if (λ s. not (is_entry node alias s))

unfoldable pub set_svc_name : String → String → String → Tx Unit
set_svc_name node alias display st =
    let rest = drop_entry node alias st.svc_names in
    let row : SvcName = record { node_id = node; alias = alias; display = display } in
    (ok tt, record st { svc_names = if display is "" then rest else rest ++ row ∷ [] })

-- the loop of PruneSvcNames over the aliases that have a name
unfoldable pub prune : String → List String → Map String → ℕ → Tx ℕ
prune node keep [] removed st = (ok removed, st)
prune node keep ((alias, _) ∷ names) removed st =
    let live = has (λ a. a is alias) keep in
    prune node keep names (if live then removed else removed + 1)
      (if live then st else record st { svc_names = drop_entry node alias st.svc_names })

unfoldable pub prune_svc_names : String → List String → Tx ℕ
unfolding svc_names prune
prune_svc_names node keep = do names ← svc_names node; prune node keep names 0

-- `id` is a new ULID
unfoldable pub set_admin : String → String → String → Tx Unit
unfolding update_where
set_admin id username pw_hash st =
    let mine = λ (a : AdminRow). a.username is username in
    let row : AdminRow = record { id = id; username = username; pw_hash = pw_hash } in
    (
      ok tt,
      record st {
        admins =
            if has mine st.admins
            then update_where mine (λ a. record a { pw_hash = pw_hash }) st.admins
            else st.admins ++ row ∷ [];
      },
    )

unfoldable pub get_admin_hash : String → Tx String
get_admin_hash username = do
  a ← (λ st. or_not_found (find_first (λ a. a.username is username) st.admins) st)
  return a.pw_hash

unfoldable pub has_admin : Tx Bool
has_admin st = (ok (ltb 0 (length st.admins)), st)
