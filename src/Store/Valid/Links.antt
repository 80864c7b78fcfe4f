-- ===== src/Store/Valid/Links.antt =====
-- The statements over `links` keep the tables valid.
use Prim.Native.String.{compare}
use text.Mathlib.Text.{is_lt}
use light_pn.Prelude.{
  ℕ, String, ◌≡◌, refl, sym, ap, subst, Result, some, true, false, List, [], ◌∷◌, ◌is◌, is_iff, has,
  All, All-append, All-keep_if, find_first, arith, Bool-cases, Option-cases, inl, inr, ok, err,
}
use light_pn.Prelude.Texts.{lt_of_not-lt}
use light_pn.Prelude.Io.{and_then, return}
use light_pn.Store.{StoreError, Node, Link, Store, update_where}
use light_pn.Store.Nodes.{is_node}
use light_pn.Store.Links.{
  is_link, sort_pair, same_pair, insert_link, create_link, get_link, is_end, set_exit,
  set_link_exit, delete_link,
}
use light_pn.Store.Valid.{Distinct, IsSound, IsValid}
use light_pn.Store.Valid.Tables.{
  Distinct-append, Distinct-keep_if, Distinct-update_where, DistinctPairs-append,
  DistinctPairs-keep_if, DistinctPairs-update_where, update_where-none,
}

insert_link-IsValid :
    (l : Link) (st : Store)
    → is_lt (compare l.a l.b) ≡ true
    → l.exit_node ≡ ""
    → IsValid st
    → IsValid (insert_link l st).1
unfolding insert_link
insert_link-IsValid l st sorted plain v = elim (Bool-cases (has (is_link l.id) st.links)) [
  | inl e ↦ rw e v
  | inr e ↦ rw e (elim (Bool-cases (has (same_pair l.a l.b) st.links)) [
    | inl f ↦ rw f v
    | inr f ↦ rw f (elim (Bool-cases (has (is_node l.a) st.nodes)) [
      | inr g ↦ rw g v
      | inl g ↦ rw g (elim (Bool-cases (has (is_node l.b) st.nodes)) [
        | inr h ↦ rw h v
        | inl h ↦ rw h (record {
          node_ids = v.node_ids;
          node_ips = v.node_ips;
          parked = v.parked;
          link_ids = Distinct-append (λ (k : Link). k.id) st.links l e v.link_ids;
          link_pairs = DistinctPairs-append st.links l f v.link_pairs;
          links_sound = All-append (IsSound st.nodes) st.links (l ∷ []) v.links_sound (
            record { a_exists = g; b_exists = h; ordered = sorted; exit_is_end = rw plain refl },
            tt,
          );
        })
      ])
    ])
  ])
]

-- sort.Strings puts two different texts in order.
pub sort_pair-ordered :
    (a b : String) → (a is b) ≡ false → is_lt (compare (sort_pair a b).0 (sort_pair a b).1) ≡ true
unfolding sort_pair
sort_pair-ordered a b h = ground (arith, lt_of_not-lt a b)

pub create_link-IsValid :
    (id a b : String) (now : ℕ) (st : Store) → IsValid st → IsValid (create_link id a b now st).1
unfolding create_link
create_link-IsValid id a b now st v = elim (Bool-cases (a is b)) [
  | inl e ↦ rw e v
  | inr e ↦
      rw e
        (bound (insert_link row st) (insert_link-IsValid row st (sort_pair-ordered a b e) refl v))
]
  where
    row : Link
    row = record {
      id = id;
      a = (sort_pair a b).0;
      b = (sort_pair a b).1;
      created_at = now;
      exit_node = "";
    }

    bound :
        (p : Result StoreError Unit × Store)
        → IsValid p.1
        → IsValid (and_then p (λ _. return row)).1
    bound (ok u, st') h = h
    bound (err x, st') h = h

-- The exit that SetLinkExit stores is an end of every row with this id: ids are distinct.
exit-IsSound :
    (nodes : List Node) (l : Link) (exit : String)
    → is_end exit l ≡ true
    → IsSound nodes l
    → IsSound nodes (record l { exit_node = exit })
exit-IsSound nodes l exit e s = record {
  a_exists = s.a_exists;
  b_exists = s.b_exists;
  ordered = s.ordered;
  exit_is_end = e;
}

exits-IsSound :
    (nodes : List Node) (l : Link) (exit : String) (ls : List Link)
    → is_end exit l ≡ true
    → find_first (is_link l.id) ls ≡ some l
    → Distinct (λ (k : Link). k.id) ls
    → All (IsSound nodes) ls
    → All (IsSound nodes) (update_where (is_link l.id) (λ x. record x { exit_node = exit }) ls)
unfolding update_where
exits-IsSound nodes l exit [] e f d h = tt
exits-IsSound nodes l exit (k ∷ ks) e f d h = elim (Bool-cases (is_link l.id k)) [
  | inl hit ↦
      let same : k ≡ l = ground arith in
      let once : has (is_link l.id) ks ≡ false =
        subst (λ t. has (λ (y : Link). y.id is t) ks ≡ false) (ap (λ (y : Link). y.id) same) d.0 in
      rw (hit, update_where-none (is_link l.id) (λ x. record x { exit_node = exit }) ks once)
        (exit-IsSound nodes k exit (subst (λ y. is_end exit y ≡ true) (sym same) e) h.0, h.1)
  | inr miss ↦ rw miss (h.0, exits-IsSound nodes l exit ks e (ground arith) d.1 h.1)
]

set_exit-IsValid :
    (l : Link) (exit : String) (st : Store)
    → find_first (is_link l.id) st.links ≡ some l
    → IsValid st
    → IsValid (set_exit l exit st).1
unfolding set_exit
set_exit-IsValid l exit st f v = elim (Bool-cases (is_end exit l)) [
  | inr e ↦ rw e v
  | inl e ↦ rw e (record {
    node_ids = v.node_ids;
    node_ips = v.node_ips;
    parked = v.parked;
    link_ids =
        Distinct-update_where (λ (k : Link). k.id) (is_link l.id) _ st.links (λ _. refl) v.link_ids;
    link_pairs = DistinctPairs-update_where (is_link l.id) exit st.links v.link_pairs;
    links_sound = exits-IsSound st.nodes l exit st.links e f v.link_ids v.links_sound;
  })
]

-- The row that a lookup by id finds has that id.
pub find_link-id :
    (id : String) (ls : List Link) (l : Link) → find_first (is_link id) ls ≡ some l → l.id ≡ id
find_link-id id [] l h = cc
find_link-id id (k ∷ ks) l h = ground (arith, is_iff k.id id, find_link-id id ks l)

pub set_link_exit-IsValid :
    (id exit : String) (st : Store) → IsValid st → IsValid (set_link_exit id exit st).1
unfolding set_link_exit get_link
set_link_exit-IsValid id exit st v = elim (Option-cases (find_first (is_link id) st.links)) [
  | inl e ↦ rw e v
  | inr (l, e) ↦
      let same : l.id ≡ id = find_link-id id st.links l e in
      rw e (
        set_exit-IsValid l exit st
          (subst (λ t. find_first (is_link t) st.links ≡ some l) (sym same) e) v)
]

pub delete_link-IsValid : (id : String) (st : Store) → IsValid st → IsValid (delete_link id st).1
unfolding delete_link
delete_link-IsValid id st v = elim (Bool-cases (has (is_link id) st.links)) [
  | inr e ↦ rw e v
  | inl e ↦ rw e (record {
    node_ids = v.node_ids;
    node_ips = v.node_ips;
    parked = v.parked;
    link_ids = Distinct-keep_if (λ (k : Link). k.id) _ st.links v.link_ids;
    link_pairs = DistinctPairs-keep_if _ st.links v.link_pairs;
    links_sound = All-keep_if (IsSound st.nodes) _ st.links v.links_sound;
  })
]
