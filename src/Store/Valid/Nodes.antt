-- ===== src/Store/Valid/Nodes.antt =====
-- The statements over `nodes` keep the tables valid.
use light_pn.Prelude.{
  ℕ, String, ◌≡◌, refl, sym, ◌∙◌, ap, subst, Bool, true, false, not, ◌&&◌, List, [], ◌∷◌, ◌++◌,
  ◌is◌, is_iff, is_sym, has, All, All-append, All-map, All-keep_if, arith, Bool-cases, Option-cases,
  find_first, inl, inr,
}
use light_pn.Store.{Node, Link, Store, update_where}
use light_pn.Store.Nodes.{
  is_node, create_node, rename_node, touch_node, update_cert_serial, freed_ip, revoke, parks_at,
  remove_node, delete_node, get_node, links_of_node,
}
use light_pn.Store.Valid.{Distinct, IsParked, IsSound, IsValid}
use light_pn.Store.Valid.Tables.{
  has-append, has-update_where, All-update_where, Distinct-append, Distinct-keep_if,
  Distinct-update_where, update_where-none, has_split, DistinctPairs-keep_if,
}

-- What a link needs of `nodes` is that the ids stay.
IsSound-nodes :
    (nodes nodes' : List Node)
    → ((id : String) → has (is_node id) nodes ≡ true → has (is_node id) nodes' ≡ true)
    → (ls : List Link) → All (IsSound nodes) ls
    → All (IsSound nodes') ls
IsSound-nodes nodes nodes' stay ls h =
    All-map ls
      (λ l s. record {
        a_exists = stay l.a s.a_exists;
        b_exists = stay l.b s.b_exists;
        ordered = s.ordered;
        exit_is_end = s.exit_is_end;
      })
      h

pub create_node-IsValid : (n : Node) (st : Store) → IsValid st → IsValid (create_node n st).1
unfolding create_node
create_node-IsValid n st v = elim (Bool-cases (has (is_node n.id) st.nodes)) [
  | inl e ↦ rw e v
  | inr e ↦ rw e (elim (Bool-cases (has (λ m. m.overlay_ip is n.overlay_ip) st.nodes)) [
    | inl f ↦ rw f v
    | inr f ↦ rw f (record {
      node_ids = Distinct-append (λ (m : Node). m.id) st.nodes row e v.node_ids;
      node_ips = Distinct-append (λ (m : Node). m.overlay_ip) st.nodes row f v.node_ips;
      parked = All-append IsParked st.nodes (row ∷ []) v.parked ((λ r. cc), tt);
      link_ids = v.link_ids;
      link_pairs = v.link_pairs;
      links_sound =
          IsSound-nodes st.nodes (st.nodes ++ row ∷ [])
            (λ id h. ground (arith, has-append (is_node id) st.nodes (row ∷ []))) st.links
            v.links_sound;
    })
  ])
]
  where
    row : Node
    row = record n { revoked = false }

-- An update of columns that no other table and no constraint reads.
update-IsValid :
    (q : Node → Bool) (f : Node → Node) (st : Store)
    → ((n : Node)
        → ((f n).id ≡ n.id) × ((f n).overlay_ip ≡ n.overlay_ip) × ((f n).revoked ≡ n.revoked))
    → IsValid st
    → IsValid (record st { nodes = update_where q f st.nodes })
update-IsValid q f st same v = record {
  node_ids = Distinct-update_where (λ (m : Node). m.id) q f st.nodes (λ n. (same n).0) v.node_ids;
  node_ips =
      Distinct-update_where (λ (m : Node). m.overlay_ip) q f st.nodes (λ n. (same n).1) v.node_ips;
  parked =
      All-update_where IsParked q f st.nodes
        (λ n _ h r. (same n).1 ∙ h (sym (same n).2 ∙ r) ∙ ap freed_ip (sym (same n).0)) v.parked;
  link_ids = v.link_ids;
  link_pairs = v.link_pairs;
  links_sound =
      IsSound-nodes st.nodes (update_where q f st.nodes)
        (λ id h. has-update_where (is_node id) q f st.nodes (λ n. ap (λ t. t is id) (same n).0) ∙ h)
        st.links v.links_sound;
}

pub rename_node-IsValid :
    (id name : String) (st : Store) → IsValid st → IsValid (rename_node id name st).1
unfolding rename_node
rename_node-IsValid id name st v =
    elim (Bool-cases (has (λ (n : Node). n.id is id && not n.revoked) st.nodes)) [
      | inl e ↦
          rw e (update-IsValid _ (λ n. record n { name = name }) st (λ n. (refl, refl, refl)) v)
      | inr e ↦ rw e v
    ]

pub touch_node-IsValid :
    (id : String) (ts : ℕ) (st : Store) → IsValid st → IsValid (touch_node id ts st).1
unfolding touch_node
touch_node-IsValid id ts st v =
    update-IsValid (is_node id) (λ n. record n { last_seen = ts }) st (λ n. (refl, refl, refl)) v

pub update_cert_serial-IsValid :
    (id serial : String) (st : Store) → IsValid st → IsValid (update_cert_serial id serial st).1
unfolding update_cert_serial
update_cert_serial-IsValid id serial st v =
    update-IsValid (is_node id) (λ n. record n { cert_serial = serial }) st
      (λ n. (refl, refl, refl)) v

-- After a revocation the other rows still do not hold `ip`.
has-revoke :
    (id ip : String) (ns : List Node)
    → has (λ m. m.overlay_ip is ip) ns ≡ false
    → (freed_ip id is ip) ≡ false
    → has (λ m. m.overlay_ip is ip) (update_where (is_node id) revoke ns) ≡ false
unfolding update_where
has-revoke id ip [] h k = refl
has-revoke id ip (n ∷ ns) h k = elim (Bool-cases (is_node id n)) [
  | inl e ↦
      let parked : (freed_ip n.id is ip) ≡ false =
        ap (λ t. freed_ip t is ip) ((is_iff n.id id).0 e) ∙ k in
      rw e (ground (arith, parked, has-revoke id ip ns))
  | inr e ↦ rw e (ground (arith, has-revoke id ip ns))
]

revoke-Distinct :
    (id : String) (ns : List Node)
    → Distinct (λ (m : Node). m.id) ns
    → Distinct (λ (m : Node). m.overlay_ip) ns
    → has (parks_at id) ns ≡ false
    → Distinct (λ (m : Node). m.overlay_ip) (update_where (is_node id) revoke ns)
unfolding update_where
revoke-Distinct id [] d e h = tt
revoke-Distinct id (n ∷ ns) d e h = elim (Bool-cases (is_node id n)) [
  | inl hit ↦
      let same : n.id ≡ id = (is_iff n.id id).0 hit in
      let once : has (is_node id) ns ≡ false =
        subst (λ t. has (λ (y : Node). y.id is t) ns ≡ false) same d.0 in
      let free : has (λ (y : Node). y.overlay_ip is freed_ip id) ns ≡ false =
        has_split (is_node id) (λ y. y.overlay_ip is freed_ip id) ns once (ground arith) in
      rw (hit, update_where-none (is_node id) revoke ns once)
        (
          subst (λ t. has (λ (y : Node). y.overlay_ip is freed_ip t) ns ≡ false) (sym same) free,
          e.1,
        )
  | inr miss ↦ rw miss (
    has-revoke id n.overlay_ip ns e.0 (ground (arith, is_sym (freed_ip id) n.overlay_ip)),
    revoke-Distinct id ns d.1 e.1 (ground arith),
  )
]

-- The links that are left do not touch the node, and their other facts stay.
pub remove_node-IsValid :
    (node : Node) (links : List Link) (now : ℕ) (st : Store)
    → IsValid st
    → IsValid (remove_node node links now st).1
unfolding remove_node
remove_node-IsValid node links now st v = elim (Bool-cases (has (parks_at node.id) st.nodes)) [
  | inl e ↦ rw e v
  | inr e ↦ rw e (record {
    node_ids =
        Distinct-update_where (λ (m : Node). m.id) (is_node node.id) revoke st.nodes (λ n. refl)
          v.node_ids;
    node_ips = revoke-Distinct node.id st.nodes v.node_ids v.node_ips e;
    parked = All-update_where IsParked (is_node node.id) revoke st.nodes (λ n _ _ _. refl) v.parked;
    link_ids = Distinct-keep_if (λ (l : Link). l.id) _ st.links v.link_ids;
    link_pairs = DistinctPairs-keep_if _ st.links v.link_pairs;
    links_sound =
        All-keep_if (IsSound (update_where (is_node node.id) revoke st.nodes)) _ st.links (
          IsSound-nodes st.nodes (update_where (is_node node.id) revoke st.nodes)
            (λ id h.
              has-update_where (is_node id) (is_node node.id) revoke st.nodes (λ n. refl) ∙ h)
            st.links v.links_sound);
  })
]

pub delete_node-IsValid :
    (id : String) (now : ℕ) (st : Store) → IsValid st → IsValid (delete_node id now st).1
unfolding delete_node get_node links_of_node
delete_node-IsValid id now st v = elim (Option-cases (find_first (is_node id) st.nodes)) [
  | inl e ↦ rw e v
  | inr (n, e) ↦ rw e (remove_node-IsValid n _ now st v)
]
