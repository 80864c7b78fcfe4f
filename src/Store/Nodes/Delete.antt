-- ===== src/Store/Nodes/Delete.antt =====
-- What DeleteNode leaves behind, and how long its address stays out of use.
use light_pn.Prelude.{
  ℕ, String, ◌+◌, ◌≤◌, ◌≡◌, ◌≢◌, sym, ◌∙◌, ap, subst, Bool, true, false, not, List, [], ◌∷◌, ◌++◌,
  map, some, ok, arith, ◌is◌, is_refl, has, find_first, keep_if, Bool-cases, Option-cases, inl, inr,
}
use light_pn.Prelude.Io.{and_then-ok}
use light_pn.Prelude.Map.{Map, insert}
use light_pn.Store.{Node, Link, Store, update_where}
use light_pn.Store.Nodes.{
  is_node, touches, parks_at, revoke, remove_node, delete_node, get_node, links_of_node,
}
use light_pn.Store.Ipam.{Netip, allocate_ip, mem_text, used_ips, expire_cooldowns}
use light_pn.Store.Ipam.Lowest.{expired, allocate_ip-lowest}
use light_pn.Store.Valid.Tables.{has-append}

-- The store after the transaction.
abbrev pub without : Node → ℕ → Store → Store
without n now st = record st {
  links = keep_if (λ l. not (touches n.id l)) st.links;
  nodes = update_where (is_node n.id) revoke st.nodes;
  ip_cooldown = insert n.overlay_ip now st.ip_cooldown;
  svc_names = keep_if (λ s. not (s.node_id is n.id)) st.svc_names;
}

get_node-ok :
    (id : String) (st st' : Store) (n : Node)
    → get_node id st ≡ (ok n, st')
    → (find_first (is_node id) st.nodes ≡ some n) × (st' ≡ st)
unfolding get_node
get_node-ok id st st' n h = (ground arith, ground arith)

remove_node-ok :
    (m n : Node) (ks ls : List Link) (now : ℕ) (st st' : Store)
    → remove_node m ks now st ≡ (ok (n, ls), st')
    → (n ≡ m) × (ls ≡ ks) × (st' ≡ without m now st)
unfolding remove_node
remove_node-ok m n ks ls now st st' h = elim (Bool-cases (has (parks_at m.id) st.nodes)) [
  | inl e ↦ cc (rw (e, remove_node) at h)
  | inr e ↦ let h' = rw (e, remove_node) at h in (cc h', cc h', cc h')
]

-- A successful DeleteNode returns the node's row and all its links, and has removed them.
pub delete_node-ok :
    (id : String) (now : ℕ) (st st' : Store) (n : Node) (ls : List Link)
    → delete_node id now st ≡ (ok (n, ls), st')
    → (find_first (is_node id) st.nodes ≡ some n)
      × (ls ≡ keep_if (touches id) st.links)
      × (st' ≡ without n now st)
unfolding delete_node links_of_node
delete_node-ok id now st st' n ls h =
    let (m, s₁, e₁, h₁) = and_then-ok (get_node id st) _ h in
    let (found, same) = get_node-ok id st s₁ m e₁ in
    let (e, f, g) = remove_node-ok m n _ ls now s₁ st' h₁ in
    (
      found ∙ ap some (sym e),
      f ∙ ap (λ (s : Store). keep_if (touches id) s.links) same,
      g ∙ ap (without m now) same ∙ ap (λ x. without x now st) (sym e),
    )

-- A key that was just written stays if its entry passes the test.
mem-keep_if-insert :
    (q : String × ℕ → Bool) (k : String) (v : ℕ) (m : Map ℕ)
    → q (k, v) ≡ true
    → mem_text (map (λ (e : String × ℕ). e.0) (keep_if q (insert k v m))) k ≡ true
unfolding insert
mem-keep_if-insert q k v [] h = ground (arith, is_refl k)
mem-keep_if-insert q k v ((j, w) ∷ m) h = elim (Bool-cases (j is k)) [
  | inl e ↦ rw e (ground (arith, is_refl k))
  | inr e ↦ rw e (ground (arith, mem-keep_if-insert q k v m h))
]

mem-append_right :
    (xs ys : List String) (t : String) → mem_text ys t ≡ true → mem_text (xs ++ ys) t ≡ true
mem-append_right xs ys t h = ground (arith, has-append (λ s. s is t) xs ys)

-- What AllocateIP hands out is in use by no one.
pub allocate_ip-unused :
    (net : Netip) (cidr : String) (cooldown now : ℕ) (st : Store) (s : String)
    → (allocate_ip net cidr cooldown now st).0 ≡ ok s
    → mem_text (used_ips (expired cooldown now st)) s ≡ false
unfolding allocate_ip
allocate_ip-unused net cidr cooldown now st s h = elim (Option-cases (net.parse_prefix cidr)) [
  | inl e ↦ cc (rw (e, allocate_ip) at h)
  | inr (p, e) ↦ elim (allocate_ip-lowest net cidr cooldown now st p e) [
    | inl (ip, ran, low, high, free, _) ↦
        subst (λ t. mem_text (used_ips (expired cooldown now st)) t ≡ false)
          (cc (ap (λ q. q.0) ran, h)) free
    | inr (ran, _) ↦ cc (ap (λ q. q.0) ran, h)
  ]
]

-- On the tables that DeleteNode leaves, AllocateIP does not hand out the address of the deleted node
-- before its cooldown has passed.
pub freed_ip_rests :
    (net : Netip) (cidr id : String) (cooldown now later : ℕ) (st st' : Store) (n : Node)
    (ls : List Link)
    → delete_node id now st ≡ (ok (n, ls), st')
    → later ≤ now + cooldown
    → (allocate_ip net cidr cooldown later st').0 ≢ ok n.overlay_ip
freed_ip_rests net cidr id cooldown now later st st' n ls h soon got =
    let (_, _, e) = delete_node-ok id now st st' n ls h in
    let busy : mem_text (used_ips (expired cooldown later (without n now st))) n.overlay_ip ≡ true =
      unfold used_ips expire_cooldowns in
      mem-append_right _ _ n.overlay_ip
        (mem-keep_if-insert _ n.overlay_ip now st.ip_cooldown (ground arith)) in
    let free = allocate_ip-unused net cidr cooldown later st' n.overlay_ip got in
    cc (
      busy,
      subst (λ s. mem_text (used_ips (expired cooldown later s)) n.overlay_ip ≡ false) e free,
    )
