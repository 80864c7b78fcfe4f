-- ===== src/Store/Valid/Calls.antt =====
-- Every method of the store keeps the tables valid, so every sequence of calls does.
use light_pn.Prelude.{
  ℕ, String, ◌≡◌, refl, sym, List, [], ◌∷◌, Option, none, some, Bool-cases, inl, inr, ◌+◌, All, has,
  keep_if, subst, ◌is◌, arith,
}
use light_pn.Prelude.Map.{Map}
use light_pn.Store.{Node, Link, Store, empty_store, SvcName}
use light_pn.Store.Nodes.{create_node, rename_node, touch_node, update_cert_serial, delete_node}
use light_pn.Store.Links.{create_link, set_link_exit, delete_link}
use light_pn.Store.Tokens.{create_token, consume_token, find_token, burn_token, delete_token}
use light_pn.Store.Names.{
  set_svc_name, prune_svc_names, prune, svc_names, set_admin, drop_entry, names_of,
}
use light_pn.Store.Ipam.{
  Netip, Prefix, allocate_ip, allocate_in, scan_result, Scan, found, exhausted, out_of_fuel,
  scan_prefix, expire_cooldowns,
}
use light_pn.Store.Valid.{Distinct, DistinctPairs, IsParked, IsSound, IsValid}
use light_pn.Store.Valid.Nodes.{
  create_node-IsValid, rename_node-IsValid, touch_node-IsValid, update_cert_serial-IsValid,
  delete_node-IsValid,
}
use light_pn.Store.Valid.Links.{create_link-IsValid, set_link_exit-IsValid, delete_link-IsValid}

-- the calls of *Store that write
pub data Call : Type 0 where
  creates_node : Node → Call
  renames touches_cert : String → String → Call
  touches_node deletes_node : String → ℕ → Call
  creates_link : String → String → String → ℕ → Call
  sets_exit : String → String → Call
  deletes_link deletes_token : String → Call
  allocates : String → ℕ → ℕ → Call
  creates_token : String → String → ℕ → String → ℕ → Call
  consumes_token : String → ℕ → Call
  sets_name sets_admin : String → String → String → Call
  prunes : String → List String → Call

module _ (sha256 : String → String) (net : Netip) where
  -- the store after a call, whether it succeeds or not
  unfoldable pub step : Store → Call → Store
  step st (creates_node n) = (create_node n st).1
  step st (renames id name) = (rename_node id name st).1
  step st (touches_cert id serial) = (update_cert_serial id serial st).1
  step st (touches_node id ts) = (touch_node id ts st).1
  step st (deletes_node id now) = (delete_node id now st).1
  step st (creates_link id a b now) = (create_link id a b now st).1
  step st (sets_exit id exit) = (set_link_exit id exit st).1
  step st (deletes_link id) = (delete_link id st).1
  step st (deletes_token id) = (delete_token id st).1
  step st (allocates cidr cooldown now) = (allocate_ip net cidr cooldown now st).1
  step st (creates_token id random ttl note now) = (create_token sha256 id random ttl note now st).1
  step st (consumes_token plain now) = (consume_token sha256 plain now st).1
  step st (sets_name node alias display) = (set_svc_name node alias display st).1
  step st (sets_admin id username hash) = (set_admin id username hash st).1
  step st (prunes node keep) = (prune_svc_names node keep st).1

  unfoldable pub run : Store → List Call → Store
  unfolding step
  run st [] = st
  run st (c ∷ cs) = run (step st c) cs

-- The same nodes and links.
pub record Keeps (st st' : Store) : Type 0 where
  pub nodes : st'.nodes ≡ st.nodes
  pub links : st'.links ≡ st.links

Keeps-IsValid : (st st' : Store) → Keeps st st' → IsValid st → IsValid st'
Keeps-IsValid st st' k v = record {
  node_ids = subst (Distinct (λ (n : Node). n.id)) (sym k.nodes) v.node_ids;
  node_ips = subst (Distinct (λ (n : Node). n.overlay_ip)) (sym k.nodes) v.node_ips;
  parked = subst (All IsParked) (sym k.nodes) v.parked;
  link_ids = subst (Distinct (λ (l : Link). l.id)) (sym k.links) v.link_ids;
  link_pairs = subst DistinctPairs (sym k.links) v.link_pairs;
  links_sound =
      subst (λ ns. All (IsSound ns) st'.links) (sym k.nodes)
        (subst (All (IsSound st.nodes)) (sym k.links) v.links_sound);
}

Keeps-prune :
    (node : String) (keep : List String) (names : Map String) (n : ℕ) (st : Store)
    → Keeps st (prune node keep names n st).1
unfolding prune
Keeps-prune node keep [] n st = record { nodes = refl; links = refl }
Keeps-prune node keep ((alias, d) ∷ names) n st = elim (Bool-cases (has (λ a. a is alias) keep)) [
  | inl e ↦ rw (e, prune) (Keeps-prune node keep names n st)
  | inr e ↦
      let st' = record st { svc_names = drop_entry node alias st.svc_names } in
      let k = Keeps-prune node keep names (n + 1) st' in
      rw (e, prune) (record { nodes = k.nodes; links = k.links })
]

Keeps-prune_svc_names :
    (node : String) (keep : List String) (st : Store) → Keeps st (prune_svc_names node keep st).1
unfolding prune_svc_names svc_names
Keeps-prune_svc_names node keep st =
    Keeps-prune node keep (names_of (keep_if (λ (s : SvcName). s.node_id is node) st.svc_names)) 0
      st

Keeps-allocate :
    (net : Netip) (p : Option Prefix) (cooldown now : ℕ) (st : Store)
    → Keeps st (allocate_in net p cooldown now st).1
Keeps-allocate net none cooldown now st = record { nodes = refl; links = refl }
Keeps-allocate net (some p) cooldown now st =
    ended
      (scan_prefix net p (record st { ip_cooldown = expire_cooldowns cooldown now st.ip_cooldown }))
  where
    ended :
        (s : Scan)
        → Keeps st
            (scan_result net s
              (record st { ip_cooldown = expire_cooldowns cooldown now st.ip_cooldown })).1
    ended (found ip) = record { nodes = refl; links = refl }
    ended exhausted = record { nodes = refl; links = refl }
    ended out_of_fuel = record { nodes = refl; links = refl }

Keeps-consume :
    (sha256 : String → String) (plain : String) (now : ℕ) (st : Store)
    → Keeps st (consume_token sha256 plain now st).1
unfolding consume_token find_token burn_token
Keeps-consume sha256 plain now st = record { nodes = ground arith; links = ground arith }

module _ (sha256 : String → String) (net : Netip) where
  pub step-IsValid : (st : Store) (c : Call) → IsValid st → IsValid (step sha256 net st c)
  unfolding step
  step-IsValid st (creates_node n) v = create_node-IsValid n st v
  step-IsValid st (renames id name) v = rename_node-IsValid id name st v
  step-IsValid st (touches_cert id serial) v = update_cert_serial-IsValid id serial st v
  step-IsValid st (touches_node id ts) v = touch_node-IsValid id ts st v
  step-IsValid st (deletes_node id now) v = delete_node-IsValid id now st v
  step-IsValid st (creates_link id a b now) v = create_link-IsValid id a b now st v
  step-IsValid st (sets_exit id exit) v = set_link_exit-IsValid id exit st v
  step-IsValid st (deletes_link id) v = delete_link-IsValid id st v
  step-IsValid st (deletes_token id) v =
      Keeps-IsValid st _
        (unfold delete_token in record { nodes = ground arith; links = ground arith }) v
  step-IsValid st (allocates cidr cooldown now) v =
      Keeps-IsValid st _
        (unfold allocate_ip in Keeps-allocate net (net.parse_prefix cidr) cooldown now st) v
  step-IsValid st (creates_token id random ttl note now) v =
      Keeps-IsValid st _
        (unfold create_token in record { nodes = ground arith; links = ground arith }) v
  step-IsValid st (consumes_token plain now) v =
      Keeps-IsValid st _ (Keeps-consume sha256 plain now st) v
  step-IsValid st (sets_name node alias display) v =
      Keeps-IsValid st _ (unfold set_svc_name in record { nodes = refl; links = refl }) v
  step-IsValid st (sets_admin id username hash) v =
      Keeps-IsValid st _ (unfold set_admin in record { nodes = refl; links = refl }) v
  step-IsValid st (prunes node keep) v = Keeps-IsValid st _ (Keeps-prune_svc_names node keep st) v

  run-IsValid_from : (st : Store) (cs : List Call) → IsValid st → IsValid (run sha256 net st cs)
  unfolding run
  run-IsValid_from st [] v = v
  run-IsValid_from st (c ∷ cs) v = run-IsValid_from (step sha256 net st c) cs (step-IsValid st c v)

empty-IsValid : IsValid empty_store
empty-IsValid = record {
  node_ids = tt;
  node_ips = tt;
  parked = tt;
  link_ids = tt;
  link_pairs = tt;
  links_sound = tt;
}

-- After any calls of the store's methods on a new database, failing or not: node ids and overlay
-- addresses are distinct, a revoked node holds no address, link ids are distinct, no pair of nodes
-- is linked twice, every link joins two nodes of the table in the order of their ids, and its exit
-- node is empty or one of its ends.
pub run-IsValid :
    (sha256 : String → String) (net : Netip) (cs : List Call)
    → IsValid (run sha256 net empty_store cs)
run-IsValid sha256 net cs = run-IsValid_from sha256 net empty_store cs empty-IsValid
