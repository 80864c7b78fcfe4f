-- ===== src/Store/Tokens/Spent.antt =====
-- A token that was consumed stays used, whatever is done to the store: internal/hub/store.go.
use light_pn.Prelude.{
  ℕ, ◌+◌, String, ◌≡◌, ◌≢◌, refl, sym, ap, Bool, true, false, not, ◌&&◌, List, [], ◌∷◌, ◌++◌,
  Option, none, some, ok, err, arith, ◌is◌, is_iff, has, find_first, keep_if, All, ◌⊎◌, ltb, subst,
  Bool-cases, Option-cases, inl, inr,
}
use light_pn.Prelude.Map.{Map}
use light_pn.Store.{Node, SvcName, TokenRow, Store, token_used, update_where}
use light_pn.Store.Nodes.{
  create_node, rename_node, touch_node, update_cert_serial, delete_node, remove_node, get_node,
}
use light_pn.Store.Links.{create_link, insert_link, set_link_exit, delete_link}
use light_pn.Store.Tokens.{
  is_token, is_unused, create_token, consume_token, find_token, burn_token, delete_token,
}
use light_pn.Store.Tokens.Once.{row, consume_token-row, consume_token-used}
use light_pn.Store.Names.{
  set_svc_name, prune_svc_names, prune, svc_names, set_admin, drop_entry, names_of,
}
use light_pn.Store.Ipam.{
  Netip, Prefix, allocate_ip, allocate_in, scan_result, Scan, found, exhausted, out_of_fuel,
  scan_prefix, expire_cooldowns,
}
use light_pn.Store.Valid.Calls.{
  Call, creates_node, renames, touches_cert, touches_node, deletes_node, creates_link, sets_exit,
  deletes_link, deletes_token, allocates, creates_token, consumes_token, sets_name, sets_admin,
  prunes, step, run,
}

find_first-append :
    (p : TokenRow → Bool) (xs ys : List TokenRow) (t : TokenRow)
    → find_first p xs ≡ some t
    → find_first p (xs ++ ys) ≡ some t
find_first-append p [] ys t h = cc h
find_first-append p (x ∷ xs) ys t h = ground (arith, find_first-append p xs ys t, h)

-- a row that a deletion keeps is still the first one of its test
find_first-keep_if :
    (p q : TokenRow → Bool) (xs : List TokenRow) (t : TokenRow)
    → find_first p xs ≡ some t
    → q t ≡ true
    → find_first p (keep_if q xs) ≡ some t
find_first-keep_if p q [] t h k = cc h
find_first-keep_if p q (x ∷ xs) t h k = ground (arith, find_first-keep_if p q xs t, h, k, ap q)

allocate_in-tokens :
    (net : Netip) (p : Option Prefix) (cooldown now : ℕ) (st : Store)
    → (allocate_in net p cooldown now st).1.tokens ≡ st.tokens
allocate_in-tokens net none cooldown now st = refl
allocate_in-tokens net (some p) cooldown now st =
    ended
      (scan_prefix net p (record st { ip_cooldown = expire_cooldowns cooldown now st.ip_cooldown }))
  where
    ended :
        (s : Scan)
        → (scan_result net s
            (record st { ip_cooldown = expire_cooldowns cooldown now st.ip_cooldown })).1.tokens
          ≡ st.tokens
    ended (found ip) = refl
    ended exhausted = refl
    ended out_of_fuel = refl

pub allocate_ip-tokens :
    (net : Netip) (cidr : String) (cooldown now : ℕ) (st : Store)
    → (allocate_ip net cidr cooldown now st).1.tokens ≡ st.tokens
unfolding allocate_ip
allocate_ip-tokens net cidr cooldown now st =
    allocate_in-tokens net (net.parse_prefix cidr) cooldown now st

pub create_node-tokens : (n : Node) (st : Store) → (create_node n st).1.tokens ≡ st.tokens
unfolding create_node
create_node-tokens n st = ground arith

delete_node-tokens :
    (id : String) (now : ℕ) (st : Store) → (delete_node id now st).1.tokens ≡ st.tokens
unfolding delete_node get_node remove_node
delete_node-tokens id now st = ground arith

create_link-tokens :
    (id a b : String) (now : ℕ) (st : Store) → (create_link id a b now st).1.tokens ≡ st.tokens
unfolding create_link insert_link
create_link-tokens id a b now st = ground arith

set_link_exit-tokens :
    (id exit : String) (st : Store) → (set_link_exit id exit st).1.tokens ≡ st.tokens
unfolding set_link_exit
set_link_exit-tokens id exit st = ground arith

prune-tokens :
    (node : String) (keep : List String) (names : Map String) (n : ℕ) (st : Store)
    → (prune node keep names n st).1.tokens ≡ st.tokens
unfolding prune
prune-tokens node keep [] n st = refl
prune-tokens node keep ((alias, d) ∷ names) n st = elim (Bool-cases (has (λ a. a is alias) keep)) [
  | inl e ↦ rw (e, prune) (prune-tokens node keep names n st)
  | inr e ↦
      rw (e, prune)
        (prune-tokens node keep names (n + 1)
          (record st { svc_names = drop_entry node alias st.svc_names }))
]

prune_svc_names-tokens :
    (node : String) (keep : List String) (st : Store)
    → (prune_svc_names node keep st).1.tokens ≡ st.tokens
unfolding prune_svc_names svc_names
prune_svc_names-tokens node keep st =
    prune-tokens node keep (names_of (keep_if (λ (s : SvcName). s.node_id is node) st.svc_names)) 0
      st

module _ (sha256 : String → String) where
  abbrev burnt : String → ℕ → List TokenRow → List TokenRow
  burnt id now ts =
      update_where (λ t. t.id is id && is_unused t) (λ t. record t { used_at = some now }) ts

  -- ConsumeToken leaves the tokens or burns the unused rows with one id
  consume_token-tokens :
      (plain : String) (now : ℕ) (st : Store)
      → ((consume_token sha256 plain now st).1.tokens ≡ st.tokens)
        ⊎ ((id : String) × ((consume_token sha256 plain now st).1.tokens ≡ burnt id now st.tokens))
  unfolding consume_token find_token burn_token
  consume_token-tokens plain now st = elim (Option-cases (row sha256 plain st)) [
    | inl e ↦ inl (rw e refl)
    | inr (t, e) ↦ elim (Bool-cases (is_unused t)) [
      | inr u ↦ inl (rw e (rw u refl))
      | inl u ↦ elim (Bool-cases (ltb t.expires_at now)) [
        | inl late ↦ inl (rw e (rw (u, late) refl))
        | inr soon ↦ elim (Bool-cases (has (λ x. x.id is t.id && is_unused x) st.tokens)) [
          | inl some_row ↦ inr (t.id, rw e (rw (u, soon, some_row) refl))
          | inr no_row ↦ inl (rw e (rw (u, soon, no_row) refl))
        ]
      ]
    ]
  ]

  find-burnt :
      (plain id : String) (now : ℕ) (ts : List TokenRow) (t : TokenRow)
      → find_first (λ x. x.hash is sha256 plain) ts ≡ some t
      → is_unused t ≡ false
      → find_first (λ x. x.hash is sha256 plain) (burnt id now ts) ≡ some t
  unfolding update_where
  find-burnt plain id now [] t e u = cc e
  find-burnt plain id now (x ∷ xs) t e u =
      ground (arith, find-burnt plain id now xs t, e, u, ap is_unused)

module _ (sha256 : String → String) (net : Netip) (plain : String) where
  delete_token-row :
      (id : String) (st : Store) (t : TokenRow)
      → row sha256 plain st ≡ some t
      → t.id ≢ id
      → row sha256 plain (delete_token id st).1 ≡ some t
  unfolding delete_token
  delete_token-row id st t e other = elim (Bool-cases (has (is_token id) st.tokens)) [
    | inl some_row ↦
        rw (some_row, delete_token)
          (find_first-keep_if _ (λ x. not (is_token id x)) st.tokens t e
            (ground (arith, other, is_iff t.id id)))
    | inr no_row ↦ rw (no_row, delete_token) e
  ]

  create_token-row :
      (id random : String) (ttl : ℕ) (note : String) (now : ℕ) (st : Store) (t : TokenRow)
      → row sha256 plain st ≡ some t
      → row sha256 plain (create_token sha256 id random ttl note now st).1 ≡ some t
  unfolding create_token
  create_token-row id random ttl note now st t e = elim (Bool-cases (has (is_token id) st.tokens)) [
    | inl taken ↦ rw (taken, create_token) e
    | inr free ↦ rw (free, create_token) (find_first-append _ st.tokens _ t e)
  ]

  -- a used row stays what the token is found by
  step-row :
      (st : Store) (c : Call) (t : TokenRow)
      → row sha256 plain st ≡ some t
      → is_unused t ≡ false
      → c ≢ deletes_token t.id
      → row sha256 plain (step sha256 net st c) ≡ some t
  unfolding step
  step-row st (creates_node n) t e u o = rw (create_node-tokens n st) e
  step-row st (renames id name) t e u o = unfold rename_node in ground (arith, e)
  step-row st (touches_cert id serial) t e u o = unfold update_cert_serial in ground (arith, e)
  step-row st (touches_node id ts) t e u o = unfold touch_node in e
  step-row st (deletes_node id now) t e u o = rw (delete_node-tokens id now st) e
  step-row st (creates_link id a b now) t e u o = rw (create_link-tokens id a b now st) e
  step-row st (sets_exit id exit) t e u o = rw (set_link_exit-tokens id exit st) e
  step-row st (deletes_link id) t e u o = unfold delete_link in ground (arith, e)
  step-row st (deletes_token id) t e u o =
      delete_token-row id st t e (λ k. o (ap deletes_token (sym k)))
  step-row st (allocates cidr cooldown now) t e u o =
      rw (allocate_ip-tokens net cidr cooldown now st) e
  step-row st (creates_token id random ttl note now) t e u o =
      create_token-row id random ttl note now st t e
  step-row st (consumes_token other now) t e u o = elim (consume_token-tokens sha256 other now st) [
    | inl same ↦ rw same e
    | inr (id, burns) ↦ rw burns (find-burnt sha256 plain id now st.tokens t e u)
  ]
  step-row st (sets_name node alias display) t e u o = unfold set_svc_name in e
  step-row st (sets_admin id username hash) t e u o = unfold set_admin in e
  step-row st (prunes node keep) t e u o = rw (prune_svc_names-tokens node keep st) e

  run-row :
      (cs : List Call) (st : Store) (t : TokenRow)
      → row sha256 plain st ≡ some t
      → is_unused t ≡ false
      → All (λ c. c ≢ deletes_token t.id) cs
      → row sha256 plain (run sha256 net st cs) ≡ some t
  unfolding run
  run-row [] st t e u o = e
  run-row (c ∷ cs) st t e u (o, os) =
      run-row cs (step sha256 net st c) t (step-row st c t e u o) u os

-- A token that was consumed is refused as used from then on, and the refusal changes nothing:
-- whatever methods of the store are called in between, failing or not and ConsumeToken included, at
-- whatever time, if none of them is a DeleteToken of the token's row.
pub consume_token-spent :
    (sha256 : String → String) (net : Netip) (plain : String) (now later : ℕ) (st st' : Store)
    (t : TokenRow) (cs : List Call)
    → row sha256 plain st ≡ some t
    → consume_token sha256 plain now st ≡ (ok tt, st')
    → All (λ c. c ≢ deletes_token t.id) cs
    → consume_token sha256 plain later (run sha256 net st' cs)
      ≡ (err token_used, run sha256 net st' cs)
consume_token-spent sha256 net plain now later st st' t cs e h keeps =
    let (t', e', used) = consume_token-row sha256 plain now st st' h in
    let same : t' ≡ t = cc (e, e') in
    let burned : TokenRow = record t' { used_at = some now } in
    consume_token-used sha256 plain later (run sha256 net st' cs) burned
      (run-row sha256 net plain cs st' burned used refl
        (subst (λ (x : TokenRow). All (λ c. c ≢ deletes_token x.id) cs) (sym same) keeps))
      refl
