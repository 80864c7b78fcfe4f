-- ===== src/Agent/Tests/Peers.antt =====
-- Concrete runs of the WireGuard manager, internal/agent/wg_linux.go, on a kernel that is the list of
-- its peers' keys.
use light_pn.Prelude.{
  String, ◌≡◌, ◌≢◌, ◌⊎◌, ◌↔◌, refl, sym, ap, ◌∙◌, subst, Bool, true, false, not, ◌&&◌, List, [],
  ◌∷◌, none, some, ok, pos, ◌==◌, ==_iff, arith, if◌then◌else◌, ◌is◌, is_iff, keep_if, All,
  Bool-cases, inl, inr,
}
use light_pn.Prelude.Map.{lookup, insert}
use light_pn.Proto.{Bytes, PeerSpec}
use light_pn.Agent.Wireguard.{PeerConfig, Kernel, LinuxWg, reconcile, update_peer}
use light_pn.Agent.Wireguard.Laws.{Among, Lawful}
use light_pn.Agent.Wireguard.Exact.{Wanted, reconcile-exact}
use light_pn.Agent.Wireguard.Tracked.{Tracked}
use light_pn.Agent.Wireguard.Run.{here, after_reconcile, after_update, Run-Tracked}
use light_pn.Agent.Wireguard.Replace.{update_peer-replaces}

unfoldable same : Bytes → Bytes → Bool
same [] [] = true
same [] (y ∷ ys) = false
same (x ∷ xs) [] = false
same (x ∷ xs) (y ∷ ys) = let rest = same xs ys in x == y && rest

same_iff : (a b : Bytes) → (same a b ≡ true) ↔ (a ≡ b)
unfolding same
same_iff [] [] = (λ _. refl, λ _. refl)
same_iff [] (y ∷ ys) = (λ h. cc h, λ h. cc h)
same_iff (x ∷ xs) [] = (λ h. cc h, λ h. cc h)
same_iff (x ∷ xs) (y ∷ ys) = ground (arith, ==_iff x y, same_iff xs ys)

abbrev Holds : List Bytes → Bytes → Type 0
Holds [] key = ⊥
Holds (k ∷ ks) key = (k ≡ key) ⊎ Holds ks key

abbrev drop_peer : Bytes → List Bytes → List Bytes
drop_peer old = keep_if (λ k. not (same k old))

unfoldable apply : List PeerConfig → List Bytes → List Bytes
apply [] k = k
apply (p ∷ ps) k =
    let rest = apply ps k in if p.remove then drop_peer p.public_key rest else p.public_key ∷ rest

unfoldable os : Kernel (List Bytes)
unfolding apply
os = record {
  exists = λ k. true;
  ip = λ args k. (none, k);
  configure = λ cfg k. (none, apply cfg.peers (if cfg.replace_peers then [] else k));
  device = λ k. ok (record { listen_port = pos 51820; peers = [] });
  generate = λ k. (ok ([], ""), k);
  parse_key = λ s. ok (if s is "k1" then 1 ∷ [] else 2 ∷ []);
  resolve = λ s. ok s;
  parse_cidr = λ s. ok s;
  parse_addr = λ s. ok s;
  parse_prefix = λ s. ok 24;
  before_slash = λ s. s;
  prefixed = λ s n. s;
  contains = λ s t. false;
}

apply-Among :
    (ps : List PeerConfig) (key : Bytes)
    → All (λ (p : PeerConfig). p.remove ≡ false) ps
    → Holds (apply ps []) key ↔ Among key ps
unfolding apply
apply-Among [] key h = (λ a. a, λ a. a)
apply-Among (p ∷ ps) key h =
    let (to, from) = apply-Among ps key h.1 in
    rw (apply, h.0)
      (elim [ inl e ↦ inl e | inr a ↦ inr (to a) ], elim [ inl e ↦ inl e | inr a ↦ inr (from a) ])

Holds-drop_peer :
    (old : Bytes) (ks : List Bytes) (key : Bytes)
    → Holds (drop_peer old ks) key ↔ (Holds ks key × (old ≢ key))
Holds-drop_peer old [] key = (λ a. absurd a, λ a. a.0)
Holds-drop_peer old (k ∷ ks) key =
    let (to, from) = Holds-drop_peer old ks key in
    elim (Bool-cases (same k old)) [
      | inl e ↦
          let is_old : k ≡ old = (same_iff k old).0 e in
          rw e (
            λ h. (inr (to h).0, (to h).1),
            λ (h, n). elim h [ inl q ↦ absurd (n (sym is_old ∙ q)) | inr there ↦ from (there, n) ],
          )
      | inr e ↦
          let differs : k ≢ old = λ q. cc ((same_iff k old).1 q, e) in
          rw e (
            elim [ inl q ↦ (inl q, λ o. differs (q ∙ sym o)) | inr h ↦ (inr (to h).0, (to h).1) ],
            λ (h, n). elim h [ inl q ↦ inl q | inr there ↦ inr (from (there, n)) ],
          )
    ]

replaced_by :
    (b : Bool) (ps : List PeerConfig) (k k' : List Bytes) (key : Bytes)
    → b ≡ true
    → All (λ (p : PeerConfig). p.remove ≡ false) ps
    → apply ps (if b then [] else k) ≡ k'
    → Holds k' key ↔ Among key ps
replaced_by true ps k k' key h adds e =
    subst (λ z. Holds z key ↔ Among key ps) e (apply-Among ps key adds)
replaced_by false ps k k' key h adds e = cc h

appended_by :
    (pc : PeerConfig) (k k' : List Bytes) (key : Bytes)
    → pc.remove ≡ false
    → apply (pc ∷ []) k ≡ k'
    → Holds k' key ↔ (Holds k key ⊎ (pc.public_key ≡ key))
unfolding apply
appended_by pc k k' key h e =
    subst (λ z. Holds z key ↔ (Holds k key ⊎ (pc.public_key ≡ key))) e
      (rw (apply, h)
        (elim [ inl q ↦ inr q | inr a ↦ inl a ], elim [ inl a ↦ inr a | inr q ↦ inl q ]))

unfoldable lawful : Lawful os
unfolding os apply
lawful = record {
  HasPeer = Holds;
  replaced = λ cfg k k' r adds h key.
      replaced_by cfg.replace_peers cfg.peers k k' key r adds (ap (λ p. p.1) h);
  appended = λ pc k k' r h key. appended_by pc k k' key r (ap (λ p. p.1) h);
  removed = λ old k k' h key.
      subst (λ z. Holds z key ↔ (Holds k key × (old ≢ key))) (ap (λ p. p.1) h)
        (Holds-drop_peer old k key);
  no_such = λ old k k' e h c key there. cc c;
}

abbrev spec : String → PeerSpec
spec key = record {
  link_id = "l";
  peer_node_id = "n";
  peer_name = "n";
  wg_pubkey = key;
  endpoint = "1.2.3.4:51820";
  allowed_ips = "100.100.0.9/32" ∷ [];
  keepalive_s = 25;
  exit = false;
  exit_addr = "";
}

abbrev device : LinuxWg (List Bytes)
device = record { kernel = []; priv = []; port = pos 51820; peer_nodes = []; node_keys = [] }

reconciles : (reconcile os (spec "k1" ∷ []) device).0 ≡ none
unfolding reconcile os apply
reconciles = refl

reconcile-exact_example :
    lawful.HasPeer (reconcile os (spec "k1" ∷ []) device).1.kernel (1 ∷ [])
    ↔ Wanted os (1 ∷ []) (spec "k1" ∷ [])
reconcile-exact_example = reconcile-exact os lawful (spec "k1" ∷ []) device (1 ∷ []) reconciles

abbrev reconciled_device : LinuxWg (List Bytes)
reconciled_device = (reconcile os (spec "k1" ∷ []) device).1

updates : (update_peer os (spec "k2") reconciled_device).0 ≡ none
unfolding reconcile update_peer os apply lookup insert
updates = refl

Run-Tracked_example : Tracked os lawful (update_peer os (spec "k2") reconciled_device).1
unfolding lawful
Run-Tracked_example =
    Run-Tracked os lawful device (update_peer os (spec "k2") reconciled_device).1 (λ key h. h)
      (after_update (spec "k2") (after_reconcile (spec "k1" ∷ []) here reconciles) updates)

mapped : lookup "n" reconciled_device.node_keys ≡ some "k1"
unfolding reconcile os apply lookup insert
mapped = refl

changes : ◌≢◌ {A = String} "k1" "k2"
changes = λ e. cc ((is_iff "k1" "k2").1 e)

update_peer-replaces_example :
    let v = (update_peer os (spec "k2") reconciled_device).1 in
    ((key : Bytes) → os.parse_key "k2" ≡ ok key → lawful.HasPeer v.kernel key)
    × ((key : Bytes)
        → lawful.HasPeer v.kernel key
        → (lawful.HasPeer reconciled_device.kernel key × (os.parse_key "k1" ≢ ok key))
          ⊎ (os.parse_key "k2" ≡ ok key))
    × (lookup "k2" v.peer_nodes ≡ some "n")
    × (lookup "n" v.node_keys ≡ some "k2")
    × (lookup "k1" v.peer_nodes ≡ none)
update_peer-replaces_example =
    update_peer-replaces os lawful (spec "k2") reconciled_device "k1" mapped changes updates
