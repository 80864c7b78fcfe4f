-- ===== src/Agent/Wireguard/Exact.antt =====
-- The peers of the kernel after Reconcile of internal/agent/wg_linux.go are those of the specs.
use light_pn.Prelude.{
  String, ◌≡◌, ◌⊎◌, ◌↔◌, refl, sym, ap, ◌∙◌, subst, Bool, true, false, List, [], ◌∷◌, Option, none,
  some, Result, ok, err, inl, inr, All,
}
use light_pn.Proto.{Bytes, PeerSpec}
use light_pn.Agent.Wireguard.{
  PeerConfig, Kernel, LinuxWg, spec_to_peer_config, parse_all, peer_configs, peers_only, reconcile,
}
use light_pn.Agent.Wireguard.Laws.{Among, Lawful}

abbrev key_in : Result String PeerConfig → Bytes
key_in (ok pc) = pc.public_key
key_in (err _) = []

abbrev is_removal : Result String PeerConfig → Bool
is_removal (ok pc) = pc.remove
is_removal (err _) = false

module _ {K : Type 0} (os : Kernel K) where
  -- a spec of the list has a public key that parses to the key
  abbrev pub Wanted : Bytes → List PeerSpec → Type 0
  Wanted key [] = ⊥
  Wanted key (s ∷ ss) = (os.parse_key s.wg_pubkey ≡ ok key) ⊎ Wanted key ss

  -- the configuration of a spec is of the key that its text gives
  pub spec_to_peer_config-ok :
      (spec : PeerSpec) (pc : PeerConfig)
      → spec_to_peer_config os spec ≡ ok pc
      → (os.parse_key spec.wg_pubkey ≡ ok pc.public_key) × (pc.remove ≡ false)
  unfolding spec_to_peer_config
  spec_to_peer_config-ok spec pc h = parsed (os.parse_key spec.wg_pubkey) refl
    where
      Goal : Type 0
      Goal = (os.parse_key spec.wg_pubkey ≡ ok pc.public_key) × (pc.remove ≡ false)

      parsed : (r : Result String Bytes) → os.parse_key spec.wg_pubkey ≡ r → Goal
      parsed (err e) k = cc (rw (k, spec_to_peer_config) at h)
      parsed (ok key) k = resolved (os.resolve spec.endpoint) refl
        where
          resolved : (r : Result String String) → os.resolve spec.endpoint ≡ r → Goal
          resolved (err e) j = cc (rw (k, j, spec_to_peer_config) at h)
          resolved (ok endpoint) j = listed (parse_all os spec.allowed_ips) refl
            where
              listed : (r : Result String (List String)) → parse_all os spec.allowed_ips ≡ r → Goal
              listed (err e) i = cc (rw (k, j, i, spec_to_peer_config) at h)
              listed (ok nets) i =
                  let built = rw (k, j, i, spec_to_peer_config) at h in
                  (k ∙ ap ok (ap key_in built), sym (ap is_removal built))

  -- The configurations of a list have exactly the keys of its specs, and none is a removal.
  abbrev Configures : Bytes → List PeerConfig → List PeerSpec → Type 0
  Configures key peers specs =
      (Among key peers ↔ Wanted key specs) × All (λ (p : PeerConfig). p.remove ≡ false) peers

  cons-Configures :
      (s : PeerSpec) (ss : List PeerSpec) (pc : PeerConfig) (ps : List PeerConfig) (key : Bytes)
      → (os.parse_key s.wg_pubkey ≡ ok pc.public_key) × (pc.remove ≡ false)
      → Configures key ps ss
      → Configures key (pc ∷ ps) (s ∷ ss)
  cons-Configures s ss pc ps key (parses, adds) ((to, from), all) = (
    (
      elim [ inl e ↦ inl (parses ∙ ap ok e) | inr a ↦ inr (to a) ],
      elim [ inl e ↦ inl (cc (parses, e)) | inr a ↦ inr (from a) ],
    ),
    (adds, all),
  )

  peer_configs-ok :
      (specs : List PeerSpec) (peers : List PeerConfig) (key : Bytes)
      → peer_configs os specs ≡ ok peers
      → Configures key peers specs
  unfolding peer_configs
  peer_configs-ok [] peers key h =
      let none_there : ◌≡◌ {A = List PeerConfig} [] peers = cc h in
      subst (λ ps. Configures key ps []) none_there ((λ a. a, λ a. a), tt)
  peer_configs-ok (s ∷ ss) peers key h =
      first (spec_to_peer_config os s) refl (λ ps e. peer_configs-ok ss ps key e)
    where
      Rest : Type 0
      Rest = (ps : List PeerConfig) → peer_configs os ss ≡ ok ps → Configures key ps ss

      first :
          (r : Result String PeerConfig)
          → spec_to_peer_config os s ≡ r
          → Rest
          → Configures key peers (s ∷ ss)
      first (err e) k ih = cc (rw (k, peer_configs) at h)
      first (ok pc) k ih = others (peer_configs os ss) refl
        where
          others :
              (r : Result String (List PeerConfig))
              → peer_configs os ss ≡ r
              → Configures key peers (s ∷ ss)
          others (err e) j = cc (rw (k, j, peer_configs) at h)
          others (ok ps) j =
              let same : pc ∷ ps ≡ peers = cc (rw (k, j, peer_configs) at h) in
              subst (λ qs. Configures key qs (s ∷ ss)) same
                (cons-Configures s ss pc ps key (spec_to_peer_config-ok s pc k) (ih ps j))

-- After a Reconcile without an error, the kernel has a peer with a key exactly if the public key of one
-- of the specs parses to it; if wgctrl keeps its contract.
pub reconcile-exact :
    {K : Type 0} (os : Kernel K) (law : Lawful os) (specs : List PeerSpec) (w : LinuxWg K)
    (key : Bytes)
    → (reconcile os specs w).0 ≡ none
    → law.HasPeer (reconcile os specs w).1.kernel key ↔ Wanted os key specs
unfolding reconcile
reconcile-exact {K} os law specs w key h =
    elim (peer_configs os specs)
        as (λ r.
          peer_configs os specs ≡ r
          → law.HasPeer (reconcile os specs w).1.kernel key ↔ Wanted os key specs) [
            | err e ↦ λ k. cc (rw (k, reconcile) at h)
            | ok peers ↦ λ k. done peers k (os.configure (peers_only true peers) w.kernel) refl
          ]
      refl
  where
    done :
        (peers : List PeerConfig)
        → peer_configs os specs ≡ ok peers
        → (p : Option String × K) → os.configure (peers_only true peers) w.kernel ≡ p
        → law.HasPeer (reconcile os specs w).1.kernel key ↔ Wanted os key specs
    done peers k (some e, k') j = cc (rw (k, j, reconcile) at h)
    done peers k (none, k') j =
        let (wanted, adds) = peer_configs-ok os specs peers key k in
        let there = law.replaced (peers_only true peers) w.kernel k' refl adds j key in
        rw (k, j, reconcile) (λ a. wanted.0 (there.0 a), λ b. there.1 (wanted.1 b))
