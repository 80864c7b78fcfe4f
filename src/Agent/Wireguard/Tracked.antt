-- ===== src/Agent/Wireguard/Tracked.antt =====
-- The kernel has no peer that the manager does not know: internal/agent/wg_linux.go.
use light_pn.Prelude.{
  String, ◌≡◌, refl, sym, ap, ◌∙◌, subst, true, false, List, [], ◌∷◌, Option, none, some, Result,
  ok, err, ◌is◌, Bool-cases, inl, inr,
}
use light_pn.Prelude.Map.{Map, lookup, insert, lookup-insert, lookup-insert_self}
use light_pn.Proto.{Bytes, PeerSpec}
use light_pn.Agent.Wireguard.{
  PeerConfig, Kernel, LinuxWg, spec_to_peer_config, peer_configs, nodes_of, peers_only, reconcile,
  add_peer,
}
use light_pn.Agent.Wireguard.Laws.{Lawful}
use light_pn.Agent.Wireguard.Exact.{Wanted, spec_to_peer_config-ok, reconcile-exact}

abbrev pub Known : {A : Type 0} → Option A → Type 0
Known none = ⊥
Known (some _) = Unit

Known-insert :
    (t p n : String) (m : Map String) → Known (lookup t m) → Known (lookup t (insert p n m))
Known-insert t p n m h = elim (Bool-cases (p is t)) [
  | inl e ↦ rw (lookup-insert t p n m, e) tt
  | inr e ↦ rw (lookup-insert t p n m, e) h
]

Known-nodes_of :
    (t : String) (specs : List PeerSpec) (m : Map String)
    → Known (lookup t m)
    → Known (lookup t (nodes_of specs m))
unfolding nodes_of
Known-nodes_of t [] m h = h
Known-nodes_of t (s ∷ ss) m h =
    Known-nodes_of t ss (insert s.wg_pubkey s.peer_node_id m)
      (Known-insert t s.wg_pubkey s.peer_node_id m h)

module _ {K : Type 0} (os : Kernel K) (law : Lawful os) where
  -- Every peer of the kernel has the key that some text parses to, for which the manager has a node.
  abbrev pub Tracked : LinuxWg K → Type 0
  Tracked w =
      (key : Bytes)
      → law.HasPeer w.kernel key
      → (t : String) × (os.parse_key t ≡ ok key) × Known (lookup t w.peer_nodes)

  Wanted-Known :
      (key : Bytes) (specs : List PeerSpec) (m : Map String)
      → Wanted os key specs
      → (t : String) × (os.parse_key t ≡ ok key) × Known (lookup t (nodes_of specs m))
  unfolding nodes_of
  Wanted-Known key [] m h = absurd h
  Wanted-Known key (s ∷ ss) m (inl e) = (
    s.wg_pubkey,
    e,
    Known-nodes_of s.wg_pubkey ss (insert s.wg_pubkey s.peer_node_id m)
        (rw (lookup-insert_self s.wg_pubkey s.peer_node_id m) tt),
  )
  Wanted-Known key (s ∷ ss) m (inr h) = Wanted-Known key ss (insert s.wg_pubkey s.peer_node_id m) h

  reconcile-nodes :
      (specs : List PeerSpec) (w : LinuxWg K)
      → (reconcile os specs w).0 ≡ none
      → (reconcile os specs w).1.peer_nodes ≡ nodes_of specs []
  unfolding reconcile
  reconcile-nodes specs w h = parsed (peer_configs os specs) refl
    where
      Goal : Type 0
      Goal = (reconcile os specs w).1.peer_nodes ≡ nodes_of specs []

      parsed : (r : Result String (List PeerConfig)) → peer_configs os specs ≡ r → Goal
      parsed (err e) k = cc (rw (k, reconcile) at h)
      parsed (ok peers) k = done (os.configure (peers_only true peers) w.kernel) refl
        where
          done : (p : Option String × K) → os.configure (peers_only true peers) w.kernel ≡ p → Goal
          done (some e, k') j = cc (rw (k, j, reconcile) at h)
          done (none, k') j = rw (k, j, reconcile) refl

  pub reconcile-Tracked :
      (specs : List PeerSpec) (w : LinuxWg K)
      → (reconcile os specs w).0 ≡ none
      → Tracked (reconcile os specs w).1
  reconcile-Tracked specs w h key there =
      let (t, parses, known) =
        Wanted-Known key specs [] ((reconcile-exact os law specs w key h).0 there) in
      (t, parses, subst (λ m. Known (lookup t m)) (sym (reconcile-nodes specs w h)) known)

  pub add_peer-Tracked :
      (spec : PeerSpec) (w : LinuxWg K)
      → (add_peer os spec w).0 ≡ none
      → Tracked w
      → Tracked (add_peer os spec w).1
  unfolding add_peer
  add_peer-Tracked spec w h all = parsed (spec_to_peer_config os spec) refl
    where
      Goal : Type 0
      Goal = Tracked (add_peer os spec w).1

      parsed : (r : Result String PeerConfig) → spec_to_peer_config os spec ≡ r → Goal
      parsed (err e) k = cc (rw (k, add_peer) at h)
      parsed (ok pc) k = done (os.configure (peers_only false (pc ∷ [])) w.kernel) refl
        where
          nodes : Map String
          nodes = insert spec.wg_pubkey spec.peer_node_id w.peer_nodes

          known :
              (k' : K)
              → os.configure (peers_only false (pc ∷ [])) w.kernel ≡ (none, k')
              → (key : Bytes) → law.HasPeer k' key
              → (t : String) × (os.parse_key t ≡ ok key) × Known (lookup t nodes)
          known k' j key there =
              let (parses, adds) = spec_to_peer_config-ok os spec pc k in
              elim ((law.appended pc w.kernel k' adds j key).0 there) [
                | inl before ↦
                    let (t, e, n) = all key before in
                    (t, e, Known-insert t spec.wg_pubkey spec.peer_node_id w.peer_nodes n)
                | inr new ↦ (
                  spec.wg_pubkey,
                  parses ∙ ap ok new,
                  rw (lookup-insert_self spec.wg_pubkey spec.peer_node_id w.peer_nodes) tt,
                )
              ]

          done :
              (p : Option String × K)
              → os.configure (peers_only false (pc ∷ [])) w.kernel ≡ p
              → Goal
          done (some e, k') j = cc (rw (k, j, add_peer) at h)
          done (none, k') j = rw (k, j, add_peer) (λ key there. known k' j key there)
