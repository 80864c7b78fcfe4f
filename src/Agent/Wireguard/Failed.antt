-- ===== src/Agent/Wireguard/Failed.antt =====
-- What a failed call leaves of the manager's maps: internal/agent/wg_linux.go.
use light_pn.Prelude.{
  String, ◌≡◌, refl, sym, subst, true, false, List, [], ◌∷◌, Option, none, some, Result, ok, err,
  Bool-cases, inl, inr,
}
use light_pn.Prelude.Map.{lookup}
use light_pn.Proto.{Bytes, PeerSpec}
use light_pn.Agent.Wireguard.{
  PeerConfig, Kernel, LinuxWg, spec_to_peer_config, peer_configs, peers_only, removal, reconcile,
  add_peer, key_removed, remove_peer,
}
use light_pn.Agent.Wireguard.Laws.{Lawful}
use light_pn.Agent.Wireguard.Tracked.{Tracked, Known}

module _ {K : Type 0} (os : Kernel K) where
  reconcile-failed :
      (specs : List PeerSpec) (w : LinuxWg K) (e : String)
      → (reconcile os specs w).0 ≡ some e
      → (reconcile os specs w).1.peer_nodes ≡ w.peer_nodes
  unfolding reconcile
  reconcile-failed specs w e h = parsed (peer_configs os specs) refl
    where
      Goal : Type 0
      Goal = (reconcile os specs w).1.peer_nodes ≡ w.peer_nodes

      parsed : (r : Result String (List PeerConfig)) → peer_configs os specs ≡ r → Goal
      parsed (err _) k = rw (k, reconcile) refl
      parsed (ok peers) k = done (os.configure (peers_only true peers) w.kernel) refl
        where
          done : (p : Option String × K) → os.configure (peers_only true peers) w.kernel ≡ p → Goal
          done (some _, k') j = rw (k, j, reconcile) refl
          done (none, k') j = cc (rw (k, j, reconcile) at h)

  add_peer-failed :
      (spec : PeerSpec) (w : LinuxWg K) (e : String)
      → (add_peer os spec w).0 ≡ some e
      → (add_peer os spec w).1.peer_nodes ≡ w.peer_nodes
  unfolding add_peer
  add_peer-failed spec w e h = parsed (spec_to_peer_config os spec) refl
    where
      Goal : Type 0
      Goal = (add_peer os spec w).1.peer_nodes ≡ w.peer_nodes

      parsed : (r : Result String PeerConfig) → spec_to_peer_config os spec ≡ r → Goal
      parsed (err _) k = rw (k, add_peer) refl
      parsed (ok pc) k = done (os.configure (peers_only false (pc ∷ [])) w.kernel) refl
        where
          done :
              (p : Option String × K)
              → os.configure (peers_only false (pc ∷ [])) w.kernel ≡ p
              → Goal
          done (some _, k') j = rw (k, j, add_peer) refl
          done (none, k') j = cc (rw (k, j, add_peer) at h)

  remove_peer-failed :
      (pubkey : String) (w : LinuxWg K) (e : String)
      → (remove_peer os pubkey w).0 ≡ some e
      → (remove_peer os pubkey w).1.peer_nodes ≡ w.peer_nodes
  unfolding remove_peer
  remove_peer-failed pubkey w e h = parsed (os.parse_key pubkey) refl
    where
      Goal : Type 0
      Goal = (remove_peer os pubkey w).1.peer_nodes ≡ w.peer_nodes

      parsed : (r : Result String Bytes) → os.parse_key pubkey ≡ r → Goal
      parsed (err _) k = rw (k, remove_peer) refl
      parsed (ok old) k = done (os.configure (peers_only false (removal old ∷ [])) w.kernel) refl
        where
          done :
              (p : Option String × K)
              → os.configure (peers_only false (removal old ∷ [])) w.kernel ≡ p
              → Goal
          done (none, k') j = cc (rw (k, j, remove_peer) at h)
          done (some x, k') j = elim (Bool-cases (os.contains x "no such")) [
            | inl gone ↦ cc (rw (gone, key_removed) at (rw (k, j, remove_peer) at h))
            | inr stays ↦ rw (k, j, remove_peer) (rw (stays, key_removed) refl)
          ]

module _ {K : Type 0} (os : Kernel K) (law : Lawful os) where
  -- the kernel of the second state has only peers of the first one's
  abbrev pub NoNew : LinuxWg K → LinuxWg K → Type 0
  NoNew w v = (key : Bytes) → law.HasPeer v.kernel key → law.HasPeer w.kernel key

  kept-Tracked :
      (w v : LinuxWg K)
      → v.peer_nodes ≡ w.peer_nodes
      → NoNew w v
      → Tracked os law w
      → Tracked os law v
  kept-Tracked w v same old all key there =
      let (t, parses, known) = all key (old key there) in
      (t, parses, subst (λ m. Known (lookup t m)) (sym same) known)

  pub reconcile_failed-Tracked :
      (specs : List PeerSpec) (w : LinuxWg K) (e : String)
      → (reconcile os specs w).0 ≡ some e
      → NoNew w (reconcile os specs w).1
      → Tracked os law w
      → Tracked os law (reconcile os specs w).1
  reconcile_failed-Tracked specs w e h =
      kept-Tracked w (reconcile os specs w).1 (reconcile-failed os specs w e h)

  pub add_peer_failed-Tracked :
      (spec : PeerSpec) (w : LinuxWg K) (e : String)
      → (add_peer os spec w).0 ≡ some e
      → NoNew w (add_peer os spec w).1
      → Tracked os law w
      → Tracked os law (add_peer os spec w).1
  add_peer_failed-Tracked spec w e h =
      kept-Tracked w (add_peer os spec w).1 (add_peer-failed os spec w e h)

  pub remove_peer_failed-Tracked :
      (pubkey : String) (w : LinuxWg K) (e : String)
      → (remove_peer os pubkey w).0 ≡ some e
      → NoNew w (remove_peer os pubkey w).1
      → Tracked os law w
      → Tracked os law (remove_peer os pubkey w).1
  remove_peer_failed-Tracked pubkey w e h =
      kept-Tracked w (remove_peer os pubkey w).1 (remove_peer-failed os pubkey w e h)
