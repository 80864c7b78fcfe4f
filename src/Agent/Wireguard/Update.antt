-- ===== src/Agent/Wireguard/Update.antt =====
-- Removing and updating peers, and every order of the operations: internal/agent/wg_linux.go.
use light_pn.Prelude.{
  String, ◌≡◌, ◌≢◌, refl, ap, ◌∙◌, subst, false, [], ◌∷◌, Option, none, some, Result, ok, err,
  arith, if◌then◌else◌, ◌is◌, is_iff, Bool-cases, Option-cases, inl, inr,
}
use light_pn.Prelude.Map.{lookup, lookup-delete}
use light_pn.Proto.{Bytes}
use light_pn.Agent.Wireguard.{
  DeviceConfig, Kernel, LinuxWg, peers_only, removal, forgotten, key_removed, remove_peer,
}
use light_pn.Agent.Wireguard.Laws.{Lawful}
use light_pn.Agent.Wireguard.Tracked.{Tracked}

module _ {K : Type 0} where
  -- what removeKeyLocked leaves of the maps and of the kernel
  forgotten-nodes :
      (j pubkey : String) (w : LinuxWg K)
      → lookup j (forgotten pubkey w).peer_nodes
        ≡ (if pubkey is j then none else lookup j w.peer_nodes)
  forgotten-nodes j pubkey w = elim (Option-cases (lookup pubkey w.peer_nodes)) [
    | inl e ↦
        rw (e, forgotten) (ground (arith, e, is_iff pubkey j, ap (λ k. lookup k w.peer_nodes)))
    | inr (node, e) ↦ rw (e, forgotten) (lookup-delete j pubkey w.peer_nodes)
  ]

  forgotten-kernel : (pubkey : String) (w : LinuxWg K) → (forgotten pubkey w).kernel ≡ w.kernel
  forgotten-kernel pubkey w = ground arith

module _ {K : Type 0} (os : Kernel K) (law : Lawful os) where
  -- A successful removal leaves the kernel at most its other peers, and the maps the other texts.
  pub record Removed (pubkey : String) (w v : LinuxWg K) : Type 0 where
    pub peers :
        (key : Bytes)
        → law.HasPeer v.kernel key
        → law.HasPeer w.kernel key × (os.parse_key pubkey ≢ ok key)
    pub nodes :
        (j : String) → lookup j v.peer_nodes ≡ (if pubkey is j then none else lookup j w.peer_nodes)

  forgotten-Removed :
      (pubkey : String) (old : Bytes) (w : LinuxWg K) (k : K)
      → os.parse_key pubkey ≡ ok old
      → ((key : Bytes) → law.HasPeer k key → law.HasPeer w.kernel key × (old ≢ key))
      → Removed pubkey w (forgotten pubkey (record w { kernel = k }))
  forgotten-Removed pubkey old w k parses peers = record {
    peers = λ key there.
        let (before, other) = peers key (
          subst (λ i. law.HasPeer i key) (forgotten-kernel pubkey (record w { kernel = k }))
            there) in
        (before, λ e. other (cc (parses, e)));
    nodes = λ j. forgotten-nodes j pubkey (record w { kernel = k });
  }

  pub remove_peer-Removed :
      (pubkey : String) (w : LinuxWg K)
      → (remove_peer os pubkey w).0 ≡ none
      → Removed pubkey w (remove_peer os pubkey w).1
  unfolding remove_peer
  remove_peer-Removed pubkey w h = parsed (os.parse_key pubkey) refl
    where
      Goal : Type 0
      Goal = Removed pubkey w (remove_peer os pubkey w).1

      parsed : (r : Result String Bytes) → os.parse_key pubkey ≡ r → Goal
      parsed (err e) k = cc (rw (k, remove_peer) at h)
      parsed (ok old) k = done (os.configure cfg w.kernel) refl
        where
          cfg : DeviceConfig
          cfg = peers_only false (removal old ∷ [])

          done : (p : Option String × K) → os.configure cfg w.kernel ≡ p → Goal
          done (none, k') j =
              rw (k, j, remove_peer)
                (forgotten-Removed pubkey old w k' k (λ key. (law.removed old w.kernel k' j key).0))
          done (some e, k') j = elim (Bool-cases (os.contains e "no such")) [
            | inl gone ↦
                rw (k, j, remove_peer)
                  (rw (gone, key_removed)
                    (forgotten-Removed pubkey old w k' k (law.no_such old w.kernel k' e j gone)))
            | inr stays ↦ cc (rw (stays, key_removed) at (rw (k, j, remove_peer) at h))
          ]

  pub remove_peer-Tracked :
      (pubkey : String) (w : LinuxWg K)
      → (remove_peer os pubkey w).0 ≡ none
      → Tracked os law w
      → Tracked os law (remove_peer os pubkey w).1
  remove_peer-Tracked pubkey w h all key there =
      let r = remove_peer-Removed pubkey w h in
      let (before, other) = r.peers key there in
      let (t, parses, known) = all key before in
      elim (Bool-cases (pubkey is t)) [
        | inl e ↦ absurd (other (ap os.parse_key ((is_iff pubkey t).0 e) ∙ parses))
        | inr e ↦ (t, parses, rw (r.nodes t, e) known)
      ]
