-- ===== src/Agent/Wireguard/Replace.antt =====
-- Updating a peer replaces its key: internal/agent/wg_linux.go.
use light_pn.Prelude.{
  String, ◌≡◌, ◌≢◌, ◌⊎◌, ◌↔◌, refl, sym, ap, ◌∙◌, false, [], ◌∷◌, Option, none, some, Result, ok,
  err, arith, ◌is◌, is_iff, is_refl, Bool-cases, inl, inr,
}
use light_pn.Prelude.Map.{lookup, insert, lookup-insert, lookup-insert_self}
use light_pn.Proto.{Bytes, PeerSpec}
use light_pn.Agent.Wireguard.{
  PeerConfig, Kernel, LinuxWg, spec_to_peer_config, peers_only, add_peer, remove_peer, then_add,
  update_peer,
}
use light_pn.Agent.Wireguard.Laws.{Lawful}
use light_pn.Agent.Wireguard.Exact.{spec_to_peer_config-ok}
use light_pn.Agent.Wireguard.Update.{remove_peer-Removed}

module _ {K : Type 0} (os : Kernel K) (law : Lawful os) where
  -- A successful AddPeer adds the key of the spec, and maps it and its node to each other.
  record Added (spec : PeerSpec) (w v : LinuxWg K) : Type 0 where
    peers :
        (key : Bytes)
        → law.HasPeer v.kernel key
          ↔ (law.HasPeer w.kernel key ⊎ (os.parse_key spec.wg_pubkey ≡ ok key))
    nodes : v.peer_nodes ≡ insert spec.wg_pubkey spec.peer_node_id w.peer_nodes
    keys : v.node_keys ≡ insert spec.peer_node_id spec.wg_pubkey w.node_keys

  add_peer-Added :
      (spec : PeerSpec) (w : LinuxWg K)
      → (add_peer os spec w).0 ≡ none
      → Added spec w (add_peer os spec w).1
  unfolding add_peer
  add_peer-Added spec w h = parsed (spec_to_peer_config os spec) refl
    where
      Goal : Type 0
      Goal = Added spec w (add_peer os spec w).1

      parsed : (r : Result String PeerConfig) → spec_to_peer_config os spec ≡ r → Goal
      parsed (err e) k = cc (rw (k, add_peer) at h)
      parsed (ok pc) k = done (os.configure (peers_only false (pc ∷ [])) w.kernel) refl
        where
          same_key : (key : Bytes) → (pc.public_key ≡ key) ↔ (os.parse_key spec.wg_pubkey ≡ ok key)
          same_key key =
              let (parses, _) = spec_to_peer_config-ok os spec pc k in
              (λ e. parses ∙ ap ok e, λ e. cc (parses, e))

          done :
              (p : Option String × K)
              → os.configure (peers_only false (pc ∷ [])) w.kernel ≡ p
              → Goal
          done (some e, k') j = cc (rw (k, j, add_peer) at h)
          done (none, k') j =
              rw (k, j, add_peer)
                (record {
                  peers = λ key.
                      let (adds, keeps) =
                        law.appended pc w.kernel k' (spec_to_peer_config-ok os spec pc k).1 j key in
                      (
                        λ there. elim (adds there) [
                          | inl before ↦ inl before
                          | inr new ↦ inr ((same_key key).0 new)
                        ],
                        elim [
                          | inl before ↦ keeps (inl before)
                          | inr new ↦ keeps (inr ((same_key key).1 new))
                        ],
                      );
                  nodes = refl;
                  keys = refl;
                })

  then_add-parts :
      (spec : PeerSpec) (p : Option String × LinuxWg K)
      → (then_add os spec p).0 ≡ none
      → (p.0 ≡ none) × (then_add os spec p ≡ add_peer os spec p.1)
  then_add-parts spec (some e, v) h = cc h
  then_add-parts spec (none, v) h = (refl, refl)

  -- the two steps of an UpdatePeer that replaces a key
  pub update_peer-parts :
      (spec : PeerSpec) (w : LinuxWg K) (old : String)
      → lookup spec.peer_node_id w.node_keys ≡ some old
      → old ≢ spec.wg_pubkey
      → (update_peer os spec w).0 ≡ none
      → ((remove_peer os old w).0 ≡ none)
        × (update_peer os spec w ≡ add_peer os spec (remove_peer os old w).1)
  unfolding update_peer
  update_peer-parts spec w old e n h = elim (Bool-cases (old is spec.wg_pubkey)) [
    | inl same ↦ absurd (n ((is_iff old spec.wg_pubkey).0 same))
    | inr other ↦
        let (removes, adds) =
          then_add-parts spec (remove_peer os old w) (rw other at (rw (e, update_peer) at h)) in
        (removes, rw (e, update_peer) (rw other adds))
  ]

-- If UpdatePeer succeeds for a node whose key was another one, then the kernel has the new key, and
-- otherwise only keys that it had and that are not the old one; and the manager maps the new key to the
-- node and the node to it, and does not know the old key any more; if wgctrl keeps its contract.
pub update_peer-replaces :
    {K : Type 0} (os : Kernel K) (law : Lawful os) (spec : PeerSpec) (w : LinuxWg K) (old : String)
    → lookup spec.peer_node_id w.node_keys ≡ some old
    → old ≢ spec.wg_pubkey
    → (update_peer os spec w).0 ≡ none
    → let v = (update_peer os spec w).1 in
      ((key : Bytes) → os.parse_key spec.wg_pubkey ≡ ok key → law.HasPeer v.kernel key)
      × ((key : Bytes)
          → law.HasPeer v.kernel key
          → (law.HasPeer w.kernel key × (os.parse_key old ≢ ok key))
            ⊎ (os.parse_key spec.wg_pubkey ≡ ok key))
      × (lookup spec.wg_pubkey v.peer_nodes ≡ some spec.peer_node_id)
      × (lookup spec.peer_node_id v.node_keys ≡ some spec.wg_pubkey)
      × (lookup old v.peer_nodes ≡ none)
update_peer-replaces os law spec w old e n h =
    let (removes, adds) = update_peer-parts os law spec w old e n h in
    let r = remove_peer-Removed os law old w removes in
    let a = add_peer-Added os law spec (remove_peer os old w).1 (ap (λ p. p.0) (sym adds) ∙ h) in
    rw adds (
      λ key new. (a.peers key).1 (inr new),
      λ key there. elim ((a.peers key).0 there) [
        | inl before ↦ inl (r.peers key before)
        | inr new ↦ inr new
      ],
      rw a.nodes (lookup-insert_self spec.wg_pubkey spec.peer_node_id _),
      rw a.keys (lookup-insert_self spec.peer_node_id spec.wg_pubkey _),
      ap (lookup old) a.nodes
          ∙ ground (
            arith,
            n,
            is_iff spec.wg_pubkey old,
            is_refl old,
            r.nodes old,
            lookup-insert old spec.wg_pubkey spec.peer_node_id (remove_peer os old w).1.peer_nodes,
          ),
    )
