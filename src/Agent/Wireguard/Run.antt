-- ===== src/Agent/Wireguard/Run.antt =====
-- Every order of the operations of internal/agent/wg_linux.go.
use light_pn.Prelude.{
  String, ◌≡◌, refl, sym, ap, ◌∙◌, subst, true, List, [], Option, none, some, Result, ok, err, ◌is◌,
  is_iff, Bool-cases, inl, inr,
}
use light_pn.Prelude.Map.{lookup}
use light_pn.Proto.{Bytes, PeerSpec}
use light_pn.Agent.Wireguard.{
  DeviceConfig, Kernel, LinuxWg, reconcile, add_peer, remove_peer, then_add, update_peer,
}
use light_pn.Agent.Wireguard.Lifecycle.{rotated, rotate}
use light_pn.Agent.Wireguard.Laws.{Lawful}
use light_pn.Agent.Wireguard.Tracked.{Tracked, reconcile-Tracked, add_peer-Tracked}
use light_pn.Agent.Wireguard.Failed.{
  NoNew, reconcile_failed-Tracked, add_peer_failed-Tracked, remove_peer_failed-Tracked,
}
use light_pn.Agent.Wireguard.Update.{remove_peer-Tracked}
use light_pn.Agent.Wireguard.Replace.{update_peer-parts}

module _ {K : Type 0} (os : Kernel K) (law : Lawful os) where
  then_add-Tracked :
      (spec : PeerSpec) (p : Option String × LinuxWg K)
      → (then_add os spec p).0 ≡ none
      → Tracked os law p.1
      → Tracked os law (then_add os spec p).1
  then_add-Tracked spec (some e, v) h t = cc h
  then_add-Tracked spec (none, v) h t = add_peer-Tracked os law spec v h t

  update_peer-Tracked :
      (spec : PeerSpec) (w : LinuxWg K)
      → (update_peer os spec w).0 ≡ none
      → Tracked os law w
      → Tracked os law (update_peer os spec w).1
  unfolding update_peer
  update_peer-Tracked spec w h t = known (lookup spec.peer_node_id w.node_keys) refl
    where
      Goal : Type 0
      Goal = Tracked os law (update_peer os spec w).1

      known : (o : Option String) → lookup spec.peer_node_id w.node_keys ≡ o → Goal
      known none e =
          rw (e, update_peer) (add_peer-Tracked os law spec w (rw (e, update_peer) at h) t)
      known (some old) e = elim (Bool-cases (old is spec.wg_pubkey)) [
        | inl same ↦
            rw (e, update_peer)
              (rw same (add_peer-Tracked os law spec w (rw same at (rw (e, update_peer) at h)) t))
        | inr other ↦
            let (removes, adds) =
              update_peer-parts os law spec w old e
                (λ k. cc (other, (is_iff old spec.wg_pubkey).1 k)) h in
            subst (λ p. Tracked os law p.1) (sym adds)
              (add_peer-Tracked os law spec (remove_peer os old w).1 (ap (λ p. p.0) (sym adds) ∙ h)
                (remove_peer-Tracked os law old w removes t))
      ]

  -- a successful Rotate leaves the kernel no peer
  rotate-Tracked :
      (w : LinuxWg K) (pub_key : String)
      → (rotate os w).0 ≡ ok pub_key
      → Tracked os law (rotate os w).1
  unfolding rotate
  rotate-Tracked w pub_key h = keyed (os.generate w.kernel) refl
    where
      Goal : Type 0
      Goal = Tracked os law (rotate os w).1

      keyed : (r : Result String (Bytes × String) × K) → os.generate w.kernel ≡ r → Goal
      keyed (err e, k) g = cc (rw (g, rotate) at h)
      keyed (ok (priv, text), k) g = done (os.configure cfg k) refl
        where
          cfg : DeviceConfig
          cfg = record {
            private_key = some priv;
            listen_port = none;
            replace_peers = true;
            peers = [];
          }

          done : (p : Option String × K) → os.configure cfg k ≡ p → Goal
          done (some e, k') j = cc (rw (j, rotated) at (rw (g, rotate) at h))
          done (none, k') j =
              rw (g, rotate)
                (rw (j, rotated)
                  (λ key there. absurd ((law.replaced cfg k k' refl tt j key).0 there)))

  -- The states that calls in a row reach. A call that returned an error has left the kernel no new
  -- peer.
  pub data Run (w : LinuxWg K) : LinuxWg K → Type 1 where
    here : Run w w
    after_reconcile :
        {v : LinuxWg K} (specs : List PeerSpec)
        → Run w v
        → (reconcile os specs v).0 ≡ none
        → Run w (reconcile os specs v).1
    after_add :
        {v : LinuxWg K} (spec : PeerSpec)
        → Run w v
        → (add_peer os spec v).0 ≡ none
        → Run w (add_peer os spec v).1
    after_update :
        {v : LinuxWg K} (spec : PeerSpec)
        → Run w v
        → (update_peer os spec v).0 ≡ none
        → Run w (update_peer os spec v).1
    after_remove :
        {v : LinuxWg K} (pubkey : String)
        → Run w v
        → (remove_peer os pubkey v).0 ≡ none
        → Run w (remove_peer os pubkey v).1
    after_rotate :
        {v : LinuxWg K} (pub_key : String)
        → Run w v
        → (rotate os v).0 ≡ ok pub_key
        → Run w (rotate os v).1
    failed_reconcile :
        {v : LinuxWg K} (specs : List PeerSpec) (e : String)
        → Run w v
        → (reconcile os specs v).0 ≡ some e
        → NoNew os law v (reconcile os specs v).1
        → Run w (reconcile os specs v).1
    failed_add :
        {v : LinuxWg K} (spec : PeerSpec) (e : String)
        → Run w v
        → (add_peer os spec v).0 ≡ some e
        → NoNew os law v (add_peer os spec v).1
        → Run w (add_peer os spec v).1
    failed_remove :
        {v : LinuxWg K} (pubkey : String) (e : String)
        → Run w v
        → (remove_peer os pubkey v).0 ≡ some e
        → NoNew os law v (remove_peer os pubkey v).1
        → Run w (remove_peer os pubkey v).1

-- From a device without peers, whatever peers are reconciled, added, updated and removed and whenever
-- the key is rotated: every peer of the kernel has the key of a text for which the manager has a
-- node; if wgctrl keeps its contract, no UpdatePeer and no Rotate returns an error, and after an
-- error of Reconcile, AddPeer or RemovePeer the kernel has no peer that it did not have before.
pub Run-Tracked :
    {K : Type 0} (os : Kernel K) (law : Lawful os) (w v : LinuxWg K)
    → ((key : Bytes) → ¬ law.HasPeer w.kernel key)
    → Run os law w v
    → Tracked os law v
Run-Tracked os law w _ start here = λ key there. absurd (start key there)
Run-Tracked os law w _ start (after_reconcile {v} specs r h) = reconcile-Tracked os law specs v h
Run-Tracked os law w _ start (after_add {v} spec r h) =
    add_peer-Tracked os law spec v h (Run-Tracked os law w v start r)
Run-Tracked os law w _ start (after_update {v} spec r h) =
    update_peer-Tracked os law spec v h (Run-Tracked os law w v start r)
Run-Tracked os law w _ start (after_remove {v} pubkey r h) =
    remove_peer-Tracked os law pubkey v h (Run-Tracked os law w v start r)
Run-Tracked os law w _ start (after_rotate {v} pub_key r h) = rotate-Tracked os law v pub_key h
Run-Tracked os law w _ start (failed_reconcile {v} specs e r h no_new) =
    reconcile_failed-Tracked os law specs v e h no_new (Run-Tracked os law w v start r)
Run-Tracked os law w _ start (failed_add {v} spec e r h no_new) =
    add_peer_failed-Tracked os law spec v e h no_new (Run-Tracked os law w v start r)
Run-Tracked os law w _ start (failed_remove {v} pubkey e r h no_new) =
    remove_peer_failed-Tracked os law pubkey v e h no_new (Run-Tracked os law w v start r)
