-- ===== src/Agent/Wireguard/Laws.antt =====
-- What internal/agent/wg_linux.go relies on of wgctrl, and that the kernel has no peer that the
-- manager does not know.
use light_pn.Prelude.{String, ◌≡◌, ◌≢◌, ◌⊎◌, ◌↔◌, true, false, List, [], ◌∷◌, none, some, All}
use light_pn.Proto.{Bytes}
use light_pn.Agent.Wireguard.{PeerConfig, DeviceConfig, Kernel, peers_only, removal}

-- a peer of the list has the key
abbrev pub Among : Bytes → List PeerConfig → Type 0
Among key [] = ⊥
Among key (p ∷ ps) = (p.public_key ≡ key) ⊎ Among key ps

-- wgctrl on the peers of the device: a successful ConfigureDevice replaces them, adds one or removes
-- one. As removeKeyLocked takes an error with the words "no such" for it, a removal that fails so
-- leaves the device without this peer, and with no new one.
pub record Lawful {K : Type 0} (os : Kernel K) : Type 1 where
  pub HasPeer : K → Bytes → Type 0
  pub replaced :
      (cfg : DeviceConfig) (k k' : K)
      → cfg.replace_peers ≡ true
      → All (λ (p : PeerConfig). p.remove ≡ false) cfg.peers
      → os.configure cfg k ≡ (none, k')
      → (key : Bytes) → HasPeer k' key ↔ Among key cfg.peers
  pub appended :
      (pc : PeerConfig) (k k' : K)
      → pc.remove ≡ false
      → os.configure (peers_only false (pc ∷ [])) k ≡ (none, k')
      → (key : Bytes) → HasPeer k' key ↔ (HasPeer k key ⊎ (pc.public_key ≡ key))
  pub removed :
      (old : Bytes) (k k' : K)
      → os.configure (peers_only false (removal old ∷ [])) k ≡ (none, k')
      → (key : Bytes) → HasPeer k' key ↔ (HasPeer k key × (old ≢ key))
  pub no_such :
      (old : Bytes) (k k' : K) (e : String)
      → os.configure (peers_only false (removal old ∷ [])) k ≡ (some e, k')
      → os.contains e "no such" ≡ true
      → (key : Bytes) → HasPeer k' key
      → HasPeer k key × (old ≢ key)
