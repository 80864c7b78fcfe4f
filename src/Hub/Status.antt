-- ===== src/Hub/Status.antt =====
-- What the panel reads from the hub: NodeStatus, LinkStatus, LinkRuntime and Session of
-- internal/hub/hub.go.
use light_pn.Prelude.{
  ℕ, ◌-◌, String, Bool, true, false, not, ◌&&◌, List, Option, none, some, ℤ, pos, ltb, ltb_ℤ, ◌-ℤ◌,
  if◌then◌else◌,
}
use light_pn.Prelude.Map.{lookup}
use light_pn.Proto.{WgPeerStatus}
use light_pn.Store.{Link}
use light_pn.Hub.State.{
  Status, online, stale, offline, pending, active, degraded, Config, WgIdent, Session, LinkRt, Hub,
  World, session_of, session_at,
}
use light_pn.Hub.Push.{endpoint, registered_ref}

abbrev pub is_some : {A : Type 0} → Option A → Bool
is_some none = false
is_some (some _) = true

abbrev pub session_status : Config → ℕ → Option Session → Status
session_status cfg now none = offline
session_status cfg now (some s) = if ltb cfg.dead_after_s (now - s.last_hb) then stale else online

module _ {F : Type 0} where
  -- nodeStatusLocked
  unfoldable pub node_status : String → ℕ → Hub F → Status
  node_status id now h = elim (session_of h id) [
    | none ↦ offline
    | some r ↦ session_status h.cfg now (session_at h r)
  ]

  abbrev pub rt_status : ℕ → Bool → Option (LinkRt F) → Status
  rt_status now both_on none = pending
  rt_status now both_on (some rt) =
      if not (both_on && rt.ack_a && rt.ack_b)
      then pending
      else if ltb_ℤ (pos now -ℤ rt.last_hs) (pos 180)
      then active
      else degraded

  -- LinkStatus
  unfoldable pub link_status : Link → ℕ → Hub F → Status
  unfolding registered_ref ◌-ℤ◌
  link_status l now h =
      rt_status now (is_some (registered_ref h l.a) && is_some (registered_ref h l.b))
        (lookup l.id h.links)

  -- LinkRuntime
  unfoldable pub link_runtime : World F → String → Hub F → ℤ × F × F
  link_runtime w id h = elim (lookup id h.links) [
    | none ↦ (pos 0, w.floats.nought, w.floats.nought)
    | some rt ↦ (rt.last_hs, rt.rx_rate, rt.tx_rate)
  ]

pub record SessionInfo : Type 0 where
  pub endpoint : String
  pub agent_version : String
  pub last_hb : ℕ
  pub wg_peers : List WgPeerStatus
  pub exit_capable : Bool

module _ {F : Type 0} (w : World F) where
  abbrev pub info_of : Session → Option WgIdent → SessionInfo
  info_of s none = record {
    endpoint = "";
    agent_version = s.agent_version;
    last_hb = s.last_hb;
    wg_peers = s.hb_wg;
    exit_capable = false;
  }
  info_of s (some i) = record {
    endpoint = endpoint w i;
    agent_version = s.agent_version;
    last_hb = s.last_hb;
    wg_peers = s.hb_wg;
    exit_capable = ltb_ℤ (pos 0) i.socks_port;
  }

  -- Session
  unfoldable pub session_info : String → Hub F → Option SessionInfo
  unfolding endpoint
  session_info id h = elim (session_of h id) [
    | none ↦ none
    | some r ↦ elim (session_at h r) [
      | none ↦ none
      | some s ↦ some (info_of s (lookup id h.last_wg))
    ]
  ]
