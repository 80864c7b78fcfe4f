-- ===== src/Hub/Handshakes.antt =====
-- What a heartbeat does to the runtime of the links, handleHeartbeat of internal/hub/control.go.
use light_pn.Prelude.{
  ℕ, String, ◌≡◌, refl, sym, ap, ◌∙◌, subst, List, [], ◌∷◌, Option, none, some, arith, ℤ, pos,
  negsuc, ◌≤ℤ◌, ltb_ℤ, if◌then◌else◌, ◌is◌, is_iff, Bool-cases, Option-cases, inl, inr,
}
use light_pn.Prelude.Map.{Map, lookup, insert, lookup-insert}
use light_pn.Proto.{Envelope, WgPeerStatus, HeartbeatData}
use light_pn.Store.{Link}
use light_pn.Store.Links.{other}
use light_pn.Metrics.{ingest}
use light_pn.Hub.State.{Session, LinkRt, Hub, World, session_at}
use light_pn.Hub.Session.{
  beat_link, rt_or_new, beat_links, beat_peers, links_or_none, beat_session, handle_heartbeat,
}

-- the acknowledgements are the same, and the last handshake is not earlier
pub record Follows {F : Type 0} (rt rt' : LinkRt F) : Type 0 where
  pub ack_a : rt'.ack_a ≡ rt.ack_a
  pub ack_b : rt'.ack_b ≡ rt.ack_b
  pub last_hs : rt.last_hs ≤ℤ rt'.last_hs

-- the record of a link is kept, or followed by another
abbrev pub Keeps : {F : Type 0} → String → LinkRt F → Map (LinkRt F) → Type 0
Keeps id rt m = (rt' : LinkRt _) × (lookup id m ≡ some rt') × Follows rt rt'

abbrev links_or_none_of : {F : Type 0} → Option (Hub F) → Map (LinkRt F)
links_or_none_of none = []
links_or_none_of (some h) = h.links

max_hs : (a b : ℤ) → a ≤ℤ (if ltb_ℤ a b then b else a)
max_hs (pos m) (pos n) = ground arith
max_hs (pos m) (negsuc n) = ground arith
max_hs (negsuc m) (pos n) = ground arith
max_hs (negsuc m) (negsuc n) = ground arith

module _ {F : Type 0} (w : World F) where
  Follows-refl : (rt : LinkRt F) → Follows rt rt
  Follows-refl rt = record { ack_a = refl; ack_b = refl; last_hs = omega arith }

  Follows-beat_link :
      (p : WgPeerStatus) (now : ℕ) (rt₀ rt : LinkRt F)
      → Follows rt₀ rt
      → Follows rt₀ (beat_link w p now rt)
  unfolding beat_link
  Follows-beat_link p now rt₀ rt f = record {
    ack_a = f.ack_a;
    ack_b = f.ack_b;
    last_hs = omega (arith, f.last_hs, max_hs rt.last_hs p.last_handshake_ts);
  }

  Keeps-insert :
      (id : String) (p : WgPeerStatus) (now : ℕ) (l : Link) (rt₀ : LinkRt F) (m : Map (LinkRt F))
      → Keeps id rt₀ m
      → Keeps id rt₀ (insert l.id (beat_link w p now (rt_or_new w (lookup l.id m))) m)
  Keeps-insert id p now l rt₀ m (rt, found, f) = elim (Bool-cases (l.id is id)) [
    | inl same ↦
        let at : lookup l.id m ≡ some rt = ap (λ k. lookup k m) ((is_iff l.id id).0 same) ∙ found in
        (
          beat_link w p now rt,
          lookup-insert id l.id (beat_link w p now (rt_or_new w (lookup l.id m))) m
              ∙ rw (same, at) refl,
          Follows-beat_link p now rt₀ rt f,
        )
    | inr other ↦ (
      rt,
      lookup-insert id l.id (beat_link w p now (rt_or_new w (lookup l.id m))) m ∙ rw other found,
      f,
    )
  ]

  Keeps-beat_links :
      (id me : String) (p : WgPeerStatus) (now : ℕ) (ls : List Link) (rt₀ : LinkRt F)
      (m : Map (LinkRt F))
      → Keeps id rt₀ m
      → Keeps id rt₀ (beat_links w me p now ls m)
  unfolding beat_links
  Keeps-beat_links id me p now [] rt₀ m k = k
  Keeps-beat_links id me p now (l ∷ ls) rt₀ m k = elim (Bool-cases (other l me is p.peer_node_id)) [
    | inl e ↦
        rw (e, beat_links) (Keeps-beat_links id me p now ls rt₀ _ (Keeps-insert id p now l rt₀ m k))
    | inr e ↦ rw (e, beat_links) (Keeps-beat_links id me p now ls rt₀ m k)
  ]

  Keeps-beat_peers :
      (id me : String) (ps : List WgPeerStatus) (now : ℕ) (ls : List Link) (rt₀ : LinkRt F)
      (m : Map (LinkRt F))
      → Keeps id rt₀ m
      → Keeps id rt₀ (beat_peers w me ps now ls m)
  unfolding beat_peers
  Keeps-beat_peers id me [] now ls rt₀ m k = k
  Keeps-beat_peers id me (p ∷ ps) now ls rt₀ m k =
      Keeps-beat_peers id me ps now ls rt₀ (beat_links w me p now ls m)
        (Keeps-beat_links id me p now ls rt₀ m k)

  Keeps-beaten :
      (id me : String) (ps : List WgPeerStatus) (now : ℕ) (h : Hub F) (rt : LinkRt F)
      → lookup id h.links ≡ some rt
      → Keeps id rt (beat_peers w me ps now (links_or_none me h.store) h.links)
  Keeps-beaten id me ps now h rt found =
      Keeps-beat_peers id me ps now (links_or_none me h.store) rt h.links
        (rt, found, Follows-refl rt)

  beat_session-links :
      (r : ℕ) (s : Session) (now : ℕ) (d : HeartbeatData F) (h h' : Hub F)
      → beat_session w r s now (some d) h ≡ some h'
      → h'.links ≡ beat_peers w s.node.id d.wg now (links_or_none s.node.id h.store) h.links
  beat_session-links r s now d h h' e =
      elim (Option-cases (ingest w.floats s.node.id d.ts d.sys h.metrics)) [
        | inl n ↦ cc (rw (n, beat_session) at e)
        | inr (m, n) ↦ sym (ap links_or_none_of (rw (n, beat_session) at e))
      ]

-- A heartbeat that does not panic keeps the runtime record of every link: the acknowledgements are
-- as before, and the last handshake is not earlier than before.
pub handle_heartbeat-Keeps :
    {F : Type 0} (w : World F) (r : ℕ) (env : Envelope) (now : ℕ) (h h' : Hub F) (id : String)
    (rt : LinkRt F)
    → handle_heartbeat w r env now h ≡ some h'
    → lookup id h.links ≡ some rt
    → Keeps id rt h'.links
unfolding handle_heartbeat
handle_heartbeat-Keeps w r env now h h' id rt e found = elim (Option-cases (session_at h r)) [
  | inl n ↦ same (rw (n, handle_heartbeat) at e)
  | inr (s, n) ↦ elim (Option-cases (w.heartbeats.unmarshal env.payload)) [
    | inl u ↦ same (rw u at (rw (n, handle_heartbeat) at e))
    | inr (d, u) ↦
        rw (beat_session-links w r s now d h h' (rw u at (rw (n, handle_heartbeat) at e)))
          (Keeps-beaten w id s.node.id d.wg now h rt found)
  ]
]
  where
    same : some h ≡ some h' → Keeps id rt h'.links
    same e =
        let h_is : h ≡ h' = cc e in
        subst (λ (k : Hub _). Keeps id rt k.links) h_is (rt, found, Follows-refl w rt)
