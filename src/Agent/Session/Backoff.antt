-- ===== src/Agent/Session/Backoff.antt =====
-- When the agent stops, and how long it waits before it reconnects: Run and dispatch of
-- internal/agent/agent.go.
use light_pn.Prelude.{
  ℕ, ◌*◌, ◌≤◌, String, ◌≡◌, ◌≢◌, refl, Bool, true, false, List, [], ◌∷◌, Option, none, some, Result,
  ok, err, if◌then◌else◌, ◌is◌, is_iff, Bool-cases, Option-cases, inl, inr, ◌↔◌,
}
use light_pn.Proto.{Bytes, Envelope, PeerSpec}
use light_pn.Proto.Kind
use light_pn.Agent.Session.{
  Env, Agent, End, kicked, failed, write_new, ack, key_rotated, on_peer, on_peer_remove,
  on_rotate_wg, on_rotate_cert, on_conf_get, on_svc_action, on_kick, dispatch,
}

module _ {W S I : Type 0} (v : Env W S I) where
  -- a step that does not end the session by a kick
  abbrev Stays : Option End × Agent W S I → Type 0
  Stays p = p.0 ≢ some kicked

  write_new-Stays : (o : Option Envelope) (a : Agent W S I) → Stays (write_new v o a)
  write_new-Stays none a = λ h. cc h
  write_new-Stays (some env) a = elim (Option-cases (v.send env)) [
    | inl e ↦ rw (e, write_new) (λ h. cc h)
    | inr (x, e) ↦ rw (e, write_new) (λ h. cc h)
  ]

  ack-Stays : (id : String) (e : Option String) (a : Agent W S I) → Stays (ack v id e a)
  unfolding ack
  ack-Stays id e a = write_new-Stays _ a

  on_peer-Stays :
      (apply : PeerSpec → W → Option String × W) (env : Envelope) (a : Agent W S I)
      → Stays (on_peer v apply env a)
  unfolding on_peer
  on_peer-Stays apply env a = elim (Option-cases (v.peer_spec.unmarshal env.payload)) [
    | inl e ↦ rw (e, on_peer) (ack-Stays env.id (some v.bad_json) a)
    | inr (spec, e) ↦ rw (e, on_peer) (ack-Stays env.id (apply spec a.wg).0 _)
  ]

  on_peer_remove-Stays : (env : Envelope) (a : Agent W S I) → Stays (on_peer_remove v env a)
  unfolding on_peer_remove
  on_peer_remove-Stays env a = elim (Option-cases (v.peer_remove.unmarshal env.payload)) [
    | inl e ↦ rw (e, on_peer_remove) (ack-Stays env.id (some v.bad_json) a)
    | inr (d, e) ↦ rw (e, on_peer_remove) (ack-Stays env.id (v.wg.remove_peer d.wg_pubkey a.wg).0 _)
  ]

  key_rotated-Stays : (p : Result String String × W) (a : Agent W S I) → Stays (key_rotated v p a)
  key_rotated-Stays (err e, wg) a = λ h. cc h
  key_rotated-Stays (ok key, wg) a = λ h. cc h

  on_rotate_cert-Stays : (env : Envelope) (a : Agent W S I) → Stays (on_rotate_cert v env a)
  unfolding on_rotate_cert
  on_rotate_cert-Stays env a = elim (Option-cases (v.rotate_cert.unmarshal env.payload)) [
    | inl e ↦ rw (e, on_rotate_cert) (ack-Stays env.id (some v.bad_json) a)
    | inr (d, e) ↦
        rw (e, on_rotate_cert) (ack-Stays env.id (v.update_cert d.cert_pem a.identity).0 _)
  ]

  on_svc_action-Stays :
      (now : ℕ) (env : Envelope) (a : Agent W S I) → Stays (on_svc_action v now env a)
  unfolding on_svc_action
  on_svc_action-Stays now env a = elim (Option-cases (v.svc_action.unmarshal env.payload)) [
    | inl e ↦ rw (e, on_svc_action) (ack-Stays env.id (some v.bad_json) a)
    | inr (d, e) ↦ rw (e, on_svc_action) (write_new-Stays _ _)
  ]

  dispatch-Stays :
      (random : Option Bytes) (now : ℕ) (env : Envelope) (a : Agent W S I)
      → (env.kind is Kind.kick) ≡ false
      → Stays (dispatch v random now env a)
  unfolding dispatch on_rotate_wg on_conf_get
  dispatch-Stays random now env a n =
      go (env.kind is Kind.peer_add) _ _ (on_peer-Stays v.wg.add_peer env a) (
        go (env.kind is Kind.peer_update) _ _ (on_peer-Stays v.wg.update_peer env a) (
          go (env.kind is Kind.peer_remove) _ _ (on_peer_remove-Stays env a) (
            go (env.kind is Kind.rotate_wg) _ _ (key_rotated-Stays _ _) (
              go (env.kind is Kind.rotate_cert) _ _ (on_rotate_cert-Stays env a) (
                go (env.kind is Kind.conf_get) _ _ (write_new-Stays _ a) (
                  go (env.kind is Kind.svc_action) _ _ (on_svc_action-Stays now env a)
                    (rw n (λ h. cc h))))))))
    where
      go :
          (b : Bool) (x y : Option End × Agent W S I)
          → Stays x
          → Stays y
          → Stays (if b then x else y)
      go true x y p q = p
      go false x y p q = q

-- The session ends with ErrKicked exactly on a message of type kick, whatever the state and the
-- libraries do.
pub dispatch-kicked :
    {W S I : Type 0} (v : Env W S I) (random : Option Bytes) (now : ℕ) (env : Envelope)
    (a : Agent W S I)
    → ((dispatch v random now env a).0 ≡ some kicked) ↔ (env.kind ≡ Kind.kick)
unfolding dispatch on_kick
dispatch-kicked v random now env a = (
  λ h. elim (Bool-cases (env.kind is Kind.kick)) [
    | inl e ↦ (is_iff env.kind Kind.kick).0 e
    | inr e ↦ absurd (dispatch-Stays v random now env a e h)
  ],
  λ h. rw (dispatch, h) refl,
)

module _ {R : Type 0} where
  abbrev pub is_kicked : Option End × ℕ × R → Bool
  is_kicked (some kicked, d, r) = true
  is_kicked (_, d, r) = false

  -- the sessions before the first kick
  abbrev pub before_kick : List (Option End × ℕ × R) → List (Option End × ℕ × R)
  before_kick [] = []
  before_kick ((some kicked, d, r) ∷ ss) = []
  before_kick ((some (failed e), d, r) ∷ ss) = (some (failed e), d, r) ∷ before_kick ss
  before_kick ((none, d, r) ∷ ss) = (none, d, r) ∷ before_kick ss

  -- the product with a jitter between 0.8 and 1.2 that stays in these bounds, for whole seconds up to
  -- a minute
  abbrev pub IsJitter : (ℕ → R → ℕ) → Type 0
  IsJitter jittered =
      (seconds : ℕ) (r : R)
      → seconds ≤ 60
      → (800_000_000 * seconds ≤ jittered (1_000_000_000 * seconds) r)
        × (jittered (1_000_000_000 * seconds) r ≤ 1_200_000_000 * seconds)

-- between 0.8 and 72 seconds
abbrev pub InBounds : ℕ → Type 0
InBounds w = (800_000_000 ≤ w) × (w ≤ 72_000_000_000)

-- a whole number of seconds, at least one and at most sixty
abbrev IsBase : ℕ → Type 0
IsBase b = (k : ℕ) × (1 ≤ k) × (k ≤ 60) × (b ≡ 1_000_000_000 * k)
