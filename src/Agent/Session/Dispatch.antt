-- ===== src/Agent/Session/Dispatch.antt =====
-- What a message makes the agent write: dispatch of internal/agent/agent.go.
use light_pn.Prelude.{
  ℕ, String, ◌≡◌, ◌≢◌, ◌⊎◌, refl, sym, ap, ◌∙◌, subst, Bool, true, false, List, [], ◌∷◌, ◌++◌,
  Option, none, some, arith, if◌then◌else◌, ◌is◌, is_iff, Option-cases, inl, inr,
}
use light_pn.Proto.{Bytes, Envelope, Json, PeerSpec, ConfResultData, new_envelope, version}
use light_pn.Proto.Kind
use light_pn.Agent.Sealed.Closed.{Hides, seal_tool_conf-Hides}
use light_pn.Agent.Session.{
  Env, Agent, End, ack_of, write_new, ack, collected, services_of, on_peer, on_peer_remove,
  on_rotate_wg, on_rotate_cert, conf_answer, on_conf_get, on_svc_action, on_kick, dispatch,
}

-- the envelope that NewEnvelope makes has the kind and the id that it was given
new_envelope-ok :
    {A : Type 0} (j : Json A) (kind id : String) (a : A) (e : Envelope)
    → new_envelope j kind id a ≡ some e
    → (e.kind ≡ kind) × (e.id ≡ id) × (j.marshal a ≡ some e.payload)
unfolding new_envelope
new_envelope-ok j kind id a e h = elim (Option-cases (j.marshal a)) [
  | inl n ↦ cc (rw (n, new_envelope) at h)
  | inr (raw, n) ↦
      let made : record { v = version; kind = kind; id = id; payload = raw } ≡ e =
        cc (rw (n, new_envelope) at h) in
      (
        ap (λ (x : Envelope). x.kind) (sym made),
        ap (λ (x : Envelope). x.id) (sym made),
        n ∙ ap (λ (x : Envelope). some x.payload) made,
      )
]

module _ {W S I : Type 0} (v : Env W S I) where
  -- contents of configuration files only inside the sealed part
  abbrev pub IsClosed : Envelope → Type 0
  IsClosed e =
      (e.kind ≢ Kind.conf_result)
      ⊎ ((r : ConfResultData) × Hides r × (v.conf_result.marshal r ≡ some e.payload))

  -- At most one frame more, a closed answer to the message `id`.
  abbrev pub Answers : String → List Envelope → List Envelope → Type 0
  Answers id old new =
      (new ≡ old) ⊎ ((e : Envelope) × (new ≡ old ++ e ∷ []) × (e.id ≡ id) × IsClosed e)

  write_new-Answers :
      {A : Type 0} (j : Json A) (kind id : String) (d : A) (a : Agent W S I)
      → ((e : Envelope) → e.kind ≡ kind → j.marshal d ≡ some e.payload → IsClosed e)
      → Answers id a.out (write_new v (new_envelope j kind id d) a).1.out
  write_new-Answers j kind id d a closed = made (new_envelope j kind id d) refl
    where
      made :
          (o : Option Envelope)
          → new_envelope j kind id d ≡ o
          → Answers id a.out (write_new v o a).1.out
      made none e = inl refl
      made (some env) e = elim (Option-cases (v.send env)) [
        | inr (x, s) ↦ inl (rw (s, write_new) refl)
        | inl s ↦
            let (is_kind, is_id, payload) = new_envelope-ok j kind id d env e in
            inr (env, rw (s, write_new) refl, is_id, closed env is_kind payload)
      ]

  not_conf : (kind : String) (e : Envelope) → kind ≢ Kind.conf_result → e.kind ≡ kind → IsClosed e
  not_conf kind e n k = inl (λ h. n (sym k ∙ h))

  ack-Answers :
      (id : String) (op_err : Option String) (a : Agent W S I)
      → Answers id a.out (ack v id op_err a).1.out
  unfolding ack
  ack-Answers id op_err a =
      write_new-Answers v.acks Kind.ack id (ack_of op_err) a
        (λ e k _. not_conf Kind.ack e (λ h. cc ((is_iff Kind.ack Kind.conf_result).1 h)) k)

  on_peer-Answers :
      (apply : PeerSpec → W → Option String × W) (env : Envelope) (a : Agent W S I)
      → Answers env.id a.out (on_peer v apply env a).1.out
  unfolding on_peer
  on_peer-Answers apply env a = elim (Option-cases (v.peer_spec.unmarshal env.payload)) [
    | inl e ↦ rw (e, on_peer) (ack-Answers env.id (some v.bad_json) a)
    | inr (spec, e) ↦ rw (e, on_peer) (ack-Answers env.id (apply spec a.wg).0 _)
  ]

  on_peer_remove-Answers :
      (env : Envelope) (a : Agent W S I) → Answers env.id a.out (on_peer_remove v env a).1.out
  unfolding on_peer_remove
  on_peer_remove-Answers env a = elim (Option-cases (v.peer_remove.unmarshal env.payload)) [
    | inl e ↦ rw (e, on_peer_remove) (ack-Answers env.id (some v.bad_json) a)
    | inr (d, e) ↦
        rw (e, on_peer_remove) (ack-Answers env.id (v.wg.remove_peer d.wg_pubkey a.wg).0 _)
  ]

  on_rotate_wg-out :
      (env : Envelope) (a : Agent W S I)
      → (on_rotate_wg v env a).1.out ≡ (ack v env.id none a).1.out
  unfolding on_rotate_wg
  on_rotate_wg-out env a = ground arith

  on_rotate_cert-Answers :
      (env : Envelope) (a : Agent W S I) → Answers env.id a.out (on_rotate_cert v env a).1.out
  unfolding on_rotate_cert
  on_rotate_cert-Answers env a = elim (Option-cases (v.rotate_cert.unmarshal env.payload)) [
    | inl e ↦ rw (e, on_rotate_cert) (ack-Answers env.id (some v.bad_json) a)
    | inr (d, e) ↦
        rw (e, on_rotate_cert) (ack-Answers env.id (v.update_cert d.cert_pem a.identity).0 _)
  ]

  conf_answer-Hides : (random : Option Bytes) (a : Agent W S I) → Hides (conf_answer v random a)
  unfolding conf_answer
  conf_answer-Hides random a =
      (seal_tool_conf-Hides v.crypto v.sealing v.view_key_path v.show_failure
        (v.view_key a.identity) (collected v a) (services_of v a) random).0

  on_conf_get-Answers :
      (random : Option Bytes) (env : Envelope) (a : Agent W S I)
      → Answers env.id a.out (on_conf_get v random env a).1.out
  unfolding on_conf_get
  on_conf_get-Answers random env a =
      write_new-Answers v.conf_result Kind.conf_result env.id (conf_answer v random a) a
        (λ e _ m. inr (conf_answer v random a, conf_answer-Hides random a, m))

  on_svc_action-Answers :
      (now : ℕ) (env : Envelope) (a : Agent W S I)
      → Answers env.id a.out (on_svc_action v now env a).1.out
  unfolding on_svc_action
  on_svc_action-Answers now env a = elim (Option-cases (v.svc_action.unmarshal env.payload)) [
    | inl e ↦ rw (e, on_svc_action) (ack-Answers env.id (some v.bad_json) a)
    | inr (d, e) ↦
        rw (e, on_svc_action)
          (write_new-Answers v.svc_result Kind.svc_result env.id _ _ (λ f k _.
            not_conf Kind.svc_result f (λ h. cc ((is_iff Kind.svc_result Kind.conf_result).1 h)) k))
  ]

-- Whatever message comes, dispatch writes at most one frame, and that has the id of the message; and if
-- it is a conf_result, its payload is a result without contents or truncation flags in its
-- files, whatever files and keys the node has.
pub dispatch-Answers :
    {W S I : Type 0} (v : Env W S I) (random : Option Bytes) (now : ℕ) (env : Envelope)
    (a : Agent W S I)
    → Answers v env.id a.out (dispatch v random now env a).1.out
unfolding dispatch
dispatch-Answers {W} {S} {I} v random now env a =
    go (env.kind is Kind.peer_add) _ _ (on_peer-Answers v v.wg.add_peer env a) (
      go (env.kind is Kind.peer_update) _ _ (on_peer-Answers v v.wg.update_peer env a) (
        go (env.kind is Kind.peer_remove) _ _ (on_peer_remove-Answers v env a) (
          go (env.kind is Kind.rotate_wg) _ _
            (subst (Answers v env.id a.out) (sym (on_rotate_wg-out v env a))
              (ack-Answers v env.id none a))
            (go (env.kind is Kind.rotate_cert) _ _ (on_rotate_cert-Answers v env a) (
              go (env.kind is Kind.conf_get) _ _ (on_conf_get-Answers v random env a) (
                go (env.kind is Kind.svc_action) _ _ (on_svc_action-Answers v now env a)
                  (go (env.kind is Kind.kick) (on_kick v a) (none, a) (inl refl) (inl refl))))))))
  where
    Good : Option End × Agent W S I → Type 0
    Good p = Answers v env.id a.out p.1.out

    go : (b : Bool) (x y : Option End × Agent W S I) → Good x → Good y → Good (if b then x else y)
    go true x y p q = p
    go false x y p q = q
