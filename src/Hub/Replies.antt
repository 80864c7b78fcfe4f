-- ===== src/Hub/Replies.antt =====
-- Requests that wait for an agent's reply, and the acknowledgements of pushes: requestReply,
-- handleConfResult and handleAck of internal/hub.
use light_pn.Prelude.{
  ℕ, zero, suc, String, ◌+◌, ◌≡◌, ◌≢◌, refl, sym, ap, ◌∙◌, Bool, true, false, List, [], ◌∷◌, Option,
  none, some, ok, arith, ◌is◌, is_iff, Option-cases, inl, inr, set, get_elem?,
}
use light_pn.Prelude.Map.{lookup, insert, delete, lookup-insert_self, lookup-delete_self}
use light_pn.Proto.{Envelope, Json, AckData, new_envelope}
use light_pn.Hub.State.{AckRef, Session, Hub, World, session_of, session_at, set_session}
use light_pn.Hub.Removal.{send_to}
use light_pn.Hub.Requests.{ask, finish_request}
use light_pn.Hub.Session.{ack_link}
use light_pn.Hub.Control.{deliver, handle_conf_result, ack_ref, publish_link, take_ack, handle_ack}

module _ {F : Type 0} where
  send_to-conf_wait :
      (r : ℕ) (env : Envelope) (h : Hub F) → (send_to r env h).conf_wait ≡ h.conf_wait
  unfolding send_to
  send_to-conf_wait r env h = ground arith

  -- the node that a request waits for
  ask-waits :
      (w : World F) {A : Type 0} (j : Json A) (id kind req : String) (a : A) (h h' : Hub F)
      → ask w j id kind a h ≡ (ok req, h')
      → lookup req h'.conf_wait ≡ some id
  unfolding ask
  ask-waits w j id kind req a h h' e = elim (Option-cases (session_of h id)) [
    | inl n ↦ cc (rw (n, ask) at e)
    | inr (r, n) ↦ elim (Option-cases (new_envelope j kind (w.ulid h.next_id) a)) [
      | inl m ↦ cc (rw m at (rw (n, ask) at e))
      | inr (env, m) ↦
          let e' = rw m at (rw (n, ask) at e) in
          let sent_h : send_to r env (record h {
            conf_wait = insert (w.ulid h.next_id) id h.conf_wait;
            next_id = h.next_id + 1;
          })
              ≡ h' =
            cc e' in
          let same : h'.conf_wait ≡ insert (w.ulid h.next_id) id h.conf_wait =
            ap (λ (k : Hub F). k.conf_wait) (sym sent_h) ∙ send_to-conf_wait r env _ in
          let named : req ≡ w.ulid h.next_id = cc e' in
          rw (same, named) (lookup-insert_self (w.ulid h.next_id) id h.conf_wait)
    ]
  ]

  handle_conf_result-same :
      (r : ℕ) (env : Envelope) (s : Session) (id : String) (h : Hub F)
      → session_at h r ≡ some s
      → lookup env.id h.conf_wait ≡ some id
      → id is s.node.id ≡ true
      → handle_conf_result r env h ≡ record h {
        conf_wait = delete env.id h.conf_wait;
        replies = insert env.id env.payload h.replies;
      }
  unfolding handle_conf_result
  handle_conf_result-same r env s id h e wait same =
      rw (e, handle_conf_result) (rw (wait, deliver) (rw same refl))

  handle_conf_result-other :
      (r : ℕ) (env : Envelope) (s : Session) (id : String) (h : Hub F)
      → session_at h r ≡ some s
      → lookup env.id h.conf_wait ≡ some id
      → id is s.node.id ≡ false
      → handle_conf_result r env h ≡ h
  unfolding handle_conf_result
  handle_conf_result-other r env s id h e wait other =
      rw (e, handle_conf_result) (rw (wait, deliver) (rw other refl))

-- While a request waits, a reply under its id from the node that was asked is what the request
-- then returns, and a reply under its id from any other node changes nothing.
pub handle_conf_result-pinned :
    {F A : Type 0} (w : World F) (j : Json A) (id kind req : String) (a : A) (h h' : Hub F)
    → ask w j id kind a h ≡ (ok req, h')
    → (r : ℕ) (env : Envelope) (s : Session) → session_at h' r ≡ some s
    → env.id ≡ req
    → (s.node.id ≡ id → (finish_request req (handle_conf_result r env h')).0 ≡ some env.payload)
      × (s.node.id ≢ id → handle_conf_result r env h' ≡ h')
unfolding finish_request
handle_conf_result-pinned w j id kind req a h h' asked r env s e named =
    let wait : lookup env.id h'.conf_wait ≡ some id =
      rw named (ask-waits w j id kind req a h h' asked) in
    (
      λ same.
          rw
            (handle_conf_result-same r env s id h' e wait
              (ground (arith, is_iff id s.node.id, same)))
            (rw named (lookup-insert_self req env.payload h'.replies)),
      λ differs.
          handle_conf_result-other r env s id h' e wait
            (ground (arith, is_iff id s.node.id, differs)),
    )

pub get_elem?-set :
    (xs : List Session) (i : ℕ) (x y : Session)
    → get_elem? xs i ≡ some x
    → get_elem? (set xs i y) i ≡ some y
get_elem?-set [] i x y e = cc
get_elem?-set (x' ∷ xs) zero x y e = refl
get_elem?-set (x' ∷ xs) (suc i) x y e = get_elem?-set xs i x y e

module _ {F : Type 0} where
  ack_ref-heap :
      (ref : Option AckRef) (okay : Bool) (now : ℕ) (h : Hub F)
      → (ack_ref ref okay now h).heap ≡ h.heap
  unfolding publish_link ack_link
  ack_ref-heap none okay now h = refl
  ack_ref-heap (some ref) okay now h = ground arith

  take_ack_again :
      (r : ℕ) (s s' : Session) (id : String) (d : AckData) (later : ℕ) (h : Hub F)
      → lookup id s'.pending_acks ≡ none
      → ((take_ack r s' id d later h).links ≡ h.links)
        × ((take_ack r s' id d later h).events ≡ h.events)
  unfolding take_ack
  take_ack_again r s s' id d later h e = rw (e, ack_ref) (refl, refl)

-- An acknowledgement counts once: handled a second time, it changes no link's flags and
-- publishes nothing.
pub handle_ack_twice :
    {F : Type 0} (w : World F) (r : ℕ) (env : Envelope) (now later : ℕ) (h : Hub F)
    → ((handle_ack w r env later (handle_ack w r env now h)).links
        ≡ (handle_ack w r env now h).links)
      × ((handle_ack w r env later (handle_ack w r env now h)).events
          ≡ (handle_ack w r env now h).events)
unfolding handle_ack take_ack
handle_ack_twice {F} w r env now later h = elim (Option-cases (session_at h r)) [
  | inl e ↦ rw (idle now e, idle later e) (refl, refl)
  | inr (s, e) ↦ elim (Option-cases (w.acks.unmarshal env.payload)) [
    | inl u ↦ rw (ignored s now e u, ignored s later e u) (refl, refl)
    | inr (d, u) ↦
        let s' = record s { pending_acks = delete env.id s.pending_acks } in
        let h' = take_ack r s env.id d now h in
        let e' : session_at h' r ≡ some s' =
          rw (ack_ref-heap (lookup env.id s.pending_acks) d.okay now (set_session r s' h))
            (get_elem?-set h.heap r s s' e) in
        rw (taken s d now h e u, taken s' d later h' e' u)
          (take_ack_again r s s' env.id d later h' (lookup-delete_self env.id s.pending_acks))
  ]
]
  where
    idle : (t : ℕ) → session_at h r ≡ none → handle_ack w r env t h ≡ h
    idle t e = rw (e, handle_ack) refl

    ignored :
        (s : Session) (t : ℕ)
        → session_at h r ≡ some s
        → w.acks.unmarshal env.payload ≡ none
        → handle_ack w r env t h ≡ h
    ignored s t e u = rw (e, handle_ack) (rw u refl)

    taken :
        (s : Session) (d : AckData) (t : ℕ) (k : Hub F)
        → session_at k r ≡ some s
        → w.acks.unmarshal env.payload ≡ some d
        → handle_ack w r env t k ≡ take_ack r s env.id d t k
    taken s d t k e u = rw (e, handle_ack) (rw u refl)
