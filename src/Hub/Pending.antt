-- ===== src/Hub/Pending.antt =====
-- Pushing a link, internal/hub/hub.go: it does not panic, and the link then waits for both acks.
use light_pn.Prelude.{
  ℕ, ◌+◌, String, ◌≡◌, ◌≢◌, refl, ap, ◌∙◌, Bool, true, false, pos, ltb_ℤ, ◌-ℤ◌, Bool-cases, Option,
  none, some, Result, ok, err, arith, inl, inr, Option-cases,
}
use light_pn.Prelude.Map.{lookup, insert, lookup-insert_self}
use light_pn.Proto.Kind
use light_pn.Store.{Link, Store, StoreError}
use light_pn.Store.Links as Links
use light_pn.Hub.Session.{mark_ack, ack_link}
use light_pn.Hub.Registered.{send_peer_spec-registered, ready-registered}
use light_pn.Hub.State.{Side, side_a, side_b, WgIdent, LinkRt, pending, Hub, World, new_link_rt}
use light_pn.Hub.Push.{
  send_peer_spec, ready, registered_ref, both, push_ready, push_pair, ensure_link, push_link,
}
use light_pn.Hub.Status.{link_status, rt_status}
use light_pn.Hub.Admin.{pushed, created, exit_set, create_link, set_link_exit}

-- no record, or one with neither ack
abbrev IsUnacked : {F : Type 0} → Option (LinkRt F) → Type 0
IsUnacked none = Unit
IsUnacked (some rt) = (rt.ack_a ≡ false) × (rt.ack_b ≡ false)

module _ {F : Type 0} where
  pushed-some :
      (l : Link) (now : ℕ) (p : Option (Hub F)) (h' : Hub F) → p ≡ some h' → pushed l now p ≢ none
  pushed-some l now none h' e = λ _. cc e
  pushed-some l now (some h) h' e = λ n. cc n

  pending_of_unacked :
      (now : ℕ) (on : Bool) (rt : Option (LinkRt F)) → IsUnacked rt → rt_status now on rt ≡ pending
  pending_of_unacked now on none u = refl
  pending_of_unacked now on (some rt) u = ground (arith, u.0, u.1)

module _ {F : Type 0} (w : World F) where
  send_peer_spec-links :
      (r : ℕ) (l : Link) (kind peer : String) (i : WgIdent) (h : Hub F)
      → (send_peer_spec w r l kind peer i h).links ≡ h.links
  unfolding send_peer_spec
  send_peer_spec-links r l kind peer i h = ground arith

  ensured :
      (l : Link) (h : Hub F) → (rt : LinkRt F) × (lookup l.id (ensure_link w l h).links ≡ some rt)
  unfolding ensure_link
  ensured l h = elim (Option-cases (lookup l.id h.links)) [
    | inl e ↦ (new_link_rt w, rw (e, ensure_link) (lookup-insert_self l.id (new_link_rt w) h.links))
    | inr (rt, e) ↦ (rt, rw (e, ensure_link) e)
  ]

  push_ready-some :
      (l : Link) (kind : String) (p : Option ((ℕ × WgIdent) × (ℕ × WgIdent))) (h : Hub F)
      (rt : LinkRt F)
      → lookup l.id h.links ≡ some rt
      → (h' : Hub F) × (push_ready w l kind p h ≡ some h')
  push_ready-some l kind none h rt e = (h, refl)
  push_ready-some l kind (some ((ra, wa), (rb, wb))) h rt e =
      let reset = record h {
        links = insert l.id (record rt { ack_a = false; ack_b = false }) h.links;
      } in
      (
        send_peer_spec w rb l kind l.a wa (send_peer_spec w ra l kind l.b wb reset),
        rw (e, push_ready) refl,
      )

  pub push_pair-some :
      (l : Link) (kind : String) (h : Hub F)
      → (h' : Hub F) × (push_pair w l kind (ensure_link w l h) ≡ some h')
  unfolding push_pair
  push_pair-some l kind h =
      let (rt, e) = ensured l h in
      push_ready-some l kind (both (ready (ensure_link w l h) l.a) (ready (ensure_link w l h) l.b))
        (ensure_link w l h) rt e

  created-some :
      (now : ℕ) (h : Hub F) (p : Result StoreError Link × Store) → created w now h p ≢ none
  unfolding push_link
  created-some now h (err e, st) = λ n. cc n
  created-some now h (ok l, st) =
      let (h', e) = push_pair-some l Kind.peer_add (record h { store = st }) in
      pushed-some l now _ h' e

  exit_set-some :
      (now : ℕ) (h : Hub F) (p : Result StoreError Link × Store) → exit_set w now h p ≢ none
  exit_set-some now h (err e, st) = λ n. cc n
  exit_set-some now h (ok l, st) =
      let (h', e) = push_pair-some l Kind.peer_update (record h { store = st }) in
      pushed-some l now _ h' e

-- CreateLink and SetLinkExit never dereference a missing runtime record: they do not panic,
-- whatever their arguments and the state of the hub.
pub link_operations-total :
    {F : Type 0} (w : World F) (h : Hub F) (now : ℕ)
    → ((a b : String) → create_link w a b now h ≢ none)
      × ((id exit : String) → set_link_exit w id exit now h ≢ none)
unfolding create_link set_link_exit
link_operations-total w h now = (
  λ a b.
      created-some w now (record h { next_id = h.next_id + 1 })
        (Links.create_link (w.ulid h.next_id) a b now h.store),
  λ id exit. exit_set-some w now h (Links.set_link_exit id exit h.store),
)

module _ {F : Type 0} (w : World F) where
  -- what is left of a link by a push to two sessions
  record Pushed (l : Link) (h h' : Hub F) : Type 0 where
    rt : LinkRt F
    found : lookup l.id h'.links ≡ some rt
    unacked : (rt.ack_a ≡ false) × (rt.ack_b ≡ false)
    online : (id : String) → registered_ref h' id ≡ registered_ref h id

  push_ready-Pushed :
      (l : Link) (kind : String) (p : (ℕ × WgIdent) × (ℕ × WgIdent)) (h h' : Hub F)
      → push_ready w l kind (some p) h ≡ some h'
      → Pushed l h h'
  unfolding registered_ref
  push_ready-Pushed l kind ((ra, wa), (rb, wb)) h h' e = elim (Option-cases (lookup l.id h.links)) [
    | inl n ↦ cc (rw (n, push_ready) at e)
    | inr (rt, n) ↦
        let fresh : LinkRt F = record rt { ack_a = false; ack_b = false } in
        let reset = record h { links = insert l.id fresh h.links } in
        let one = send_peer_spec w ra l kind l.b wb reset in
        let pushed_h : h' ≡ send_peer_spec w rb l kind l.a wa one = cc (rw (n, push_ready) at e) in
        let same : h'.links ≡ reset.links =
          ap (λ (k : Hub F). k.links) pushed_h
          ∙ send_peer_spec-links w rb l kind l.a wa one
          ∙ send_peer_spec-links w ra l kind l.b wb reset in
        record {
          rt = fresh;
          found = rw (same, lookup-insert_self l.id fresh h.links) refl;
          unacked = (refl, refl);
          online = λ id.
              ap (λ k. registered_ref k id) pushed_h
              ∙ send_peer_spec-registered w rb l kind l.a wa one id
              ∙ send_peer_spec-registered w ra l kind l.b wb reset id;
        }
  ]

module _ {F : Type 0} where
  ack_link-lookup :
      (id : String) (side : Side) (h : Hub F) (rt : LinkRt F)
      → lookup id h.links ≡ some rt
      → lookup id (ack_link id side h).links ≡ some (mark_ack side rt)
  unfolding ack_link
  ack_link-lookup id side h rt e =
      rw (e, ack_link) (lookup-insert_self id (mark_ack side rt) h.links)

  ack_link-registered :
      (id : String) (side : Side) (h : Hub F) (node : String)
      → registered_ref (ack_link id side h) node ≡ registered_ref h node
  unfolding ack_link registered_ref
  ack_link-registered id side h node = elim (Option-cases (lookup id h.links)) [
    | inl e ↦ rw (e, ack_link) refl
    | inr (rt, e) ↦ rw (e, ack_link) refl
  ]

  -- one ack is not enough, and with both the status is another one
  half_acked :
      (side : Side) (now : ℕ) (on : Bool) (rt : LinkRt F)
      → (rt.ack_a ≡ false) × (rt.ack_b ≡ false)
      → rt_status now on (some (mark_ack side rt)) ≡ pending
  unfolding mark_ack
  half_acked side_a now on rt u = ground (arith, u.1)
  half_acked side_b now on rt u = ground (arith, u.0)

  acked :
      (now : ℕ) (rt : LinkRt F)
      → rt_status now true (some (mark_ack side_a (mark_ack side_b rt))) ≢ pending
  unfolding mark_ack
  acked now rt = elim (Bool-cases (ltb_ℤ (pos now -ℤ rt.last_hs) (pos 180))) [
    | inl e ↦ rw e (λ h. cc h)
    | inr e ↦ rw e (λ h. cc h)
  ]

  Pushed-pending :
      (w : World F) (l : Link) (now ra rb : ℕ) (h h' : Hub F)
      → Pushed w l h h'
      → registered_ref h l.a ≡ some ra
      → registered_ref h l.b ≡ some rb
      → (link_status l now h' ≡ pending)
        × ((side : Side) → link_status l now (ack_link l.id side h') ≡ pending)
        × (link_status l now (ack_link l.id side_a (ack_link l.id side_b h')) ≢ pending)
  unfolding link_status
  Pushed-pending w l now ra rb h h' p ea eb =
      let one = ack_link l.id side_b h' in
      let both_acked =
        ack_link-lookup l.id side_a one (mark_ack side_b p.rt)
          (ack_link-lookup l.id side_b h' p.rt p.found) in
      let online : (id : String)
          → registered_ref (ack_link l.id side_a one) id ≡ registered_ref h id =
        λ id.
          ack_link-registered l.id side_a one id
          ∙ ack_link-registered l.id side_b h' id
          ∙ p.online id in
      (
        rw p.found (pending_of_unacked now _ (some p.rt) p.unacked),
        λ side.
            rw (ack_link-lookup l.id side h' p.rt p.found) (half_acked side now _ p.rt p.unacked),
        rw (both_acked, online l.a, online l.b, ea, eb) (acked now p.rt),
      )

-- A link that is pushed to two nodes that are online and registered is pending afterwards, and is
-- still pending when one of its sides is then acknowledged, whichever it is; when both sides are,
-- it is not pending any more.
pub push_pair-pending :
    {F : Type 0} (w : World F) (l : Link) (kind : String) (now : ℕ) (h h' : Hub F)
    (a b : ℕ × WgIdent)
    → ready h l.a ≡ some a
    → ready h l.b ≡ some b
    → push_pair w l kind h ≡ some h'
    → (link_status l now h' ≡ pending)
      × ((side : Side) → link_status l now (ack_link l.id side h') ≡ pending)
      × (link_status l now (ack_link l.id side_a (ack_link l.id side_b h')) ≢ pending)
unfolding push_pair
push_pair-pending w l kind now h h' a b ea eb e =
    Pushed-pending w l now a.0 b.0 h h' (push_ready-Pushed w l kind (a, b) h h' (rw (ea, eb) at e))
      (ready-registered h l.a a.0 a.1 ea) (ready-registered h l.b b.0 b.1 eb)
