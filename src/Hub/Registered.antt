-- ===== src/Hub/Registered.antt =====
-- A message that is queued for a session leaves who is online and registered: internal/hub/hub.go.
use light_pn.Prelude.{
  ℕ, zero, suc, String, ◌≡◌, refl, List, [], ◌∷◌, Option, none, some, arith, set, get_elem?,
  Option-cases, inl, inr,
}
use light_pn.Prelude.Map.{lookup}
use light_pn.Proto.{Envelope, PeerSpec, new_envelope}
use light_pn.Store.{Link}
use light_pn.Hub.State.{WgIdent, Session, Hub, World, session_of, session_at}
use light_pn.Hub.Push.{
  close, send, post_spec, peer_spec, send_peer_spec, if_registered, both, registered_ref, ready,
}

send-registered : (env : Envelope) (s : Session) → (send env s).registered ≡ s.registered
unfolding send close
send-registered env s = ground arith

if_registered-set :
    (xs : List Session) (r q k : ℕ) (s y : Session)
    → get_elem? xs r ≡ some s
    → y.registered ≡ s.registered
    → if_registered k (get_elem? (set xs r y) q) ≡ if_registered k (get_elem? xs q)
if_registered-set [] r q k s y e f = refl
if_registered-set (x ∷ xs) zero zero k s y e f = ground (arith, e, f)
if_registered-set (x ∷ xs) zero (suc q) k s y e f = refl
if_registered-set (x ∷ xs) (suc r) zero k s y e f = refl
if_registered-set (x ∷ xs) (suc r) (suc q) k s y e f = if_registered-set xs r q k s y e f

module _ {F : Type 0} (w : World F) where
  post_spec-registered :
      (l : Link) (kind id : String) (spec : PeerSpec) (s : Session)
      → (post_spec w l kind id spec s).registered ≡ s.registered
  unfolding post_spec
  post_spec-registered l kind id spec s =
      elim (Option-cases (new_envelope w.peer_spec kind id spec)) [
        | inl e ↦ rw (e, post_spec) refl
        | inr (env, e) ↦ rw (e, post_spec) (send-registered env _)
      ]

  pub send_peer_spec-registered :
      (r : ℕ) (l : Link) (kind peer : String) (i : WgIdent) (h : Hub F) (id : String)
      → registered_ref (send_peer_spec w r l kind peer i h) id ≡ registered_ref h id
  unfolding send_peer_spec registered_ref
  send_peer_spec-registered r l kind peer i h id = elim (Option-cases (peer_spec w h l peer i)) [
    | inl e ↦ rw (e, send_peer_spec) refl
    | inr (spec, e) ↦ elim (Option-cases (session_at h r)) [
      | inl n ↦ rw (e, n, send_peer_spec) refl
      | inr (s, n) ↦ elim (Option-cases (session_of h id)) [
        | inl o ↦ rw (e, n, send_peer_spec) (rw (o, registered_ref) refl)
        | inr (q, o) ↦
            rw (e, n, send_peer_spec)
              (rw (o, registered_ref)
                (if_registered-set h.heap r q q s (post_spec w l kind (w.ulid h.next_id) spec s) n
                  (post_spec-registered l kind (w.ulid h.next_id) spec s)))
      ]
    ]
  ]

both-left :
    {A B : Type 0} (x : Option A) (y : Option B) (a : A) (b : B)
    → both x y ≡ some (a, b)
    → x ≡ some a
both-left none y a b e = cc e
both-left (some a') none a b e = cc e
both-left (some a') (some b') a b e = cc e

module _ {F : Type 0} where
  pub ready-registered :
      (h : Hub F) (id : String) (r : ℕ) (i : WgIdent)
      → ready h id ≡ some (r, i)
      → registered_ref h id ≡ some r
  unfolding ready
  ready-registered h id r i e = both-left (registered_ref h id) (lookup id h.last_wg) r i e
