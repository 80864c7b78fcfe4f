-- ===== src/Hub/Lifetime.antt =====
-- One live session per node: runSession's start and dropSession of internal/hub/control.go.
use light_pn.Prelude.{
  ℕ, String, ◌≡◌, ◌≢◌, refl, sym, ap, ◌∙◌, subst, false, List, [], ◌∷◌, ◌++◌, none, some, arith,
  is_iff, ==_iff, Option-cases, inl, inr, get_elem?, length, set, zero, suc, true,
}
use light_pn.Prelude.Map.{lookup, lookup-insert_self, lookup-delete_self, lookup-delete}
use light_pn.Store.{Node}
use light_pn.Hub.State.{Session, Hub, session_of, session_at}
use light_pn.Hub.Push.{close}
use light_pn.Hub.Replies.{get_elem?-set}
use light_pn.Hub.Control.{is_ref, close_old, forget, close_session, drop_session, open_session}

module _ {F : Type 0} where
  forget-other :
      (r q : ℕ) (me id : String) (h : Hub F)
      → session_of h id ≡ some q
      → q ≢ r
      → session_of (forget r me h) id ≡ some q
  unfolding forget
  forget-other r q me id h e n =
      ground
        (arith, e, n, ==_iff q r, is_iff me id, lookup-delete id me h.sessions, ap (is_ref r) e)

  forget_self :
      (r : ℕ) (id : String) (h : Hub F)
      → session_of h id ≡ some r
      → session_of (forget r id h) id ≡ none
  unfolding forget
  forget_self r id h e = ground (arith, e, ==_iff r r, lookup-delete_self id h.sessions)

  close_session-sessions : (r : ℕ) (h : Hub F) → (close_session r h).sessions ≡ h.sessions
  unfolding close_session
  close_session-sessions r h = ground arith

  drop_session-other :
      (r q : ℕ) (id : String) (now : ℕ) (h : Hub F)
      → session_of h id ≡ some q
      → q ≢ r
      → session_of (drop_session r now h) id ≡ some q
  unfolding drop_session
  drop_session-other r q id now h e n = elim (Option-cases (session_at h r)) [
    | inl none_at ↦ rw (none_at, drop_session) e
    | inr (s, at) ↦
        rw (at, drop_session)
          (forget-other r q s.node.id id (close_session r h)
            (ap (lookup id) (close_session-sessions r h) ∙ e) n)
  ]

  drop_session_self :
      (r : ℕ) (s : Session) (now : ℕ) (h : Hub F)
      → session_at h r ≡ some s
      → session_of h s.node.id ≡ some r
      → session_of (drop_session r now h) s.node.id ≡ none
  unfolding drop_session
  drop_session_self r s now h at e =
      rw (at, drop_session)
        (forget_self r s.node.id (close_session r h)
          (ap (lookup s.node.id) (close_session-sessions r h) ∙ e))

  open_session-sessions :
      (n : Node) (ip : String) (now : ℕ) (h : Hub F)
      → session_of (open_session n ip now h).1 n.id ≡ some (open_session n ip now h).0
  unfolding open_session
  open_session-sessions n ip now h = lookup-insert_self n.id _ _

get_elem?-length : (xs : List Session) (s : Session) → get_elem? (xs ++ s ∷ []) (length xs) ≡ some s
get_elem?-length [] s = refl
get_elem?-length (x ∷ xs) s = get_elem?-length xs s

module _ {F : Type 0} where
  open_session-heap :
      (n : Node) (ip : String) (now : ℕ) (h : Hub F)
      → (s : Session) × (session_at (open_session n ip now h).1 (open_session n ip now h).0
          ≡ some s)
        × (s.node.id ≡ n.id)
  unfolding open_session
  open_session-heap n ip now h = (
    _,
    get_elem?-length (close_old (session_of h n.id) h).heap (record {
      node = n;
      remote_ip = ip;
      out = [];
      direct = [];
      registered = false;
      agent_version = "";
      os = "";
      last_hb = now;
      hb_wg = [];
      pending_acks = [];
      closed = false;
    }),
    refl,
  )

get_elem?-append :
    (xs ys : List Session) (r : ℕ) (s : Session)
    → get_elem? xs r ≡ some s
    → get_elem? (xs ++ ys) r ≡ some s
get_elem?-append [] ys r s e = cc e
get_elem?-append (x ∷ xs) ys zero s e = e
get_elem?-append (x ∷ xs) ys (suc r) s e = get_elem?-append xs ys r s e

module _ {F : Type 0} where
  close_session-heap :
      (r : ℕ) (s : Session) (h : Hub F)
      → session_at h r ≡ some s
      → (close_session r h).heap ≡ set h.heap r (close s)
  unfolding close_session
  close_session-heap r s h at = rw (at, close_session) refl

  -- the session that a node had is closed when it opens another one
  open_session-closes :
      (n : Node) (ip : String) (now : ℕ) (h : Hub F) (r : ℕ) (s : Session)
      → session_of h n.id ≡ some r
      → session_at h r ≡ some s
      → session_at (open_session n ip now h).1 r ≡ some (close s)
  unfolding open_session
  open_session-closes n ip now h r s live at =
      rw (live, open_session)
        (get_elem?-append (close_session r h).heap _ r (close s) (
          ap (λ xs. get_elem? xs r) (close_session-heap r s h at)
          ∙ get_elem?-set h.heap r s (close s) at))

-- When a node reconnects, the session that it had is closed and its new session is the live one. The
-- end of any other session, its old one's included, leaves it so, and the end of the new session
-- leaves the node without one.
pub open_session-lifetime :
    {F : Type 0} (n : Node) (ip : String) (now later : ℕ) (h : Hub F) (r : ℕ)
    → let (new, h') = open_session n ip now h in
      ((old : ℕ) (s : Session)
        → session_of h n.id ≡ some old
        → session_at h old ≡ some s
        → (t : Session) × (session_at h' old ≡ some t) × (t.closed ≡ true))
      × (session_of h' n.id ≡ some new)
      × (r ≢ new → session_of (drop_session r later h') n.id ≡ some new)
      × (session_of (drop_session new later h') n.id ≡ none)
unfolding close
open_session-lifetime n ip now later h r =
    let (new, h') = open_session n ip now h in
    let live = open_session-sessions n ip now h in
    let (s, at, mine) = open_session-heap n ip now h in
    (
      λ old t had there. (close t, open_session-closes n ip now h old t had there, refl),
      live,
      λ differs. drop_session-other r new n.id later h' live (λ e. differs (sym e)),
      subst (λ id. session_of (drop_session new later h') id ≡ none) mine
          (drop_session_self new s later h' at (rw mine live)),
    )
