-- ===== src/Api/Auth/Session.antt =====
-- How long a login lasts, and that a logout ends it: internal/hub/api.go, in every order.
use light_pn.Prelude.{
  ℕ, ◌+◌, ◌≤◌, String, ◌≡◌, ◌≢◌, refl, ap, ◌∙◌, Bool, true, false, Option, none, some, Result, ok,
  err, arith, ltb, if◌then◌else◌, ◌is◌, is_iff, Bool-cases, inl, inr,
}
use light_pn.Prelude.Map.{
  lookup, delete, lookup-insert, lookup-insert_self, lookup-delete, lookup-delete_self,
}
use light_pn.Store.{StoreError}
use light_pn.Store.Names.{get_admin_hash}
use light_pn.Hub.State.{Hub}
use light_pn.Api.{Reply, okay_reply}
use light_pn.Api.Password.{PasswordLib, Verdict, returned, panicked, verify_password}
use light_pn.Api.Auth.{
  ApiServer, session_ttl, Credentials, session_valid, unauthorized, auth, login_allowed, login,
  logout, checked, opened, login_if,
}
use light_pn.Api.Auth.Cases.{
  login_allowed-rest, logout-sessions, auth-sessions, guarded-sessions, auth-cases,
}
use light_pn.Api.Auth.Issued.{
  Allowed, Run, here, logged_in, logged_out, requested, moved, login-sessions,
}

-- no login makes a token
abbrev pub others : String → Allowed
others tok = record { token = λ k. k ≢ tok; cookie = λ _. Unit; time = λ _. Unit }

-- nor does a logout carry it, and no request comes after a time
abbrev pub leaves : String → ℕ → Allowed
leaves tok exp = record {
  token = λ k. k ≢ tok;
  cookie = λ c. c ≢ some tok;
  time = λ now. now ≤ exp;
}

module _ {F : Type 0} (lib : PasswordLib) where
  absent-Run :
      (tok : String) (s t : ApiServer F)
      → Run lib (others tok) s t
      → lookup tok s.sessions ≡ none
      → (e : ℕ) → lookup tok t.sessions ≢ some e
  absent-Run tok s _ here n e h = cc (n, h)
  absent-Run tok s _ (logged_in {t} ip body k now q r) n e h =
      elim (login-sessions lib ip tok k now e body t h) [
        | inl old ↦ absent-Run tok s t r n e old
        | inr (_, is_k, _) ↦ q is_k
      ]
  absent-Run tok s _ (logged_out {t} cookie p r) n e h =
      absent-Run tok s t r n e (logout-sessions tok cookie e t h).1
  absent-Run tok s _ (requested {t} cookie now next p r) n e h =
      absent-Run tok s t r n e (auth-sessions tok cookie now e next t h)
  absent-Run tok s _ (moved {t} g r) n e h = absent-Run tok s t r n e h

  opened-other :
      (j tok : String) (now : ℕ) (s : ApiServer F) (v : Verdict)
      → tok ≢ j
      → lookup j (opened lib tok now s v).1.sessions ≡ lookup j s.sessions
  opened-other j tok now s panicked n = refl
  opened-other j tok now s (returned false) n = refl
  opened-other j tok now s (returned true) n =
      ground (arith, n, is_iff tok j, lookup-insert j tok (now + session_ttl) s.sessions)

  login_if-other :
      (j tok : String) (now : ℕ) (body : Option Credentials) (p : Bool × ApiServer F)
      → tok ≢ j
      → lookup j (login_if lib body tok now p).1.sessions ≡ lookup j p.1.sessions
  login_if-other j tok now body (false, s) n = refl
  login_if-other j tok now none (true, s) n = refl
  login_if-other j tok now (some c) (true, s) n = go ((get_admin_hash c.username s.hub.store).0)
    where
      go :
          (r : Result StoreError String)
          → lookup j (checked lib c tok now s r).1.sessions ≡ lookup j s.sessions
      go (err _) = refl
      go (ok hash) = opened-other j tok now s (verify_password lib c.password hash) n

  login-other :
      (ip : String) (j tok : String) (now : ℕ) (body : Option Credentials) (s : ApiServer F)
      → tok ≢ j
      → lookup j (login lib ip body tok now s).1.sessions ≡ lookup j s.sessions
  unfolding login
  login-other ip j tok now body s n =
      login_if-other j tok now body (login_allowed ip now s) n
      ∙ ap (lookup j) (login_allowed-rest ip now s).1

  logout-other :
      (j : String) (cookie : Option String) (s : ApiServer F)
      → cookie ≢ some j
      → lookup j (logout cookie s).1.sessions ≡ lookup j s.sessions
  unfolding logout
  logout-other j none s n = refl
  logout-other j (some tok) s n = elim (Bool-cases (tok is j)) [
    | inl e ↦ absurd (n (ap some ((is_iff tok j).0 e)))
    | inr e ↦ ground (arith, e, lookup-delete j tok s.sessions)
  ]

  auth-kept :
      {A : Type 0} (j : String) (exp : ℕ) (cookie : Option String) (now : ℕ)
      (next : Hub F → Reply A × Hub F) (s : ApiServer F)
      → now ≤ exp
      → lookup j s.sessions ≡ some exp
      → lookup j (auth cookie now next s).1.sessions ≡ some exp
  unfolding auth session_valid
  auth-kept j exp none now next s le e = e
  auth-kept j exp (some tok) now next s le e =
      ap (lookup j) (guarded-sessions j next (session_valid tok now s))
      ∙ ground (
        arith,
        le,
        e,
        is_iff tok j,
        lookup-delete j tok s.sessions,
        ap (λ k. lookup k s.sessions),
      )

  kept-Run :
      (tok : String) (exp : ℕ) (s t : ApiServer F)
      → Run lib (leaves tok exp) s t
      → lookup tok s.sessions ≡ some exp
      → lookup tok t.sessions ≡ some exp
  kept-Run tok exp s _ here e = e
  kept-Run tok exp s _ (logged_in {t} ip body k now q r) e =
      login-other ip tok k now body t q ∙ kept-Run tok exp s t r e
  kept-Run tok exp s _ (logged_out {t} cookie p r) e =
      logout-other tok cookie t p ∙ kept-Run tok exp s t r e
  kept-Run tok exp s _ (requested {t} cookie now next p r) e =
      auth-kept tok exp cookie now next t p (kept-Run tok exp s t r e)
  kept-Run tok exp s _ (moved {t} g r) e = kept-Run tok exp s t r e

  opened-okay :
      (tok : String) (now : ℕ) (s : ApiServer F) (v : Verdict)
      → (opened lib tok now s v).0.1 ≡ okay_reply
      → lookup tok (opened lib tok now s v).1.sessions ≡ some (now + session_ttl)
  opened-okay tok now s panicked h = cc h
  opened-okay tok now s (returned false) h = cc h
  opened-okay tok now s (returned true) h = lookup-insert_self tok (now + session_ttl) s.sessions

  login_if-okay :
      (tok : String) (now : ℕ) (body : Option Credentials) (p : Bool × ApiServer F)
      → (login_if lib body tok now p).0.1 ≡ okay_reply
      → lookup tok (login_if lib body tok now p).1.sessions ≡ some (now + session_ttl)
  login_if-okay tok now body (false, s) h = cc h
  login_if-okay tok now none (true, s) h = cc h
  login_if-okay tok now (some c) (true, s) h = go ((get_admin_hash c.username s.hub.store).0) h
    where
      go :
          (r : Result StoreError String)
          → (checked lib c tok now s r).0.1 ≡ okay_reply
          → lookup tok (checked lib c tok now s r).1.sessions ≡ some (now + session_ttl)
      go (err _) k = cc k
      go (ok hash) k = opened-okay tok now s (verify_password lib c.password hash) k

-- After a login that answered OK, whatever else follows that makes no login with its token, no
-- logout with it and no request after the twelve hours: a request with the token is the handler's
-- step on the hub up to twelve hours after the login, and answers 401 and drops the token later.
pub auth-login :
    {F : Type 0} (lib : PasswordLib) (ip : String) (body : Option Credentials) (tok : String)
    (now : ℕ) (s t : ApiServer F)
    → (login lib ip body tok now s).0.1 ≡ okay_reply
    → Run lib (leaves tok (now + session_ttl)) (login lib ip body tok now s).1 t
    → {A : Type 0} (later : ℕ) (next : Hub F → Reply A × Hub F)
    → auth (some tok) later next t ≡ (
        if ltb (now + session_ttl) later
        then (unauthorized, record t { sessions = delete tok t.sessions })
        else ((next t.hub).0, record t { hub = (next t.hub).1 }))
unfolding login auth session_valid
auth-login lib ip body tok now s t okay r later next =
    let e =
      kept-Run lib tok (now + session_ttl) _ t r
        (login_if-okay lib tok now body (login_allowed ip now s) okay) in
    elim (Bool-cases (ltb (now + session_ttl) later)) [
      | inl late ↦ rw (auth, session_valid, e, late) refl
      | inr in_time ↦ rw (auth, session_valid, e, in_time) refl
    ]

-- After a logout with a token, whatever follows that makes no login with this token: every request
-- with it answers 401 and leaves the hub.
pub auth-logout :
    {F : Type 0} (lib : PasswordLib) (tok : String) (s t : ApiServer F)
    → Run lib (others tok) (logout (some tok) s).1 t
    → {A : Type 0} (now : ℕ) (next : Hub F → Reply A × Hub F)
    → ((auth (some tok) now next t).0 ≡ unauthorized) × ((auth (some tok) now next t).1.hub ≡ t.hub)
unfolding logout
auth-logout lib tok s t r now next = elim (auth-cases (some tok) now next t) [
  | inl refused ↦ refused
  | inr (k, exp, is_tok, le, e, runs) ↦
      absurd (absent-Run lib tok _ t r (lookup-delete_self tok s.sessions) exp (cc (is_tok, e)))
]
