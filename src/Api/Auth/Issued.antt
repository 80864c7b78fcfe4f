-- ===== src/Api/Auth/Issued.antt =====
-- Only a login opens the panel: auth, login and logout of internal/hub/api.go, in every order.
use light_pn.Prelude.{
  ℕ, ◌+◌, ◌≤◌, String, ◌≡◌, ◌≢◌, ◌⊎◌, refl, sym, ap, ◌∙◌, subst, Bool, true, false, Option, none,
  some, Result, ok, err, arith, ◌is◌, is_iff, Bool-cases, inl, inr,
}
use light_pn.Prelude.Map.{lookup, lookup-insert}
use light_pn.Store.{StoreError}
use light_pn.Store.Names.{get_admin_hash}
use light_pn.Hub.State.{Hub}
use light_pn.Api.{Reply}
use light_pn.Api.Password.{PasswordLib, Verdict, returned, panicked, verify_password}
use light_pn.Api.Auth.Cases.{login_allowed-rest, logout-sessions, auth-sessions, auth-cases}
use light_pn.Api.Auth.{
  ApiServer, session_ttl, Credentials, new_api_server, unauthorized, auth, login_allowed, login,
  logout, checked, opened, login_if,
}

-- which tokens the logins of a run make, which cookies its logouts carry, and when its requests come
pub record Allowed : Type 1 where
  pub token : String → Type 0
  pub cookie : Option String → Type 0
  pub time : ℕ → Type 0

abbrev pub any : Allowed
any = record { token = λ _. Unit; cookie = λ _. Unit; time = λ _. Unit }

-- no logout of a token
abbrev pub keeps : String → Allowed
keeps tok = record { token = λ _. Unit; cookie = λ c. c ≢ some tok; time = λ _. Unit }

module _ {F : Type 0} (lib : PasswordLib) where
  -- What can happen to the server: logins, logouts, requests with any handler, and whatever else
  -- changes the hub.
  pub data Run (P : Allowed) (s : ApiServer F) : ApiServer F → Type 1 where
    here : Run P s s
    logged_in :
        {t : ApiServer F} (ip : String) (body : Option Credentials) (tok : String) (now : ℕ)
        → P.token tok
        → Run P s t
        → Run P s (login lib ip body tok now t).1
    logged_out :
        {t : ApiServer F} (cookie : Option String)
        → P.cookie cookie
        → Run P s t
        → Run P s (logout cookie t).1
    requested :
        {t : ApiServer F} {A : Type 0} (cookie : Option String) (now : ℕ)
        (next : Hub F → Reply A × Hub F)
        → P.time now
        → Run P s t
        → Run P s (auth cookie now next t).1
    moved : {t : ApiServer F} (h : Hub F) → Run P s t → Run P s (record t { hub = h })

  -- a login whose password was verified with the hash that the hub then had
  pub record Granted (body : Option Credentials) (s : ApiServer F) : Type 0 where
    pub who : Credentials
    pub hash : String
    pub sent : body ≡ some who
    pub found : (get_admin_hash who.username s.hub.store).0 ≡ ok hash
    pub accepted : verify_password lib who.password hash ≡ returned true

  opened-sessions :
      (j tok : String) (now exp : ℕ) (s : ApiServer F) (v : Verdict)
      → lookup j (opened lib tok now s v).1.sessions ≡ some exp
      → (lookup j s.sessions ≡ some exp)
        ⊎ ((tok ≡ j) × (v ≡ returned true) × (exp ≡ now + session_ttl))
  opened-sessions j tok now exp s panicked h = inl h
  opened-sessions j tok now exp s (returned false) h = inl h
  opened-sessions j tok now exp s (returned true) h = elim (Bool-cases (tok is j)) [
    | inl e ↦ inr (
      (is_iff tok j).0 e,
      refl,
      ground (arith, h, e, lookup-insert j tok (now + session_ttl) s.sessions),
    )
    | inr e ↦ inl (ground (arith, h, e, lookup-insert j tok (now + session_ttl) s.sessions))
  ]

  checked-sessions :
      (j tok : String) (now exp : ℕ) (c : Credentials) (s : ApiServer F)
      (r : Result StoreError String)
      → (get_admin_hash c.username s.hub.store).0 ≡ r
      → lookup j (checked lib c tok now s r).1.sessions ≡ some exp
      → (lookup j s.sessions ≡ some exp)
        ⊎ (Granted (some c) s × (tok ≡ j) × (exp ≡ now + session_ttl))
  checked-sessions j tok now exp c s (err _) f h = inl h
  checked-sessions j tok now exp c s (ok hash) f h =
      elim (opened-sessions j tok now exp s (verify_password lib c.password hash) h) [
        | inl old ↦ inl old
        | inr (e, v, at) ↦
            inr (record { who = c; hash = hash; sent = refl; found = f; accepted = v }, e, at)
      ]

  login_if-sessions :
      (j tok : String) (now exp : ℕ) (body : Option Credentials) (p : Bool × ApiServer F)
      → lookup j (login_if lib body tok now p).1.sessions ≡ some exp
      → (lookup j p.1.sessions ≡ some exp)
        ⊎ (Granted body p.1 × (tok ≡ j) × (exp ≡ now + session_ttl))
  login_if-sessions j tok now exp body (false, s) h = inl h
  login_if-sessions j tok now exp none (true, s) h = inl h
  login_if-sessions j tok now exp (some c) (true, s) h = checked-sessions j tok now exp c s _ refl h

  Granted-moved :
      (body : Option Credentials) (s t : ApiServer F)
      → t.hub ≡ s.hub
      → Granted body t
      → Granted body s
  Granted-moved body s t e g = record {
    who = g.who;
    hash = g.hash;
    sent = g.sent;
    found = subst (λ h. (get_admin_hash g.who.username h.store).0 ≡ ok g.hash) e g.found;
    accepted = g.accepted;
  }

  pub login-sessions :
      (ip : String) (j tok : String) (now exp : ℕ) (body : Option Credentials) (s : ApiServer F)
      → lookup j (login lib ip body tok now s).1.sessions ≡ some exp
      → (lookup j s.sessions ≡ some exp) ⊎ (Granted body s × (tok ≡ j) × (exp ≡ now + session_ttl))
  unfolding login
  login-sessions ip j tok now exp body s h =
      let (same_hub, same) = login_allowed-rest ip now s in
      elim (login_if-sessions j tok now exp body (login_allowed ip now s) h) [
        | inl old ↦ inl (sym (ap (lookup j) same) ∙ old)
        | inr (g, e, at) ↦ inr (Granted-moved body s _ same_hub g, e, at)
      ]

  -- Where an entry (j, exp) of the session table of `t` comes from: a login that issued `j` after
  -- a run from the fresh server, and no logout of it since.
  pub record Issued (h : Hub F) (j : String) (exp : ℕ) (t : ApiServer F) : Type 1 where
    pub before : ApiServer F
    pub ip : String
    pub body : Option Credentials
    pub at : ℕ
    pub reached : Run any (new_api_server h) before
    pub granted : Granted body before
    pub expires : exp ≡ at + session_ttl
    pub since : Run (keeps j) (login lib ip body j at before).1 t

  abbrev AllIssued : Hub F → ApiServer F → Type 1
  AllIssued h t = (j : String) (exp : ℕ) → lookup j t.sessions ≡ some exp → Issued h j exp t

  -- an entry that a step keeps
  Issued-later :
      (h : Hub F) (j : String) (exp : ℕ) (t u : ApiServer F)
      → (i : Issued h j exp t) → Run (keeps j) (login lib i.ip i.body j i.at i.before).1 u
      → Issued h j exp u
  Issued-later h j exp t u i r = record {
    before = i.before;
    ip = i.ip;
    body = i.body;
    at = i.at;
    reached = i.reached;
    granted = i.granted;
    expires = i.expires;
    since = r;
  }

  AllIssued-Run : (h : Hub F) (t : ApiServer F) → Run any (new_api_server h) t → AllIssued h t
  unfolding lookup
  AllIssued-Run h _ here j exp e = cc e
  AllIssued-Run h _ (logged_in {t} ip body tok now q r) j exp e =
      elim (login-sessions ip j tok now exp body t e) [
        | inl old ↦
            let i = AllIssued-Run h t r j exp old in
            Issued-later h j exp t _ i (logged_in ip body tok now tt i.since)
        | inr (g, is_j, ends) ↦
            subst (λ k. Issued h k exp (login lib ip body tok now t).1) is_j
              (record {
                before = t;
                ip = ip;
                body = body;
                at = now;
                reached = r;
                granted = g;
                expires = ends;
                since = here;
              })
      ]
  AllIssued-Run h _ (logged_out {t} cookie p r) j exp e =
      let (kept, old) = logout-sessions j cookie exp t e in
      let i = AllIssued-Run h t r j exp old in
      Issued-later h j exp t _ i (logged_out cookie kept i.since)
  AllIssued-Run h _ (requested {t} cookie now next p r) j exp e =
      let i = AllIssued-Run h t r j exp (auth-sessions j cookie now exp next t e) in
      Issued-later h j exp t _ i (requested cookie now next tt i.since)
  AllIssued-Run h _ (moved {t} g r) j exp e =
      let i = AllIssued-Run h t r j exp e in Issued-later h j exp t _ i (moved g i.since)

-- However logins, logouts, requests and other changes of the hub follow each other after the start:
-- auth answers 401 and leaves the hub, or the request's cookie holds a token that a login issued, with
-- a password that VerifyPassword accepted for the hash the hub then had, at most twelve hours before,
-- no logout of that token came since, and the request is the handler's step on the hub.
pub auth-Issued :
    {F : Type 0} (lib : PasswordLib) (h : Hub F) (s : ApiServer F)
    → Run lib any (new_api_server h) s
    → {A : Type 0} (cookie : Option String) (now : ℕ) (next : Hub F → Reply A × Hub F)
    → ((auth cookie now next s).0 ≡ unauthorized) × ((auth cookie now next s).1.hub ≡ s.hub)
      ⊎ ((tok : String) × (exp : ℕ) × (cookie ≡ some tok)
          × (now ≤ exp)
          × Issued lib h tok exp s
          × (auth cookie now next s ≡ ((next s.hub).0, record s { hub = (next s.hub).1 })))
auth-Issued lib h s r cookie now next = elim (auth-cases cookie now next s) [
  | inl refused ↦ inl refused
  | inr (tok, exp, c, le, e, runs) ↦ inr (tok, exp, c, le, AllIssued-Run lib h s r tok exp e, runs)
]
