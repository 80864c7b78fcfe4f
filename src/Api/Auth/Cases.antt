-- ===== src/Api/Auth/Cases.antt =====
-- The branches of auth, and what auth, logout and the throttle leave of the session table, internal/hub/api.go.
use light_pn.Prelude.{
  ℕ, ◌≤◌, String, ◌≡◌, ◌≢◌, ◌⊎◌, refl, sym, ap, ◌∙◌, Bool, true, false, Option, none, some, arith,
  ltb, is_refl, Bool-cases, Option-cases, inl, inr,
}
use light_pn.Prelude.Map.{lookup, lookup-delete}
use light_pn.Hub.State.{Hub}
use light_pn.Api.{Reply}
use light_pn.Api.Auth.{ApiServer, session_valid, unauthorized, auth, login_allowed, logout, guarded}

module _ {F : Type 0} where
  -- the throttle changes neither the hub nor the sessions
  pub login_allowed-rest :
      (ip : String) (now : ℕ) (s : ApiServer F)
      → ((login_allowed ip now s).1.hub ≡ s.hub)
        × ((login_allowed ip now s).1.sessions ≡ s.sessions)
  unfolding login_allowed
  login_allowed-rest ip now s = (ground arith, ground arith)

  pub logout-sessions :
      (j : String) (cookie : Option String) (exp : ℕ) (s : ApiServer F)
      → lookup j (logout cookie s).1.sessions ≡ some exp
      → (cookie ≢ some j) × (lookup j s.sessions ≡ some exp)
  unfolding logout
  logout-sessions j none exp s h = (λ e. cc e, h)
  logout-sessions j (some tok) exp s h = (
    λ d. ground (arith, h, d, is_refl j, lookup-delete j tok s.sessions),
    ground (arith, h, lookup-delete j tok s.sessions),
  )

  session_valid-sessions :
      (j tok : String) (now exp : ℕ) (s : ApiServer F)
      → lookup j (session_valid tok now s).1.sessions ≡ some exp
      → lookup j s.sessions ≡ some exp
  unfolding session_valid
  session_valid-sessions j tok now exp s h = ground (arith, h, lookup-delete j tok s.sessions)

  pub guarded-sessions :
      {A : Type 0} (j : String) (next : Hub F → Reply A × Hub F) (p : Bool × ApiServer F)
      → (guarded next p).1.sessions ≡ p.1.sessions
  guarded-sessions j next (false, s) = refl
  guarded-sessions j next (true, s) = refl

  pub auth-sessions :
      {A : Type 0} (j : String) (cookie : Option String) (now exp : ℕ)
      (next : Hub F → Reply A × Hub F) (s : ApiServer F)
      → lookup j (auth cookie now next s).1.sessions ≡ some exp
      → lookup j s.sessions ≡ some exp
  unfolding auth
  auth-sessions j none now exp next s h = h
  auth-sessions j (some tok) now exp next s h =
      session_valid-sessions j tok now exp s
        (sym (ap (lookup j) (guarded-sessions j next (session_valid tok now s))) ∙ h)

  session_valid-cases :
      (tok : String) (now : ℕ) (s : ApiServer F)
      → ((session_valid tok now s).0 ≡ false) × ((session_valid tok now s).1.hub ≡ s.hub)
        ⊎ ((exp : ℕ) × (now ≤ exp)
            × (lookup tok s.sessions ≡ some exp)
            × (session_valid tok now s ≡ (true, s)))
  unfolding session_valid
  session_valid-cases tok now s = elim (Option-cases (lookup tok s.sessions)) [
    | inl e ↦ inl (rw (e, session_valid) (refl, refl))
    | inr (exp, e) ↦ elim (Bool-cases (ltb exp now)) [
      | inl late ↦ inl (rw (e, session_valid) (rw late (refl, refl)))
      | inr in_time ↦ inr (exp, ground (arith, in_time), e, rw (e, session_valid) (rw in_time refl))
    ]
  ]

  guarded-refused :
      {A : Type 0} (next : Hub F → Reply A × Hub F) (p : Bool × ApiServer F)
      → p.0 ≡ false
      → ((guarded next p).0 ≡ unauthorized) × ((guarded next p).1 ≡ p.1)
  guarded-refused next (false, s) h = (refl, refl)
  guarded-refused next (true, s) h = cc h

  -- auth, on every branch
  pub auth-cases :
      {A : Type 0} (cookie : Option String) (now : ℕ) (next : Hub F → Reply A × Hub F)
      (s : ApiServer F)
      → ((auth cookie now next s).0 ≡ unauthorized) × ((auth cookie now next s).1.hub ≡ s.hub)
        ⊎ ((tok : String) × (exp : ℕ) × (cookie ≡ some tok)
            × (now ≤ exp)
            × (lookup tok s.sessions ≡ some exp)
            × (auth cookie now next s ≡ ((next s.hub).0, record s { hub = (next s.hub).1 })))
  unfolding auth
  auth-cases none now next s = inl (refl, refl)
  auth-cases (some tok) now next s = elim (session_valid-cases tok now s) [
    | inl (refused, same) ↦
        let (reply, rest) = guarded-refused next (session_valid tok now s) refused in
        inl (reply, ap (λ t. t.hub) rest ∙ same)
    | inr (exp, le, e, valid) ↦ inr (tok, exp, refl, le, e, rw (auth, valid) refl)
  ]
