-- ===== src/Api/Auth/Limit.antt =====
-- The rate limit of logins, loginAllowed and login of internal/hub/api.go.
use light_pn.Prelude.{
  ℕ, ◌≤◌, String, ◌≡◌, refl, ap, List, [], ◌∷◌, ◌++◌, none, length, keep_if, All,
}
use light_pn.Prelude.Map.{lookup, lookup-insert_self}
use light_pn.Hub.Enroll.{is_recent, tries_of}
use light_pn.Hub.Throttle.{Throttle, attempts, Throttle-limit}
use light_pn.Api.Auth.{ApiServer, login_allowed}

module _ {F : Type 0} (ip : String) where
  abbrev kept : ℕ → ApiServer F → List ℕ
  kept now s = keep_if (is_recent now) (tries_of (lookup ip s.login_tries))

  unfoldable login_throttle : Throttle (ApiServer F)
  unfolding login_allowed
  login_throttle = record {
    allowed = login_allowed ip;
    tries = λ s. tries_of (lookup ip s.login_tries);
    full = λ now s e.
        rw (e, login_allowed)
          (refl, ap tries_of (lookup-insert_self ip (kept now s) s.login_tries));
    free = λ now s e.
        rw (e, login_allowed)
          (refl, ap tries_of (lookup-insert_self ip (kept now s ++ now ∷ []) s.login_tries));
  }

-- Of the login attempts that an address without earlier ones makes up to a time, however many there
-- are, at most five of the minute before that time were let through to the password.
pub login_allowed-limit :
    {F : Type 0} (ip : String) (s : ApiServer F) (t : ℕ) (ts : List ℕ)
    → lookup ip s.login_tries ≡ none
    → All (λ now. now ≤ t) ts
    → length (keep_if (is_recent t) (attempts (login_allowed ip) [] ts s).0) ≤ 5
unfolding login_throttle
login_allowed-limit ip s t ts new les =
    Throttle-limit (login_throttle ip) s t ts (ap tries_of new) les
