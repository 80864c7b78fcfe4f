-- ===== src/Hub/Limiter.antt =====
-- The rate limit of enrollment, enrollAllowed of internal/hub/control.go.
use light_pn.Prelude.{
  ℕ, ◌≤◌, String, ◌≡◌, refl, ap, List, [], ◌∷◌, ◌++◌, none, length, keep_if, All,
}
use light_pn.Prelude.Map.{lookup, lookup-insert_self}
use light_pn.Hub.State.{Hub}
use light_pn.Hub.Enroll.{is_recent, tries_of, enroll_allowed}
use light_pn.Hub.Throttle.{Throttle, attempts, Throttle-limit}

module _ {F : Type 0} (ip : String) where
  abbrev kept : ℕ → Hub F → List ℕ
  kept now h = keep_if (is_recent now) (tries_of (lookup ip h.enroll_tries))

  unfoldable enroll_throttle : Throttle (Hub F)
  unfolding enroll_allowed
  enroll_throttle = record {
    allowed = enroll_allowed ip;
    tries = λ h. tries_of (lookup ip h.enroll_tries);
    full = λ now h e.
        rw (e, enroll_allowed)
          (refl, ap tries_of (lookup-insert_self ip (kept now h) h.enroll_tries));
    free = λ now h e.
        rw (e, enroll_allowed)
          (refl, ap tries_of (lookup-insert_self ip (kept now h ++ now ∷ []) h.enroll_tries));
  }

-- Of the enrollment attempts that an address without earlier ones makes up to a time, however many
-- there are, at most five of the minute before that time were let through.
pub enroll_allowed-limit :
    {F : Type 0} (ip : String) (h : Hub F) (t : ℕ) (ts : List ℕ)
    → lookup ip h.enroll_tries ≡ none
    → All (λ now. now ≤ t) ts
    → length (keep_if (is_recent t) (attempts (enroll_allowed ip) [] ts h).0) ≤ 5
unfolding enroll_throttle
enroll_allowed-limit ip h t ts new les =
    Throttle-limit (enroll_throttle ip) h t ts (ap tries_of new) les
