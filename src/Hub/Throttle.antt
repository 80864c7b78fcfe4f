-- ===== src/Hub/Throttle.antt =====
-- The throttle that enrollAllowed of internal/hub/control.go and loginAllowed of internal/hub/api.go
-- share: of one source, at most five attempts of a minute are let through.
use light_pn.Prelude.{
  ℕ, ◌≤◌, ◌≡◌, refl, sym, ◌∙◌, Bool, true, false, List, [], ◌∷◌, ◌++◌, arith, if◌then◌else◌, leb,
  length, keep_if, length-append, length-keep_if-le, Bool-cases, inl, inr, All,
}
use light_pn.Hub.Enroll.{is_recent}

-- One operation of one source on a state, and the tries that the state holds of the source: the old
-- ones are dropped, and the new one is let through and kept if fewer than five are left.
pub record Throttle (S : Type 0) : Type 0 where
  pub allowed : ℕ → S → Bool × S
  pub tries : S → List ℕ
  pub full :
      (now : ℕ) (s : S)
      → leb 5 (length (keep_if (is_recent now) (tries s))) ≡ true
      → ((allowed now s).0 ≡ false) × (tries (allowed now s).1 ≡ keep_if (is_recent now) (tries s))
  pub free :
      (now : ℕ) (s : S)
      → leb 5 (length (keep_if (is_recent now) (tries s))) ≡ false
      → ((allowed now s).0 ≡ true)
        × (tries (allowed now s).1 ≡ keep_if (is_recent now) (tries s) ++ now ∷ [])

-- the attempts that were let through, after those of `passed`
unfoldable pub attempts : {S : Type 0} → (ℕ → S → Bool × S) → List ℕ → List ℕ → S → List ℕ × S
attempts allowed passed [] s = (passed, s)
attempts allowed passed (t ∷ ts) s =
    attempts allowed (if (allowed t s).0 then passed ++ t ∷ [] else passed) ts (allowed t s).1

keep_if-append :
    (p : ℕ → Bool) (xs ys : List ℕ) → keep_if p (xs ++ ys) ≡ keep_if p xs ++ keep_if p ys
keep_if-append p [] ys = refl
keep_if-append p (x ∷ xs) ys = ground (arith, keep_if-append p xs ys)

-- what is recent at a later time was recent before
keep_if-recent :
    (now t : ℕ) (xs : List ℕ)
    → now ≤ t
    → keep_if (is_recent t) (keep_if (is_recent now) xs) ≡ keep_if (is_recent t) xs
keep_if-recent now t [] h = refl
keep_if-recent now t (x ∷ xs) h = ground (arith, keep_if-recent now t xs h)

module _ {S : Type 0} (th : Throttle S) where
  -- at most five entries, which are the recent ones of those let through
  record Tracks (t : ℕ) (passed : List ℕ) (s : S) : Type 0 where
    few : length (th.tries s) ≤ 5
    same : keep_if (is_recent t) passed ≡ keep_if (is_recent t) (th.tries s)

  abbrev kept : ℕ → S → List ℕ
  kept now s = keep_if (is_recent now) (th.tries s)

  Tracks-step :
      (t now : ℕ) (passed : List ℕ) (s : S)
      → now ≤ t
      → Tracks t passed s
      → Tracks t (if (th.allowed now s).0 then passed ++ now ∷ [] else passed) (th.allowed now s).1
  Tracks-step t now passed s le k = elim (Bool-cases (leb 5 (length (kept now s)))) [
    | inl h ↦
        let (refused, tried) = th.full now s h in
        rw refused (record {
          few = rw tried (omega (arith, length-keep_if-le (is_recent now) (th.tries s), k.few));
          same = rw tried (k.same ∙ sym (keep_if-recent now t (th.tries s) le));
        })
    | inr h ↦
        let (passes, tried) = th.free now s h in
        rw passes (record {
          few = rw tried (ground (arith, length-append (kept now s) (now ∷ []), h));
          same =
              rw
                (
                  tried,
                  keep_if-append (is_recent t) passed (now ∷ []),
                  keep_if-append (is_recent t) (kept now s) (now ∷ []),
                  keep_if-recent now t (th.tries s) le,
                  k.same,
                )
                refl;
        })
  ]

  Tracks-attempts :
      (t : ℕ) (ts passed : List ℕ) (s : S)
      → All (λ now. now ≤ t) ts
      → Tracks t passed s
      → Tracks t (attempts th.allowed passed ts s).0 (attempts th.allowed passed ts s).1
  unfolding attempts
  Tracks-attempts t [] passed s les k = k
  Tracks-attempts t (now ∷ ts) passed s les k =
      Tracks-attempts t ts _ (th.allowed now s).1 les.1 (Tracks-step t now passed s les.0 k)

  pub Throttle-limit :
      (s : S) (t : ℕ) (ts : List ℕ)
      → th.tries s ≡ []
      → All (λ now. now ≤ t) ts
      → length (keep_if (is_recent t) (attempts th.allowed [] ts s).0) ≤ 5
  Throttle-limit s t ts new les =
      let k =
        Tracks-attempts t ts [] s les (record { few = rw new (omega arith); same = rw new refl }) in
      rw k.same (
        omega (
          arith,
          k.few,
          length-keep_if-le (is_recent t) (th.tries (attempts th.allowed [] ts s).1),
        ))
