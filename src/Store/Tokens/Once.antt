-- ===== src/Store/Tokens/Once.antt =====
-- An enrollment token is good for one use, before it expires.
use light_pn.Prelude.{
  ℕ, String, ◌<◌, ◌≤◌, ◌≡◌, refl, sym, ◌∙◌, ap, subst, Bool, true, false, ◌&&◌, List, [], ◌∷◌,
  Option, none, some, ok, err, arith, ltb, lt→ltb, ◌is◌, is_refl, has, find_first, Bool-cases,
  Option-cases, inl, inr, ◌↔◌,
}
use light_pn.Store.{TokenRow, Store, not_found, token_expired, token_used, update_where}
use light_pn.Store.Tokens.{is_unused, find_token, burn_token, consume_token}

module _ (sha256 : String → String) (plain : String) where
  abbrev pub matches : TokenRow → Bool
  matches t = t.hash is sha256 plain

  abbrev pub row : Store → Option TokenRow
  row st = find_first matches st.tokens

  abbrev fresh : String → TokenRow → Bool
  fresh id t = t.id is id && is_unused t

  abbrev burn : ℕ → TokenRow → TokenRow
  burn now t = record t { used_at = some now }

  -- an unused row that is found by its hash is found by its id
  has-fresh :
      (ts : List TokenRow) (t : TokenRow)
      → find_first matches ts ≡ some t
      → is_unused t ≡ true
      → has (fresh t.id) ts ≡ true
  has-fresh [] t f u = cc
  has-fresh (x ∷ xs) t f u = ground (arith, has-fresh xs t, is_refl x.id)

  -- the first row with the hash, once it is burned
  find-burned :
      (now : ℕ) (ts : List TokenRow) (t : TokenRow)
      → find_first matches ts ≡ some t
      → is_unused t ≡ true
      → find_first matches (update_where (fresh t.id) (burn now) ts) ≡ some (burn now t)
  unfolding update_where
  find-burned now [] t f u = cc
  find-burned now (x ∷ xs) t f u = ground (arith, find-burned now xs t, is_refl x.id)

  -- ConsumeToken on each kind of row: an unknown, a used and an expired token are refused, each
  -- with its error and with nothing changed; a good one succeeds, and its row is then used.
  pub consume_token-none :
      (now : ℕ) (st : Store)
      → row st ≡ none
      → consume_token sha256 plain now st ≡ (err not_found, st)
  unfolding consume_token find_token
  consume_token-none now st e = rw e

  pub consume_token-used :
      (now : ℕ) (st : Store) (t : TokenRow)
      → row st ≡ some t
      → is_unused t ≡ false
      → consume_token sha256 plain now st ≡ (err token_used, st)
  unfolding consume_token find_token
  consume_token-used now st t e u = rw e (rw u refl)

  pub consume_token-expired :
      (now : ℕ) (st : Store) (t : TokenRow)
      → row st ≡ some t
      → is_unused t ≡ true
      → t.expires_at < now
      → consume_token sha256 plain now st ≡ (err token_expired, st)
  unfolding consume_token find_token
  consume_token-expired now st t e u late = rw e (rw (u, lt→ltb t.expires_at now late) refl)

  pub consume_token-good :
      (now : ℕ) (st : Store) (t : TokenRow)
      → row st ≡ some t
      → is_unused t ≡ true
      → now ≤ t.expires_at
      → (st' : Store) × (consume_token sha256 plain now st ≡ (ok tt, st'))
        × (row st' ≡ some (burn now t))
  unfolding consume_token find_token burn_token
  consume_token-good now st t e u soon =
      let early : ltb t.expires_at now ≡ false = ground arith in
      (
        record st { tokens = update_where (fresh t.id) (burn now) st.tokens },
        rw e (rw (u, early, has-fresh st.tokens t e u) refl),
        find-burned now st.tokens t e u,
      )

  abbrev pub IsGood : ℕ → Store → TokenRow → Type 0
  IsGood now st t = (row st ≡ some t) × (is_unused t ≡ true) × (now ≤ t.expires_at)

  IsGood-of_ok :
      (now : ℕ) (st : Store)
      → (consume_token sha256 plain now st).0 ≡ ok tt
      → (t : TokenRow) × IsGood now st t
  IsGood-of_ok now st h = elim (Option-cases (row st)) [
    | inl e ↦ cc (ap (λ p. p.0) (consume_token-none now st e))
    | inr (t, e) ↦ elim (Bool-cases (is_unused t)) [
      | inr u ↦ cc (ap (λ p. p.0) (consume_token-used now st t e u))
      | inl u ↦ elim (Bool-cases (ltb t.expires_at now)) [
        | inl late ↦ cc (ap (λ p. p.0) (consume_token-expired now st t e u (ground arith)))
        | inr soon ↦ (t, (e, u, ground arith))
      ]
    ]
  ]

-- ConsumeToken succeeds exactly when the first row with the token's hash is unused and has not
-- expired.
pub consume_token_iff :
    (sha256 : String → String) (plain : String) (now : ℕ) (st : Store)
    → ((consume_token sha256 plain now st).0 ≡ ok tt)
      ↔ ((t : TokenRow) × IsGood sha256 plain now st t)
consume_token_iff sha256 plain now st = (
  IsGood-of_ok sha256 plain now st,
  λ g.
      let (t, good) = g in
      let (e, u, soon) = good in
      ap (λ p. p.0) (consume_token-good sha256 plain now st t e u soon).1,
)

-- the row of a token that was consumed is used
pub consume_token-row :
    (sha256 : String → String) (plain : String) (now : ℕ) (st st' : Store)
    → consume_token sha256 plain now st ≡ (ok tt, st')
    → (t : TokenRow) × (row sha256 plain st ≡ some t)
      × (row sha256 plain st' ≡ some (record t { used_at = some now }))
consume_token-row sha256 plain now st st' h =
    let (t, good) = IsGood-of_ok sha256 plain now st (ap (λ p. p.0) h) in
    let (e, u, soon) = good in
    let (st'', ran, burned) = consume_token-good sha256 plain now st t e u soon in
    let same : st'' ≡ st' = ap (λ p. p.1) (sym ran ∙ h) in
    (t, e, subst (λ s. row sha256 plain s ≡ some (record t { used_at = some now })) same burned)
