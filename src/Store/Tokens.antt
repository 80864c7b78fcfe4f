-- ===== src/Store/Tokens.antt =====
-- The one-time enrollment tokens of internal/hub/store.go.
pub mod Once
pub mod Spent
use Prim.Native.String.{◌++◌ as text_append, slice}
use light_pn.Prelude.{
  ℕ, String, ◌+◌, Bool, true, false, not, ◌&&◌, List, [], ◌∷◌, ◌++◌, map, Option, none, some, ok,
  err, ltb, if◌then◌else◌, ◌is◌, has, find_first, keep_if,
}
use light_pn.Prelude.Io.{Io, return, fail, ◌>>=◌, ◌>>◌}
use light_pn.Store.{
  TokenRow, Store, StoreError, not_found, token_expired, token_used, unique_violation, Tx,
  update_where, order_by, or_not_found,
}

-- what the panel sees of a token
pub record Token : Type 0 where
  pub id : String
  pub note : String
  pub expires_at : ℕ
  pub used_at : ℕ
  pub prefix : String

abbrev pub is_token : String → TokenRow → Bool
is_token id t = t.id is id

abbrev pub is_unused : TokenRow → Bool
is_unused t = elim t.used_at [ none ↦ true | some _ ↦ false ]

-- The hash, hex(SHA-256(·)), comes from the Go library.
module _ (sha256 : String → String) where
  -- `id` is the new ULID and `random` the encoded random bytes
  unfoldable pub create_token : String → String → ℕ → String → ℕ → Tx (String × Token)
  create_token id random ttl note now st =
      let plain = text_append "lp_" random in
      let row : TokenRow = record {
        id = id;
        hash = sha256 plain;
        note = note;
        expires_at = now + ttl;
        used_at = none;
      } in
      let token : Token = record {
        id = id;
        note = note;
        expires_at = now + ttl;
        used_at = 0;
        prefix = slice plain 0 8;
      } in
      if has (is_token id) st.tokens
      then (err unique_violation, st)
      else (ok (plain, token), record st { tokens = st.tokens ++ row ∷ [] })

  -- SELECT … WHERE hash=?
  unfoldable pub find_token : String → Tx TokenRow
  find_token plain st = or_not_found (find_first (λ t. t.hash is sha256 plain) st.tokens) st

  -- UPDATE tokens SET used_at=? WHERE id=? AND used_at IS NULL
  unfoldable pub burn_token : String → ℕ → Tx Unit
  unfolding update_where
  burn_token id now st =
      let fresh = λ (t : TokenRow). t.id is id && is_unused t in
      if has fresh st.tokens
      then (
        ok tt,
        record st { tokens = update_where fresh (λ t. record t { used_at = some now }) st.tokens },
      )
      else (err token_used, st)

  unfoldable pub consume_token : String → ℕ → Tx Unit
  unfolding find_token burn_token
  consume_token plain now = do
    t ← find_token plain
    if not (is_unused t)
        then fail token_used
        else if ltb t.expires_at now
        then fail token_expired
        else burn_token t.id now

unfoldable pub list_tokens : ℕ → Tx (List Token)
unfolding order_by
list_tokens now st = (ok (map show (order_by (λ t. t.expires_at) (keep_if valid st.tokens))), st)
  where
    valid : TokenRow → Bool
    valid t = is_unused t && ltb now t.expires_at

    show : TokenRow → Token
    show t = record {
      id = t.id;
      note = t.note;
      expires_at = t.expires_at;
      used_at = 0;
      prefix = "";
    }

unfoldable pub delete_token : String → Tx Unit
delete_token id st =
    if has (is_token id) st.tokens
    then (ok tt, record st { tokens = keep_if (λ t. not (is_token id t)) st.tokens })
    else (err not_found, st)
