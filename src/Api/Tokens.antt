-- ===== src/Api/Tokens.antt =====
-- The panel's token handlers, internal/hub/api.go: createToken to deleteToken.
use light_pn.Prelude.{
  ℕ, ◌+◌, ◌*◌, String, ◌&&◌, List, map, Result, ok, err, ℤ, pos, negsuc, ltb, leb, if◌then◌else◌,
}
use light_pn.Store.{Store, StoreError}
use light_pn.Store.Tokens.{Token, create_token, list_tokens, delete_token}
use light_pn.Hub.State.{Hub, World}
use light_pn.Api.{Reply, json, http_err, store_error, not_found_or_500, Okay}
use light_pn.Api.Nodes.{on_store, okay_or_404}

-- what is in the variable after the body was decoded, with or without an error
pub record TokenBody : Type 0 where
  pub ttl_s : ℤ
  pub note : String

pub record NewToken : Type 0 where
  pub id : String
  pub token : String
  pub expires_at : ℕ
  pub control_addr : String

pub record TokenJson : Type 0 where
  pub id : String
  pub note : String
  pub expires_at : ℕ

-- the ttl of createToken, in seconds
unfoldable pub token_ttl : ℤ → ℕ → ℕ
token_ttl (negsuc _) def = def
token_ttl (pos n) def = if ltb 0 n && leb n (24 * 3_600) then n else def

abbrev token_json : Token → TokenJson
token_json t = record { id = t.id; note = t.note; expires_at = t.expires_at }

module _ {F : Type 0} where
  abbrev issued : Hub F → Result StoreError (String × Token) × Store → Reply NewToken × Hub F
  issued h (err e, st) = (http_err 500 (store_error e), record h { store = st })
  issued h (ok (plain, t), st) = (
    json (record {
      id = t.id;
      token = plain;
      expires_at = t.expires_at;
      control_addr = h.cfg.public_addr;
    }),
    record h { store = st },
  )

  -- createToken, with the encoded random bytes
  unfoldable pub create_token_reply :
      World F → String → TokenBody → ℕ → Hub F → Reply NewToken × Hub F
  unfolding create_token token_ttl
  create_token_reply w random body now h =
      issued (record h { next_id = h.next_id + 1 })
        (create_token w.sha256 (w.ulid h.next_id) random (token_ttl body.ttl_s h.cfg.token_ttl_s)
          body.note now h.store)

  abbrev listed : Hub F → Result StoreError (List Token) → Reply (List TokenJson) × Hub F
  listed h (err e) = (http_err 500 (store_error e), h)
  listed h (ok ts) = (json (map token_json ts), h)

  -- listTokens
  unfoldable pub list_tokens_reply : ℕ → Hub F → Reply (List TokenJson) × Hub F
  unfolding list_tokens
  list_tokens_reply now h = listed h ((list_tokens now h.store).0)

  -- deleteToken
  unfoldable pub delete_token_reply : String → Hub F → Reply Okay × Hub F
  unfolding delete_token not_found_or_500
  delete_token_reply id h = okay_or_404 (on_store (delete_token id) h)
