-- ===== src/Api.antt =====
-- internal/hub/api.go: the panel's HTTP API. A handler is a function from what it reads of the
-- request and from the hub to its reply and the hub. A body is `none` if it is no JSON of the
-- handler's type. The mux and the websocket's copy loop are not modelled.
pub mod Password
pub mod Auth
pub mod Nodes
pub mod Services
pub mod Tokens
pub mod Links
mod Tests
use light_pn.Prelude.{ℕ, String, Bool, true, ℤ, Result, ok, err}
use light_pn.Store.{StoreError, not_found}
use light_pn.Hub.Admin.{HubError}

-- the text of an error reply: one of the handler's own, or err.Error()
pub data Message : Type 0 where
  text : String → Message
  store_error : StoreError → Message
  hub_error : HubError → Message
  conf_timeout : Message

-- what a handler answers: writeJSON, httpErr, or nothing if it panics (net/http then drops the
-- connection)
pub data Reply {ℓ} (A : Type ℓ) : Type ℓ where
  json : A → Reply A
  http_err : ℕ → Message → Reply A
  dropped : Reply A

-- httpNotFoundOr500
unfoldable pub not_found_or_500 : {A : Type 0} → StoreError → Reply A
not_found_or_500 not_found = http_err 404 (text "not found")
not_found_or_500 e = http_err 500 (store_error e)

-- {"ok": true}
pub record Okay : Type 0 where
  pub okay : Bool

abbrev pub okay_reply : Reply Okay
okay_reply = json (record { okay = true })
