-- ===== src/Api/Auth.antt =====
-- Who may use the panel, internal/hub/api.go: auth, sessionValid, loginAllowed, login, sessionCookie
-- and logout. Times are in nanoseconds.
mod Cases
pub mod Issued
pub mod Session
pub mod Limit
use light_pn.Prelude.{
  ℕ, ◌+◌, ◌*◌, ◌/◌, String, Bool, true, false, List, [], ◌∷◌, ◌++◌, Option, none, some, Result, ok,
  err, ℤ, pos, negsuc, ltb, leb, if◌then◌else◌, length, keep_if,
}
use light_pn.Prelude.Map.{Map, lookup, insert, delete}
use light_pn.Store.{StoreError}
use light_pn.Store.Names.{get_admin_hash}
use light_pn.Hub.State.{Hub}
use light_pn.Hub.Enroll.{is_recent, tries_of}
use light_pn.Api.{Reply, json, http_err, dropped, text, Okay, okay_reply}
use light_pn.Api.Password.{PasswordLib, Verdict, returned, panicked, verify_password}

-- `sessions` gives the expiry of each session token.
pub record ApiServer (F : Type 0) : Type 0 where
  pub hub : Hub F
  pub sessions : Map ℕ
  pub login_tries : Map (List ℕ)

-- const sessionTTL
abbrev pub session_ttl : ℕ
session_ttl = 12 * 3_600 * 1_000_000_000

pub record Credentials : Type 0 where
  pub username : String
  pub password : String

pub record Cookie : Type 0 where
  pub name : String
  pub value : String
  pub path : String
  pub http_only : Bool
  pub same_site_strict : Bool
  pub secure : Bool
  pub max_age : ℤ

abbrev pub unauthorized : {A : Type 0} → Reply A
unauthorized = http_err 401 (text "not authenticated")

module _ {F : Type 0} where
  -- the server that ServeAPI makes
  abbrev pub new_api_server : Hub F → ApiServer F
  new_api_server h = record { hub = h; sessions = []; login_tries = [] }

  abbrev pub valid_until : String → ℕ → ApiServer F → Option ℕ → Bool × ApiServer F
  valid_until tok now s none = (false, record s { sessions = delete tok s.sessions })
  valid_until tok now s (some exp) =
      if ltb exp now then (false, record s { sessions = delete tok s.sessions }) else (true, s)

  -- sessionValid
  unfoldable pub session_valid : String → ℕ → ApiServer F → Bool × ApiServer F
  session_valid tok now s = valid_until tok now s (lookup tok s.sessions)

  abbrev pub on_hub : {A : Type 0} → (Hub F → Reply A × Hub F) → ApiServer F → Reply A × ApiServer F
  on_hub next s = ((next s.hub).0, record s { hub = (next s.hub).1 })

  abbrev pub guarded :
      {A : Type 0} → (Hub F → Reply A × Hub F) → Bool × ApiServer F → Reply A × ApiServer F
  guarded next (false, s) = (unauthorized, s)
  guarded next (true, s) = on_hub next s

  -- auth, with the value of the cookie lp_session if there is one
  unfoldable pub auth :
      {A : Type 0}
      → Option String
      → ℕ
      → (Hub F → Reply A × Hub F)
      → ApiServer F
      → Reply A × ApiServer F
  unfolding session_valid
  auth none now next s = (unauthorized, s)
  auth (some tok) now next s = guarded next (session_valid tok now s)

  -- loginAllowed
  unfoldable pub login_allowed : String → ℕ → ApiServer F → Bool × ApiServer F
  login_allowed ip now s =
      let kept = keep_if (is_recent now) (tries_of (lookup ip s.login_tries)) in
      if leb 5 (length kept)
      then (false, record s { login_tries = insert ip kept s.login_tries })
      else (true, record s { login_tries = insert ip (kept ++ now ∷ []) s.login_tries })

  -- sessionCookie
  unfoldable pub session_cookie : String → ℤ → ApiServer F → Cookie
  session_cookie value max_age s = record {
    name = "lp_session";
    value = value;
    path = "/";
    http_only = true;
    same_site_strict = true;
    secure = s.hub.cfg.secure_cookie;
    max_age = max_age;
  }

-- the reply of a handler that sets a cookie
abbrev pub WithCookie : Type 0
WithCookie = Option Cookie × Reply Okay

module _ {F : Type 0} (lib : PasswordLib) where
  abbrev pub refuse : ℕ → String → ApiServer F → WithCookie × ApiServer F
  refuse code msg s = ((none, http_err code (text msg)), s)

  abbrev pub opened : String → ℕ → ApiServer F → Verdict → WithCookie × ApiServer F
  opened tok now s panicked = ((none, dropped), s)
  opened tok now s (returned false) = refuse 401 "invalid credentials" s
  opened tok now s (returned true) = (
    (some (session_cookie tok (pos (session_ttl / 1_000_000_000)) s), okay_reply),
    record s { sessions = insert tok (now + session_ttl) s.sessions },
  )

  abbrev pub checked :
      Credentials → String → ℕ → ApiServer F → Result StoreError String → WithCookie × ApiServer F
  checked c tok now s (err _) = refuse 401 "invalid credentials" s
  checked c tok now s (ok hash) = opened tok now s (verify_password lib c.password hash)

  abbrev pub login_if :
      Option Credentials → String → ℕ → Bool × ApiServer F → WithCookie × ApiServer F
  login_if body tok now (false, s) = refuse 429 "rate limited" s
  login_if none tok now (true, s) = refuse 400 "bad request" s
  login_if (some c) tok now (true, s) =
      checked c tok now s ((get_admin_hash c.username s.hub.store).0)

  -- login, with the source address, the body and the random token
  unfoldable pub login :
      String → Option Credentials → String → ℕ → ApiServer F → WithCookie × ApiServer F
  unfolding login_allowed get_admin_hash session_cookie verify_password
  login ip body tok now s = login_if body tok now (login_allowed ip now s)

module _ {F : Type 0} where
  abbrev pub closed : Option String → ApiServer F → ApiServer F
  closed none s = s
  closed (some tok) s = record s { sessions = delete tok s.sessions }

  -- logout, with the value of the cookie if there is one
  unfoldable pub logout : Option String → ApiServer F → WithCookie × ApiServer F
  unfolding session_cookie
  logout cookie s = ((some (session_cookie "" (negsuc 0) s), okay_reply), closed cookie s)
