-- ===== src/Agent/SvcCmd.antt =====
-- Sealed service commands: openSvcCmd of internal/agent/svccmd.go, with the checks of loadViewKey of
-- viewkey.go. base64, AES-GCM and encoding/json are parameters.
pub mod Replay
pub mod Respelled
use light_pn.Prelude.{
  ℕ, ◌+◌, String, Bool, true, false, not, ◌&&◌, ◌||◌, List, [], ◌∷◌, Option, none, some, Result, ok,
  err, ℤ, pos, sub_ℕ, ltb_ℤ, ◌==◌, if◌then◌else◌, ◌is◌, has, length, keep_if,
}
use light_pn.Prelude.Map.{Map, lookup, insert}
use light_pn.Proto.{Bytes, SvcActionData}

-- const svcCmdWindow
abbrev pub svc_cmd_window : ℕ
svc_cmd_window = 300

-- const viewKeyLen
abbrev pub view_key_len : ℕ
view_key_len = 32

pub record SvcCmd : Type 0 where
  pub action : String
  pub alias : String
  pub ts : ℤ

pub record ViewKey : Type 0 where
  pub kdf : String
  pub mem_kib : ℕ
  pub time : ℕ
  pub par : ℕ
  pub salt : String
  pub key : String

-- what a read of view.key can give
pub data KeyFile : Type 0 where
  absent unreadable : KeyFile
  content : Bytes → KeyFile

pub data SvcError : Type 0 where
  key_unreadable no_password malformed_key bad_nonce_encoding bad_ct_encoding : SvcError
  bad_nonce_length unauthenticated malformed_payload not_allowed expired replayed : SvcError

-- `unsealed key nonce ct` is AES-GCM's Open, `none` if the tag does not verify.
pub record Crypto : Type 0 where
  pub decode : String → Option Bytes
  pub nonce_size : ℕ
  pub unsealed : Bytes → Bytes → Bytes → Option Bytes
  pub unmarshal_key : Bytes → Option ViewKey
  pub unmarshal_cmd : Bytes → Option SvcCmd

-- svcActions
unfoldable pub is_action : String → Bool
is_action a = has (λ b. b is a) ("start" ∷ "stop" ∷ "restart" ∷ [])

abbrev pub checked_key : Option ViewKey → Result SvcError (Option ViewKey)
checked_key none = err key_unreadable
checked_key (some k) =
    if not (k.kdf is "argon2id") || k.salt is "" || k.key is ""
    then err key_unreadable
    else ok (some k)

-- loadViewKey
unfoldable pub load_view_key : Crypto → KeyFile → Result SvcError (Option ViewKey)
load_view_key c absent = ok none
load_view_key c unreadable = err key_unreadable
load_view_key c (content b) = checked_key (c.unmarshal_key b)

abbrev pub right_length : SvcError → ℕ → Option Bytes → Result SvcError Bytes
right_length e n none = err e
right_length e n (some b) = if length b == n then ok b else err e

-- the key material of openSvcCmd
unfoldable pub key_of : Crypto → KeyFile → Result SvcError Bytes
unfolding load_view_key
key_of c file = elim (load_view_key c file) [
  | err e ↦ err e
  | ok none ↦ err no_password
  | ok (some k) ↦ right_length malformed_key view_key_len (c.decode k.key)
]

-- cmd.TS < now-svcCmdWindow || cmd.TS > now+svcCmdWindow
unfoldable pub is_stale : ℤ → ℕ → Bool
is_stale ts now = ltb_ℤ ts (sub_ℕ now svc_cmd_window) || ltb_ℤ (pos (now + svc_cmd_window)) ts

abbrev pub allowed : Option SvcCmd → Result SvcError SvcCmd
allowed none = err malformed_payload
allowed (some cmd) = if is_action cmd.action then ok cmd else err not_allowed

abbrev pub decrypted : Crypto → Option Bytes → Result SvcError SvcCmd
decrypted c none = err unauthenticated
decrypted c (some plain) = allowed (c.unmarshal_cmd plain)

abbrev pub with_nonce : Crypto → Bytes → Bytes → Bytes → Result SvcError SvcCmd
with_nonce c key ct nonce =
    if length nonce == c.nonce_size
    then decrypted c (c.unsealed key nonce ct)
    else err bad_nonce_length

abbrev pub with_key : Crypto → SvcActionData → Result SvcError Bytes → Result SvcError SvcCmd
with_key c d (err e) = err e
with_key c d (ok key) = elim (c.decode d.nonce) [
  | none ↦ err bad_nonce_encoding
  | some nonce ↦ elim (c.decode d.ct) [
    | none ↦ err bad_ct_encoding
    | some ct ↦ with_nonce c key ct nonce
  ]
]

-- openSvcCmd up to the allow-list
unfoldable pub unseal : Crypto → KeyFile → SvcActionData → Result SvcError SvcCmd
unfolding key_of is_action
unseal c file d = with_key c d (key_of c file)

-- for iv, ts := range a.svcSeen { if ts < now-2*svcCmdWindow { delete(a.svcSeen, iv) } }
unfoldable pub prune_seen : ℕ → Map ℤ → Map ℤ
prune_seen now [] = []
prune_seen now ((iv, ts) ∷ m) =
    let rest = prune_seen now m in
    if ltb_ℤ ts (sub_ℕ now (svc_cmd_window + svc_cmd_window)) then rest else (iv, ts) ∷ rest

abbrev pub unless_seen : String → SvcCmd → Map ℤ → Option ℤ → Result SvcError SvcCmd × Map ℤ
unless_seen nonce cmd seen (some _) = (err replayed, seen)
unless_seen nonce cmd seen none = (ok cmd, insert nonce cmd.ts seen)

-- the freshness window and the replay cache
unfoldable pub accept : String → ℕ → Result SvcError SvcCmd → Map ℤ → Result SvcError SvcCmd × Map ℤ
unfolding is_stale prune_seen
accept nonce now (err e) seen = (err e, seen)
accept nonce now (ok cmd) seen =
    if is_stale cmd.ts now
    then (err expired, seen)
    else unless_seen nonce cmd (prune_seen now seen) (lookup nonce (prune_seen now seen))

-- openSvcCmd: the file is view.key, and the map a.svcSeen
unfoldable pub open_svc_cmd :
    Crypto → KeyFile → SvcActionData → ℕ → Map ℤ → Result SvcError SvcCmd × Map ℤ
unfolding unseal accept
open_svc_cmd c file d now seen = accept d.nonce now (unseal c file d) seen
