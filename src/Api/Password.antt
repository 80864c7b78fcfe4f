-- ===== src/Api/Password.antt =====
-- Password hashing, internal/hub/api.go: HashPassword, VerifyPassword and fmtSscanParams. Argon2 and
-- base64 are parameters; strings.Split, strings.Cut and strconv.ParseUint are written out.
pub mod Verified
use Prim.Native.Char.{Char, code}
use Prim.Native.String.{[] as empty, ◌∷◌ as text_cons, ◌++◌ as text_append}
use light_pn.Prelude.{
  ℕ, ◌+◌, ◌-◌, ◌*◌, ◌%◌, ◌^◌, String, Bool, true, false, not, ◌&&◌, ◌||◌, List, [], ◌∷◌, Option,
  none, some, ltb, leb, ◌==◌, if◌then◌else◌, ◌is◌, length,
}
use light_pn.Proto.{Bytes}

-- the characters that the code splits at
abbrev pub dollar : ℕ
dollar = 36

abbrev pub comma : ℕ
comma = 44

abbrev pub equals : ℕ
equals = 61

abbrev pub onto_first : Char → List String → List String
onto_first c [] = text_cons c empty ∷ []
onto_first c (s ∷ ss) = text_cons c s ∷ ss

-- strings.Split at one character
unfoldable pub split : ℕ → String → List String
split k empty = empty ∷ []
split k (text_cons c s) =
    let rest = split k s in if code c == k then empty ∷ rest else onto_first c rest

abbrev pub after_char : Char → Option (String × String) → Option (String × String)
after_char c none = none
after_char c (some (a, b)) = some (text_cons c a, b)

-- strings.Cut at one character, `none` if it does not occur
unfoldable pub cut : ℕ → String → Option (String × String)
cut k empty = none
cut k (text_cons c s) =
    let rest = cut k s in if code c == k then some (empty, s) else after_char c rest

abbrev is_digit : Char → Bool
is_digit c = leb 48 (code c) && leb (code c) 57

-- the digits of a number, after those read so far
unfoldable pub digits : ℕ → String → Option ℕ
digits n empty = some n
digits n (text_cons c s) =
    let rest = digits (n * 10 + (code c - 48)) s in if is_digit c then rest else none

abbrev fits_32 : Option ℕ → Option ℕ
fits_32 none = none
fits_32 (some n) = if ltb n (2 ^ 32) then some n else none

-- strconv.ParseUint(s, 10, 32)
unfoldable pub parse_uint : String → Option ℕ
unfolding digits
parse_uint s = if s is "" then none else fits_32 (digits 0 s)

-- the numbers m, t and p of the parameter field
pub record Params : Type 0 where
  pub m : ℕ
  pub t : ℕ
  pub p : ℕ

-- the switch on the key
abbrev put : String → ℕ → Params → Params
put k n q =
    if k is "m"
    then record q { m = n }
    else if k is "t"
    then record q { t = n }
    else if k is "p"
    then record q { p = n % 256 }
    else q

abbrev put_parsed : String → Option ℕ → Params → Option Params
put_parsed k none q = none
put_parsed k (some n) q = some (put k n q)

abbrev put_pair : Option (String × String) → Params → Option Params
put_pair none q = none
put_pair (some (k, v)) q = put_parsed k (parse_uint v) q

-- the loop of fmtSscanParams over the pairs
unfoldable pub scan_pairs : List String → Params → Option Params
unfolding cut parse_uint digits
scan_pairs [] q = some q
scan_pairs (kv ∷ kvs) q = elim (put_pair (cut equals kv) q) [
  | none ↦ none
  | some r ↦ scan_pairs kvs r
]

-- fmtSscanParams, from variables that start at 0
unfoldable pub scan_params : String → Option Params
unfolding split scan_pairs
scan_params s = scan_pairs (split comma s) (record { m = 0; t = 0; p = 0 })

-- `id_key password salt time memory threads length` is argon2.IDKey, `none` where it panics (no pass or
-- no thread); the base64 is RawStdEncoding, and `bytes_of` gives the bytes of a text.
pub record PasswordLib : Type 0 where
  pub id_key : Bytes → Bytes → ℕ → ℕ → ℕ → ℕ → Option Bytes
  pub encode : Bytes → String
  pub decode : String → Option Bytes
  pub bytes_of : String → Bytes

-- what VerifyPassword does: it returns a Boolean, or panics
pub data Verdict : Type 0 where
  returned : Bool → Verdict
  panicked : Verdict

-- subtle.ConstantTimeCompare(a, b) == 1
unfoldable pub same_bytes : Bytes → Bytes → Bool
same_bytes [] [] = true
same_bytes [] (b ∷ ys) = false
same_bytes (a ∷ xs) [] = false
same_bytes (a ∷ xs) (b ∷ ys) = let rest = same_bytes xs ys in a == b && rest

module _ (lib : PasswordLib) where
  abbrev pub phc_of : Bytes → Bytes → String
  phc_of salt key =
      text_append "$argon2id$v=19$m=65536,t=3,p=2$"
        (text_append (lib.encode salt) (text_append "$" (lib.encode key)))

  -- HashPassword, with the salt that was read from the random source (`none` if that failed)
  unfoldable pub hash_password : String → Option Bytes → Option String
  hash_password password none = none
  hash_password password (some salt) =
      elim (lib.id_key (lib.bytes_of password) salt 3 65_536 2 32) [
        | none ↦ none
        | some key ↦ some (phc_of salt key)
      ]

  abbrev compared : Bytes → Option Bytes → Verdict
  compared want none = panicked
  compared want (some got) = returned (same_bytes got want)

  abbrev derived : String → Params → Option Bytes → Option Bytes → Verdict
  derived password q none want = returned false
  derived password q (some salt) none = returned false
  derived password q (some salt) (some want) =
      compared want (lib.id_key (lib.bytes_of password) salt q.t q.m q.p (length want))

  abbrev scanned : String → String → String → Option Params → Verdict
  scanned password salt key none = returned false
  scanned password salt key (some q) = derived password q (lib.decode salt) (lib.decode key)

  -- the six fields of the hash
  unfoldable pub verify_parts : String → List String → Verdict
  unfolding scan_params same_bytes
  verify_parts password (_ ∷ name ∷ _ ∷ params ∷ salt ∷ key ∷ []) =
      if name is "argon2id" then scanned password salt key (scan_params params) else returned false
  verify_parts password _ = returned false

  -- VerifyPassword
  unfoldable pub verify_password : String → String → Verdict
  unfolding split verify_parts
  verify_password password phc = verify_parts password (split dollar phc)
