-- ===== src/Api/Tests.antt =====
-- Concrete runs of the panel's API, internal/hub/api.go: the passwords, with a base64 that writes a
-- byte as so many letters.
mod Runs
use Prim.Native.Char.{Char, code}
use Prim.Native.String.{[] as empty, ◌∷◌ as text_cons}
use light_pn.Prelude.{
  ℕ, zero, suc, ◌+◌, String, ◌≡◌, ◌≢◌, refl, sym, ap, ◌∙◌, Bool, true, false, List, [], ◌∷◌, Option,
  none, some, arith, ◌==◌, if◌then◌else◌, ◌is◌, length, replicate,
}
use light_pn.Prelude.Letters.{letters, encode, decode_from, decode-encode}
use light_pn.Proto.{Bytes}
use light_pn.Api.Password.{
  dollar, split, onto_first, PasswordLib, returned, same_bytes, hash_password, verify_password,
}
use light_pn.Api.Password.Verified.{IsBase64, verify_password-hash_password}

split-letters :
    (b : ℕ) (s : String) → split dollar s ≡ s ∷ [] → split dollar (letters b s) ≡ letters b s ∷ []
unfolding letters split
split-letters zero s h = rw h refl
split-letters (suc b) s h = rw (split-letters b s h) refl

split-encode : (b : Bytes) → split dollar (encode b) ≡ encode b ∷ []
unfolding encode split
split-encode [] = refl
split-encode (b ∷ bs) = split-letters b (encode bs) (split-encode bs)

unfoldable pub password_lib : PasswordLib
unfolding encode decode_from
password_lib = record {
  id_key = λ password salt t m p n. some (replicate 32 (length password));
  encode = encode;
  decode = decode_from 0;
  bytes_of = λ s. if s is "secret" then [] else 1 ∷ [];
}

pub password_lib-IsBase64 : IsBase64 password_lib
unfolding IsBase64 password_lib
password_lib-IsBase64 b = (decode-encode b, split-encode b)

abbrev key : Bytes
key = replicate 32 0

abbrev other_key : Bytes
other_key = replicate 32 1

verify_password-hash_password_example :
    (phc : String) × (hash_password password_lib "secret" (some (1 ∷ 2 ∷ [])) ≡ some phc)
    × (other_key ≡ key → verify_password password_lib "guess" phc ≡ returned true)
    × (other_key ≢ key → verify_password password_lib "guess" phc ≡ returned false)
    × (verify_password password_lib "secret" phc ≡ returned true)
unfolding password_lib
verify_password-hash_password_example =
    verify_password-hash_password password_lib "secret" "guess" (1 ∷ 2 ∷ []) key other_key
      password_lib-IsBase64 refl refl refl
