-- ===== src/Api/Password/Verified.antt =====
-- VerifyPassword accepts what HashPassword made: internal/hub/api.go.
use Prim.Native.Char.{Char, code}
use Prim.Native.String.{[] as empty, ◌∷◌ as text_cons, ◌++◌ as text_append}
use Prim.Native.String.append
use text.Mathlib.TextLemmas.{append-nil}
use light_pn.Prelude.{
  ℕ, String, ◌≡◌, ◌≢◌, refl, sym, ap, ◌∙◌, true, false, List, [], ◌∷◌, some, arith, ◌==◌, ==_iff,
  length, Bool-cases, inl, inr,
}
use light_pn.Proto.{Bytes}
use light_pn.Api.Password.{
  dollar, onto_first, split, PasswordLib, returned, same_bytes, hash_password, verify_parts,
  verify_password, phc_of,
}

-- the pieces of a text followed by those of another
abbrev prefixed : String → List String → List String
prefixed x [] = x ∷ []
prefixed x (y ∷ ys) = text_append x y ∷ ys

abbrev glue : List String → List String → List String
glue [] ys = ys
glue (x ∷ []) ys = prefixed x ys
glue (x ∷ x' ∷ xs) ys = x ∷ glue (x' ∷ xs) ys

-- there is always a first piece
split-cons : (k : ℕ) (s : String) → (x : String) × (xs : List String) × (split k s ≡ x ∷ xs)
unfolding split
split-cons k empty = (empty, [], refl)
split-cons k (text_cons c s) =
    let (x, xs, e) = split-cons k s in
    elim (Bool-cases (code c == k)) [
      | inl h ↦ (empty, split k s, rw h refl)
      | inr h ↦ (text_cons c x, xs, rw (h, e) refl)
    ]

glue-onto_first :
    (c : Char) (x : String) (xs ys : List String)
    → glue (onto_first c (x ∷ xs)) ys ≡ onto_first c (glue (x ∷ xs) ys)
glue-onto_first c x [] [] = refl
glue-onto_first c x [] (y ∷ ys) = ap (λ s. s ∷ ys) (append.cons c x y)
glue-onto_first c x (x' ∷ xs) ys = refl

split-append : (k : ℕ) (a b : String) → split k (text_append a b) ≡ glue (split k a) (split k b)
unfolding split
split-append k empty b = let (y, ys, e) = split-cons k b in rw (append.nil b, e, append.nil y) refl
split-append k (text_cons c a) b =
    let (x, xs, e) = split-cons k a in
    elim (Bool-cases (code c == k)) [
      | inl h ↦ rw (append.cons c a b, split, h, split-append k a b, e) refl
      | inr h ↦
          rw (append.cons c a b, split, h, split-append k a b, e)
            (sym (glue-onto_first c x xs (split k b)))
    ]

module _ (lib : PasswordLib) where
  -- base64 reads back what it wrote, and writes no '$'
  unfoldable pub IsBase64 : Type 0
  IsBase64 =
      (b : Bytes)
      → (lib.decode (lib.encode b) ≡ some b) × (split dollar (lib.encode b) ≡ lib.encode b ∷ [])

  split-hash :
      (salt key : Bytes)
      → IsBase64
      → split dollar (
          text_append "$argon2id$v=19$m=65536,t=3,p=2$"
            (text_append (lib.encode salt) (text_append "$" (lib.encode key))))
        ≡ "" ∷ "argon2id" ∷ "v=19" ∷ "m=65536,t=3,p=2" ∷ lib.encode salt ∷ lib.encode key ∷ []
  unfolding split IsBase64
  split-hash salt key b64 =
      rw
        (
          split-append dollar "$argon2id$v=19$m=65536,t=3,p=2$"
              (text_append (lib.encode salt) (text_append "$" (lib.encode key))),
          split-append dollar (lib.encode salt) (text_append "$" (lib.encode key)),
          split-append dollar "$" (lib.encode key),
          (b64 salt).1,
          (b64 key).1,
          append.nil (lib.encode key),
          append-nil (lib.encode salt),
          append.nil (lib.encode salt),
        )
        refl

  -- the check of a hash with a key that has 32 bytes
  verify-phc :
      (password : String) (salt key got : Bytes)
      → IsBase64
      → lib.id_key (lib.bytes_of password) salt 3 65_536 2 (length key) ≡ some got
      → verify_password lib password (phc_of lib salt key) ≡ returned (same_bytes got key)
  unfolding verify_password verify_parts IsBase64
  verify-phc password salt key got b64 k =
      rw (split-hash salt key b64, verify_parts, (b64 salt).0, (b64 key).0, k) refl

same_bytes_self : (b : Bytes) → same_bytes b b ≡ true
unfolding same_bytes
same_bytes_self [] = refl
same_bytes_self (x ∷ xs) = ground (arith, same_bytes_self xs)

same_bytes-true : (a b : Bytes) → same_bytes a b ≡ true → a ≡ b
unfolding same_bytes
same_bytes-true [] [] h = refl
same_bytes-true [] (y ∷ b) h = cc h
same_bytes-true (x ∷ a) [] h = cc h
same_bytes-true (x ∷ a) (y ∷ b) h = ground (arith, same_bytes-true a b, ==_iff x y, h)

same_bytes-false : (a b : Bytes) → a ≢ b → same_bytes a b ≡ false
same_bytes-false a b n = elim (Bool-cases (same_bytes a b)) [
  | inl e ↦ absurd (n (same_bytes-true a b e))
  | inr e ↦ e
]

-- Against the hash of a password, VerifyPassword accepts another one if Argon2 derives the same key
-- from it with the salt of the hash, so also the password itself, and refuses it if the key differs;
-- if Argon2 gives keys of the 32 bytes asked for, and base64 reads back what it writes, without a
-- dollar sign.
pub verify_password-hash_password :
    (lib : PasswordLib) (password other : String) (salt key key' : Bytes)
    → IsBase64 lib
    → lib.id_key (lib.bytes_of password) salt 3 65_536 2 32 ≡ some key
    → lib.id_key (lib.bytes_of other) salt 3 65_536 2 32 ≡ some key'
    → length key ≡ 32
    → (phc : String) × (hash_password lib password (some salt) ≡ some phc)
      × (key' ≡ key → verify_password lib other phc ≡ returned true)
      × (key' ≢ key → verify_password lib other phc ≡ returned false)
      × (verify_password lib password phc ≡ returned true)
unfolding hash_password
verify_password-hash_password lib password other salt key key' b64 k k' n =
    let checked = verify-phc lib other salt key key' b64 (rw n k') in
    (
      phc_of lib salt key,
      rw (hash_password, k) refl,
      λ e. checked ∙ ap returned (ap (λ x. same_bytes x key) e ∙ same_bytes_self key),
      λ e. checked ∙ ap returned (same_bytes-false key' key e),
      verify-phc lib password salt key key b64 (rw n k) ∙ ap returned (same_bytes_self key),
    )
