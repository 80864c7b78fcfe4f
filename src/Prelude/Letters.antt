-- ===== src/Prelude/Letters.antt =====
-- A way to write bytes as a text and to read them back: a byte is so many letters a and a b. It stands
-- for base64 where an encoder is needed.
use Prim.Native.Nat.{ℕ, zero, suc, ◌+◌}
use Prim.Native.Char.{code}
use Prim.Native.String.{String, [] as empty, ◌∷◌ as text_cons}
use mathlib.Core.Path.{◌≡◌, refl, ap, ◌∙◌}
use mathlib.Core.List.{List, [], ◌∷◌}
use mathlib.Core.Option.{Option, none, some}
use native.Mathlib.Omega.{arith}
use light_pn.Prelude.Tests.{◌==◌, if◌then◌else◌}

abbrev Bytes : Type 0
Bytes = List ℕ

unfoldable pub letters : ℕ → String → String
letters zero s = text_cons "b" s
letters (suc n) s = text_cons "a" (letters n s)

unfoldable pub encode : Bytes → String
unfolding letters
encode [] = empty
encode (b ∷ bs) = letters b (encode bs)

abbrev add_byte : ℕ → Option Bytes → Option Bytes
add_byte n none = none
add_byte n (some bs) = some (n ∷ bs)

unfoldable pub decode_from : ℕ → String → Option Bytes
decode_from n empty = some []
decode_from n (text_cons c s) =
    let more = decode_from (suc n) s in
    let rest = add_byte n (decode_from 0 s) in if code c == 97 then more else rest

decode_from-letters :
    (n b : ℕ) (s : String) → decode_from n (letters b s) ≡ add_byte (n + b) (decode_from 0 s)
unfolding letters decode_from
decode_from-letters n zero s = ap (λ k. add_byte k (decode_from 0 s)) (omega arith)
decode_from-letters n (suc b) s =
    decode_from-letters (suc n) b s ∙ ap (λ k. add_byte k (decode_from 0 s)) (omega arith)

pub decode-encode : (b : Bytes) → decode_from 0 (encode b) ≡ some b
unfolding encode decode_from
decode-encode [] = refl
decode-encode (b ∷ bs) =
    decode_from-letters 0 b (encode bs)
    ∙ ap (add_byte (0 + b)) (decode-encode bs)
    ∙ ap (λ n. some (n ∷ bs)) (omega arith)
