-- ===== src/Prelude/Texts.antt =====
-- The order of texts that sort.Strings uses: of two different texts one comes first.
use Prim.Native.Nat.{ℕ, Ordering, compare as compare_ℕ}
use Prim.Native.Char.{code}
use Prim.Native.String.{String, [], ◌∷◌, compare, then}
use Prim.Native.String.compare
use mathlib.Core.Path.{◌≡◌, refl}
use mathlib.Core.Bool.{true, false}
use native.Mathlib.Omega.{arith}
use text.Mathlib.Text.{is_lt, is_eq}

abbrev flip : Ordering → Ordering
flip Ordering.lt = Ordering.gt
flip Ordering.eq = Ordering.eq
flip Ordering.gt = Ordering.lt

flip_numbers : (m n : ℕ) → compare_ℕ m n ≡ flip (compare_ℕ n m)
flip_numbers m n = ground arith

flip-then : (a b : Ordering) → then (flip a) (flip b) ≡ flip (then a b)
flip-then Ordering.lt b = refl
flip-then Ordering.eq b = refl
flip-then Ordering.gt b = refl

flip_texts : (s t : String) → compare s t ≡ flip (compare t s)
flip_texts [] [] = refl
flip_texts [] (d ∷ t) = rw (compare.nil-cons d t, compare.cons-nil d t)
flip_texts (c ∷ s) [] = rw (compare.nil-cons c s, compare.cons-nil c s)
flip_texts (c ∷ s) (d ∷ t) =
    rw
      (
        compare.cons-cons c d s t,
        compare.cons-cons d c t s,
        flip_numbers (code c) (code d),
        flip_texts s t,
      )
      (flip-then (compare_ℕ (code d) (code c)) (compare t s))

pub lt_of_not-lt :
    (s t : String)
    → is_eq (compare s t) ≡ false
    → is_lt (compare t s) ≡ false
    → is_lt (compare s t) ≡ true
lt_of_not-lt s t h k = ground (arith, flip_texts s t)

pub is_lt-asym : (s t : String) → is_lt (compare s t) ≡ true → is_lt (compare t s) ≡ false
is_lt-asym s t h = ground (arith, flip_texts s t)
