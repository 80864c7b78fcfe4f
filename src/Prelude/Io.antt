-- ===== src/Prelude/Io.antt =====
-- Calls that read or change a stream `S` and may fail with an `E`: the stream is handed on beside
-- the result, since an error does not give back what was read or written.
use mathlib.Core.Path.{◌≡◌, refl}
use light_pn.Prelude.Fallible.{Result, ok, err}

abbrev pub Io {ℓ} : Type ℓ → Type ℓ → Type ℓ → Type ℓ
Io E S A = S → Result E A × S

module _ {ℓ} {E S A : Type ℓ} where
  abbrev pub return : A → Io E S A
  return a s = (ok a, s)

  abbrev pub fail : E → Io E S A
  fail e s = (err e, s)

module _ {ℓ} {E S A B : Type ℓ} where
  abbrev pub and_then : Result E A × S → (A → Io E S B) → Result E B × S
  and_then (ok a, s) f = f a s
  and_then (err e, s) f = (err e, s)

  infixl 5 ◌>>=◌ ◌>>◌
  abbrev pub ◌>>=◌ : Io E S A → (A → Io E S B) → Io E S B
  ◌>>=◌ m f s = and_then (m s) f

  abbrev pub ◌>>◌ : Io E S A → Io E S B → Io E S B
  ◌>>◌ m f s = and_then (m s) (λ _. f)

  -- The inversion of a successful chain.
  pub and_then-ok :
      (p : Result E A × S) (f : A → Io E S B) {b : B} {t : S}
      → and_then p f ≡ (ok b, t)
      → (a : A) × (s : S) × (p ≡ (ok a, s)) × (f a s ≡ (ok b, t))
  and_then-ok (ok a, s) f h = (a, s, refl, h)
  and_then-ok (err e, s) f h = cc
