-- ===== src/Metrics/Window.antt =====
-- Range answers with the samples of the window, each once, oldest first.
use mathlib.Core.List.{Perm, perm_middle, reverse_aux, append-nil, reverse_perm}
use mathlib.Core.List.Perm
use light_pn.Prelude.{
  ◌≡◌, String, List, [], ◌∷◌, ◌++◌, some, arith, ℤ, ◌≤ℤ◌, ltb_ℤ, keep_if, All, All-map, Bool-cases,
  inl, inr,
}
use light_pn.Prelude.Map.{lookup}
use light_pn.Metrics.{
  Sample, NodeRing, Metrics, move_left, sort_from, sort_samples, in_window, range,
}

module _ {F : Type 0} where
  -- no sample of the list is later than `s`
  abbrev AllUpTo : Sample F → List (Sample F) → Type 0
  AllUpTo s = All (λ t. t.ts ≤ℤ s.ts)

  -- latest first
  abbrev Falling : List (Sample F) → Type 0
  Falling [] = Unit
  Falling (s ∷ ss) = AllUpTo s ss × Falling ss

  -- oldest first
  abbrev pub Rising : List (Sample F) → Type 0
  Rising [] = Unit
  Rising (s ∷ ss) = All (λ (t : Sample F). s.ts ≤ℤ t.ts) ss × Rising ss

  AllUpTo-trans :
      (s t : Sample F) (ss : List (Sample F)) → s.ts ≤ℤ t.ts → AllUpTo s ss → AllUpTo t ss
  AllUpTo-trans s t ss h a = All-map ss (λ x p. omega arith) a

  All-move_left :
      (P : Sample F → Type 0) (s : Sample F) (ts : List (Sample F))
      → P s
      → All P ts
      → All P (move_left s ts)
  unfolding move_left
  All-move_left P s [] p a = (p, tt)
  All-move_left P s (t ∷ ts) p a = elim (Bool-cases (ltb_ℤ s.ts t.ts)) [
    | inl e ↦ rw e (a.0, All-move_left P s ts p a.1)
    | inr e ↦ rw e (p, a)
  ]

  move_left-Falling : (s : Sample F) (ts : List (Sample F)) → Falling ts → Falling (move_left s ts)
  unfolding move_left
  move_left-Falling s [] f = (tt, tt)
  move_left-Falling s (t ∷ ts) f = elim (Bool-cases (ltb_ℤ s.ts t.ts)) [
    | inl e ↦
        rw e (All-move_left (λ x. x.ts ≤ℤ t.ts) s ts (ground arith) f.0, move_left-Falling s ts f.1)
    | inr e ↦ let le : t.ts ≤ℤ s.ts = ground arith in rw e ((le, AllUpTo-trans t s ts le f.0), f)
  ]

  move_left-perm : (s : Sample F) (ts : List (Sample F)) → Perm (s ∷ ts) (move_left s ts)
  unfolding move_left
  move_left-perm s [] = Perm.refl _
  move_left-perm s (t ∷ ts) = elim (Bool-cases (ltb_ℤ s.ts t.ts)) [
    | inl e ↦ rw e (Perm.trans (Perm.swap t s ts) (Perm.cons t (move_left-perm s ts)))
    | inr e ↦ rw e (Perm.refl _)
  ]

  All-both :
      (P Q : Sample F → Type 0) (xs : List (Sample F))
      → All P xs
      → All Q xs
      → All (λ x. P x × Q x) xs
  All-both P Q [] a b = tt
  All-both P Q (x ∷ xs) a b = ((a.0, b.0), All-both P Q xs a.1 b.1)

  reverse_aux-Rising :
      (l r : List (Sample F))
      → Falling l
      → Rising r
      → All (λ (x : Sample F). All (λ (y : Sample F). x.ts ≤ℤ y.ts) r) l
      → Rising (reverse_aux l r)
  reverse_aux-Rising [] r f g c = g
  reverse_aux-Rising (x ∷ l) r f g c =
      reverse_aux-Rising l (x ∷ r) f.1 (c.0, g) (All-both (λ y. y.ts ≤ℤ x.ts) _ l f.0 c.1)

  nothing_after :
      (l : List (Sample F)) → All (λ (x : Sample F). All (λ (y : Sample F). x.ts ≤ℤ y.ts) []) l
  nothing_after [] = tt
  nothing_after (x ∷ l) = (tt, nothing_after l)

  sort_from-Rising :
      (sorted rest : List (Sample F)) → Falling sorted → Rising (sort_from sorted rest)
  unfolding sort_from
  sort_from-Rising sorted [] f = reverse_aux-Rising sorted [] f tt (nothing_after sorted)
  sort_from-Rising sorted (s ∷ rest) f =
      sort_from-Rising (move_left s sorted) rest (move_left-Falling s sorted f)

  sort_from-perm : (sorted rest : List (Sample F)) → Perm (sorted ++ rest) (sort_from sorted rest)
  unfolding sort_from
  sort_from-perm sorted [] = rw append-nil (Perm.symm (reverse_perm sorted))
  sort_from-perm sorted (s ∷ rest) = Perm.trans (perm_middle sorted rest) (
      Perm.trans (Perm.append (move_left-perm s sorted) (Perm.refl rest))
        (sort_from-perm (move_left s sorted) rest))

-- For a node with a ring, Range answers with the slots whose time lies in the window, each as
-- often as the ring holds it, and in the order of their times.
pub range-sorted :
    {F : Type 0} (id : String) (from to : ℤ) (m : Metrics F) (r : NodeRing F)
    → lookup id m ≡ some r
    → Rising (range id from to m) × Perm (keep_if (in_window from to) r.slots) (range id from to m)
unfolding range sort_samples
range-sorted id from to m r e =
    rw (e, range)
      (
        sort_from-Rising [] (keep_if (in_window from to) r.slots) tt,
        sort_from-perm [] (keep_if (in_window from to) r.slots),
      )
