-- ===== src/Store/Valid/Tables.antt =====
-- How the shapes of statement (append, update, delete) act on the table predicates.
use light_pn.Prelude.{
  String, ◌≡◌, refl, ◌∙◌, ap, Bool, true, false, not, ◌&&◌, ◌||◌, List, [], ◌∷◌, ◌++◌, ◌is◌, is_sym,
  has, All, keep_if, arith, if◌then◌else◌, Bool-cases, inl, inr,
}
use light_pn.Store.{Link, update_where}
use light_pn.Store.Links.{same_pair}
use light_pn.Store.Valid.{Distinct, DistinctPairs}

module _ {ℓ} {A : Type ℓ} where
  pub has-append : (p : A → Bool) (xs ys : List A) → has p (xs ++ ys) ≡ (has p xs || has p ys)
  has-append p [] ys = refl
  has-append p (x ∷ xs) ys = ground (arith, has-append p xs ys)

  pub has-keep_if : (p q : A → Bool) (xs : List A) → has p xs ≡ false → has p (keep_if q xs) ≡ false
  has-keep_if p q [] h = refl
  has-keep_if p q (x ∷ xs) h = ground (arith, has-keep_if p q xs)

  -- A test that the update does not change is not changed by the update.
  pub has-update_where :
      (p q : A → Bool) (f : A → A) (xs : List A)
      → ((a : A) → p (f a) ≡ p a)
      → has p (update_where q f xs) ≡ has p xs
  unfolding update_where
  has-update_where p q f [] same = refl
  has-update_where p q f (x ∷ xs) same = ground (arith, has-update_where p q f xs same, same x)

  pub All-update_where {κ} :
      (P : A → Type κ) (q : A → Bool) (f : A → A) (xs : List A)
      → ((a : A) → q a ≡ true → P a → P (f a))
      → All P xs
      → All P (update_where q f xs)
  unfolding update_where
  All-update_where P q f [] step h = tt
  All-update_where P q f (x ∷ xs) step h = (
    elim (Bool-cases (q x)) [ inl e ↦ rw e (step x e h.0) | inr e ↦ rw e h.0 ],
    All-update_where P q f xs step h.1,
  )

module _ {ℓ} {A : Type ℓ} (f : A → String) where
  pub Distinct-append :
      (xs : List A) (x : A)
      → has (λ y. f y is f x) xs ≡ false
      → Distinct f xs
      → Distinct f (xs ++ x ∷ [])
  Distinct-append [] x h d = (refl, tt)
  Distinct-append (y ∷ ys) x h d = (
    ground (arith, has-append (λ z. f z is f y) ys (x ∷ []), is_sym (f x) (f y)),
    Distinct-append ys x (ground arith) d.1,
  )

  pub Distinct-keep_if : (q : A → Bool) (xs : List A) → Distinct f xs → Distinct f (keep_if q xs)
  Distinct-keep_if q [] d = tt
  Distinct-keep_if q (x ∷ xs) d = elim (Bool-cases (q x)) [
    | inl e ↦ rw e (has-keep_if (λ y. f y is f x) q xs d.0, Distinct-keep_if q xs d.1)
    | inr e ↦ rw e (Distinct-keep_if q xs d.1)
  ]

  -- An update that keeps the column keeps it distinct.
  pub Distinct-update_where :
      (q : A → Bool) (g : A → A) (xs : List A)
      → ((a : A) → f (g a) ≡ f a)
      → Distinct f xs
      → Distinct f (update_where q g xs)
  unfolding update_where
  Distinct-update_where q g [] same d = tt
  Distinct-update_where q g (x ∷ xs) same d = (
    rw (kept (q x))
        (has-update_where (λ y. f y is f x) q g xs (λ a. ap (λ t. t is f x) (same a)) ∙ d.0),
    Distinct-update_where q g xs same d.1,
  )
    where
      kept : (b : Bool) → f (if b then g x else x) ≡ f x
      kept true = same x
      kept false = refl

module _ {ℓ} {A : Type ℓ} where
  pub update_where-none :
      (q : A → Bool) (f : A → A) (xs : List A) → has q xs ≡ false → update_where q f xs ≡ xs
  unfolding update_where
  update_where-none q f [] h = refl
  update_where-none q f (x ∷ xs) h = ground (arith, update_where-none q f xs)

  pub has_split :
      (p q : A → Bool) (xs : List A)
      → has p xs ≡ false
      → has (λ y. not (p y) && q y) xs ≡ false
      → has q xs ≡ false
  has_split p q [] h k = refl
  has_split p q (x ∷ xs) h k = ground (arith, has_split p q xs)

pub DistinctPairs-append :
    (ls : List Link) (l : Link)
    → has (same_pair l.a l.b) ls ≡ false
    → DistinctPairs ls
    → DistinctPairs (ls ++ l ∷ [])
DistinctPairs-append [] l h d = (refl, tt)
DistinctPairs-append (k ∷ ks) l h d = (
  ground (arith, has-append (same_pair k.a k.b) ks (l ∷ []), is_sym k.a l.a, is_sym k.b l.b),
  DistinctPairs-append ks l (ground arith) d.1,
)

pub DistinctPairs-keep_if :
    (q : Link → Bool) (ls : List Link) → DistinctPairs ls → DistinctPairs (keep_if q ls)
DistinctPairs-keep_if q [] d = tt
DistinctPairs-keep_if q (l ∷ ls) d = elim (Bool-cases (q l)) [
  | inl e ↦ rw e (has-keep_if (same_pair l.a l.b) q ls d.0, DistinctPairs-keep_if q ls d.1)
  | inr e ↦ rw e (DistinctPairs-keep_if q ls d.1)
]

pub DistinctPairs-update_where :
    (q : Link → Bool) (exit : String) (ls : List Link)
    → DistinctPairs ls
    → DistinctPairs (update_where q (λ x. record x { exit_node = exit }) ls)
unfolding update_where
DistinctPairs-update_where q exit [] d = tt
DistinctPairs-update_where q exit (l ∷ ls) d = (
  ground (
    arith,
    has-update_where (same_pair l.a l.b) q (λ x. record x { exit_node = exit }) ls (λ x. refl),
  ),
  DistinctPairs-update_where q exit ls d.1,
)
