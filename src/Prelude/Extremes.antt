-- ===== src/Prelude/Extremes.antt =====
-- The least and the greatest item of a list, piece by piece.
use mathlib.Core.Path.{◌≡◌, refl, ap, ◌∙◌}
use mathlib.Core.Logic.{inl, inr}
use mathlib.Core.Bool.{true}
use mathlib.Core.Option.{Option, none, some}
use mathlib.Core.List.{List, [], ◌∷◌, ◌++◌, foldl, foldl-append, append-nil}
use native.Mathlib.Omega.{arith}
use triodion.Prelude.Order.{Ord, min_of, max_of, minimum, maximum}

-- An empty part says nothing.
abbrev pub merge_with : {A : Type 0} → (A → A → A) → Option A → Option A → Option A
merge_with f none b = b
merge_with f (some a) none = some a
merge_with f (some a) (some b) = some (f a b)

module _ {A : Type 0} ⦃o : Ord A⦄ where
  at_most_refl : (a : A) → o.at_most a a ≡ true
  at_most_refl a = elim (o.total a a) [ inl h ↦ h | inr h ↦ h ]

  pub min_of_assoc : (a b c : A) → min_of (min_of a b) c ≡ min_of a (min_of b c)
  min_of_assoc a b c = ground (
    arith,
    o.total a b,
    o.total b c,
    o.total a c,
    o.antisym a b,
    o.antisym b c,
    o.antisym a c,
    o.trans a b c,
    o.trans c b a,
    o.trans b a c,
    o.trans c a b,
    o.trans a c b,
    o.trans b c a,
  )

  pub max_of_assoc : (a b c : A) → max_of (max_of a b) c ≡ max_of a (max_of b c)
  max_of_assoc a b c = ground (
    arith,
    o.total a b,
    o.total b c,
    o.total a c,
    o.antisym a b,
    o.antisym b c,
    o.antisym a c,
    o.trans a b c,
    o.trans c b a,
    o.trans b a c,
    o.trans c a b,
    o.trans a c b,
    o.trans b c a,
  )

  -- a fold by an associative operation, from a first item
  foldl_merge :
      (f : A → A → A)
      → ((a b c : A) → f (f a b) c ≡ f a (f b c))
      → (a b : A) (xs : List A) → foldl f (f a b) xs ≡ f a (foldl f b xs)
  foldl_merge f assoc a b [] = refl
  foldl_merge f assoc a b (x ∷ xs) = rw (assoc a b x) (foldl_merge f assoc a (f b x) xs)

  pub minimum-append :
      (xs ys : List A) → minimum (xs ++ ys) ≡ merge_with min_of (minimum xs) (minimum ys)
  unfolding minimum
  minimum-append [] ys = refl
  minimum-append (x ∷ xs) [] = rw append-nil
  minimum-append (x ∷ xs) (y ∷ ys) =
      ap some (
        foldl-append min_of x xs (y ∷ ys)
        ∙ foldl_merge min_of min_of_assoc (foldl min_of x xs) y ys)

  pub maximum-append :
      (xs ys : List A) → maximum (xs ++ ys) ≡ merge_with max_of (maximum xs) (maximum ys)
  unfolding maximum
  maximum-append [] ys = refl
  maximum-append (x ∷ xs) [] = rw append-nil
  maximum-append (x ∷ xs) (y ∷ ys) =
      ap some (
        foldl-append max_of x xs (y ∷ ys)
        ∙ foldl_merge max_of max_of_assoc (foldl max_of x xs) y ys)
