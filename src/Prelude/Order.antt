-- ===== src/Prelude/Order.antt =====
-- `std::cmp::Ord`: total orders as instances, with `min` and `max` of the standard library.
use Prim.Native.Nat.{ℕ}
use mathlib.Core.Path.{◌≡◌, refl}
use mathlib.Core.Logic.{◌⊎◌, inl, inr}
use mathlib.Core.Bool.{Bool, true, false}
use mathlib.Core.Option.{Option, none, some}
use mathlib.Core.List.{List, [], ◌∷◌, foldl}
use native.Mathlib.Omega.{arith}
use triodion.Prelude.Tests.{leb, ltb, if◌then◌else◌}

pub record Ord (A : Type 0) : Type 0 where
  pub at_most : A → A → Bool
  pub total : (a b : A) → (at_most a b ≡ true) ⊎ (at_most b a ≡ true)
  pub antisym : (a b : A) → at_most a b ≡ true → at_most b a ≡ true → a ≡ b
  pub trans : (a b c : A) → at_most a b ≡ true → at_most b c ≡ true → at_most a c ≡ true

pub leb_total : (a b : ℕ) → (leb a b ≡ true) ⊎ (leb b a ≡ true)
leb_total a b = ground arith

pub leb_antisym : (a b : ℕ) → leb a b ≡ true → leb b a ≡ true → a ≡ b
leb_antisym a b h k = ground arith

pub leb_trans : (a b c : ℕ) → leb a b ≡ true → leb b c ≡ true → leb a c ≡ true
leb_trans a b c h k = ground arith

instance abbrev pub nat_ord : Ord ℕ
nat_ord = record { at_most = leb; total = leb_total; antisym = leb_antisym; trans = leb_trans }

-- Slices of bytes: lexicographic order, a prefix first.
abbrev pub Bytes : Type 0
Bytes = List ℕ

unfoldable pub bytes_at_most : Bytes → Bytes → Bool
bytes_at_most [] ys = true
bytes_at_most (x ∷ xs) [] = false
bytes_at_most (x ∷ xs) (y ∷ ys) =
    let rest = bytes_at_most xs ys in if ltb x y then true else if ltb y x then false else rest

pub bytes_total : (a b : Bytes) → (bytes_at_most a b ≡ true) ⊎ (bytes_at_most b a ≡ true)
unfolding bytes_at_most
bytes_total [] b = inl refl
bytes_total (x ∷ a) [] = inr refl
bytes_total (x ∷ a) (y ∷ b) = ground (arith, bytes_total a b)

pub bytes_antisym : (a b : Bytes) → bytes_at_most a b ≡ true → bytes_at_most b a ≡ true → a ≡ b
unfolding bytes_at_most
bytes_antisym [] [] h k = refl
bytes_antisym [] (y ∷ b) h k = cc
bytes_antisym (x ∷ a) [] h k = cc
bytes_antisym (x ∷ a) (y ∷ b) h k = ground (arith, bytes_antisym a b)

pub bytes_trans :
    (a b c : Bytes) → bytes_at_most a b ≡ true → bytes_at_most b c ≡ true → bytes_at_most a c ≡ true
unfolding bytes_at_most
bytes_trans [] b c h k = refl
bytes_trans (x ∷ a) [] c h k = cc
bytes_trans (x ∷ a) (y ∷ b) [] h k = cc
bytes_trans (x ∷ a) (y ∷ b) (z ∷ c) h k = ground (arith, bytes_trans a b c)

instance abbrev pub bytes_ord : Ord Bytes
bytes_ord = record {
  at_most = bytes_at_most;
  total = bytes_total;
  antisym = bytes_antisym;
  trans = bytes_trans;
}

-- `Option<T>`: `None` comes before every `Some`.
abbrev pub option_at_most : {A : Type 0} ⦃o : Ord A⦄ → Option A → Option A → Bool
option_at_most none b = true
option_at_most (some a) none = false
option_at_most ⦃o⦄ (some a) (some b) = o.at_most a b

module _ {A : Type 0} ⦃o : Ord A⦄ where
  -- `std::cmp::min` and `std::cmp::max`; `max` returns its second argument on a tie.
  abbrev pub min_of : A → A → A
  min_of a b = if o.at_most a b then a else b

  abbrev pub max_of : A → A → A
  max_of a b = if o.at_most a b then b else a

  abbrev pub option_min : Option A → Option A → Option A
  option_min a b = if option_at_most a b then a else b

  abbrev pub option_max : Option A → Option A → Option A
  option_max a b = if option_at_most a b then b else a

  -- `Iterator::min` and `Iterator::max`
  unfoldable pub minimum : List A → Option A
  minimum [] = none
  minimum (x ∷ xs) = some (foldl min_of x xs)

  unfoldable pub maximum : List A → Option A
  maximum [] = none
  maximum (x ∷ xs) = some (foldl max_of x xs)
