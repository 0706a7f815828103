-- ===== src/Batch/OverrideWords.antt =====
-- The words of an answer to the state-override extractor of crates/freeze/src/types/state_override.rs, and
-- the marks of the errors that rule the override out.
use mathlib.Core.Path.{subst}
use triodion.Prelude.{
  ℕ, zero, suc, ◌+◌, ◌*◌, ◌≤◌, ◌<◌, ◌≡◌, refl, sym, ap, ◌∙◌, String, true, Option, some, List, [],
  ◌∷◌, ◌++◌, length, length-append, length-take, length-drop, take, take-append_length, drop,
  drop-append_length, take-append-drop, concat, All, ==_iff, arith,
}
use triodion.Prelude.Order.{Bytes}
use triodion.Prelude.Chars.{lower_contains, lower_starts_with}
use triodion.Prelude.Text.{append}
use triodion.Errors.{collect_error}
use triodion.Batch.Classify.{override_unavailable}
use triodion.Batch.Grouping.{chunks_upto, chunks}
use triodion.Batch.Override.{same_bytes, pop, ignored_marker, sentinel_marker}

module _ {A : Type 0} where
  pop_cons :
      (x y : A) (ys rest : List A) (last : A)
      → pop (y ∷ ys) ≡ some (rest, last)
      → pop (x ∷ (y ∷ ys)) ≡ some (x ∷ rest, last)
  pop_cons x y ys rest last h = rw (h) refl

  pub pop_last : (xs : List A) (x : A) → pop (xs ++ (x ∷ [])) ≡ some (xs, x)
  pop_last [] x = refl
  pop_last (y ∷ []) x = refl
  pop_last (y ∷ (z ∷ xs)) x = pop_cons y z (xs ++ (x ∷ [])) (z ∷ xs) x (pop_last (z ∷ xs) x)

  -- A list with an item has a last one.
  has_last : (x : A) (xs : List A) → (rest : List A) × (last : A) × ((x ∷ xs) ≡ rest ++ (last ∷ []))
  has_last x [] = ([], x, refl)
  has_last x (y ∷ ys) = let (rest, last, e) = has_last y ys in (x ∷ rest, last, ap (◌∷◌ x) e)

pub last_of :
    {A : Type 0} (xs : List A) (n : ℕ)
    → length xs ≡ suc n
    → (rest : List A) × (last : A) × (xs ≡ rest ++ (last ∷ []))
last_of [] n h = absurd (omega arith)
last_of (x ∷ xs) n h = has_last x xs

pub last_inj :
    {A : Type 0} {xs ys : List A} {x y : A}
    → ◌≡◌ {A = Option (List A × A)} (some (xs, x)) (some (ys, y))
    → x ≡ y
last_inj h = cc

pub front_inj :
    {A : Type 0} {xs ys : List A} {x y : A}
    → ◌≡◌ {A = Option (List A × A)} (some (xs, x)) (some (ys, y))
    → xs ≡ ys
front_inj h = cc

pub same_bytes_refl : (xs : Bytes) → same_bytes xs xs ≡ true
same_bytes_refl [] = refl
same_bytes_refl (x ∷ xs) = rw ((==_iff x x).1 refl, same_bytes_refl xs) refl

pub same_bytes-eq : (xs ys : Bytes) → same_bytes xs ys ≡ true → xs ≡ ys
same_bytes-eq [] [] h = refl
same_bytes-eq [] (y ∷ ys) h = cc
same_bytes-eq (x ∷ xs) [] h = cc
same_bytes-eq (x ∷ xs) (y ∷ ys) h =
    let here : x ≡ y = ground arith in
    let there : xs ≡ ys = same_bytes-eq xs ys (ground arith) in cc

-- Words of the same size.
abbrev pub Sized : {A : Type 0} → ℕ → List (List A) → Type 0
Sized size words = All (λ word. length word ≡ size) words

le_mul : (n m : ℕ) → 0 < m → n ≤ n * m
le_mul n m h = grind arith

module _ {A : Type 0} (size : ℕ) (pos : 0 < size) where
  pub length-concat :
      (words : List (List A)) → Sized size words → length (concat words) ≡ length words * size
  length-concat [] h = omega arith
  length-concat (word ∷ words) (e, h) =
      let rest = length-concat words h in
      let joined = length-append word (concat words) in grind arith

  chunks_upto-words :
      (count : ℕ) (words : List (List A))
      → length words ≤ count
      → Sized size words
      → chunks_upto count size (concat words) ≡ words
  unfolding chunks_upto
  chunks_upto-words zero [] h k = refl
  chunks_upto-words zero (word ∷ words) h k = absurd (omega arith)
  chunks_upto-words (suc count) [] h k = refl
  chunks_upto-words (suc count) ([] ∷ words) h (e, k) = absurd (omega arith)
  chunks_upto-words (suc count) ((x ∷ word) ∷ words) h (e, k) =
      let front : take size (x ∷ (word ++ concat words)) ≡ x ∷ word =
        subst (λ n. take n (x ∷ (word ++ concat words)) ≡ x ∷ word) e
          (take-append_length (x ∷ word) (concat words)) in
      let back : drop size (x ∷ (word ++ concat words)) ≡ concat words =
        subst (λ n. drop n (x ∷ (word ++ concat words)) ≡ concat words) e
          (drop-append_length (x ∷ word) (concat words)) in
      rw (front, back, chunks_upto-words count words (omega arith) k) refl

  -- Cutting words that were joined gives the words back.
  pub chunks-words : (words : List (List A)) → Sized size words → chunks size (concat words) ≡ words
  unfolding chunks
  chunks-words words h =
      chunks_upto-words (length (concat words)) words
        (omega (arith, length-concat words h, le_mul (length words) size pos)) h

  -- A list of whole words is words that were joined.
  pub cut :
      (k : ℕ) (items : List A)
      → length items ≡ k * size
      → (words : List (List A)) × Sized size words × (length words ≡ k) × (items ≡ concat words)
  cut zero [] h = ([], tt, refl, refl)
  cut zero (x ∷ items) h = absurd (omega arith)
  cut (suc k) items h =
      let all : length items ≡ k * size + size = grind arith in
      let (words, sized, e, joined) =
        cut k (drop size items) (omega (arith, length-drop size items)) in
      (
        take size items ∷ words,
        (omega (arith, length-take size items, all), sized),
        ap suc e,
        sym (take-append-drop size items) ∙ ap (λ xs. take size items ++ xs) joined,
      )

pub first_marker :
    (message : String)
    → lower_contains message ignored_marker ≡ true
    → override_unavailable (collect_error message) ≡ true
unfolding override_unavailable
first_marker message h = rw (h) refl

pub second_marker :
    (message : String)
    → lower_contains message sentinel_marker ≡ true
    → override_unavailable (collect_error message) ≡ true
unfolding override_unavailable
second_marker message h = ground (arith, h)

pub ignored_is_marked : lower_contains (append " words): " ignored_marker) ignored_marker ≡ true
unfolding lower_contains lower_starts_with
ignored_is_marked = refl

pub sentinel_is_marked : lower_starts_with sentinel_marker sentinel_marker ≡ true
unfolding lower_starts_with
sentinel_is_marked = refl
