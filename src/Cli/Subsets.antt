-- ===== src/Cli/Subsets.antt =====
-- `evenly_spaced_subset` of crates/cli/src/parse/blocks.rs: which items it keeps.
use native.Mathlib.Nat.{
  mul-le-mul_right, mul-le-mul_left, div-le_of_le-mul, mod-eq_of_lt, lt_of_le_of_lt, lt_of_lt_of_le,
  mul-lt-mul_of_pos_right, zero-mul, zero-div, add-zero, zero-add,
}
use triodion.Prelude.{
  ℕ, zero, suc, ◌+◌, ◌-◌, ◌*◌, ◌/◌, ◌^◌, ◌≤◌, ◌<◌, min, ◌≡◌, refl, sym, ap, ◌∙◌, inl, inr, ◌⊎◌,
  true, false, List, [], ◌∷◌, some, length, get_elem?, leb, ◌==◌, if◌then◌else◌, Bool-cases, arith,
}
use triodion.Prelude.Outcome.{ok, ◌>>=◌, after_ok}
use triodion.Prelude.Words.{mul64, div}
use triodion.Cli.Blocks.{at_index, samples, evenly_spaced_subset}

-- Where sample `j` of `k` stands among `len` items.
abbrev pub spread : ℕ → ℕ → ℕ → ℕ
spread len k j = if leb len k then j else j * (len - 1) / (k - 1)

index_lt : (len k i : ℕ) → 2 ≤ k → k < len → i < k → i * (len - 1) / (k - 1) < len
index_lt len k i two fewer h =
    let le : i * (len - 1) ≤ (k - 1) * (len - 1) = mul-le-mul_right (len - 1) (omega arith) in
    let d = div-le_of_le-mul (k - 1) le in omega arith

product_fits :
    (len k i : ℕ) → i < k → 0 < len → k * len ≤ 2 ^ 64 → mul64 i (len - 1) ≡ i * (len - 1)
product_fits len k i h pos fits =
    let le : i * (len - 1) ≤ i * len = mul-le-mul_left i (omega arith) in
    let lt : i * len < k * len = mul-lt-mul_of_pos_right h pos in
    mod-eq_of_lt (lt_of_le_of_lt le (lt_of_lt_of_le lt fits))

get_elem?-lt :
    {A : Type 0} (xs : List A) (i : ℕ) → i < length xs → (x : A) × (get_elem? xs i ≡ some x)
get_elem?-lt [] i h = absurd (omega arith)
get_elem?-lt (x ∷ xs) zero h = (x, refl)
get_elem?-lt (x ∷ xs) (suc i) h = get_elem?-lt xs i (omega arith)

-- one sample
samples_step :
    {E A : Type 0} (items : List A) (k left i index : ℕ) (x : A) (ys : List A)
    → div {E = E} (mul64 i (length items - 1)) (k - 1) ≡ ok index
    → get_elem? items index ≡ some x
    → samples {E = E} items k left (suc i) ≡ ok ys
    → samples {E = E} items k (suc left) i ≡ ok (x ∷ ys)
unfolding samples
samples_step items k left i index x ys d at rest =
    let at' : at_index items index ≡ ok x = rw (at_index, at) refl in
    after_ok (λ n. at_index items n >>= λ y. samples items k left (suc i) >>= λ zs. ok (y ∷ zs)) d
      (after_ok (λ y. samples items k left (suc i) >>= λ zs. ok (y ∷ zs)) at'
        (after_ok (λ zs. ok (x ∷ zs)) rest refl))

module _ {E A : Type 0} (items : List A) (k : ℕ) (two : 2 ≤ k) (fewer : k < length items)
    (fits : k * length items ≤ 2 ^ 64) where
  samples-Spread :
      (left i : ℕ)
      → i + left ≡ k
      → (ys : List A) × (samples {E = E} items k left i ≡ ok ys)
        × (length ys ≡ left)
        × ((j : ℕ)
            → j < left
            → get_elem? ys j ≡ get_elem? items ((i + j) * (length items - 1) / (k - 1)))
  unfolding samples
  samples-Spread zero i h = ([], refl, refl, λ j h. absurd (omega arith))
  samples-Spread (suc left) i h =
      let index : ℕ = i * (length items - 1) / (k - 1) in
      let (x, at) =
        get_elem?-lt items index (index_lt (length items) k i two fewer (omega arith)) in
      let (ys, rest, count, each) = samples-Spread left (suc i) (omega arith) in
      let e = product_fits (length items) k i (omega arith) (omega arith) fits in
      let nonzero : (k - 1 == 0) ≡ false = ground arith in
      (
        x ∷ ys,
        samples_step items k left i index x ys (rw (e, nonzero) refl) at rest,
        omega arith,
        each_sample x ys at each,
      )
    where
      each_sample :
          (x : A) (ys : List A)
          → get_elem? items (i * (length items - 1) / (k - 1)) ≡ some x
          → ((j : ℕ)
              → j < left
              → get_elem? ys j ≡ get_elem? items ((suc i + j) * (length items - 1) / (k - 1)))
          → (j : ℕ) → j < suc left
          → get_elem? (x ∷ ys) j ≡ get_elem? items ((i + j) * (length items - 1) / (k - 1))
      each_sample x ys at each zero h = rw add-zero (sym at)
      each_sample x ys at each (suc j) h =
          let e : i + suc j ≡ suc i + j = omega arith in rw e (each j (omega arith))

size_cases :
    (k len : ℕ)
    → (k ≡ 0)
      ⊎ (((0 < k) × (leb len k ≡ true))
          ⊎ (((k ≡ 1) × (leb len k ≡ false)) ⊎ ((2 ≤ k) × (leb len k ≡ false))))
size_cases k len = ground arith

spread-zero : (len k : ℕ) → spread len k 0 ≡ 0
spread-zero len k = elim (Bool-cases (leb len k)) [
  | inl h ↦ rw h refl
  | inr h ↦ rw h (rw (zero-mul (len - 1)) (zero-div (k - 1)))
]

module _ {E A : Type 0} (items : List A) (k : ℕ) where
  subset_all : 0 < k → leb (length items) k ≡ true → evenly_spaced_subset {E = E} items k ≡ ok items
  unfolding evenly_spaced_subset
  subset_all pos all =
      elim items as (λ xs. leb (length xs) k ≡ true → evenly_spaced_subset {E = E} xs k ≡ ok xs) [
        | [] ↦ λ h. ground arith
        | x ∷ xs ↦ λ h. ground arith
      ]
        all

  subset_none : k ≡ 0 → evenly_spaced_subset {E = E} items k ≡ ok []
  unfolding evenly_spaced_subset
  subset_none e = ground arith

  subset_first :
      (x : A)
      → get_elem? items 0 ≡ some x
      → k ≡ 1
      → leb (length items) k ≡ false
      → evenly_spaced_subset {E = E} items k ≡ ok (x ∷ [])
  unfolding evenly_spaced_subset
  subset_first x at e more = ground arith

  subset_samples :
      2 ≤ k
      → leb (length items) k ≡ false
      → evenly_spaced_subset {E = E} items k ≡ samples items k k 0
  unfolding evenly_spaced_subset
  subset_samples two more = ground arith

-- For a list so short that `k` times its length fits a `u64`, the subset is found without a panic.
-- It has `k` items, or all of them if there are fewer, and item `j` of it is the item at the rounded
-- down multiple `j * (len - 1) / (k - 1)`: evenly spread, from the first item to the last.
pub evenly_spaced_subset-spread :
    {E A : Type 0} (items : List A) (k : ℕ)
    → k * length items ≤ 2 ^ 64
    → (ys : List A) × (evenly_spaced_subset {E = E} items k ≡ ok ys)
      × (length ys ≡ min k (length items))
      × ((j : ℕ) → j < length ys → get_elem? ys j ≡ get_elem? items (spread (length items) k j))
evenly_spaced_subset-spread {E} {A} items k fits = elim (size_cases k (length items)) [
  | inl none_kept ↦ ([], subset_none items k none_kept, ground arith, λ j h. absurd (omega arith))
  | inr (inl (pos, all)) ↦ (items, subset_all items k pos all, ground arith, λ j h. rw all refl)
  | inr (inr (inl (one, more))) ↦
      let (x, at) = get_elem?-lt items 0 (ground arith) in
      (
        x ∷ [],
        subset_first items k x at one more,
        ground arith,
        λ j h. let e : j ≡ 0 = omega arith in rw (e, spread-zero (length items) k) (sym at),
      )
  | inr (inr (inr (two, more))) ↦
      let (ys, found, count, each) =
        samples-Spread {E = E} items k two (ground arith) fits k 0 (omega arith) in
      (
        ys,
        subset_samples items k two more ∙ found,
        ground arith,
        λ j h. rw more (
            each j (omega arith)
            ∙ ap (λ n. get_elem? items (n * (length items - 1) / (k - 1))) (zero-add j)),
      )
]
