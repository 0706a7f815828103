-- ===== src/Batch/EvenChunks.antt =====
-- `even_chunks` of crates/freeze/src/types/state_override.rs: as few chunks as the size allows, all of
-- them about as long as each other.
use native.Mathlib.Nat.{
  div-add-mod, div-le_of_le-mul, lt-mul-div-succ, mod-lt, mul-mod_left, div-lt_iff_lt-mul, mul_comm,
}
use mathlib.Core.Path.{subst}
use triodion.Prelude.{
  ℕ, zero, suc, ◌+◌, ◌-◌, ◌*◌, ◌/◌, ◌%◌, ◌≤◌, ◌<◌, max, ◌≡◌, ◌≢◌, refl, ap, ◌∙◌, inl, inr, List,
  length, length-take, length-drop, take, take-add, take_all, drop, drop-add, concat, All, ltb,
  if◌then◌else◌, Bool-cases, arith,
}
use triodion.Batch.Send.{slice}
use triodion.Batch.Grouping.{ceiling, even_loop, even_chunks}

-- the rows that `count` chunks from number `i` on take
abbrev taken : ℕ → ℕ → ℕ → ℕ → ℕ
taken base remainder count i = count * base + (remainder - i)

-- the rows of chunk `i`
abbrev share : ℕ → ℕ → ℕ → ℕ
share base remainder i = base + (if ltb i remainder then 1 else 0)

taken_after :
    (base remainder count i : ℕ)
    → remainder ≤ suc count + i
    → taken base remainder (suc count) i
      ≡ share base remainder i + taken base remainder count (suc i)
taken_after base remainder count i h = grind arith

share_bounds :
    (base remainder i bound : ℕ)
    → base ≤ bound
    → ((0 < remainder) → base < bound)
    → (base ≤ share base remainder i)
      × (share base remainder i ≤ base + 1)
      × (share base remainder i ≤ bound)
share_bounds base remainder i bound h k = elim (Bool-cases (ltb i remainder)) [
  | inl extra ↦ let strict = k (ground arith) in rw (extra) (omega arith, omega arith, omega arith)
  | inr same ↦ rw (same) (omega arith, omega arith, omega arith)
]

length-slice :
    {A : Type 0} (rows : List A) (start n : ℕ)
    → start + n ≤ length rows
    → length (slice rows start (start + n)) ≡ n
length-slice rows start n h =
    omega (arith, length-take (start + n - start) (drop start rows), length-drop start rows)

module _ {A : Type 0} (rows : List A) (base remainder : ℕ) where
  even_loop-concat :
      (count i start : ℕ)
      → remainder ≤ count + i
      → concat (even_loop rows base remainder count i start)
        ≡ take (taken base remainder count i) (drop start rows)
  unfolding even_loop
  even_loop-concat zero i start h =
      let none_left : 0 ≡ taken base remainder zero i = omega arith in
      ap (λ k. take k (drop start rows)) none_left
  even_loop-concat (suc count) i start h =
      let len : ℕ = share base remainder i in
      let exact : start + len - start ≡ len = omega arith in
      let rest = even_loop-concat count (suc i) (start + len) (omega arith) in
      rw
        (
          rest,
          exact,
          taken_after base remainder count i h,
          drop-add start len rows,
          take-add len (taken base remainder count (suc i)) (drop start rows),
        )
        refl

  length-even_loop :
      (count i start : ℕ) → length (even_loop rows base remainder count i start) ≡ count
  unfolding even_loop
  length-even_loop zero i start = refl
  length-even_loop (suc count) i start =
      ap suc (length-even_loop count (suc i) (start + share base remainder i))

  even_loop-sizes :
      (bound count i start : ℕ)
      → remainder ≤ count + i
      → start + taken base remainder count i ≤ length rows
      → base ≤ bound
      → ((0 < remainder) → base < bound)
      → All
          (λ chunk. (base ≤ length chunk) × (length chunk ≤ base + 1) × (length chunk ≤ bound))
          (even_loop rows base remainder count i start)
  unfolding even_loop
  even_loop-sizes bound zero i start h k l m = tt
  even_loop-sizes bound (suc count) i start h k l m =
      let len : ℕ = share base remainder i in
      let split = taken_after base remainder count i h in
      let e = length-slice rows start len (omega arith) in
      (
        rw (e) (share_bounds base remainder i bound l m),
        even_loop-sizes bound count (suc i) (start + len) (omega arith) (omega arith) l m,
      )

-- the number of chunks
abbrev cuts : ℕ → ℕ → ℕ
cuts n size = max (ceiling n size) 1

module _ (n size : ℕ) (pos : 0 < size) where
  cuts_are_enough : n ≤ size * cuts n size
  cuts_are_enough = let whole = lt-mul-div-succ (n + size - 1) pos in grind arith

  base_fits : n / cuts n size ≤ size
  base_fits =
      div-le_of_le-mul (cuts n size)
        (subst (λ m. n ≤ m) (mul_comm size (cuts n size)) cuts_are_enough)

  base_fits_with_more : 0 < n % cuts n size → n / cuts n size < size
  base_fits_with_more h =
      let not_all : n ≢ size * cuts n size = λ e.
        absurd (omega (arith, h, ap (λ m. m % cuts n size) e, mul-mod_left size (cuts n size))) in
      (div-lt_iff_lt-mul {x = n} {y = size} (omega arith)).1
        (omega (arith, cuts_are_enough, not_all))

-- `even_chunks` cuts the rows into chunks that join to the rows, in order: as many as the rows fill at the
-- given size, or one when there are no rows. No chunk is longer than the size, taken as 1 when it is 0,
-- and any two chunks differ by at most one row.
pub even_chunks-Even :
    {A : Type 0} (rows : List A) (size : ℕ)
    → (concat (even_chunks rows size) ≡ rows)
      × (length (even_chunks rows size) ≡ max (ceiling (length rows) (max size 1)) 1)
      × ((base : ℕ) × All
            (λ chunk.
              (base ≤ length chunk) × (length chunk ≤ base + 1) × (length chunk ≤ max size 1))
            (even_chunks rows size))
unfolding even_chunks
even_chunks-Even rows size =
    let n : ℕ = length rows in
    let n_chunks : ℕ = cuts n (max size 1) in
    let base : ℕ = n / n_chunks in
    let remainder : ℕ = n % n_chunks in
    let small = mod-lt n {m = n_chunks} (omega arith) in
    let all : taken base remainder n_chunks 0 ≡ n =
      omega (arith, div-add-mod n n_chunks, mul_comm n_chunks base) in
    (
      even_loop-concat rows base remainder n_chunks 0 0 (omega arith)
          ∙ take_all (taken base remainder n_chunks 0) rows (omega arith),
      length-even_loop rows base remainder n_chunks 0 0,
      (
        base,
        even_loop-sizes rows base remainder (max size 1) n_chunks 0 0 (omega arith) (omega arith)
            (base_fits n (max size 1) (omega arith))
            (base_fits_with_more n (max size 1) (omega arith)),
      ),
    )
