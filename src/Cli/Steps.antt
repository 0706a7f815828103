-- ===== src/Cli/Steps.antt =====
-- `block_range_to_block_chunk` of crates/cli/src/parse/blocks.rs: ranges with a step.
use native.Mathlib.Nat.{zero-add}
use triodion.Prelude.{
  ℕ, zero, suc, ◌+◌, ◌-◌, ◌%◌, ◌≤◌, ◌<◌, ◌≡◌, refl, ap, sym, ◌∙◌, List, [], ◌∷◌, In, none, some,
  inl, inr, false, ltb, ◌==◌, Bool-cases, ◌⊎◌, arith, if◌then◌else◌,
}
use triodion.Prelude.Outcome.{ok, panic, ◌>>=◌}
use triodion.Errors.{ParseError}
use triodion.Chunks.Number.{numbers, range_from, range_inclusive}
use triodion.Cli.Blocks.{every_nth, block_range_to_block_chunk}

-- `v` is one of the `n` numbers from `start` on whose place, counted from `idx`, is a multiple of
-- `step`.
abbrev Stepped : ℕ → ℕ → ℕ → ℕ → ℕ → Type 0
Stepped step idx start n v = (start ≤ v) × (v < start + n) × ((idx + (v - start)) % step ≡ 0)

-- the first of the numbers, or one after it
Stepped-later :
    (step idx start n v : ℕ)
    → Stepped step (suc idx) (suc start) n v
    → Stepped step idx start (suc n) v
Stepped-later step idx start n v (le, lt, e) =
    let same : suc idx + (v - suc start) ≡ idx + (v - start) = omega arith in
    (omega arith, omega arith, ap (λ x. x % step) (sym same) ∙ e)

Stepped-cases :
    (step idx start n v : ℕ)
    → Stepped step idx start (suc n) v
    → ((v ≡ start) × (idx % step ≡ 0)) ⊎ Stepped step (suc idx) (suc start) n v
Stepped-cases step idx start n v (le, lt, e) = elim (Bool-cases (v == start)) [
  | inl first ↦
      let same : idx + (v - start) ≡ idx = ground arith in
      inl (ground arith, ap (λ x. x % step) (sym same) ∙ e)
  | inr later ↦
      let same : suc idx + (v - suc start) ≡ idx + (v - start) = ground arith in
      inr (ground arith, omega arith, ap (λ x. x % step) same ∙ e)
]

module _ {E : Type 0} (step : ℕ) (pos : 0 < step) where
  every_nth-cons :
      (idx x : ℕ) (xs ys : List ℕ)
      → every_nth {E = E} step (suc idx) xs ≡ ok ys
      → every_nth {E = E} step idx (x ∷ xs) ≡ ok (if idx % step == 0 then x ∷ ys else ys)
  unfolding every_nth
  every_nth-cons idx x xs ys found =
      let nonzero : (step == 0) ≡ false = ground arith in rw (every_nth, nonzero, found) refl

  every_nth-In :
      (idx start n : ℕ)
      → (ys : List ℕ) × (every_nth {E = E} step idx (range_from start n) ≡ ok ys)
        × ((v : ℕ)
            → (In v ys → Stepped step idx start n v) × (Stepped step idx start n v → In v ys))
  unfolding every_nth range_from
  every_nth-In idx start zero =
      ([], refl, λ v. (λ h. absurd h, λ h. absurd (omega (arith, h.0, h.1))))
  every_nth-In idx start (suc n) =
      let (ys, found, each) = every_nth-In (suc idx) (suc start) n in
      let step_found = every_nth-cons idx start (range_from (suc start) n) ys found in
      elim (Bool-cases (idx % step == 0)) [
        | inl kept ↦
            let e : idx % step ≡ 0 = ground arith in
            (
              start ∷ ys,
              step_found ∙ rw kept refl,
              λ v. (
                λ h. elim h [
                  | inl same ↦ first_one idx start n v same e
                  | inr k ↦ Stepped-later step idx start n v ((each v).0 k)
                ],
                λ h. elim (Stepped-cases step idx start n v h) [
                  | inl (same, _) ↦ inl same
                  | inr k ↦ inr ((each v).1 k)
                ],
              ),
            )
        | inr dropped ↦ (
          ys,
          step_found ∙ rw dropped refl,
          λ v. (
            λ h. Stepped-later step idx start n v ((each v).0 h),
            λ h. elim (Stepped-cases step idx start n v h) [
              | inl (_, e) ↦ absurd (ground arith)
              | inr k ↦ (each v).1 k
            ],
          ),
        )
      ]
    where
      first_one :
          (idx start n v : ℕ) → v ≡ start → idx % step ≡ 0 → Stepped step idx start (suc n) v
      first_one idx start n v same e =
          let place : idx + (v - start) ≡ idx = omega arith in
          (omega arith, omega arith, ap (λ x. x % step) place ∙ e)

-- For a positive step and a range that is not inverted, the numbers are exactly those from `start` up to
-- and including `end` whose distance from `start` is a multiple of the step.
pub block_range_to_block_chunk_step :
    (start end step : ℕ)
    → 0 < step
    → start ≤ end
    → (ys : List ℕ) × (block_range_to_block_chunk start end false (some step) none
        ≡ ok (numbers ys))
      × ((v : ℕ)
          → (In v ys → (start ≤ v) × (v ≤ end) × ((v - start) % step ≡ 0))
            × ((start ≤ v) × (v ≤ end) × ((v - start) % step ≡ 0) → In v ys))
unfolding block_range_to_block_chunk range_inclusive
block_range_to_block_chunk_step start end step pos le =
    let (ys, found, each) = every_nth-In {E = ParseError} step pos 0 start (end + 1 - start) in
    let right : ltb end start ≡ false = ground arith in
    (
      ys,
      rw right (ap (λ m. m >>= λ bs. ok (numbers bs)) found),
      λ v. (
        λ h.
            let (a, b, c) = (each v).0 h in
            (a, omega arith, ap (λ x. x % step) (sym (zero-add (v - start))) ∙ c),
        λ h.
            (each v).1
              (h.0, omega (arith, h.0, h.1), ap (λ x. x % step) (zero-add (v - start)) ∙ h.2),
      ),
    )

every_nth-zero : {E : Type 0} (idx x : ℕ) (xs : List ℕ) → every_nth {E = E} 0 idx (x ∷ xs) ≡ panic
unfolding every_nth
every_nth-zero idx x xs = refl

-- A step of zero panics on every range that is not inverted.
pub block_range_to_block_chunk_zero_step :
    (start end : ℕ) → start ≤ end → block_range_to_block_chunk start end false (some 0) none ≡ panic
unfolding block_range_to_block_chunk range_inclusive range_from
block_range_to_block_chunk_zero_step start end le =
    let right : ltb end start ≡ false = ground arith in
    let more : end + 1 - start ≡ suc (end - start) = omega arith in
    rw (right, more)
      (ap (λ m. m >>= λ bs. ok (numbers bs))
        (every_nth-zero 0 start (range_from (suc start) (end - start))))
