-- ===== src/Chunks/Aligned.antt =====
-- What `align` does to a range.
use native.Mathlib.Nat.{mod-eq_of_lt, le_trans}
use triodion.Prelude.{
  ℕ, suc, ◌+◌, ◌-◌, ◌*◌, ◌/◌, ◌%◌, ◌^◌, ◌≤◌, ◌<◌, ◌≡◌, ◌∙◌, none, some, false, inl, inr, arith,
  leb→le, le→ltb, ltb, leb, ◌==◌, Bool-cases, if◌then◌else◌,
}
use triodion.Prelude.Outcome.{ok}
use triodion.Prelude.Words.{div_ceil, mul64}
use triodion.Chunks.Number.{range, align}

-- `a` rounded up to a multiple of `s`, as a number of steps of `s`
unfoldable pub steps_up : ℕ → ℕ → ℕ
steps_up a s = if ltb 0 (a % s) then a / s + 1 else a / s

pub steps_up_reaches : (a s : ℕ) → 0 < s → (a ≤ steps_up a s * s) × (steps_up a s * s < a + s)
unfolding steps_up
steps_up_reaches a s pos = grind arith

pub mul_lt_cancel : (j k s : ℕ) → j * s < k * s + s → j ≤ k
mul_lt_cancel j k s h = elim (Bool-cases (leb j k)) [
  | inl le ↦ leb→le j k le
  | inr more ↦ let step : suc k ≤ j = ground arith in absurd (grind arith)
]

steps_up_least : (a s k : ℕ) → 0 < s → a ≤ k * s → steps_up a s ≤ k
steps_up_least a s k pos h =
    mul_lt_cancel (steps_up a s) k s (omega (arith, steps_up_reaches a s pos))

div_ceil-steps_up : {E : Type 0} (a s : ℕ) → 0 < s → div_ceil {E = E} a s ≡ ok (steps_up a s)
unfolding steps_up
div_ceil-steps_up a s pos = let z : (s == 0) ≡ false = ground arith in rw z

-- For a positive size and no overflow, `align` rounds the start up and the end down to multiples
-- of the size, and keeps the range just if the rounded start is below the rounded end.
pub align_range :
    {E : Type 0} (a b s : ℕ)
    → 0 < s
    → a + s ≤ 2 ^ 64
    → b < 2 ^ 64
    → align {E = E} (range a b) s
      ≡ ok (
          if ltb (steps_up a s * s) (b / s * s)
          then some (range (steps_up a s * s) (b / s * s))
          else none)
unfolding align
align_range a b s pos fa fb =
    let z : (s == 0) ≡ false = ground arith in
    let up : mul64 (steps_up a s) s ≡ steps_up a s * s =
      mod-eq_of_lt (omega (arith, steps_up_reaches a s pos)) in
    let down : mul64 (b / s) s ≡ b / s * s = mod-eq_of_lt (grind arith) in
    rw (div_ceil-steps_up a s pos, z, up, down)

mul_le : (j k s : ℕ) → j ≤ k → j * s ≤ k * s
mul_le j k s h = grind arith

-- A range of exactly one whole chunk, from a multiple of the size to the number before the next
-- multiple, is dropped.
pub align_whole_chunk :
    {E : Type 0} (k s : ℕ)
    → 0 < s
    → k * s + s ≤ 2 ^ 64
    → align {E = E} (range (k * s) (k * s + s - 1)) s ≡ ok none
align_whole_chunk k s pos fits =
    let down : (k * s + s - 1) / s ≤ k = mul_lt_cancel _ k s (grind arith) in
    let up : k ≤ steps_up (k * s) s =
      mul_lt_cancel k _ s (omega (arith, steps_up_reaches (k * s) s pos)) in
    align_range (k * s) (k * s + s - 1) s pos fits (omega arith)
    ∙ rw (le→ltb _ _ (le_trans (mul_le _ k s down) (mul_le k _ s up)))
