-- ===== src/Batch/Halving.antt =====
-- Batches that are halved, on a stack, as multicall.rs and state_override.rs of crates/freeze/src/types do
-- when a request is too large.
use triodion.Prelude.{
  ℕ, suc, ◌+◌, ◌-◌, ◌/◌, ◌≤◌, ◌<◌, ◌≡◌, Bool, true, ◌&&◌, List, [], ◌∷◌, length, length-take,
  length-drop, take, drop, ltb, arith,
}

-- the requests that halving the batches down to single rows takes at most
abbrev pub weight : {P : Type 0} → List (List P) → ℕ
weight [] = 0
weight (batch ∷ stack) = length batch + length batch - 1 + weight stack

abbrev pub NonEmpty : {P : Type 0} → List P → Type 0
NonEmpty batch = 0 < length batch

-- Both halves of several rows have rows, and weigh less than the whole.
pub halves_weigh_less :
    {P : Type 0} (batch : List P) (stack : List (List P)) (rounds : ℕ) (shrinks : Bool)
    → (ltb 1 (length batch) && shrinks) ≡ true
    → weight (batch ∷ stack) ≤ suc rounds
    → NonEmpty (take (length batch / 2) batch)
      × NonEmpty (drop (length batch / 2) batch)
      × (weight (take (length batch / 2) batch ∷ (drop (length batch / 2) batch ∷ stack)) ≤ rounds)
halves_weigh_less batch stack rounds shrinks h k =
    let more : 1 < length batch = ground arith in
    let front = length-take (length batch / 2) batch in
    let back = length-drop (length batch / 2) batch in (omega arith, omega arith, omega arith)
