-- ===== src/Batch/TestsPlan.antt =====
-- Rows of one contract at one block, in chunks of two.
use mathlib.Core.List.{Perm}
use triodion.Prelude.{ℕ, Option, none, some, List, [], ◌∷◌, ◌++◌, replicate, All, ◌⊎◌, inl, inr}
use triodion.Prelude.Order.{Bytes}
use triodion.Errors.{CollectError, collect_error}
use triodion.Partitions.Types.{Params, no_params}
use triodion.Batch.Override.{storage, from_be_bytes}
use triodion.Batch.OverridePlan.{override_work}
use triodion.Batch.OverrideWork.{work_rows, Ready, override_work-Ready}

abbrev slot_row : Option ℕ → ℕ → Params
slot_row block n = record no_params { block_number = block; slot = some (n ∷ []) }

abbrev one_target : Params → CollectError ⊎ Bytes
one_target p = inr (replicate 20 170)

abbrev slot_word_of : Params → CollectError ⊎ ℕ
slot_word_of p = elim p.slot [
  | none ↦ inl (collect_error "slot not specified")
  | some slot ↦ inr (from_be_bytes slot)
]

-- The last row has no block.
abbrev some_rows : List Params
some_rows =
    slot_row (some 5) 1
    ∷ slot_row (some 5) 2
    ∷ slot_row (some 5) 3
    ∷ slot_row (some 6) 4
    ∷ slot_row none 5
    ∷ []

override_work-Ready_example :
    let (work, ineligible) = override_work storage one_target slot_word_of 2 some_rows in
    Perm (work_rows storage one_target slot_word_of work ++ ineligible) some_rows
    × All (Ready storage one_target slot_word_of 2) work
override_work-Ready_example = override_work-Ready storage one_target slot_word_of 2 some_rows
