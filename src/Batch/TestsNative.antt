-- ===== src/Batch/TestsNative.antt =====
-- One contract in two items, and a node that answers with the number of the block and of the slot.
use triodion.Prelude.{
  ℕ, ◌≡◌, refl, sym, ap, ◌∙◌, true, some, List, [], ◌∷◌, map, flat_map, replicate, ◌⊎◌, inl, inr,
  All2, Bool-cases,
}
use triodion.Prelude.Order.{Bytes}
use triodion.Prelude.Outcome.{inr_inj}
use triodion.Errors.{CollectError}
use triodion.Batch.Native.{Item}
use triodion.Batch.Override.{storage, be_bytes, same_bytes}
use triodion.Batch.NativeValues.{some_inj}
use triodion.Batch.NativeBatch.{lookup, or_default, native_storage_batch}
use triodion.Batch.NativeRows.{Decodes, rows_of, native_storage_batch-Decodes}

abbrev vault : Bytes
vault = replicate 20 170

abbrev in_two_items : List (Item ℕ)
in_two_items =
    record { block = 5; target = vault; rows = 1 ∷ 2 ∷ [] }
    ∷ record { block = 5; target = vault; rows = 3 ∷ [] }
    ∷ []

abbrev slot_number : ℕ → CollectError ⊎ ℕ
slot_number p = inr p

abbrev with_slot : ℕ → Bytes → CollectError ⊎ (ℕ × Bytes)
with_slot p value = inr (p, value)

-- the block's number before the slot's own
abbrev own_number : ℕ → Bytes → Bytes → Bytes
own_number block target slot = block ∷ slot

abbrev marked : ℕ → List (Bytes × List Bytes) → List (Bytes × List Bytes)
marked block [] = []
marked block ((target, slots) ∷ request) =
    (target, map (own_number block target) slots) ∷ marked block request

answers_at : ℕ → List (Bytes × List Bytes) → CollectError ⊎ List (Bytes × List Bytes)
answers_at block request = inr (marked block request)

lookup-marked :
    (block : ℕ) (request : List (Bytes × List Bytes)) (target : Bytes) (values : List Bytes)
    → lookup target (marked block request) ≡ some values
    → values ≡ map (own_number block target) (or_default (lookup target request) [])
unfolding lookup
lookup-marked block [] target values found = absurd cc
lookup-marked block ((key, slots) ∷ request) target values found =
    elim (Bool-cases (same_bytes key target)) [
      | inl here ↦ rw here (some_inj (sym (rw here at found)))
      | inr there ↦ rw there (lookup-marked block request target values (rw there at found))
    ]

answers_at-own :
    (block : ℕ) (request answer : List (Bytes × List Bytes)) (target : Bytes) (values : List Bytes)
    → answers_at block request ≡ inr answer
    → lookup target answer ≡ some values
    → values ≡ map (own_number block target) (or_default (lookup target request) [])
unfolding answers_at
answers_at-own block request answer target values same found =
    lookup-marked block request target values (ap (lookup target) (inr_inj same) ∙ found)

abbrev three_rows : List (ℕ × Bytes)
three_rows = (1, 5 ∷ be_bytes 32 1) ∷ (2, 5 ∷ be_bytes 32 2) ∷ (3, 5 ∷ be_bytes 32 3) ∷ []

three_read :
    native_storage_batch storage slot_number with_slot true answers_at in_two_items
    ≡ some three_rows
unfolding native_storage_batch answers_at
three_read = refl

native_storage_batch-Decodes_example :
    All2
      (Decodes storage slot_number with_slot (own_number 5))
      (flat_map (rows_of storage slot_number with_slot (own_number 5)) in_two_items)
      three_rows
native_storage_batch-Decodes_example =
    native_storage_batch-Decodes storage slot_number with_slot own_number true answers_at
      in_two_items three_rows answers_at-own three_read
