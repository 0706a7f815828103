-- ===== src/Batch/NativeBatch.antt =====
-- `native_storage_batch` and `native_chunk_with_fallback` of crates/freeze/src/types/state_override.rs: one
-- `eth_getStorageValues` request for the rows of several contracts. A map is the list of its entries. The
-- dataset and the node are parameters: `get_storage_values` is what the node answers at the block of the items,
-- and `worth` is what the run knows of the method.
use triodion.Prelude.{
  ℕ, ◌-◌, Bool, true, false, not, ◌||◌, ◌==◌, ltb, Option, none, some, List, [], ◌∷◌, ◌++◌,
  flat_map, length, concat, take, drop, ◌⊎◌, inl, inr, if◌then◌else◌,
}
use triodion.Prelude.Order.{Bytes}
use triodion.Prelude.Outcome.{Outcome, ok, ◌>>=◌, try_map}
use triodion.Prelude.Words.{checked_add}
use triodion.Errors.{CollectError}
use triodion.Batch.Native.{Item, native_storage_max_slots}
use triodion.Batch.Override.{StateReader, injects_at_target, be_bytes, same_bytes}

-- `HashMap::get`, by the address
unfoldable pub lookup : {A : Type 0} → Bytes → List (Bytes × A) → Option A
lookup target [] = none
lookup target ((key, a) ∷ entries) =
    let rest = lookup target entries in if same_bytes key target then some a else rest

-- `HashMap::insert`
unfoldable pub set : {A : Type 0} → Bytes → A → List (Bytes × A) → List (Bytes × A)
set target a [] = (target, a) ∷ []
set target a ((key, old) ∷ entries) =
    let rest = set target a entries in
    if same_bytes key target then (key, a) ∷ entries else (key, old) ∷ rest

abbrev pub or_default : {A : Type 0} → Option A → A → A
or_default none a = a
or_default (some b) a = b

-- the last loop: no value of the answer is left over
unfoldable pub all_used : List (Bytes × ℕ) → List (Bytes × List Bytes) → Bool
unfolding lookup
all_used cursors [] = true
all_used cursors ((target, values) ∷ answer) =
    let rest = all_used cursors answer in
    if not (or_default (lookup target cursors) 0 == length values) then false else rest

module _ {P R : Type 0} (reader : StateReader) (input_word : P → CollectError ⊎ ℕ)
    (decode_row : P → Bytes → CollectError ⊎ R) where
  -- the words of the rows, if each has one
  unfoldable pub row_words : List P → Option (List Bytes)
  unfolding be_bytes
  row_words [] = some []
  row_words (p ∷ rows) =
      let rest = row_words rows in
      elim (input_word p) [
        | inl e ↦ none
        | inr word ↦ elim rest [ none ↦ none | some words ↦ some (be_bytes 32 word ∷ words) ]
      ]

  -- the loop that builds the request
  unfoldable pub build_request :
      List (Item P) → List (Bytes × List Bytes) → Option (List (Bytes × List Bytes))
  unfolding row_words lookup set
  build_request [] request = some request
  build_request (item ∷ items) request = elim (row_words item.rows) [
    | none ↦ none
    | some words ↦
        build_request items
          (set item.target (or_default (lookup item.target request) [] ++ words) request)
  ]

  -- `rows.iter().zip(&values[start..end])`
  unfoldable pub decode_slice : List P → List Bytes → Option (List R)
  decode_slice [] values = some []
  decode_slice (p ∷ rows) [] = some []
  decode_slice (p ∷ rows) (v ∷ values) =
      let rest = decode_slice rows values in
      elim (decode_row p v) [
        | inl e ↦ none
        | inr r ↦ elim rest [ none ↦ none | some rs ↦ some (r ∷ rs) ]
      ]

  -- The loop over the items: the rows, and the cursors.
  unfoldable pub take_values :
      List (Bytes × List Bytes)
      → List (Item P)
      → List (Bytes × ℕ)
      → List R
      → Option (List R × List (Bytes × ℕ))
  unfolding lookup set decode_slice
  take_values answer [] cursors out = some (out, cursors)
  take_values answer (item ∷ items) cursors out = elim (lookup item.target answer) [
    | none ↦ none
    | some values ↦
        let start = or_default (lookup item.target cursors) 0 in
        elim (checked_add start (length item.rows)) [
          | none ↦ none
          | some end ↦
              if ltb (length values) end
              then none
              else elim (decode_slice item.rows (take (end - start) (drop start values))) [
                | none ↦ none
                | some rs ↦ take_values answer items (set item.target end cursors) (out ++ rs)
              ]
        ]
  ]

  unfoldable pub native_storage_batch :
      Bool
      → (ℕ → List (Bytes × List Bytes) → CollectError ⊎ List (Bytes × List Bytes))
      → List (Item P)
      → Option (List R)
  unfolding injects_at_target build_request take_values all_used
  native_storage_batch worth get_storage_values [] = none
  native_storage_batch worth get_storage_values (first ∷ items) =
      if not (injects_at_target reader) || not worth
      then none
      else if ltb native_storage_max_slots (length (flat_map (λ item. item.rows) (first ∷ items)))
      then none
      else elim (build_request (first ∷ items) []) [
        | none ↦ none
        | some request ↦ elim (get_storage_values first.block request) [
          | inl e ↦ none
          | inr answer ↦ elim (take_values answer (first ∷ items) [] []) [
            | none ↦ none
            | some (out, cursors) ↦
                if not (length answer == length request)
                then none
                else if all_used cursors answer
                then some out
                else none
          ]
        ]
      ]

  -- `fallback` is `extractor_batch_with_fallback` of one item.
  unfoldable pub native_chunk_with_fallback :
      Bool
      → (ℕ → List (Bytes × List Bytes) → CollectError ⊎ List (Bytes × List Bytes))
      → (Item P → Outcome CollectError (List R))
      → List (Item P)
      → Outcome CollectError (List R)
  unfolding native_storage_batch try_map
  native_chunk_with_fallback worth get_storage_values fallback items =
      elim (native_storage_batch worth get_storage_values items) [
        | some responses ↦ ok responses
        | none ↦ try_map fallback items >>= λ per_item. ok (concat per_item)
      ]
