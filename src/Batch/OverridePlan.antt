-- ===== src/Batch/OverridePlan.antt =====
-- `state_override_collect_by_block` of crates/freeze/src/types/state_override.rs: which rows are read by the
-- extractor, in which chunks, and which are read alone. The order of the groups, which is that of a
-- hash map there, is that of the blocks and targets here.
use triodion.Prelude.{
  ℕ, max, Bool, ◌&&◌, ◌||◌, Option, none, some, List, [], ◌∷◌, ◌++◌, map, length, flat_map, ◌⊎◌,
  inl, inr, ltb, ◌==◌, if◌then◌else◌,
}
use triodion.Prelude.Order.{Bytes}
use triodion.Partitions.Types.{Params}
use triodion.Errors.{CollectError}
use triodion.Batch.Grouping.{Groups, push_entry, even_chunks}
use triodion.Batch.Native.{Item, plan_native_chunks}
use triodion.Batch.Override.{
  StateReader, injects_at_target, same_bytes, from_be_bytes, row_shadows_override, refuses_target,
}

abbrev pub min_batch_group : ℕ
min_batch_group = 2

abbrev pub same_group : ℕ × Bytes → ℕ × Bytes → Bool
same_group (block, target) (other, address) = block == other && same_bytes target address

abbrev pub group_before : ℕ × Bytes → ℕ × Bytes → Bool
group_before (block, target) (other, address) =
    ltb block other || (block == other && ltb (from_be_bytes target) (from_be_bytes address))

-- `query.state_override_batch_size`, or the dataset's default, and at least 1
unfoldable pub override_batch_size : ℕ → ℕ → ℕ
override_batch_size asked default_size = max (if ltb 0 asked then asked else default_size) 1

-- A group that is too small joins the rows that are read alone.
unfoldable pub retain :
    Groups (ℕ × Bytes) Params → List Params → Groups (ℕ × Bytes) Params × List Params
retain [] ineligible = ([], ineligible)
retain ((key, rows) ∷ groups) ineligible =
    let dropped = retain groups (ineligible ++ rows) in
    let rest = retain groups ineligible in
    if ltb (length rows) min_batch_group then dropped else ((key, rows) ∷ rest.0, rest.1)

module _ (reader : StateReader) (target : Params → CollectError ⊎ Bytes)
    (input_word : Params → CollectError ⊎ ℕ) where
  -- the block and the target of a row that the extractor may read
  unfoldable pub group_key : Params → Option (ℕ × Bytes)
  unfolding row_shadows_override refuses_target
  group_key p = elim p.block_number [
    | none ↦ none
    | some block ↦ elim (target p) [
      | inl e ↦ none
      | inr t ↦ elim (input_word p) [
        | inl e ↦ none
        | inr word ↦
            if row_shadows_override reader word
            then none
            else elim (refuses_target reader t) [ some why ↦ none | none ↦ some (block, t) ]
      ]
    ]
  ]

  -- the loop that groups the rows
  unfoldable pub group_rows :
      List Params
      → Groups (ℕ × Bytes) Params
      → List Params
      → Groups (ℕ × Bytes) Params × List Params
  unfolding group_key
  group_rows [] groups ineligible = (groups, ineligible)
  group_rows (p ∷ params) groups ineligible = elim (group_key p) [
    | some key ↦ group_rows params (push_entry same_group group_before key p groups) ineligible
    | none ↦ group_rows params groups (ineligible ++ (p ∷ []))
  ]

  unfoldable pub group_work : ℕ → (ℕ × Bytes) × List Params → List (Item Params)
  unfolding even_chunks
  group_work batch_size ((block, t), rows) =
      map (λ chunk. record { block = block; target = t; rows = chunk })
        (even_chunks rows batch_size)

  -- The chunks, each of one block and target, and the rows that are read alone.
  unfoldable pub override_work : ℕ → List Params → List (Item Params) × List Params
  unfolding group_rows group_work retain
  override_work batch_size params =
      let (groups, alone) = group_rows params [] [] in
      let (kept, ineligible) = retain groups alone in
      (flat_map (group_work batch_size) kept, ineligible)

  -- The groups of chunks that one task reads, and the rows that are read alone.
  unfoldable pub override_plan : Bool → ℕ → List Params → List (List (Item Params)) × List Params
  unfolding override_work plan_native_chunks injects_at_target
  override_plan worth batch_size params =
      let (work, ineligible) = override_work batch_size params in
      (plan_native_chunks work (injects_at_target reader && worth), ineligible)
