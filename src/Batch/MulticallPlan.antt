-- ===== src/Batch/MulticallPlan.antt =====
-- `multicall_collect_by_block` of crates/freeze/src/types/multicall.rs: which rows go into which batch of
-- calls, and which are read alone. The calls that a dataset makes for a row are a parameter.
use triodion.Prelude.{
  ℕ, max, Bool, false, Option, none, some, List, [], ◌∷◌, ◌++◌, map, length, flat_map, ◌⊎◌, inl,
  inr, ltb, leb, ◌==◌, if◌then◌else◌,
}
use triodion.Prelude.Order.{Bytes}
use triodion.Partitions.Types.{Params}
use triodion.Errors.{CollectError}
use triodion.Batch.Grouping.{Groups, push_entry, chunks}
use triodion.Batch.Multicall.{rows_per_batch}

pub record Multicall3Info : Type 0 where
  pub address : Bytes
  pub deploy_block : ℕ

abbrev pub multicall3_address : Bytes
multicall3_address =
    202 ∷ 17 ∷ 189 ∷ 224 ∷ 89 ∷ 119 ∷ 179 ∷ 99 ∷ 17 ∷ 103 ∷ 2 ∷ 136 ∷ 98 ∷ 190 ∷ 42 ∷ 23 ∷ 57 ∷ 118
    ∷ 202 ∷ 17 ∷ []

abbrev pub zksync_multicall3_address : Bytes
zksync_multicall3_address =
    249 ∷ 205 ∷ 166 ∷ 36 ∷ 251 ∷ 199 ∷ 224 ∷ 89 ∷ 53 ∷ 92 ∷ 233 ∷ 138 ∷ 49 ∷ 105 ∷ 61 ∷ 41 ∷ 159
    ∷ 172 ∷ 217 ∷ 99 ∷ []

unfoldable pub multicall3_info : ℕ → Option Multicall3Info
multicall3_info chain_id =
    if chain_id == 1
    then some (record { address = multicall3_address; deploy_block = 14353601 })
    else if chain_id == 10
    then some (record { address = multicall3_address; deploy_block = 4286263 })
    else if chain_id == 56
    then some (record { address = multicall3_address; deploy_block = 15921452 })
    else if chain_id == 100
    then some (record { address = multicall3_address; deploy_block = 21022491 })
    else if chain_id == 137
    then some (record { address = multicall3_address; deploy_block = 25770160 })
    else if chain_id == 8453
    then some (record { address = multicall3_address; deploy_block = 5022 })
    else if chain_id == 42161
    then some (record { address = multicall3_address; deploy_block = 7654707 })
    else if chain_id == 43114
    then some (record { address = multicall3_address; deploy_block = 11907934 })
    else if chain_id == 324
    then some (record { address = zksync_multicall3_address; deploy_block = 3908235 })
    else none

abbrev pub default_multicall_batch_size : ℕ
default_multicall_batch_size = 250

-- `query.multicall_batch_size`, or the dataset's default, and at least 1
unfoldable pub effective_batch_size : ℕ → ℕ → ℕ
effective_batch_size asked default_size = max (if ltb 0 asked then asked else default_size) 1

-- `p.block_number.unwrap_or(0)`
abbrev pub block_of : Params → ℕ
block_of p = elim p.block_number [ none ↦ 0 | some block ↦ block ]

-- whether Multicall3 is deployed at the block
unfoldable pub eligible : Option Multicall3Info → ℕ → Bool
eligible none block = false
eligible (some info) block = leb info.deploy_block block

-- The rows by block that go through Multicall3, and the others.
unfoldable pub route :
    Option Multicall3Info
    → List Params
    → Groups ℕ Params
    → List Params
    → Groups ℕ Params × List Params
unfolding eligible
route mc [] by_block ineligible = (by_block, ineligible)
route mc (p ∷ params) by_block ineligible =
    let batched =
      route mc params (push_entry (λ a b. a == b) (λ a b. ltb a b) (block_of p) p by_block)
        ineligible in
    let alone = route mc params by_block (ineligible ++ (p ∷ [])) in
    if eligible mc (block_of p) then batched else alone

module _ {C : Type 0} (calls_for_row : Params → CollectError ⊎ List C) where
  -- the number of calls of the first row, and at least 1
  unfoldable pub calls_per_row : List Params → ℕ
  calls_per_row [] = 1
  calls_per_row (p ∷ rows) = elim (calls_for_row p) [ inl e ↦ 1 | inr cs ↦ max (length cs) 1 ]

  -- The batches of one block.
  unfoldable pub block_batches : ℕ → ℕ × List Params → List (ℕ × List Params)
  unfolding calls_per_row
  block_batches batch_size (block, rows) =
      map (λ chunk. (block, chunk)) (chunks (rows_per_batch batch_size (calls_per_row rows)) rows)

  -- The batches, each with its block, and the rows that are read alone.
  unfoldable pub multicall_plan :
      Option Multicall3Info → ℕ → List Params → List (ℕ × List Params) × List Params
  unfolding block_batches route
  multicall_plan mc batch_size params =
      let (by_block, ineligible) = route mc params [] [] in
      (flat_map (block_batches batch_size) by_block, ineligible)
