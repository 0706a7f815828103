-- ===== src/Partitions/Requests.antt =====
-- `param_sets`, `dims` and `n_chunks` of crates/freeze/src/types/partitions.rs: the RPC calls that
-- a partition stands for.
use triodion.Prelude.{
  ℕ, Option, none, some, List, [], ◌∷◌, ◌++◌, map, flat_map, length, Bool, true, false, ◌&&◌, not,
  if◌then◌else◌,
}
use triodion.Prelude.Outcome.{Outcome, ok, err, ◌>>=◌, ok_or}
use triodion.Errors.{CollectError, collect_error}
use triodion.Chunks.Number.{NumberChunk, numbers, range, values}
use triodion.Chunks.Binary.{items}
use triodion.Chunks.Subchunks.{vec_subchunk_by_size}
use triodion.Partitions.Dim.{
  Dim, block_number, transaction_hash, call_data, address, contract, from_address, to_address, slot,
  topic0, topic1, topic2, topic3,
}
use triodion.Partitions.Types.{Partition, Params, no_params}

-- the field is given
abbrev pub is_some : {A : Type 0} → Option A → Bool
is_some none = false
is_some (some a) = true

-- `dims.push(dim)` if the field is given
abbrev pub push_if : {A : Type 0} → Option A → Dim → List Dim
push_if none d = []
push_if (some a) d = d ∷ []

unfoldable pub dims : Partition → List Dim
dims p =
    push_if p.block_numbers block_number
    ++ (push_if p.transactions transaction_hash
        ++ (push_if p.addresses address
            ++ (push_if p.contracts contract
                ++ (push_if p.from_addresses from_address
                    ++ (push_if p.to_addresses to_address
                        ++ (push_if p.call_datas call_data
                            ++ (push_if p.slots slot
                                ++ (push_if p.topic0s topic0
                                    ++ (push_if p.topic1s topic1
                                        ++ (push_if p.topic2s topic2
                                            ++ (push_if p.topic3s topic3 ++ [])))))))))))

-- the length of an optional list
abbrev len_or_zero : {A : Type 0} → Option (List A) → ℕ
len_or_zero none = 0
len_or_zero (some xs) = length xs

unfoldable pub n_chunks : Partition → Dim → ℕ
n_chunks p block_number = len_or_zero p.block_numbers
n_chunks p transaction_hash = len_or_zero p.transactions
n_chunks p address = len_or_zero p.addresses
n_chunks p contract = len_or_zero p.contracts
n_chunks p from_address = len_or_zero p.from_addresses
n_chunks p to_address = len_or_zero p.to_addresses
n_chunks p call_data = len_or_zero p.call_datas
n_chunks p slot = len_or_zero p.slots
n_chunks p topic0 = len_or_zero p.topic0s
n_chunks p topic1 = len_or_zero p.topic1s
n_chunks p topic2 = len_or_zero p.topic2s
n_chunks p topic3 = len_or_zero p.topic3s

module _ {C V : Type 0} (values_of : C → List V) (with_value : Params → V → Params) where
  -- The macro `parametrize!`: the two inner loops, over the chunks and their values.
  abbrev pub each_value : List C → Params → List Params
  each_value [] output = []
  each_value (c ∷ cs) output = map (with_value output) (values_of c) ++ each_value cs output

  -- The macro `parametrize!`.
  unfoldable pub parametrize : List Params → Option (List C) → Outcome CollectError (List Params)
  parametrize [] self_chunks = ok []
  parametrize (output ∷ outputs) self_chunks =
      let rest = parametrize outputs self_chunks in
      do
        chunks ← ok_or self_chunks (collect_error "mising block ranges")
        new ← rest
        ok (each_value chunks output ++ new)

-- One round of the loop over the dimensions.
unfoldable pub param_step :
    Partition → Bool → Dim → List Params → Outcome CollectError (List Params)
unfolding parametrize
param_step p include_block_ranges block_number outputs =
    if not include_block_ranges
    then parametrize values (λ q v. record q { block_number = some v }) outputs p.block_numbers
    else ok outputs
param_step p include_block_ranges transaction_hash outputs =
    parametrize items (λ q v. record q { transaction_hash = some v }) outputs p.transactions
param_step p include_block_ranges address outputs =
    parametrize items (λ q v. record q { address = some v }) outputs p.addresses
param_step p include_block_ranges contract outputs =
    parametrize items (λ q v. record q { contract = some v }) outputs p.contracts
param_step p include_block_ranges from_address outputs =
    parametrize items (λ q v. record q { from_address = some v }) outputs p.from_addresses
param_step p include_block_ranges to_address outputs =
    parametrize items (λ q v. record q { to_address = some v }) outputs p.to_addresses
param_step p include_block_ranges call_data outputs =
    parametrize items (λ q v. record q { call_data = some v }) outputs p.call_datas
param_step p include_block_ranges slot outputs =
    parametrize items (λ q v. record q { slot = some v }) outputs p.slots
param_step p include_block_ranges topic0 outputs =
    parametrize items (λ q v. record q { topic0 = some v }) outputs p.topic0s
param_step p include_block_ranges topic1 outputs =
    parametrize items (λ q v. record q { topic1 = some v }) outputs p.topic1s
param_step p include_block_ranges topic2 outputs =
    parametrize items (λ q v. record q { topic2 = some v }) outputs p.topic2s
param_step p include_block_ranges topic3 outputs =
    parametrize items (λ q v. record q { topic3 = some v }) outputs p.topic3s

unfoldable pub param_loop :
    Partition → Bool → List Dim → List Params → Outcome CollectError (List Params)
unfolding param_step
param_loop p include [] outputs = ok outputs
param_loop p include (d ∷ ds) outputs =
    param_step p include d outputs >>= λ new. param_loop p include ds new

-- the block ranges of one piece of the inner split
unfoldable pub piece_ranges : NumberChunk → List (Option (ℕ × ℕ))
piece_ranges (range start end) = some (start, end) ∷ []
piece_ranges (numbers ns) = map (λ n. some (n, n)) ns

-- the calls of `outputs`, each with each of the block ranges
abbrev pub with_ranges : List (Option (ℕ × ℕ)) → List Params → List Params
with_ranges block_ranges outputs =
    flat_map (λ q. map (λ r. record q { block_range = r }) block_ranges) outputs

-- the partition of the blocks by the inner request size
unfoldable pub split_blocks :
    Option ℕ → Option (List NumberChunk) → Bool → List Params → Outcome CollectError (List Params)
unfolding piece_ranges
split_blocks size block_numbers false outputs = ok outputs
split_blocks (some size) (some block_numbers) true outputs = do
  pieces ← vec_subchunk_by_size block_numbers size
  ok (with_ranges (flat_map piece_ranges pieces) outputs)
split_blocks _ _ true outputs =
    err (collect_error "insufficient block information present in partition")

-- `dims.contains(&Dim::BlockNumber)`
unfoldable pub contains_block_number : List Dim → Bool
contains_block_number [] = false
contains_block_number (block_number ∷ ds) = true
contains_block_number (_ ∷ ds) = contains_block_number ds

unfoldable pub includes_block_ranges : Partition → Option ℕ → Bool
unfolding dims contains_block_number
includes_block_ranges p inner_request_size =
    is_some inner_request_size && contains_block_number (dims p)

unfoldable pub param_sets : Partition → Option ℕ → Outcome CollectError (List Params)
unfolding param_loop dims includes_block_ranges split_blocks
param_sets p inner_request_size =
    let include = includes_block_ranges p inner_request_size in
    do
      outputs ← param_loop p include (dims p) (no_params ∷ [])
      split_blocks inner_request_size p.block_numbers include outputs
