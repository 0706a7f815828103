-- ===== src/Partitions/Stats.antt =====
-- The statistics of partitions in crates/freeze/src/types/partitions.rs.
use triodion.Prelude.{ℕ, String, Option, none, some, List, map}
use mathlib.Core.List.{foldl}
use triodion.Prelude.Order.{Ord, Bytes, nat_ord, bytes_ord}
use triodion.Chunks.Interface.{ChunkData, ChunkStats, vec_stats, fold_stats}
use triodion.Chunks.Number.{number_chunk_data}
use triodion.Chunks.Binary.{binary_chunk_data}
use triodion.Partitions.Types.{Partition}

pub record PartitionStats : Type 0 where
  pub block_numbers : Option (ChunkStats ℕ)
  pub transactions : Option (ChunkStats Bytes)
  pub call_datas : Option (ChunkStats Bytes)
  pub addresses : Option (ChunkStats Bytes)
  pub contracts : Option (ChunkStats Bytes)
  pub from_addresses : Option (ChunkStats Bytes)
  pub to_addresses : Option (ChunkStats Bytes)
  pub slots : Option (ChunkStats Bytes)
  pub topic0s : Option (ChunkStats Bytes)
  pub topic1s : Option (ChunkStats Bytes)
  pub topic2s : Option (ChunkStats Bytes)
  pub topic3s : Option (ChunkStats Bytes)

-- `fold` of two optional statistics
unfoldable pub fold_option :
    {I : Type 0} ⦃o : Ord I⦄ → Option (ChunkStats I) → Option (ChunkStats I) → Option (ChunkStats I)
fold_option (some lhs) (some rhs) = some (fold_stats lhs rhs)
fold_option (some lhs) none = some lhs
fold_option none (some rhs) = some rhs
fold_option none none = none

-- `PartitionStats::fold`
unfoldable pub fold_partition_stats : PartitionStats → PartitionStats → PartitionStats
unfolding fold_option
fold_partition_stats a b = record {
  block_numbers = fold_option a.block_numbers b.block_numbers;
  transactions = fold_option a.transactions b.transactions;
  call_datas = fold_option a.call_datas b.call_datas;
  addresses = fold_option a.addresses b.addresses;
  contracts = fold_option a.contracts b.contracts;
  from_addresses = fold_option a.from_addresses b.from_addresses;
  to_addresses = fold_option a.to_addresses b.to_addresses;
  slots = fold_option a.slots b.slots;
  topic0s = fold_option a.topic0s b.topic0s;
  topic1s = fold_option a.topic1s b.topic1s;
  topic2s = fold_option a.topic2s b.topic2s;
  topic3s = fold_option a.topic3s b.topic3s;
}

-- `PartitionStats::default()`
abbrev pub no_stats : PartitionStats
no_stats = record {
  block_numbers = none;
  transactions = none;
  call_datas = none;
  addresses = none;
  contracts = none;
  from_addresses = none;
  to_addresses = none;
  slots = none;
  topic0s = none;
  topic1s = none;
  topic2s = none;
  topic3s = none;
}

-- `c.stats()` on the chunks of a dimension, if it has any
stats_of : {C I : Type 0} ⦃o : Ord I⦄ → ChunkData C I → Option (List C) → Option (ChunkStats I)
stats_of d none = none
stats_of d (some cs) = some (vec_stats d cs)

module _ (hex_encode : Bytes → String) where
  -- `Partition::stats`
  unfoldable pub partition_stats : Partition → PartitionStats
  unfolding stats_of
  partition_stats p = record {
    block_numbers = stats_of number_chunk_data p.block_numbers;
    transactions = stats_of (binary_chunk_data hex_encode) p.transactions;
    call_datas = stats_of (binary_chunk_data hex_encode) p.call_datas;
    addresses = stats_of (binary_chunk_data hex_encode) p.addresses;
    contracts = stats_of (binary_chunk_data hex_encode) p.contracts;
    from_addresses = stats_of (binary_chunk_data hex_encode) p.from_addresses;
    to_addresses = stats_of (binary_chunk_data hex_encode) p.to_addresses;
    slots = stats_of (binary_chunk_data hex_encode) p.slots;
    topic0s = stats_of (binary_chunk_data hex_encode) p.topic0s;
    topic1s = stats_of (binary_chunk_data hex_encode) p.topic1s;
    topic2s = stats_of (binary_chunk_data hex_encode) p.topic2s;
    topic3s = stats_of (binary_chunk_data hex_encode) p.topic3s;
  }

  unfoldable pub meta_chunks_stats : List Partition → PartitionStats
  unfolding partition_stats fold_partition_stats
  meta_chunks_stats chunks = foldl fold_partition_stats no_stats (map partition_stats chunks)
