-- ===== src/Partitions/Types.antt =====
-- The records of crates/freeze/src/types/partitions.rs and `Params` of rpc_params.rs.
use triodion.Prelude.{ℕ, String, Option, none, List}
use triodion.Prelude.Order.{Bytes}
use triodion.Chunks.Number.{NumberChunk}
use triodion.Chunks.Binary.{BinaryChunk}
use triodion.Partitions.Dim.{
  Dim, block_number, transaction_hash, call_data, address, contract, from_address, to_address, slot,
  topic0, topic1, topic2, topic3,
}

pub record Partition : Type 0 where
  pub label : Option (List (Option String))
  pub block_numbers : Option (List NumberChunk)
  pub transactions : Option (List BinaryChunk)
  pub call_datas : Option (List BinaryChunk)
  pub addresses : Option (List BinaryChunk)
  pub contracts : Option (List BinaryChunk)
  pub from_addresses : Option (List BinaryChunk)
  pub to_addresses : Option (List BinaryChunk)
  pub slots : Option (List BinaryChunk)
  pub topic0s : Option (List BinaryChunk)
  pub topic1s : Option (List BinaryChunk)
  pub topic2s : Option (List BinaryChunk)
  pub topic3s : Option (List BinaryChunk)

-- the parameters of one RPC call
pub record Params : Type 0 where
  pub block_number : Option ℕ
  pub block_range : Option (ℕ × ℕ)
  pub transaction_hash : Option Bytes
  pub call_data : Option Bytes
  pub address : Option Bytes
  pub contract : Option Bytes
  pub from_address : Option Bytes
  pub to_address : Option Bytes
  pub slot : Option Bytes
  pub topic0 : Option Bytes
  pub topic1 : Option Bytes
  pub topic2 : Option Bytes
  pub topic3 : Option Bytes

-- `Params::default()`
abbrev pub no_params : Params
no_params = record {
  block_number = none;
  block_range = none;
  transaction_hash = none;
  call_data = none;
  address = none;
  contract = none;
  from_address = none;
  to_address = none;
  slot = none;
  topic0 = none;
  topic1 = none;
  topic2 = none;
  topic3 = none;
}

-- the labels of one dimension, one for each of its chunks
abbrev pub Labels : Type 0
Labels = Option (List (Option String))

pub record PartitionLabels : Type 0 where
  pub block_number_labels : Labels
  pub transaction_hash_labels : Labels
  pub call_data_labels : Labels
  pub address_labels : Labels
  pub contract_labels : Labels
  pub from_address_labels : Labels
  pub to_address_labels : Labels
  pub slot_labels : Labels
  pub topic0_labels : Labels
  pub topic1_labels : Labels
  pub topic2_labels : Labels
  pub topic3_labels : Labels

-- `PartitionLabels::dim`
unfoldable pub labels_of : PartitionLabels → Dim → Labels
labels_of l block_number = l.block_number_labels
labels_of l transaction_hash = l.transaction_hash_labels
labels_of l call_data = l.call_data_labels
labels_of l address = l.address_labels
labels_of l contract = l.contract_labels
labels_of l from_address = l.from_address_labels
labels_of l to_address = l.to_address_labels
labels_of l slot = l.slot_labels
labels_of l topic0 = l.topic0_labels
labels_of l topic1 = l.topic1_labels
labels_of l topic2 = l.topic2_labels
labels_of l topic3 = l.topic3_labels
