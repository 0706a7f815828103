-- ===== src/Partitions/Splitting.antt =====
-- `partition` and `partition_with_labels` of crates/freeze/src/types/partitions.rs.
use triodion.Prelude.{
  String, Option, none, some, List, [], ◌∷◌, ◌++◌, map, length, replicate, not, ◌==◌, if◌then◌else◌,
}
use triodion.Prelude.Outcome.{Outcome, ok, err, ◌>>=◌}
use triodion.Errors.{CollectError, collect_error}
use triodion.Chunks.Number.{NumberChunk}
use triodion.Chunks.Binary.{BinaryChunk}
use triodion.Partitions.Dim.{
  Dim, block_number, transaction_hash, call_data, address, contract, from_address, to_address, slot,
  topic0, topic1, topic2, topic3,
}
use triodion.Partitions.Types.{Partition, PartitionLabels, Labels, labels_of}

-- A dimension of a partition: its chunks, and the partition with other chunks there. The macros
-- of the source take the name of the field.
pub record Axis (C : Type 0) : Type 0 where
  pub chunks : Partition → Option (List C)
  pub with_chunks : Partition → List C → Partition

-- the iterator over an optional list
abbrev pub or_empty : {C : Type 0} → Option (List C) → List C
or_empty none = []
or_empty (some cs) = cs

module _ {C : Type 0} (axis : Axis C) where
  open axis use {chunks, with_chunks}

  -- The macro `partition!`. The error for missing chunks is turned into an iterator, and an
  -- iterator over an error is empty: no error comes out.
  unfoldable pub partition_macro : List Partition → Outcome CollectError (List Partition)
  partition_macro [] = ok []
  partition_macro (output ∷ outputs) = do
    rest ← partition_macro outputs
    ok (map (λ c. with_chunks output (c ∷ [])) (or_empty (chunks output)) ++ rest)

  -- one labelled chunk of `output`
  unfoldable pub labelled : Partition → C × Option String → Outcome CollectError Partition
  labelled output (c, label) = elim output.label [
    | none ↦ err (collect_error "missing label")
    | some lbl ↦ ok (with_chunks (record output { label = some (lbl ++ label ∷ []) }) (c ∷ []))
  ]

  unfoldable pub all_labelled :
      Partition → List C → List (Option String) → Outcome CollectError (List Partition)
  unfolding labelled
  all_labelled output (c ∷ cs) (l ∷ ls) =
      let rest = all_labelled output cs ls in do p ← labelled output (c, l); ps ← rest; ok (p ∷ ps)
  all_labelled output [] _ = ok []
  all_labelled output _ [] = ok []

  -- the pieces of one output, or the error
  unfoldable pub label_output :
      Labels → Partition → Option (List C) → Outcome CollectError (List Partition)
  unfolding all_labelled
  label_output labels output none = err (collect_error "missing entries for partition dimension")
  label_output none output (some cs) = all_labelled output cs (replicate (length cs) none)
  label_output (some ls) output (some cs) =
      if not (length cs == length ls)
      then err (collect_error "number of chunks should equal number of labels for dim")
      else all_labelled output cs ls

  -- The macro `label_partition!`.
  unfoldable pub label_partition_macro :
      Labels → List Partition → Outcome CollectError (List Partition)
  unfolding label_output
  label_partition_macro labels [] = ok []
  label_partition_macro labels (output ∷ outputs) =
      let rest = label_partition_macro labels outputs in
      do ps ← label_output labels output (chunks output); qs ← rest; ok (ps ++ qs)

-- the fields
abbrev pub block_axis : Axis NumberChunk
block_axis = record {
  chunks = λ p. p.block_numbers;
  with_chunks = λ p cs. record p { block_numbers = some cs };
}

abbrev pub transaction_hash_axis : Axis BinaryChunk
transaction_hash_axis = record {
  chunks = λ p. p.transactions;
  with_chunks = λ p cs. record p { transactions = some cs };
}

abbrev pub call_data_axis : Axis BinaryChunk
call_data_axis = record {
  chunks = λ p. p.call_datas;
  with_chunks = λ p cs. record p { call_datas = some cs };
}

abbrev pub address_axis : Axis BinaryChunk
address_axis = record {
  chunks = λ p. p.addresses;
  with_chunks = λ p cs. record p { addresses = some cs };
}

abbrev pub contract_axis : Axis BinaryChunk
contract_axis = record {
  chunks = λ p. p.contracts;
  with_chunks = λ p cs. record p { contracts = some cs };
}

abbrev pub from_address_axis : Axis BinaryChunk
from_address_axis = record {
  chunks = λ p. p.from_addresses;
  with_chunks = λ p cs. record p { from_addresses = some cs };
}

abbrev pub to_address_axis : Axis BinaryChunk
to_address_axis = record {
  chunks = λ p. p.to_addresses;
  with_chunks = λ p cs. record p { to_addresses = some cs };
}

abbrev pub slot_axis : Axis BinaryChunk
slot_axis = record { chunks = λ p. p.slots; with_chunks = λ p cs. record p { slots = some cs } }

abbrev pub topic0_axis : Axis BinaryChunk
topic0_axis = record {
  chunks = λ p. p.topic0s;
  with_chunks = λ p cs. record p { topic0s = some cs };
}

abbrev pub topic1_axis : Axis BinaryChunk
topic1_axis = record {
  chunks = λ p. p.topic1s;
  with_chunks = λ p cs. record p { topic1s = some cs };
}

abbrev pub topic2_axis : Axis BinaryChunk
topic2_axis = record {
  chunks = λ p. p.topic2s;
  with_chunks = λ p cs. record p { topic2s = some cs };
}

abbrev pub topic3_axis : Axis BinaryChunk
topic3_axis = record {
  chunks = λ p. p.topic3s;
  with_chunks = λ p cs. record p { topic3s = some cs };
}

-- one round of the loop of `partition`
unfoldable pub partition_step : Dim → List Partition → Outcome CollectError (List Partition)
unfolding partition_macro
partition_step block_number outputs = partition_macro block_axis outputs
partition_step transaction_hash outputs = partition_macro transaction_hash_axis outputs
partition_step call_data outputs = partition_macro call_data_axis outputs
partition_step address outputs = partition_macro address_axis outputs
partition_step contract outputs = partition_macro contract_axis outputs
partition_step from_address outputs = partition_macro from_address_axis outputs
partition_step to_address outputs = partition_macro to_address_axis outputs
partition_step slot outputs = partition_macro slot_axis outputs
partition_step topic0 outputs = partition_macro topic0_axis outputs
partition_step topic1 outputs = partition_macro topic1_axis outputs
partition_step topic2 outputs = partition_macro topic2_axis outputs
partition_step topic3 outputs = partition_macro topic3_axis outputs

unfoldable pub partition_loop : List Dim → List Partition → Outcome CollectError (List Partition)
unfolding partition_step
partition_loop [] outputs = ok outputs
partition_loop (d ∷ dims) outputs = partition_step d outputs >>= λ next. partition_loop dims next

unfoldable pub partition : Partition → List Dim → Outcome CollectError (List Partition)
unfolding partition_loop
partition self partition_by = partition_loop partition_by (self ∷ [])

-- one round of the loop of `partition_with_labels`
unfoldable pub label_step : Dim → Labels → List Partition → Outcome CollectError (List Partition)
unfolding label_partition_macro
label_step block_number labels outputs = label_partition_macro block_axis labels outputs
label_step transaction_hash labels outputs =
    label_partition_macro transaction_hash_axis labels outputs
label_step call_data labels outputs = label_partition_macro call_data_axis labels outputs
label_step address labels outputs = label_partition_macro address_axis labels outputs
label_step contract labels outputs = label_partition_macro contract_axis labels outputs
label_step from_address labels outputs = label_partition_macro from_address_axis labels outputs
label_step to_address labels outputs = label_partition_macro to_address_axis labels outputs
label_step slot labels outputs = label_partition_macro slot_axis labels outputs
label_step topic0 labels outputs = label_partition_macro topic0_axis labels outputs
label_step topic1 labels outputs = label_partition_macro topic1_axis labels outputs
label_step topic2 labels outputs = label_partition_macro topic2_axis labels outputs
label_step topic3 labels outputs = label_partition_macro topic3_axis labels outputs

unfoldable pub label_loop :
    PartitionLabels → List Dim → List Partition → Outcome CollectError (List Partition)
unfolding label_step labels_of
label_loop labels [] outputs = ok outputs
label_loop labels (d ∷ dims) outputs =
    label_step d (labels_of labels d) outputs >>= λ next. label_loop labels dims next

unfoldable pub partition_with_labels :
    Partition → PartitionLabels → List Dim → Outcome CollectError (List Partition)
unfolding label_loop
partition_with_labels self labels partition_by =
    label_loop labels partition_by (record self { label = some [] } ∷ [])
