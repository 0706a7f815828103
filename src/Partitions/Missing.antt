-- ===== src/Partitions/Missing.antt =====
-- Partitioning along a dimension that the partition does not have.
use mathlib.Core.Option
use triodion.Prelude.{◌≡◌, refl, ◌∙◌, Option, none, some, List, [], ◌∷◌}
use triodion.Prelude.Outcome.{ok, err}
use triodion.Errors.{collect_error}
use triodion.Partitions.Dim.{
  Dim, block_number, transaction_hash, call_data, address, contract, from_address, to_address, slot,
  topic0, topic1, topic2, topic3,
}
use triodion.Partitions.Types.{Partition, PartitionLabels, Labels, labels_of}
use triodion.Partitions.Splitting.{
  Axis, partition_macro, partition_step, partition_loop, partition, label_output,
  label_partition_macro, label_step, label_loop, partition_with_labels, block_axis,
  transaction_hash_axis, address_axis, contract_axis, from_address_axis, to_address_axis,
  call_data_axis, slot_axis, topic0_axis, topic1_axis, topic2_axis, topic3_axis,
}
use triodion.Partitions.Meaning.{values_at}

map-none : {A B : Type 0} (f : A → B) (o : Option A) → Option.map f o ≡ none → o ≡ none
map-none f none e = refl
map-none f (some a) e = cc

macro_missing :
    {C : Type 0} (axis : Axis C) (p : Partition)
    → axis.chunks p ≡ none
    → partition_macro axis (p ∷ []) ≡ ok []
unfolding partition_macro
macro_missing axis p e = rw e

step_missing : (p : Partition) (d : Dim) → values_at p d ≡ none → partition_step d (p ∷ []) ≡ ok []
unfolding partition_step values_at
step_missing p block_number e = macro_missing block_axis p (map-none _ _ e)
step_missing p transaction_hash e = macro_missing transaction_hash_axis p (map-none _ _ e)
step_missing p address e = macro_missing address_axis p (map-none _ _ e)
step_missing p contract e = macro_missing contract_axis p (map-none _ _ e)
step_missing p from_address e = macro_missing from_address_axis p (map-none _ _ e)
step_missing p to_address e = macro_missing to_address_axis p (map-none _ _ e)
step_missing p call_data e = macro_missing call_data_axis p (map-none _ _ e)
step_missing p slot e = macro_missing slot_axis p (map-none _ _ e)
step_missing p topic0 e = macro_missing topic0_axis p (map-none _ _ e)
step_missing p topic1 e = macro_missing topic1_axis p (map-none _ _ e)
step_missing p topic2 e = macro_missing topic2_axis p (map-none _ _ e)
step_missing p topic3 e = macro_missing topic3_axis p (map-none _ _ e)

step_empty : (d : Dim) → partition_step d [] ≡ ok []
unfolding partition_step partition_macro
step_empty block_number = refl
step_empty _ = refl

loop_empty : (ds : List Dim) → partition_loop ds [] ≡ ok []
unfolding partition_loop
loop_empty [] = refl
loop_empty (d ∷ ds) = rw (step_empty d, loop_empty ds)

label_macro_missing :
    {C : Type 0} (axis : Axis C) (labels : Labels) (p : Partition)
    → axis.chunks p ≡ none
    → label_partition_macro axis labels (p ∷ [])
      ≡ err (collect_error "missing entries for partition dimension")
unfolding label_partition_macro label_output
label_macro_missing axis labels p e = rw (e, label_output)

label_step_missing :
    (p : Partition) (labels : Labels) (d : Dim)
    → values_at p d ≡ none
    → label_step d labels (p ∷ []) ≡ err (collect_error "missing entries for partition dimension")
unfolding label_step values_at
label_step_missing p labels block_number e =
    label_macro_missing block_axis labels p (map-none _ _ e)
label_step_missing p labels transaction_hash e =
    label_macro_missing transaction_hash_axis labels p (map-none _ _ e)
label_step_missing p labels address e = label_macro_missing address_axis labels p (map-none _ _ e)
label_step_missing p labels contract e = label_macro_missing contract_axis labels p (map-none _ _ e)
label_step_missing p labels from_address e =
    label_macro_missing from_address_axis labels p (map-none _ _ e)
label_step_missing p labels to_address e =
    label_macro_missing to_address_axis labels p (map-none _ _ e)
label_step_missing p labels call_data e =
    label_macro_missing call_data_axis labels p (map-none _ _ e)
label_step_missing p labels slot e = label_macro_missing slot_axis labels p (map-none _ _ e)
label_step_missing p labels topic0 e = label_macro_missing topic0_axis labels p (map-none _ _ e)
label_step_missing p labels topic1 e = label_macro_missing topic1_axis labels p (map-none _ _ e)
label_step_missing p labels topic2 e = label_macro_missing topic2_axis labels p (map-none _ _ e)
label_step_missing p labels topic3 e = label_macro_missing topic3_axis labels p (map-none _ _ e)

relabelled : (p : Partition) (d : Dim) → values_at (record p { label = some [] }) d ≡ values_at p d
unfolding values_at
relabelled p block_number = refl
relabelled p _ = refl

-- Where the first dimension is one that the partition does not have, `partition_with_labels` is an
-- error, but `partition` succeeds with no piece at all, and drops every request.
pub partition_missing :
    (p : Partition) (labels : PartitionLabels) (d : Dim) (ds : List Dim)
    → values_at p d ≡ none
    → (partition p (d ∷ ds) ≡ ok [])
      × (partition_with_labels p labels (d ∷ ds)
          ≡ err (collect_error "missing entries for partition dimension"))
unfolding partition partition_loop partition_with_labels label_loop
partition_missing p labels d ds e = (
  rw (step_missing p d e, loop_empty ds),
  rw (
      label_step_missing (record p { label = some [] }) (labels_of labels d) d
        (relabelled p d ∙ e)),
)
