-- ===== src/Partitions/Tests.antt =====
-- Partitions and their requests on a small input.
use triodion.Prelude.{String, ◌≡◌, refl, arith, ◌≢◌, ◌↔◌, none, some, List, [], ◌∷◌, In, inl, inr}
use triodion.Prelude.Outcome.{ok}
use triodion.Chunks.Number.{numbers, range}
use triodion.Chunks.Binary.{values_of}
use triodion.Partitions.Dim.{Dim, block_number, address, slot, from_str, fmt, from_str-fmt}
use triodion.Partitions.Types.{Partition, Params}
use triodion.Partitions.Splitting.{partition}
use triodion.Partitions.Requests.{param_sets}
use triodion.Partitions.Meaning.{Asks, values_at}
use triodion.Partitions.Product.{param_sets-Asks}
use triodion.Partitions.Covering.{partition-param_sets}
use triodion.Partitions.Served.{Sized, ServedBy, Serves}

abbrev work : Partition
work = record {
  label = none;
  block_numbers = some (range 3 4 ∷ numbers (9 ∷ []) ∷ []);
  transactions = none;
  call_datas = none;
  addresses = some (values_of ((1 ∷ []) ∷ (2 ∷ []) ∷ []) ∷ []);
  contracts = none;
  from_addresses = none;
  to_addresses = none;
  slots = none;
  topic0s = none;
  topic1s = none;
  topic2s = none;
  topic3s = none;
}

from_str-fmt_example : (from_str "slot" ≡ ok slot) ↔ ("slot" ≡ fmt slot)
from_str-fmt_example = from_str-fmt "slot" slot

param_sets-Asks_example :
    (qs : List Params) × (param_sets work none ≡ ok qs) × ((q : Params) → In q qs ↔ Asks work q)
param_sets-Asks_example = param_sets-Asks work

blocks_there : (d : Dim) → In d (block_number ∷ []) → values_at work d ≢ none
unfolding values_at
blocks_there block_number m e = cc
blocks_there address m e = cc
blocks_there _ (inl same) e = cc
blocks_there _ (inr m) e = elim m [ ]

work-Sized : Sized (some 4) work
work-Sized =
    (omega arith, range 3 4 ∷ numbers (9 ∷ []) ∷ [], refl, ((omega arith, omega arith), (tt, tt)))

partition-param_sets_example :
    (calls : List Params) × (param_sets work (some 4) ≡ ok calls)
    × (ps : List Partition) × (partition work (block_number ∷ []) ≡ ok ps)
    × ((piece : Partition)
        → In piece ps
        → (own : List Params) × (param_sets piece (some 4) ≡ ok own))
    × ((q : Params)
        → ServedBy (some 4) calls q ↔ ((piece : Partition) × In piece ps × Serves (some 4) piece q))
partition-param_sets_example =
    partition-param_sets work (block_number ∷ []) (some 4) blocks_there work-Sized

abbrev named_work : Partition
named_work = record work { label = some (some "slots" ∷ some "blocks" ∷ []) }

abbrev two_names : List String
two_names = "slots" ∷ "blocks" ∷ []
