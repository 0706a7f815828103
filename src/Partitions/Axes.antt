-- ===== src/Partitions/Axes.antt =====
-- The fields of a partition as axes: what a write to one of them changes.
use mathlib.Core.Path.{subst}
use mathlib.Core.Option
use triodion.Prelude.{
  ◌≡◌, ◌≢◌, ◌↔◌, refl, sym, some, List, [], ◌∷◌, map, flat_map, In, In-map, map-In, In-flat_map,
  flat_map-In, inl, inr,
}
use triodion.Chunks.Number.{NumberChunk, values}
use triodion.Chunks.Binary.{BinaryChunk, items}
use triodion.Partitions.Dim.{
  Dim, block_number, transaction_hash, call_data, address, contract, from_address, to_address, slot,
  topic0, topic1, topic2, topic3,
}
use triodion.Partitions.Types.{Partition}
use triodion.Partitions.Splitting.{
  Axis, block_axis, transaction_hash_axis, address_axis, contract_axis, from_address_axis,
  to_address_axis, call_data_axis, slot_axis, topic0_axis, topic1_axis, topic2_axis, topic3_axis,
}
use triodion.Partitions.Meaning.{Value, number, bytes, block_values, binary_values, values_at}

-- `axis` is the field of dimension `d`, whose chunks hold the values that `view` lists.
pub record IsAxis {C : Type 0} (d : Dim) (axis : Axis C) (view : List C → List Value) : Type 0 where
  pub at : (p : Partition) → values_at p d ≡ Option.map view (axis.chunks p)
  pub put : (p : Partition) (cs : List C) → values_at (axis.with_chunks p cs) d ≡ some (view cs)
  pub other :
      (p : Partition) (cs : List C) (e : Dim)
      → d ≢ e
      → values_at (axis.with_chunks p cs) e ≡ values_at p e
  pub by_chunk :
      (v : Value) (cs : List C) → In v (view cs) ↔ ((c : C) × In c cs × In v (view (c ∷ [])))

only :
    {C V : Type 0} (values_of : C → List V) (x : V) (c : C)
    → ((a : C) × In a (c ∷ []) × In x (values_of a))
    → In x (values_of c)
only values_of x c (a, inl e, m) = subst (λ y. In x (values_of y)) e m
only values_of x c (a, inr h, m) = elim h [ ]

-- a value of a list of chunks is a value of one of them
by_chunk_lem :
    {C V : Type 0} (values_of : C → List V) (inject : V → Value) (v : Value) (cs : List C)
    → In v (map inject (flat_map values_of cs))
      ↔ ((c : C) × In c cs × In v (map inject (flat_map values_of (c ∷ []))))
by_chunk_lem values_of inject v cs = (
  λ m.
      let (x, k, e) = map-In inject v (flat_map values_of cs) m in
      let (c, is_in, inner) = flat_map-In values_of x cs k in
      (
        c,
        is_in,
        subst (λ w. In w (map inject (flat_map values_of (c ∷ [])))) (sym e)
            (In-map inject x (flat_map values_of (c ∷ []))
              (In-flat_map values_of x c (c ∷ []) (inl refl) inner)),
      ),
  λ t.
      let (x, k, e) = map-In inject v (flat_map values_of (t.0 ∷ [])) t.2 in
      let inner = only values_of x t.0 (flat_map-In values_of x (t.0 ∷ []) k) in
      subst (λ w. In w (map inject (flat_map values_of cs))) (sym e)
        (In-map inject x (flat_map values_of cs) (In-flat_map values_of x t.0 cs t.1 inner)),
)

block_number_other :
    (p : Partition) (cs : List NumberChunk) (e : Dim)
    → block_number ≢ e
    → values_at (block_axis.with_chunks p cs) e ≡ values_at p e
unfolding values_at
block_number_other p cs block_number ne = absurd (ne refl)
block_number_other p cs _ ne = refl

pub block_number-IsAxis : IsAxis block_number block_axis block_values
unfolding values_at
block_number-IsAxis = record {
  at = λ p. refl;
  put = λ p cs. refl;
  other = block_number_other;
  by_chunk = by_chunk_lem values number;
}

transaction_hash_other :
    (p : Partition) (cs : List BinaryChunk) (e : Dim)
    → transaction_hash ≢ e
    → values_at (transaction_hash_axis.with_chunks p cs) e ≡ values_at p e
unfolding values_at
transaction_hash_other p cs transaction_hash ne = absurd (ne refl)
transaction_hash_other p cs _ ne = refl

pub transaction_hash-IsAxis : IsAxis transaction_hash transaction_hash_axis binary_values
unfolding values_at
transaction_hash-IsAxis = record {
  at = λ p. refl;
  put = λ p cs. refl;
  other = transaction_hash_other;
  by_chunk = by_chunk_lem items bytes;
}

address_other :
    (p : Partition) (cs : List BinaryChunk) (e : Dim)
    → address ≢ e
    → values_at (address_axis.with_chunks p cs) e ≡ values_at p e
unfolding values_at
address_other p cs address ne = absurd (ne refl)
address_other p cs _ ne = refl

pub address-IsAxis : IsAxis address address_axis binary_values
unfolding values_at
address-IsAxis = record {
  at = λ p. refl;
  put = λ p cs. refl;
  other = address_other;
  by_chunk = by_chunk_lem items bytes;
}

contract_other :
    (p : Partition) (cs : List BinaryChunk) (e : Dim)
    → contract ≢ e
    → values_at (contract_axis.with_chunks p cs) e ≡ values_at p e
unfolding values_at
contract_other p cs contract ne = absurd (ne refl)
contract_other p cs _ ne = refl

pub contract-IsAxis : IsAxis contract contract_axis binary_values
unfolding values_at
contract-IsAxis = record {
  at = λ p. refl;
  put = λ p cs. refl;
  other = contract_other;
  by_chunk = by_chunk_lem items bytes;
}

from_address_other :
    (p : Partition) (cs : List BinaryChunk) (e : Dim)
    → from_address ≢ e
    → values_at (from_address_axis.with_chunks p cs) e ≡ values_at p e
unfolding values_at
from_address_other p cs from_address ne = absurd (ne refl)
from_address_other p cs _ ne = refl

pub from_address-IsAxis : IsAxis from_address from_address_axis binary_values
unfolding values_at
from_address-IsAxis = record {
  at = λ p. refl;
  put = λ p cs. refl;
  other = from_address_other;
  by_chunk = by_chunk_lem items bytes;
}

to_address_other :
    (p : Partition) (cs : List BinaryChunk) (e : Dim)
    → to_address ≢ e
    → values_at (to_address_axis.with_chunks p cs) e ≡ values_at p e
unfolding values_at
to_address_other p cs to_address ne = absurd (ne refl)
to_address_other p cs _ ne = refl

pub to_address-IsAxis : IsAxis to_address to_address_axis binary_values
unfolding values_at
to_address-IsAxis = record {
  at = λ p. refl;
  put = λ p cs. refl;
  other = to_address_other;
  by_chunk = by_chunk_lem items bytes;
}

call_data_other :
    (p : Partition) (cs : List BinaryChunk) (e : Dim)
    → call_data ≢ e
    → values_at (call_data_axis.with_chunks p cs) e ≡ values_at p e
unfolding values_at
call_data_other p cs call_data ne = absurd (ne refl)
call_data_other p cs _ ne = refl

pub call_data-IsAxis : IsAxis call_data call_data_axis binary_values
unfolding values_at
call_data-IsAxis = record {
  at = λ p. refl;
  put = λ p cs. refl;
  other = call_data_other;
  by_chunk = by_chunk_lem items bytes;
}

slot_other :
    (p : Partition) (cs : List BinaryChunk) (e : Dim)
    → slot ≢ e
    → values_at (slot_axis.with_chunks p cs) e ≡ values_at p e
unfolding values_at
slot_other p cs slot ne = absurd (ne refl)
slot_other p cs _ ne = refl

pub slot-IsAxis : IsAxis slot slot_axis binary_values
unfolding values_at
slot-IsAxis = record {
  at = λ p. refl;
  put = λ p cs. refl;
  other = slot_other;
  by_chunk = by_chunk_lem items bytes;
}

topic0_other :
    (p : Partition) (cs : List BinaryChunk) (e : Dim)
    → topic0 ≢ e
    → values_at (topic0_axis.with_chunks p cs) e ≡ values_at p e
unfolding values_at
topic0_other p cs topic0 ne = absurd (ne refl)
topic0_other p cs _ ne = refl

pub topic0-IsAxis : IsAxis topic0 topic0_axis binary_values
unfolding values_at
topic0-IsAxis = record {
  at = λ p. refl;
  put = λ p cs. refl;
  other = topic0_other;
  by_chunk = by_chunk_lem items bytes;
}

topic1_other :
    (p : Partition) (cs : List BinaryChunk) (e : Dim)
    → topic1 ≢ e
    → values_at (topic1_axis.with_chunks p cs) e ≡ values_at p e
unfolding values_at
topic1_other p cs topic1 ne = absurd (ne refl)
topic1_other p cs _ ne = refl

pub topic1-IsAxis : IsAxis topic1 topic1_axis binary_values
unfolding values_at
topic1-IsAxis = record {
  at = λ p. refl;
  put = λ p cs. refl;
  other = topic1_other;
  by_chunk = by_chunk_lem items bytes;
}

topic2_other :
    (p : Partition) (cs : List BinaryChunk) (e : Dim)
    → topic2 ≢ e
    → values_at (topic2_axis.with_chunks p cs) e ≡ values_at p e
unfolding values_at
topic2_other p cs topic2 ne = absurd (ne refl)
topic2_other p cs _ ne = refl

pub topic2-IsAxis : IsAxis topic2 topic2_axis binary_values
unfolding values_at
topic2-IsAxis = record {
  at = λ p. refl;
  put = λ p cs. refl;
  other = topic2_other;
  by_chunk = by_chunk_lem items bytes;
}

topic3_other :
    (p : Partition) (cs : List BinaryChunk) (e : Dim)
    → topic3 ≢ e
    → values_at (topic3_axis.with_chunks p cs) e ≡ values_at p e
unfolding values_at
topic3_other p cs topic3 ne = absurd (ne refl)
topic3_other p cs _ ne = refl

pub topic3-IsAxis : IsAxis topic3 topic3_axis binary_values
unfolding values_at
topic3-IsAxis = record {
  at = λ p. refl;
  put = λ p cs. refl;
  other = topic3_other;
  by_chunk = by_chunk_lem items bytes;
}
