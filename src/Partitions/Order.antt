-- ===== src/Partitions/Order.antt =====
-- The order in which `dims` lists the dimensions of a partition.
use mathlib.Core.Option
use triodion.Prelude.{
  ℕ, suc, ◌≤◌, arith, ◌≡◌, ap, Option, none, some, List, [], ◌∷◌, ◌++◌, In, inl, inr,
}
use triodion.Partitions.Dim.{
  Dim, block_number, transaction_hash, call_data, address, contract, from_address, to_address, slot,
  topic0, topic1, topic2, topic3,
}
use triodion.Partitions.Types.{Partition}
use triodion.Partitions.Requests.{push_if, dims}
use triodion.Partitions.Meaning.{Value, block_values, binary_values, values_at}

-- the order of `dims`
abbrev pub dim_order : List Dim
dim_order =
    block_number ∷ transaction_hash ∷ address ∷ contract ∷ from_address ∷ to_address ∷ call_data
    ∷ slot ∷ topic0 ∷ topic1 ∷ topic2 ∷ topic3 ∷ []

abbrev pub rank : Dim → ℕ
rank block_number = 0
rank transaction_hash = 1
rank address = 2
rank contract = 3
rank from_address = 4
rank to_address = 5
rank call_data = 6
rank slot = 7
rank topic0 = 8
rank topic1 = 9
rank topic2 = 10
rank topic3 = 11

-- dimensions in that order, from rank `k` on
abbrev pub Ascending : ℕ → List Dim → Type 0
Ascending k [] = Unit
Ascending k (d ∷ ds) = (k ≤ rank d) × Ascending (suc (rank d)) ds

pub Ascending-le : (k : ℕ) (ds : List Dim) (e : Dim) → Ascending k ds → In e ds → k ≤ rank e
Ascending-le k [] e h m = elim m [ ]
Ascending-le k (d ∷ ds) e h (inl same) = rw same h.0
Ascending-le k (d ∷ ds) e h (inr m) = omega (arith, h.0, Ascending-le (suc (rank d)) ds e h.1 m)

pub dim_order-In : (d : Dim) → In d dim_order
dim_order-In block_number = ground arith
dim_order-In _ = ground arith

-- the dimensions that the partition has
unfoldable pub keep : Partition → List Dim → List Dim
keep p [] = []
keep p (d ∷ ds) = push_if (values_at p d) d ++ keep p ds

keep_step :
    {A : Type 0} (o : Option A) (f : A → List Value) (d : Dim) {xs ys : List Dim}
    → xs ≡ ys
    → push_if o d ++ xs ≡ push_if (Option.map f o) d ++ ys
keep_step none f d e = e
keep_step (some a) f d e = ap (◌∷◌ d) e

pub dims-keep : (p : Partition) → dims p ≡ keep p dim_order
unfolding dims keep values_at
dims-keep p = keep_step p.block_numbers block_values block_number (
    keep_step p.transactions binary_values transaction_hash (
      keep_step p.addresses binary_values address (
        keep_step p.contracts binary_values contract (
          keep_step p.from_addresses binary_values from_address (
            keep_step p.to_addresses binary_values to_address (
              keep_step p.call_datas binary_values call_data (
                keep_step p.slots binary_values slot (
                  keep_step p.topic0s binary_values topic0 (
                    keep_step p.topic1s binary_values topic1 (
                      keep_step p.topic2s binary_values topic2
                        (keep_step p.topic3s binary_values topic3 (λ i. []))))))))))))
