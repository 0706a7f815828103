-- ===== src/Partitions/InnerRequests.antt =====
-- What `param_sets` asks for under an inner request size: the same blocks, in ranges.
use mathlib.Core.Path.{fun_ext, subst}
use mathlib.Core.Option
use triodion.Prelude.{
  ℕ, ◌≤◌, ◌<◌, ◌≡◌, ◌≢◌, ◌↔◌, refl, sym, ap, ◌∙◌, Option, none, some, List, [], ◌∷◌, map, flat_map,
  In, In-map, map-In, In-flat_map, flat_map-In, inl, inr, true, false, All, In-append,
}
use triodion.Prelude.Outcome.{Outcome, ok, err, panic, diverge, ◌>>=◌}
use triodion.Errors.{CollectError}
use triodion.Chunks.Number.{NumberChunk, values}
use triodion.Chunks.Subchunks.{vec_subchunk_by_size}
use triodion.Chunks.Splits.{Fits}
use triodion.Partitions.Dim.{
  Dim, block_number, transaction_hash, call_data, address, contract, from_address, to_address, slot,
  topic0, topic1, topic2, topic3,
}
use triodion.Partitions.Types.{Partition, Params, no_params}
use triodion.Partitions.Requests.{
  dims, param_step, param_loop, param_sets, includes_block_ranges, contains_block_number,
  split_blocks, piece_ranges, with_ranges, push_if,
}
use triodion.Partitions.Meaning.{
  to_number, to_number_lem, Value, number, block_values, values_at, value_at, Chosen, Asks,
}
use triodion.Partitions.InnerBlocks.{piece_ranges-vec_subchunk_by_size}
use triodion.Partitions.Order.{keep, dim_order, dims-keep}
use triodion.Partitions.Product.{Chosen-some, param_sets-Asks}

-- the partition without its blocks
abbrev blockless : Partition → Partition
blockless p = record p { block_numbers = none }

param_step-blockless :
    (p : Partition) (d : Dim) (outputs : List Params)
    → d ≢ block_number
    → param_step p true d outputs ≡ param_step (blockless p) false d outputs
unfolding param_step
param_step-blockless p block_number outputs ne = absurd (ne refl)
param_step-blockless p transaction_hash outputs ne = refl
param_step-blockless p address outputs ne = refl
param_step-blockless p contract outputs ne = refl
param_step-blockless p from_address outputs ne = refl
param_step-blockless p to_address outputs ne = refl
param_step-blockless p call_data outputs ne = refl
param_step-blockless p slot outputs ne = refl
param_step-blockless p topic0 outputs ne = refl
param_step-blockless p topic1 outputs ne = refl
param_step-blockless p topic2 outputs ne = refl
param_step-blockless p topic3 outputs ne = refl

param_loop-blockless :
    (p : Partition) (ds : List Dim) (outputs : List Params)
    → ¬ In block_number ds
    → param_loop p true ds outputs ≡ param_loop (blockless p) false ds outputs
unfolding param_loop
param_loop-blockless p [] outputs fresh = refl
param_loop-blockless p (d ∷ ds) outputs fresh =
    let first = param_step-blockless p d outputs (λ e. fresh (inl (sym e))) in
    rw first (
      ap (λ k. param_step (blockless p) false d outputs >>= k)
        (fun_ext (λ new. param_loop-blockless p ds new (λ m. fresh (inr m)))))

dims-blockless :
    (p : Partition) (bs : List NumberChunk)
    → p.block_numbers ≡ some bs
    → dims p ≡ block_number ∷ dims (blockless p)
unfolding dims
dims-blockless p bs blocks = rw blocks refl

bind_ok : {E A : Type 0} (m : Outcome E A) {a : A} → (m >>= λ x. ok x) ≡ ok a → m ≡ ok a
bind_ok (ok x) e = e
bind_ok (err x) e = e
bind_ok panic e = e
bind_ok diverge e = e

pushed_there :
    (p : Partition) (d e : Dim) (o : Option (List Value))
    → values_at p e ≡ o
    → In d (push_if o e)
    → values_at p d ≢ none
pushed_there p d e none same m gone = elim m [ ]
pushed_there p d e (some vs) same (inr m) gone = elim m [ ]
pushed_there p d e (some vs) same (inl at) gone =
    let full = subst (λ x. values_at p x ≡ some vs) (sym at) same in absurd cc

keep_there : (p : Partition) (d : Dim) (ds : List Dim) → In d (keep p ds) → values_at p d ≢ none
unfolding keep
keep_there p d [] m = elim m [ ]
keep_there p d (e ∷ ds) m = elim (In-append d (push_if (values_at p e) e) (keep p ds) m) [
  | inl here ↦ pushed_there p d e (values_at p e) refl here
  | inr later ↦ keep_there p d ds later
]

blockless-dims : (p : Partition) → ¬ In block_number (dims (blockless p))
unfolding values_at
blockless-dims p m =
    keep_there (blockless p) block_number dim_order
      (subst (In block_number) (dims-keep (blockless p)) m) refl

-- The calls without their blocks, each with each range of the pieces.
param_sets-with_ranges :
    (p : Partition) (bs pieces : List NumberChunk) (size : ℕ)
    → p.block_numbers ≡ some bs
    → vec_subchunk_by_size {E = CollectError} bs size ≡ ok pieces
    → (qs : List Params) × (param_sets p (some size)
        ≡ ok (with_ranges (flat_map piece_ranges pieces) qs))
      × ((q : Params) → In q qs ↔ Asks (blockless p) q)
unfolding param_sets includes_block_ranges split_blocks contains_block_number param_loop param_step
param_sets-with_ranges p bs pieces size blocks split =
    let (qs, found, asks) = param_sets-Asks (blockless p) in
    let inner =
      bind_ok (param_loop (blockless p) false (dims (blockless p)) (no_params ∷ [])) found in
    let same = param_loop-blockless p (dims (blockless p)) (no_params ∷ []) (blockless-dims p) in
    (qs, rw (dims-blockless p bs blocks, same, inner, blocks, split) refl, asks)

-- the request of one block
abbrev pub at_block : ℕ → Params → Params
at_block v q = record q { block_range = none; block_number = some v }

-- The call, with its range of blocks, asks for the request of one block.
abbrev pub Covers : Params → Params → Type 0
Covers call q =
    (a : ℕ) × (b : ℕ) × (v : ℕ) × (call.block_range ≡ some (a, b))
    × (a ≤ v)
    × (v ≤ b)
    × (q ≡ at_block v call)

abbrev no_blocks : Params → Params
no_blocks q = record q { block_number = none }

number_there : (o : Option ℕ) (v : ℕ) → Option.map number o ≡ some (number v) → o ≡ some v
number_there o v e = sym (to_number_lem o) ∙ ap to_number e

module _ (p : Partition) (bs : List NumberChunk) (blocks : p.block_numbers ≡ some bs) where
  block_values-here : values_at p block_number ≡ some (block_values bs)
  unfolding values_at
  block_values-here = ap (Option.map block_values) blocks

  drop_block :
      (q : Params)
      → Asks p q
      → (v : ℕ) × (q.block_number ≡ some v)
        × In v (flat_map values bs)
        × Asks (blockless p) (no_blocks q)
  unfolding values_at value_at
  drop_block q a =
      let (w, is_w, m) = Chosen-some block_values-here (a.at_dim block_number) in
      let (v, k, e) = map-In number w (flat_map values bs) m in
      (
        v,
        number_there q.block_number v (is_w ∙ ap some e),
        k,
        record { at_dim = others; no_range = a.no_range },
      )
    where
      others : (d : Dim) → Chosen (values_at (blockless p) d) (value_at (no_blocks q) d)
      others block_number = tt
      others transaction_hash = a.at_dim transaction_hash
      others address = a.at_dim address
      others contract = a.at_dim contract
      others from_address = a.at_dim from_address
      others to_address = a.at_dim to_address
      others call_data = a.at_dim call_data
      others slot = a.at_dim slot
      others topic0 = a.at_dim topic0
      others topic1 = a.at_dim topic1
      others topic2 = a.at_dim topic2
      others topic3 = a.at_dim topic3

  put_block :
      (q : Params) (v : ℕ)
      → In v (flat_map values bs)
      → Asks (blockless p) q
      → Asks p (at_block v q)
  unfolding values_at value_at
  put_block q v m a = record { at_dim = others; no_range = refl }
    where
      others : (d : Dim) → Chosen (values_at p d) (value_at (at_block v q) d)
      others block_number = rw blocks (In-map number v (flat_map values bs) m)
      others transaction_hash = a.at_dim transaction_hash
      others address = a.at_dim address
      others contract = a.at_dim contract
      others from_address = a.at_dim from_address
      others to_address = a.at_dim to_address
      others call_data = a.at_dim call_data
      others slot = a.at_dim slot
      others topic0 = a.at_dim topic0
      others topic1 = a.at_dim topic1
      others topic2 = a.at_dim topic2
      others topic3 = a.at_dim topic3

  with_block :
      (q : Params) (v : ℕ) (r : Option (ℕ × ℕ))
      → q.block_number ≡ some v
      → q.block_range ≡ none
      → q ≡ at_block v (record (no_blocks q) { block_range = r })
  with_block q v r number_is range_is =
      ap (λ o. record q { block_number = o }) number_is
      ∙ ap (λ o. record q { block_number = some v; block_range = o }) range_is

  -- Under an inner request size the calls are made, and the blocks in their ranges, taken one by one,
  -- are exactly the requests of the partition.
  pub param_sets-Covers :
      (size : ℕ)
      → 0 < size
      → All (λ c. Fits c size) bs
      → (calls : List Params) × (param_sets p (some size) ≡ ok calls)
        × ((q : Params) → Asks p q ↔ ((call : Params) × In call calls × Covers call q))
  param_sets-Covers size pos fits =
      let (pieces, split, ranged) = piece_ranges-vec_subchunk_by_size bs size pos fits in
      let (qs, found, asks) = param_sets-with_ranges p bs pieces size blocks split in
      let ranges = flat_map piece_ranges pieces in
      let each : Params → List Params = λ q. map (λ r. record q { block_range = r }) ranges in
      (
        with_ranges ranges qs,
        found,
        λ q. (
          λ a.
              let (v, is_v, m, b) = drop_block q a in
              let (lo, hi, k, x, y) = (ranged v).0 m in
              let own = (asks (no_blocks q)).1 b in
              (
                record (no_blocks q) { block_range = some (lo, hi) },
                In-flat_map each (record (no_blocks q) { block_range = some (lo, hi) })
                    (no_blocks q) qs own
                    (In-map (λ r. record (no_blocks q) { block_range = r }) (some (lo, hi)) ranges
                      k),
                (lo, hi, v, refl, x, y, with_block q v (some (lo, hi)) is_v a.no_range),
              ),
          λ (call, m, (lo, hi, v, is_range, x, y, e)).
              let (q0, k, inner) = flat_map-In each call qs m in
              let (r, n, same) = map-In (λ r. record q0 { block_range = r }) call ranges inner in
              let r_is : r ≡ some (lo, hi) =
                sym (ap (λ (c : Params). c.block_range) same) ∙ is_range in
              let member = (ranged v).1 (lo, hi, subst (λ z. In z ranges) r_is n, x, y) in
              subst (Asks p) (sym (e ∙ ap (at_block v) same))
                (put_block q0 v member ((asks q0).0 k)),
        ),
      )
