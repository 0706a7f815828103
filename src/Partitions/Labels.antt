-- ===== src/Partitions/Labels.antt =====
-- Names of partitions in crates/freeze/src/types/partitions.rs: `label_pieces` and `label`.
use triodion.Prelude.{
  ℕ, zero, suc, String, Bool, true, false, Option, none, some, List, [], ◌∷◌, map, length-map,
  replicate, length, ◌==◌, if◌then◌else◌, ◌≡◌, ◌≢◌, refl, ap, ◌∙◌, ◌⊎◌, inl, inr, Bool-cases, arith,
}
use triodion.Prelude.Order.{Ord, Bytes, nat_ord, bytes_ord}
use triodion.Prelude.Outcome.{Outcome, ok, err, ◌>>=◌, ok_or, map_err}
use triodion.Prelude.Text.{join}
use triodion.Errors.{CollectError, collect_error}
use triodion.Chunks.Interface.{ChunkData, vec_chunk_data, stub}
use triodion.Chunks.Number.{number_chunk_data}
use triodion.Chunks.Binary.{binary_chunk_data}
use triodion.Partitions.Dim.{
  Dim, block_number, transaction_hash, call_data, address, contract, from_address, to_address, slot,
  topic0, topic1, topic2, topic3,
}
use triodion.Partitions.Types.{Partition, PartitionLabels, labels_of}

unfoldable pub chunks_to_name :
    {C I : Type 0} ⦃o : Ord I⦄ → ChunkData C I → Option (List C) → Outcome CollectError String
chunks_to_name d chunks = do
  cs ← ok_or chunks (collect_error "partition chunks missing")
  map_err (λ e. collect_error "could not determine name of chunk") (stub (vec_chunk_data d) cs)

-- `labels.iter().any(|label| label.is_some())`
any_label : List (Option String) → Bool
any_label [] = false
any_label (none ∷ ls) = any_label ls
any_label (some l ∷ ls) = true

unfoldable pub dim_labeled : PartitionLabels → Dim → Bool
unfolding any_label
dim_labeled labels dim = elim (labels_of labels dim) [ none ↦ false | some ls ↦ any_label ls ]

length-replicate : (n : ℕ) → length (replicate {A = Option String} n none) ≡ n
length-replicate zero = refl
length-replicate (suc n) = ap suc (length-replicate n)

module _ (hex_encode : Bytes → String) where
  -- the name of the chunks of one dimension
  unfoldable pub dim_name : Partition → Dim → Outcome CollectError String
  unfolding chunks_to_name
  dim_name p block_number = chunks_to_name number_chunk_data p.block_numbers
  dim_name p transaction_hash = chunks_to_name (binary_chunk_data hex_encode) p.transactions
  dim_name p call_data = chunks_to_name (binary_chunk_data hex_encode) p.call_datas
  dim_name p address = chunks_to_name (binary_chunk_data hex_encode) p.addresses
  dim_name p contract = chunks_to_name (binary_chunk_data hex_encode) p.contracts
  dim_name p from_address = chunks_to_name (binary_chunk_data hex_encode) p.from_addresses
  dim_name p to_address = chunks_to_name (binary_chunk_data hex_encode) p.to_addresses
  dim_name p slot = chunks_to_name (binary_chunk_data hex_encode) p.slots
  dim_name p topic0 = chunks_to_name (binary_chunk_data hex_encode) p.topic0s
  dim_name p topic1 = chunks_to_name (binary_chunk_data hex_encode) p.topic1s
  dim_name p topic2 = chunks_to_name (binary_chunk_data hex_encode) p.topic2s
  dim_name p topic3 = chunks_to_name (binary_chunk_data hex_encode) p.topic3s

  -- The loop of `label_pieces`, over the dimensions and the stored pieces side by side.
  unfoldable pub pieces_loop :
      Partition → List Dim → List (Option String) → Outcome CollectError (List String)
  unfolding dim_name
  pieces_loop p (dim ∷ dims) (stored ∷ more) =
      let rest = pieces_loop p dims more in
      do
        piece ← elim stored [ some x ↦ ok x | none ↦ dim_name p dim ]
        pieces ← rest
        ok (piece ∷ pieces)
  pieces_loop p _ _ = ok []

  -- the check of the number of stored pieces, and the loop
  checked_pieces : Partition → List Dim → List (Option String) → Outcome CollectError (List String)
  unfolding pieces_loop
  checked_pieces p partitioned_by stored =
      if length stored == length partitioned_by
      then pieces_loop p partitioned_by stored
      else err (collect_error "self.label length must match number of partition dimensions")

  -- `self.label.clone().unwrap_or_else(|| vec![None; partitioned_by.len()])`
  abbrev stored_pieces : Option (List (Option String)) → List Dim → List (Option String)
  stored_pieces (some pieces) partitioned_by = pieces
  stored_pieces none partitioned_by = replicate (length partitioned_by) none

  unfoldable pub label_pieces : Partition → List Dim → Outcome CollectError (List String)
  unfolding checked_pieces
  label_pieces p partitioned_by =
      checked_pieces p partitioned_by (stored_pieces p.label partitioned_by)

  unfoldable pub label : Partition → List Dim → Outcome CollectError String
  unfolding label_pieces
  label p partitioned_by = label_pieces p partitioned_by >>= λ pieces. ok (join "__" pieces)

  pieces_loop-stored :
      (p : Partition) (dims : List Dim) (names : List String)
      → length names ≡ length dims
      → pieces_loop p dims (map some names) ≡ ok names
  unfolding pieces_loop
  pieces_loop-stored p [] [] h = refl
  pieces_loop-stored p [] (n ∷ names) h = absurd (omega arith)
  pieces_loop-stored p (d ∷ dims) [] h = absurd (omega arith)
  pieces_loop-stored p (d ∷ dims) (n ∷ names) h =
      rw (pieces_loop-stored p dims names (omega arith)) refl

  -- without stored pieces, the names of the chunks of each dimension, in order
  pub named : Partition → List Dim → Outcome CollectError (List String)
  unfolding dim_name
  named p [] = ok []
  named p (d ∷ dims) =
      let rest = named p dims in do piece ← dim_name p d; pieces ← rest; ok (piece ∷ pieces)

  pieces_loop-named :
      (p : Partition) (dims : List Dim)
      → pieces_loop p dims (replicate (length dims) none) ≡ named p dims
  unfolding pieces_loop named
  pieces_loop-named p [] = refl
  pieces_loop-named p (d ∷ dims) = rw (pieces_loop-named p dims) refl

  label-pieces :
      (p : Partition) (dims : List Dim) (o : Option (List (Option String)))
      → p.label ≡ o
      → label p dims
        ≡ (checked_pieces p dims (stored_pieces o dims) >>= λ pieces. ok (join "__" pieces))
  unfolding label label_pieces
  label-pieces p dims o e =
      ap (λ x. checked_pieces p dims (stored_pieces x dims) >>= λ pieces. ok (join "__" pieces)) e

  checked_same :
      (p : Partition) (dims : List Dim) (names : List String)
      → length names ≡ length dims
      → checked_pieces p dims (map some names) ≡ ok names
  unfolding checked_pieces
  checked_same p dims names e =
      let same : (length (map some names) == length dims) ≡ true =
        ground (arith, length-map some names) in
      rw same (pieces_loop-stored p dims names e)

  checked_other :
      (p : Partition) (dims : List Dim) (names : List String)
      → length names ≢ length dims
      → checked_pieces p dims (map some names)
        ≡ err (collect_error "self.label length must match number of partition dimensions")
  unfolding checked_pieces
  checked_other p dims names n =
      let other : (length (map some names) == length dims) ≡ false =
        ground (arith, length-map some names) in
      rw other refl

  checked_named :
      (p : Partition) (dims : List Dim)
      → checked_pieces p dims (replicate (length dims) none) ≡ named p dims
  unfolding checked_pieces
  checked_named p dims =
      let same : (length (replicate {A = Option String} (length dims) none) == length dims) ≡ true =
        ground (arith, length-replicate (length dims)) in
      rw same (pieces_loop-named p dims)

  -- Stored pieces are the label, joined, if there is one for each dimension; another number of them is
  -- an error.
  pub label_stored :
      (p : Partition) (dims : List Dim) (names : List String)
      → p.label ≡ some (map some names)
      → ((length names ≡ length dims) × (label p dims ≡ ok (join "__" names)))
        ⊎ ((length names ≢ length dims)
            × (label p dims
                ≡ err
                    (collect_error "self.label length must match number of partition dimensions")))
  label_stored p dims names stored = elim (Bool-cases (length names == length dims)) [
    | inl same ↦
        let e : length names ≡ length dims = ground arith in
        inl (e, label-pieces p dims _ stored ∙ rw (checked_same p dims names e) refl)
    | inr other ↦
        let n : length names ≢ length dims = ground arith in
        inr (n, label-pieces p dims _ stored ∙ rw (checked_other p dims names n) refl)
  ]

  -- Without stored pieces, the label joins the names of the chunks of each dimension.
  label_named :
      (p : Partition) (dims : List Dim)
      → p.label ≡ none
      → label p dims ≡ (named p dims >>= λ pieces. ok (join "__" pieces))
  label_named p dims e = label-pieces p dims none e ∙ rw (checked_named p dims) refl
