-- ===== src/Cli/Timestamps.antt =====
-- crates/cli/src/parse/timestamps.rs: timestamps, and the blocks that were current at them.
use Prim.Native.Nat.{Ordering, compare}
use triodion.Prelude.{
  ℕ, zero, suc, ◌+◌, ◌-◌, ◌*◌, ◌/◌, String, Bool, true, false, not, ◌&&◌, none, some, List, [], ◌∷◌,
  leb, ◌==◌, if◌then◌else◌,
}
use triodion.Prelude.Chars.{
  split, without_char, starts_with_char, ends_with_char, drop_first, drop_last,
}
use triodion.Prelude.Outcome.{Outcome, ok, err, diverge, ◌>>=◌, ok_or, try_map}
use triodion.Prelude.Text.{str_eq, append, decimal}
use triodion.Prelude.Words.{add64, checked_sub, checked_add}
use triodion.Errors.{ParseError, parse_error}
use triodion.Chunks.Number.{NumberChunk, numbers}
use triodion.Cli.Position.{RangePosition}
use triodion.Cli.Outside.{Floats, Node}
use triodion.Cli.Blocks.{f64_to_u64, block_range_to_block_chunk}
use triodion.Cli.BlockInputs.{split_interval}

-- The loop of `block_at_timestamp`; it diverges when it runs out of rounds.
unfoldable pub search_loop : ℕ → (ℕ → Outcome ParseError ℕ) → ℕ → ℕ → ℕ → Outcome ParseError ℕ
search_loop timestamp timestamp_of zero low high = diverge
search_loop timestamp timestamp_of (suc rounds) low high =
    let mid = low + (high - low) / 2 in
    elim (leb low high) [
      | false ↦ ok high
      | true ↦ timestamp_of mid >>= λ t. elim (compare t timestamp) [
        | Ordering.eq ↦ ok mid
        | Ordering.lt ↦ search_loop timestamp timestamp_of rounds (add64 mid 1) high
        | Ordering.gt ↦ elim (checked_sub mid 1) [
          | some below ↦ search_loop timestamp timestamp_of rounds low below
          | none ↦ ok 0
        ]
      ]
    ]

-- Each probe removes a block, so that one more round than the blocks suffices.
unfoldable pub block_at_timestamp : ℕ → ℕ → (ℕ → Outcome ParseError ℕ) → Outcome ParseError ℕ
unfolding search_loop
block_at_timestamp timestamp latest timestamp_of =
    search_loop timestamp timestamp_of (latest + 2) 0 latest

-- `sort_unstable`
unfoldable pub insert_sorted : ℕ → List ℕ → List ℕ
insert_sorted x [] = x ∷ []
insert_sorted x (y ∷ ys) = let rest = insert_sorted x ys in if leb x y then x ∷ y ∷ ys else y ∷ rest

unfoldable pub sort_unstable : List ℕ → List ℕ
unfolding insert_sorted
sort_unstable [] = []
sort_unstable (x ∷ xs) = insert_sorted x (sort_unstable xs)

-- `dedup`: equal neighbours become one; `dedup_after x` also drops a leading `x`.
unfoldable pub dedup_after : ℕ → List ℕ → List ℕ
dedup_after x [] = []
dedup_after x (y ∷ ys) = let rest = dedup_after y ys in if x == y then rest else y ∷ rest

unfoldable pub dedup : List ℕ → List ℕ
unfolding dedup_after
dedup [] = []
dedup (x ∷ xs) = x ∷ dedup_after x xs

module _ (source : Node) where
  unfoldable pub get_latest_block_number : Outcome ParseError ℕ
  get_latest_block_number =
      ok_or source.block_number (parse_error "Error retrieving latest block number")

  unfoldable pub block_timestamp : ℕ → Outcome ParseError ℕ
  block_timestamp number = do
    found ← ok_or (source.block_timestamp number) (parse_error "Error fetching block for timestamp")
    ok_or found (parse_error (append "block " (append (decimal number) " not found")))

  unfoldable pub get_latest_timestamp : Outcome ParseError ℕ
  unfolding get_latest_block_number block_timestamp
  get_latest_timestamp = get_latest_block_number >>= block_timestamp

  unfoldable pub timestamp_to_block_number : ℕ → Outcome ParseError ℕ
  unfolding get_latest_block_number block_at_timestamp
  timestamp_to_block_number timestamp = do
    latest_block_number ← get_latest_block_number
    block_at_timestamp timestamp latest_block_number block_timestamp

  unfoldable pub timestamps_to_block_numbers : List ℕ → Outcome ParseError (List ℕ)
  unfolding get_latest_block_number block_at_timestamp sort_unstable dedup
  timestamps_to_block_numbers timestamps = do
    latest_block_number ← get_latest_block_number
    block_numbers ←
        try_map (λ timestamp. block_at_timestamp timestamp latest_block_number block_timestamp)
          timestamps
    ok (dedup (sort_unstable block_numbers))

module _ {F : Type 0} (floats : Floats F) where
  unfoldable pub scale_timestamp_str_by_metric_unit : String → ℕ → Outcome ParseError ℕ
  unfolding f64_to_u64
  scale_timestamp_str_by_metric_unit timestamp_ref metric_scale = do
    n ← ok_or (floats.parse (drop_last timestamp_ref)) (parse_error "Error parsing timestamp ref")
    f64_to_u64 floats (floats.round (floats.mul (floats.of_integer metric_scale) n)) "timestamp ref"

  module _ (source : Node) where
    empty_timestamp : RangePosition → Outcome ParseError ℕ
    unfolding get_latest_timestamp
    empty_timestamp RangePosition.first = ok 0
    empty_timestamp RangePosition.last = get_latest_timestamp source
    empty_timestamp RangePosition.none = err (parse_error "invalid input")

    unfoldable pub parse_timestamp_number : String → RangePosition → Outcome ParseError ℕ
    unfolding get_latest_timestamp empty_timestamp scale_timestamp_str_by_metric_unit
    parse_timestamp_number timestamp_ref range_position =
        if str_eq timestamp_ref "latest"
        then get_latest_timestamp source
        else if str_eq timestamp_ref ""
        then empty_timestamp range_position
        else if ends_with_char b'm' timestamp_ref
        then scale_timestamp_str_by_metric_unit timestamp_ref 60
        else if ends_with_char b'h' timestamp_ref
        then scale_timestamp_str_by_metric_unit timestamp_ref 3_600
        else if ends_with_char b'd' timestamp_ref
        then scale_timestamp_str_by_metric_unit timestamp_ref 86_400
        else if ends_with_char b'w' timestamp_ref
        then scale_timestamp_str_by_metric_unit timestamp_ref (86_400 * 7)
        else if ends_with_char b'M' timestamp_ref
        then scale_timestamp_str_by_metric_unit timestamp_ref (86_400 * 30)
        else if ends_with_char b'y' timestamp_ref
        then scale_timestamp_str_by_metric_unit timestamp_ref (86_400 * 365)
        else do
          n ← ok_or (floats.parse timestamp_ref) (parse_error "Error parsing timestamp ref")
          f64_to_u64 floats n "timestamp ref"

    -- the two ends as the references give them
    timestamp_ends : String → String → Outcome ParseError (ℕ × ℕ)
    unfolding parse_timestamp_number
    timestamp_ends first_ref second_ref =
        if starts_with_char b'-' first_ref
        then (do
          end_timestamp ← parse_timestamp_number second_ref RangePosition.last
          offset ← parse_timestamp_number (drop_first first_ref) RangePosition.none
          start_timestamp ←
              ok_or (checked_sub end_timestamp offset) (parse_error "start_timestamp underflow")
          ok (start_timestamp, end_timestamp))
        else if starts_with_char b'+' second_ref
        then (do
          start_timestamp ← parse_timestamp_number first_ref RangePosition.first
          offset ← parse_timestamp_number (drop_first second_ref) RangePosition.none
          end_timestamp ←
              ok_or (checked_add start_timestamp offset) (parse_error "end_timestamp overflow")
          ok (start_timestamp, end_timestamp))
        else do
          start_timestamp ← parse_timestamp_number first_ref RangePosition.first
          end_timestamp ← parse_timestamp_number second_ref RangePosition.last
          ok (start_timestamp, end_timestamp)

    -- the end as an inclusive bound
    inclusive_timestamp : String → String → ℕ → Outcome ParseError ℕ
    inclusive_timestamp first_ref second_ref end_timestamp =
        if not (str_eq second_ref "latest")
          && not (str_eq second_ref "")
          && not (starts_with_char b'-' first_ref)
        then ok_or (checked_sub end_timestamp 1)
            (parse_error "end_timestamp should not be less than start_timestamp")
        else ok end_timestamp

    unfoldable pub parse_timestamp_range : String → String → Outcome ParseError (ℕ × ℕ)
    unfolding timestamp_ends inclusive_timestamp
    parse_timestamp_range first_ref second_ref = do
      (start_timestamp, end_timestamp) ← timestamp_ends first_ref second_ref
      end' ← inclusive_timestamp first_ref second_ref end_timestamp
      ok (start_timestamp, end')

    -- `parts.as_slice()` of `parse_timestamp_token`
    parse_timestamp_parts : List String → Bool → Outcome ParseError NumberChunk
    unfolding parse_timestamp_number parse_timestamp_range timestamp_to_block_number
    parse_timestamp_parts (timestamp_ref ∷ []) as_range = do
      timestamp ← parse_timestamp_number timestamp_ref RangePosition.none
      block ← timestamp_to_block_number source timestamp
      ok (numbers (block ∷ []))
    parse_timestamp_parts (first_ref ∷ second_ref ∷ []) as_range = do
      (end_ref, n_keep) ← split_interval "cannot parse timestamp interval size" second_ref
      (start_timestamp, end_timestamp) ← parse_timestamp_range first_ref end_ref
      start_block ← timestamp_to_block_number source start_timestamp
      end_block ← timestamp_to_block_number source end_timestamp
      block_range_to_block_chunk start_block end_block as_range none n_keep
    parse_timestamp_parts _ as_range =
        err (parse_error "timestamps must be in format timestamp or start_timestamp:end_timestamp")

    unfoldable pub parse_timestamp_token : String → Bool → Outcome ParseError NumberChunk
    unfolding parse_timestamp_parts
    parse_timestamp_token s as_range =
        parse_timestamp_parts (split b':' (without_char b'_' s)) as_range

    -- A text splits into at least one part.
    unfoldable pub parse_timestamp_inputs : String → Outcome ParseError (List NumberChunk)
    unfolding parse_timestamp_token
    parse_timestamp_inputs inputs = parts_of (split b' ' inputs)
      where
        parts_of : List String → Outcome ParseError (List NumberChunk)
        parts_of (first_input ∷ []) = do
          chunk ← parse_timestamp_token first_input true
          ok (chunk ∷ [])
        parts_of parts = try_map (λ part. parse_timestamp_token part false) parts
