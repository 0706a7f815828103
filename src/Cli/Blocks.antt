-- ===== src/Cli/Blocks.antt =====
-- crates/cli/src/parse/blocks.rs and `f64_to_u64` of parse_utils.rs: block expressions.
use triodion.Prelude.{
  ℕ, zero, suc, ◌-◌, String, Bool, not, ◌&&◌, ◌||◌, Option, none, some, List, [], ◌∷◌, length,
  get_elem?, ltb, leb, ◌==◌, if◌then◌else◌,
}
use triodion.Prelude.Chars.{starts_with_char, ends_with_char, drop_first, drop_last, parse_unsigned}
use triodion.Prelude.Outcome.{Outcome, ok, err, panic, ◌>>=◌, ok_or}
use triodion.Prelude.Text.{str_eq, append}
use triodion.Prelude.Words.{u64_mod, mul64, div, rem, checked_sub, checked_add}
use triodion.Errors.{ParseError, parse_error}
use triodion.Chunks.Number.{NumberChunk, numbers, range, range_inclusive}
use triodion.Cli.Position.{RangePosition}
use triodion.Cli.Outside.{Floats, Node}

-- `items[index]`
abbrev pub at_index : {E A : Type 0} → List A → ℕ → Outcome E A
at_index items i = elim (get_elem? items i) [ none ↦ panic | some x ↦ ok x ]

-- The loop of `evenly_spaced_subset`: `left` more samples, from number `i` on.
unfoldable pub samples : {E A : Type 0} → List A → ℕ → ℕ → ℕ → Outcome E (List A)
samples items subset_length zero i = ok []
samples items subset_length (suc left) i =
    let later = samples items subset_length left (suc i) in
    do
      index ← div (mul64 i (length items - 1)) (subset_length - 1)
      x ← at_index items index
      rest ← later
      ok (x ∷ rest)

unfoldable pub evenly_spaced_subset : {E A : Type 0} → List A → ℕ → Outcome E (List A)
unfolding samples
evenly_spaced_subset items subset_length =
    if subset_length == 0 || length items == 0
    then ok []
    else if leb (length items) subset_length
    then ok items
    else if subset_length == 1
    then (do x ← at_index items 0; ok (x ∷ []))
    else samples items subset_length subset_length 0

-- `enumerate`, `filter` by `idx % skip == 0`, and `map` to the values
unfoldable pub every_nth : {E A : Type 0} → ℕ → ℕ → List A → Outcome E (List A)
every_nth skip idx [] = ok []
every_nth skip idx (x ∷ xs) =
    let later = every_nth skip (suc idx) xs in
    do r ← rem idx skip; rest ← later; ok (if r == 0 then x ∷ rest else rest)

unfoldable pub block_range_to_block_chunk :
    ℕ → ℕ → Bool → Option ℕ → Option ℕ → Outcome ParseError NumberChunk
block_range_to_block_chunk start_block end_block as_range skip n_blocks =
    if ltb end_block start_block
    then err (parse_error "end_block should not be less than start_block")
    else elim n_blocks [
      | some n ↦
          evenly_spaced_subset (range_inclusive start_block end_block) n >>= λ bs. ok (numbers bs)
      | none ↦ if as_range then ok (range start_block end_block) else elim skip [
        | some step ↦
            every_nth step 0 (range_inclusive start_block end_block) >>= λ bs. ok (numbers bs)
        | none ↦ ok (numbers (range_inclusive start_block end_block))
      ]
    ]

module _ {F : Type 0} (floats : Floats F) where
  open floats use {is_finite, is_negative, reaches_max, to_integer}

  unfoldable pub f64_to_u64 : F → String → Outcome ParseError ℕ
  f64_to_u64 value context =
      if not (is_finite value) || is_negative value || reaches_max value
      then err (parse_error (append context (append " out of range: " (floats.show value))))
      else ok (to_integer value)

  -- `s.parse::<f64>()`, scaled and rounded
  scaled : String → ℕ → Outcome ParseError ℕ
  unfolding f64_to_u64
  scaled s scale = do
    n ← ok_or (floats.parse s) (parse_error "Error parsing block ref")
    f64_to_u64 (floats.round (floats.mul (floats.of_integer scale) n)) "block ref"

  module _ (source : Node) where
    head_or : String → Outcome ParseError ℕ
    head_or message = ok_or source.block_number (parse_error message)

    empty_ref : RangePosition → Outcome ParseError ℕ
    unfolding head_or
    empty_ref RangePosition.first = ok 0
    empty_ref RangePosition.last = head_or "Error retrieving last block number"
    empty_ref RangePosition.none = err (parse_error "invalid input")

    unfoldable pub parse_block_number : String → RangePosition → Outcome ParseError ℕ
    unfolding head_or empty_ref scaled
    parse_block_number block_ref range_position =
        if str_eq block_ref "latest"
        then head_or "Error retrieving latest block number"
        else if str_eq block_ref ""
        then empty_ref range_position
        else if ends_with_char b'B' block_ref || ends_with_char b'b' block_ref
        then scaled (drop_last block_ref) 1_000_000_000
        else if ends_with_char b'M' block_ref || ends_with_char b'm' block_ref
        then scaled (drop_last block_ref) 1_000_000
        else if ends_with_char b'K' block_ref || ends_with_char b'k' block_ref
        then scaled (drop_last block_ref) 1_000
        else do
          n ← ok_or (floats.parse block_ref) (parse_error "Error parsing block ref")
          f64_to_u64 n "block ref"

    -- the two ends as the references give them, before the end is made inclusive
    unfoldable pub range_ends : String → String → Outcome ParseError (ℕ × ℕ)
    range_ends first_ref second_ref =
        if starts_with_char b'-' first_ref
        then (do
          end_block ← parse_block_number second_ref RangePosition.last
          offset ←
              ok_or (parse_unsigned u64_mod (drop_first first_ref))
                (parse_error "start_block parse error")
          start_block ← ok_or (checked_sub end_block offset) (parse_error "start_block underflow")
          ok (start_block, end_block))
        else if starts_with_char b'+' second_ref
        then (do
          start_block ← parse_block_number first_ref RangePosition.first
          offset ←
              ok_or (parse_unsigned u64_mod (drop_first second_ref))
                (parse_error "start_block parse error")
          end_block ← ok_or (checked_add start_block offset) (parse_error "end_block underflow")
          ok (start_block, end_block))
        else do
          start_block ← parse_block_number first_ref RangePosition.first
          end_block ← parse_block_number second_ref RangePosition.last
          ok (start_block, end_block)

    -- the end as an inclusive bound
    unfoldable pub inclusive_end : String → String → ℕ → Outcome ParseError ℕ
    inclusive_end first_ref second_ref end_block =
        if not (str_eq second_ref "latest")
          && not (str_eq second_ref "")
          && not (starts_with_char b'-' first_ref)
        then ok_or (checked_sub end_block 1)
            (parse_error "end_block should not be less than start_block")
        else ok end_block

    -- the start of a range that is given by its length
    unfoldable pub counted_start : String → ℕ → Outcome ParseError ℕ
    counted_start first_ref start_block =
        if starts_with_char b'-' first_ref
        then ok_or (checked_add start_block 1) (parse_error "start_block overflows u64")
        else ok start_block

    unfoldable pub parse_block_range : String → String → Outcome ParseError (ℕ × ℕ)
    unfolding range_ends inclusive_end counted_start
    parse_block_range first_ref second_ref = do
      (start_block, end_block) ← range_ends first_ref second_ref
      end' ← inclusive_end first_ref second_ref end_block
      start' ← counted_start first_ref start_block
      ok (start', end')
