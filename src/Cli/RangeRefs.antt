-- ===== src/Cli/RangeRefs.antt =====
-- crates/cli/src/parse/blocks.rs: what the forms of a block range give.
use triodion.Prelude.{
  ℕ, ◌+◌, ◌-◌, ◌^◌, ◌≤◌, ◌<◌, ◌≡◌, refl, ◌∙◌, String, true, false, [], ◌∷◌, some, none, ◌==◌,
  if◌then◌else◌, arith,
}
use triodion.Prelude.Chars.{split, starts_with_char, drop_first, parse_unsigned}
use triodion.Prelude.Outcome.{ok, err}
use triodion.Prelude.Text.{str_eq}
use triodion.Prelude.Words.{u64_mod}
use triodion.Errors.{parse_error}
use triodion.Chunks.Number.{range, size}
use triodion.Cli.Position.{RangePosition}
use triodion.Cli.Outside.{Floats, Node}
use triodion.Cli.Blocks.{
  range_ends, inclusive_end, counted_start, parse_block_number, parse_block_range,
  block_range_to_block_chunk,
}
use triodion.Cli.BlockInputs.{split_interval, parse_block_parts}

module _ {F : Type 0} (floats : Floats F) (source : Node) (first_ref second_ref : String) where
  parse_block_range-last :
      (n e : ℕ)
      → starts_with_char b'-' first_ref ≡ true
      → parse_unsigned u64_mod (drop_first first_ref) ≡ some n
      → parse_block_number floats source second_ref RangePosition.last ≡ ok e
      → n ≤ e
      → e < 2 ^ 64
      → 0 < n
      → parse_block_range floats source first_ref second_ref ≡ ok (e - n + 1, e)
  unfolding parse_block_range range_ends inclusive_end counted_start
  parse_block_range-last n e minus count at le fits pos = ground arith

  parse_block_range_plus :
      (a n : ℕ)
      → starts_with_char b'-' first_ref ≡ false
      → starts_with_char b'+' second_ref ≡ true
      → str_eq second_ref "latest" ≡ false
      → str_eq second_ref "" ≡ false
      → parse_block_number floats source first_ref RangePosition.first ≡ ok a
      → parse_unsigned u64_mod (drop_first second_ref) ≡ some n
      → a + n < 2 ^ 64
      → 0 < n
      → parse_block_range floats source first_ref second_ref ≡ ok (a, a + n - 1)
  unfolding parse_block_range range_ends inclusive_end counted_start
  parse_block_range_plus a n h k l m at count fits pos = ground arith

  -- For two plain references to blocks `a` and `b`, the second end is excluded: the range is from `a`
  -- to `b - 1`, and an end at block 0 is an error and never wraps around.
  pub parse_block_range_exclusive :
      (a b : ℕ)
      → starts_with_char b'-' first_ref ≡ false
      → starts_with_char b'+' second_ref ≡ false
      → str_eq second_ref "latest" ≡ false
      → str_eq second_ref "" ≡ false
      → parse_block_number floats source first_ref RangePosition.first ≡ ok a
      → parse_block_number floats source second_ref RangePosition.last ≡ ok b
      → parse_block_range floats source first_ref second_ref ≡ (
          if b == 0
          then err (parse_error "end_block should not be less than start_block")
          else ok (a, b - 1))
  unfolding parse_block_range range_ends inclusive_end counted_start
  parse_block_range_exclusive a b h k l m at to = ground arith

  -- a token of two references, neither of them with a count to keep
  two_refs :
      (a b : ℕ)
      → split b'/' second_ref ≡ second_ref ∷ []
      → parse_block_range floats source first_ref second_ref ≡ ok (a, b)
      → parse_block_parts floats source (first_ref ∷ second_ref ∷ []) true
        ≡ block_range_to_block_chunk a b true none none
  unfolding parse_block_parts split_interval
  two_refs a b whole found = rw (whole, found) refl

  ordered_range : (a b : ℕ) → a ≤ b → block_range_to_block_chunk a b true none none ≡ ok (range a b)
  unfolding block_range_to_block_chunk
  ordered_range a b h = ground arith

  -- A token `-n:ref`, for a reference to block `e` and `n` from 1 to `e`, is the range of the last `n`
  -- blocks up to `e`, with `e` itself.
  pub parse_block_parts-last :
      (n e : ℕ)
      → starts_with_char b'-' first_ref ≡ true
      → split b'/' second_ref ≡ second_ref ∷ []
      → parse_unsigned u64_mod (drop_first first_ref) ≡ some n
      → parse_block_number floats source second_ref RangePosition.last ≡ ok e
      → 0 < n
      → n ≤ e
      → e < 2 ^ 64
      → (parse_block_parts floats source (first_ref ∷ second_ref ∷ []) true
          ≡ ok (range (e - n + 1) e))
        × (size (range (e - n + 1) e) ≡ n)
  unfolding size
  parse_block_parts-last n e minus whole count at pos le fits = (
    two_refs (e - n + 1) e whole (parse_block_range-last n e minus count at le fits pos)
        ∙ ordered_range (e - n + 1) e (omega arith),
    omega arith,
  )

  -- A token `ref:+n`, for a reference to block `a` and a positive `n`, is the range of `n` blocks from
  -- `a` on.
  pub parse_block_parts_plus :
      (a n : ℕ)
      → starts_with_char b'-' first_ref ≡ false
      → starts_with_char b'+' second_ref ≡ true
      → str_eq second_ref "latest" ≡ false
      → str_eq second_ref "" ≡ false
      → split b'/' second_ref ≡ second_ref ∷ []
      → parse_block_number floats source first_ref RangePosition.first ≡ ok a
      → parse_unsigned u64_mod (drop_first second_ref) ≡ some n
      → 0 < n
      → a + n < 2 ^ 64
      → (parse_block_parts floats source (first_ref ∷ second_ref ∷ []) true
          ≡ ok (range a (a + n - 1)))
        × (size (range a (a + n - 1)) ≡ n)
  unfolding size
  parse_block_parts_plus a n h k l m whole at count pos fits = (
    two_refs a (a + n - 1) whole (parse_block_range_plus a n h k l m at count fits pos)
        ∙ ordered_range a (a + n - 1) (omega arith),
    omega arith,
  )
