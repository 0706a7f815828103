-- ===== src/Cli/StepTokens.antt =====
-- `parse_block_token` of crates/cli/src/parse/blocks.rs on a token `start:end:step`.
use triodion.Prelude.{
  ℕ, ◌-◌, ◌%◌, ◌≤◌, ◌<◌, ◌≡◌, refl, ◌∙◌, String, Bool, false, List, [], ◌∷◌, In, some, none, ◌==◌,
  arith,
}
use triodion.Prelude.Chars.{split, without_char, starts_with_char, parse_unsigned}
use triodion.Prelude.Outcome.{ok}
use triodion.Prelude.Text.{str_eq}
use triodion.Prelude.Words.{u32_mod}
use triodion.Chunks.Number.{numbers}
use triodion.Cli.Position.{RangePosition}
use triodion.Cli.Outside.{Floats, Node}
use triodion.Cli.Blocks.{parse_block_number, parse_block_range, block_range_to_block_chunk}
use triodion.Cli.BlockInputs.{parse_block_parts, parse_block_token}
use triodion.Cli.RangeRefs.{parse_block_range_exclusive}
use triodion.Cli.Steps.{block_range_to_block_chunk_step}

module _ {F : Type 0} (floats : Floats F) (source : Node)
    (first_ref second_ref third_ref : String) where
  -- What the step is applied to: the end of the range is already inclusive.
  parse_block_parts_step :
      (a b step : ℕ) (as_range : Bool)
      → parse_block_range floats source first_ref second_ref ≡ ok (a, b)
      → parse_unsigned u32_mod third_ref ≡ some step
      → parse_block_parts floats source (first_ref ∷ second_ref ∷ third_ref ∷ []) as_range
        ≡ block_range_to_block_chunk a b false (some step) none
  unfolding parse_block_parts
  parse_block_parts_step a b step as_range found given = rw (found, given) refl

  -- A token `start:end:step`, whose references give the blocks `a` and `b` and do not count from
  -- each other (no leading minus or plus sign) and whose end is neither `latest` nor left out, with
  -- `a` below `b` and a positive step, gives the numbers of exactly the blocks from `a` up to but
  -- not including `b` whose distance from `a` is a multiple of the step.
  pub parse_block_token_step :
      (s : String) (as_range : Bool) (a b step : ℕ)
      → split b':' (without_char b'_' s) ≡ first_ref ∷ second_ref ∷ third_ref ∷ []
      → starts_with_char b'-' first_ref ≡ false
      → starts_with_char b'+' second_ref ≡ false
      → str_eq second_ref "latest" ≡ false
      → str_eq second_ref "" ≡ false
      → parse_block_number floats source first_ref RangePosition.first ≡ ok a
      → parse_block_number floats source second_ref RangePosition.last ≡ ok b
      → parse_unsigned u32_mod third_ref ≡ some step
      → 0 < step
      → a < b
      → (ys : List ℕ) × (parse_block_token floats source s as_range ≡ ok (numbers ys))
        × ((v : ℕ)
            → (In v ys → (a ≤ v) × (v < b) × ((v - a) % step ≡ 0))
              × ((a ≤ v) × (v < b) × ((v - a) % step ≡ 0) → In v ys))
  unfolding parse_block_token
  parse_block_token_step s as_range a b step parts h k l m at to given pos below =
      let nonzero : (b == 0) ≡ false = ground arith in
      let ends : parse_block_range floats source first_ref second_ref ≡ ok (a, b - 1) =
        parse_block_range_exclusive floats source first_ref second_ref a b h k l m at to
        ∙ rw nonzero refl in
      let (ys, found, each) = block_range_to_block_chunk_step a (b - 1) step pos (omega arith) in
      (
        ys,
        rw parts (parse_block_parts_step a (b - 1) step as_range ends given ∙ found),
        λ v. (
          λ i. let (x, y, z) = (each v).0 i in (x, omega arith, z),
          λ (x, y, z). (each v).1 (x, omega arith, z),
        ),
      )
