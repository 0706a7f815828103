-- ===== src/Cli/BlockInputs.antt =====
-- crates/cli/src/parse/blocks.rs: block tokens, the values of `--blocks`, and what is done to the
-- chunks afterwards.
use triodion.Prelude.{
  ℕ, String, Bool, true, false, Option, none, some, List, [], ◌∷◌, leb, ◌==◌, if◌then◌else◌,
}
use triodion.Prelude.Chars.{split, without_char, parse_unsigned}
use triodion.Prelude.Outcome.{Outcome, ok, err, ◌>>=◌, ok_or, try_map}
use triodion.Prelude.Text.{append, decimal}
use triodion.Prelude.Words.{u32_mod, checked_sub}
use triodion.Errors.{ParseError, parse_error}
use triodion.Chunks.Interface.{filter_map}
use triodion.Chunks.Number.{NumberChunk, numbers, max_value, align}
use triodion.Chunks.Subchunks.{vec_subchunk_by_size, vec_subchunk_by_count}
use triodion.Cli.Position.{RangePosition}
use triodion.Cli.Outside.{Floats, Node}
use triodion.Cli.Blocks.{block_range_to_block_chunk, parse_block_number, parse_block_range}

-- A second reference with the number of blocks to keep, `end/n`.
unfoldable pub split_interval : String → String → Outcome ParseError (String × Option ℕ)
split_interval message second_ref = interval (split b'/' second_ref)
  where
    interval : List String → Outcome ParseError (String × Option ℕ)
    interval (end ∷ count ∷ []) = do
      n_keep ← ok_or (parse_unsigned u32_mod count) (parse_error message)
      ok (end, some n_keep)
    interval _ = ok (second_ref, none)

-- `apply_reorg_buffer`: a chunk stays if its greatest block is at most `max_allowed`.
unfoldable pub old_enough : ℕ → NumberChunk → Option NumberChunk
old_enough max_allowed chunk = elim (max_value chunk) [
  | none ↦ none
  | some max_block ↦ if leb max_block max_allowed then some chunk else none
]

module _ (source : Node) where
  unfoldable pub apply_reorg_buffer : List NumberChunk → ℕ → Outcome ParseError (List NumberChunk)
  unfolding old_enough
  apply_reorg_buffer block_chunks reorg_filter = if reorg_filter == 0 then ok block_chunks else do
    latest_block ← ok_or source.block_number (parse_error "reorg buffer parse error")
    max_allowed ← ok_or (checked_sub latest_block reorg_filter) (
        parse_error (
          append "reorg buffer " (
            append (decimal reorg_filter)
              (append " is deeper than the chain head " (decimal latest_block)))))
    ok (filter_map (old_enough max_allowed) block_chunks)

-- the arguments of the command line that `postprocess_block_chunks` reads
pub record ChunkArgs : Type 0 where
  pub align : Bool
  pub chunk_size : ℕ
  pub n_chunks : Option ℕ
  pub reorg_buffer : ℕ

-- `block_chunks.into_iter().filter_map(|x| x.align(chunk_size)).collect()`
unfoldable pub align_all : {E : Type 0} → ℕ → List NumberChunk → Outcome E (List NumberChunk)
align_all chunk_size [] = ok []
align_all chunk_size (c ∷ cs) =
    let later = align_all chunk_size cs in
    do o ← align c chunk_size; rest ← later; ok (elim o [ none ↦ rest | some c' ↦ c' ∷ rest ])

module _ (source : Node) where
  unfoldable pub postprocess_block_chunks :
      List NumberChunk → ChunkArgs → Outcome ParseError (List NumberChunk)
  unfolding align_all
  postprocess_block_chunks block_chunks args = do
    aligned ← if args.align then align_all args.chunk_size block_chunks else ok block_chunks
    split_up ← elim args.n_chunks [
      | some n ↦ vec_subchunk_by_count aligned n
      | none ↦ vec_subchunk_by_size aligned args.chunk_size
    ]
    apply_reorg_buffer source split_up args.reorg_buffer

module _ {F : Type 0} (floats : Floats F) (source : Node) where
  -- `parts.as_slice()` of `parse_block_token`
  unfoldable pub parse_block_parts : List String → Bool → Outcome ParseError NumberChunk
  unfolding split_interval
  parse_block_parts (block_ref ∷ []) as_range = do
    block ← parse_block_number floats source block_ref RangePosition.none
    ok (numbers (block ∷ []))
  parse_block_parts (first_ref ∷ second_ref ∷ []) as_range = do
    (end_ref, n_keep) ← split_interval "cannot parse block interval size" second_ref
    (start_block, end_block) ← parse_block_range floats source first_ref end_ref
    block_range_to_block_chunk start_block end_block as_range none n_keep
  parse_block_parts (first_ref ∷ second_ref ∷ third_ref ∷ []) as_range = do
    (start_block, end_block) ← parse_block_range floats source first_ref second_ref
    range_size ← ok_or (parse_unsigned u32_mod third_ref) (parse_error "start_block parse error")
    block_range_to_block_chunk start_block end_block false (some range_size) none
  parse_block_parts _ as_range =
      err (parse_error "blocks must be in format block_number or start_block:end_block")

  unfoldable pub parse_block_token : String → Bool → Outcome ParseError NumberChunk
  unfolding parse_block_parts
  parse_block_token s as_range = parse_block_parts (split b':' (without_char b'_' s)) as_range

  -- A text splits into at least one part.
  unfoldable pub parse_block_inputs : String → Outcome ParseError (List NumberChunk)
  unfolding parse_block_token
  parse_block_inputs inputs = parts_of (split b' ' inputs)
    where
      parts_of : List String → Outcome ParseError (List NumberChunk)
      parts_of (first_input ∷ []) = do chunk ← parse_block_token first_input true; ok (chunk ∷ [])
      parts_of parts = try_map (λ part. parse_block_token part false) parts

  -- `get_default_block_chunks`, with the first default of the chosen datasets
  unfoldable pub get_default_block_chunks :
      Option String → ChunkArgs → Outcome ParseError (List NumberChunk)
  unfolding parse_block_inputs postprocess_block_chunks
  get_default_block_chunks default_blocks args = do
    block_chunks ← parse_block_inputs (elim default_blocks [ none ↦ "0:latest" | some b ↦ b ])
    postprocess_block_chunks source block_chunks args
