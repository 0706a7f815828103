-- ===== src/Chunks/Subchunks.antt =====
-- crates/freeze/src/types/chunks/subchunks.rs: a chunk divided by size or by count.
use triodion.Prelude.{
  ℕ, zero, suc, max, List, [], ◌∷◌, map, length, take, drop, ◌==◌, if◌then◌else◌,
}
use triodion.Prelude.Outcome.{Outcome, ok, panic, ◌>>=◌}
use triodion.Prelude.Words.{div_ceil}
use triodion.Chunks.Interface.{all_values}
use triodion.Chunks.Number.{NumberChunk, numbers, range, size, number_chunk_data, range_to_chunks}

-- `slice::chunks(n)` for a positive `n`, with a bound on the number of pieces.
unfoldable pub pieces : {A : Type 0} → ℕ → ℕ → List A → List (List A)
pieces zero n xs = []
pieces (suc bound) n [] = []
pieces (suc bound) n (x ∷ xs) = take n (x ∷ xs) ∷ pieces bound n (drop n (x ∷ xs))

-- `slice::chunks(n)`: a list has no more pieces than items, and `n == 0` panics.
unfoldable pub slice_chunks : {E A : Type 0} → ℕ → List A → Outcome E (List (List A))
unfolding pieces
slice_chunks n xs = if n == 0 then panic else ok (pieces (length xs) n xs)

-- A `u64` always fits the `usize` of a 64-bit target, so the clamp of the source changes nothing.
unfoldable pub subchunk_by_size : {E : Type 0} → NumberChunk → ℕ → Outcome E (List NumberChunk)
unfolding slice_chunks
subchunk_by_size (numbers ns) chunk_size = do
  parts ← slice_chunks chunk_size ns
  ok (map numbers parts)
subchunk_by_size (range start end) chunk_size = do
  chunks ← range_to_chunks start end chunk_size
  ok (map (λ c. range c.0 c.1) chunks)

unfoldable pub subchunk_by_count : {E : Type 0} → NumberChunk → ℕ → Outcome E (List NumberChunk)
unfolding subchunk_by_size size
subchunk_by_count chunk n_chunks =
    let total_blocks = size chunk in
    if n_chunks == 0
    then subchunk_by_size chunk (max total_blocks 1)
    else do chunk_size ← div_ceil total_blocks n_chunks; subchunk_by_size chunk chunk_size

unfoldable pub to_single_chunk : List NumberChunk → NumberChunk
unfolding all_values
to_single_chunk (chunk ∷ []) = chunk
to_single_chunk chunks = numbers (all_values number_chunk_data chunks)

-- `impl Subchunk for Vec<BlockChunk>`
unfoldable pub vec_subchunk_by_size :
    {E : Type 0} → List NumberChunk → ℕ → Outcome E (List NumberChunk)
unfolding to_single_chunk subchunk_by_size
vec_subchunk_by_size chunks chunk_size = subchunk_by_size (to_single_chunk chunks) chunk_size

unfoldable pub vec_subchunk_by_count :
    {E : Type 0} → List NumberChunk → ℕ → Outcome E (List NumberChunk)
unfolding to_single_chunk subchunk_by_count
vec_subchunk_by_count chunks n_chunks = subchunk_by_count (to_single_chunk chunks) n_chunks
