-- ===== src/Chunks/Tests.antt =====
-- The chunk operations on small inputs.
use triodion.Prelude.{
  ℕ, ◌+◌, ◌*◌, ◌-◌, ◌≤◌, ◌<◌, ◌≡◌, refl, ◌⊎◌, none, some, List, [], ◌∷◌, All, arith, length,
}
use triodion.Prelude.Order.{nat_ord, minimum, maximum}
use triodion.Prelude.Outcome.{ok}
use triodion.Chunks.Interface.{all_values, vec_stats}
use triodion.Chunks.Number.{
  NumberChunk, numbers, range, range_inclusive, size, values, number_chunk_data, range_loop,
  range_to_chunks, align,
}
use triodion.Chunks.Ranges.{Tiles, numbers_of, range_to_chunks_exact}
use triodion.Chunks.Splits.{Split, piece_size, subchunk_by_size-Split, subchunk_by_count-Split}
use triodion.Chunks.Subchunks.{subchunk_by_size, subchunk_by_count}
use triodion.Chunks.AlignedFiles.{grid, align_files}
use triodion.Chunks.Extremes.{Describes, number_chunk-Describes, vec_stats_values}

splits : range_to_chunks {E = ℕ} 5 14 4 ≡ ok ((5, 8) ∷ (9, 12) ∷ (13, 14) ∷ [])
unfolding range_to_chunks range_loop
splits = refl

halves : subchunk_by_count {E = ℕ} (range 5 14) 2 ≡ ok (range 5 9 ∷ range 10 14 ∷ [])
unfolding subchunk_by_count range_to_chunks range_loop
halves = refl

range_to_chunks_exact_example :
    (chunks : List (ℕ × ℕ)) × (range_to_chunks {E = ℕ} 5 14 4 ≡ ok chunks)
    × Tiles 4 14 5 chunks
    × (numbers_of chunks ≡ range_inclusive 5 14)
    × (length chunks * 4 < 14 + 1 - 5 + 4)
range_to_chunks_exact_example =
    range_to_chunks_exact 5 14 4 (omega arith) (omega arith) (omega arith)

subchunk_by_size-Split_example :
    (cs : List NumberChunk) × (subchunk_by_size {E = ℕ} (range 5 14) 4 ≡ ok cs)
    × Split (range 5 14) 4 cs
subchunk_by_size-Split_example =
    subchunk_by_size-Split (range 5 14) 4 (omega arith) (omega arith, omega arith)

subchunk_by_count-Split_example :
    (cs : List NumberChunk) × (subchunk_by_count {E = ℕ} (range 5 14) 3 ≡ ok cs)
    × (all_values number_chunk_data cs ≡ values (range 5 14))
    × (length cs ≤ 3)
unfolding size values range_inclusive piece_size
subchunk_by_count-Split_example =
    subchunk_by_count-Split (range 5 14) 3 (omega arith) refl (omega arith)
      (omega arith, omega arith)

align_files_example :
    (j : ℕ) × (k : ℕ) × (0 ≤ j * 1000)
    × (j * 1000 < 0 + 1000)
    × (k * 1000 ≤ 5999)
    × (5999 < k * 1000 + 1000)
    × (((k ≤ j) × (align {E = ℕ} (range 0 5999) 1000 ≡ ok none))
        ⊎ ((j < k)
            × (c : NumberChunk) × (align {E = ℕ} (range 0 5999) 1000 ≡ ok (some c))
            × (subchunk_by_size {E = ℕ} c 1000 ≡ ok (grid 1000 j (k - j)))))
align_files_example = align_files 1000 (omega arith) 0 5999 (omega arith) (omega arith)

one_block_file :
    subchunk_by_size {E = ℕ} (range 0 2000) 1000
    ≡ ok (range 0 999 ∷ range 1000 1999 ∷ range 2000 2000 ∷ [])
unfolding subchunk_by_size range_to_chunks range_loop
one_block_file = refl

abbrev two_chunks : List NumberChunk
two_chunks = range 3 5 ∷ numbers (9 ∷ 1 ∷ []) ∷ []

two_chunks-Describes : All (Describes number_chunk_data) two_chunks
two_chunks-Describes = (
  number_chunk-Describes (range 3 5) (omega arith, omega arith),
  (number_chunk-Describes (numbers (9 ∷ 1 ∷ [])) tt, tt),
)

vec_stats_values_example : vec_stats number_chunk_data two_chunks ≡ record {
  min_value = minimum (all_values number_chunk_data two_chunks);
  max_value = maximum (all_values number_chunk_data two_chunks);
  total_values = length (all_values number_chunk_data two_chunks);
  chunk_size = length (all_values number_chunk_data two_chunks);
  n_chunks = length two_chunks;
}
unfolding all_values values
vec_stats_values_example =
    vec_stats_values number_chunk_data two_chunks two_chunks-Describes (omega arith)
