-- ===== src/Chunks/LogFilters.antt =====
-- `to_log_filter_options` of crates/freeze/src/types/chunks/number_chunk.rs: the blocks that its
-- filters cover.
use triodion.Prelude.{ℕ, ◌+◌, ◌^◌, ◌≤◌, ◌<◌, ◌≡◌, refl, ap, ◌∙◌, List, [], ◌∷◌, ◌++◌, map, arith}
use triodion.Prelude.Outcome.{ok, after_ok}
use triodion.Prelude.Words.{add64}
use triodion.Chunks.Number.{FilterRange, range, range_inclusive, to_log_filter_options}
use triodion.Chunks.Ranges.{numbers_of, range_to_chunks_exact}

-- the blocks of a list of filters, in order
abbrev pub covered : List FilterRange → List ℕ
covered [] = []
covered (f ∷ fs) = range_inclusive f.from_block f.to_block ++ covered fs

covered-map :
    (chunks : List (ℕ × ℕ))
    → covered (map (λ c. record { from_block = c.0; to_block = c.1 }) chunks) ≡ numbers_of chunks
covered-map [] = refl
covered-map (c ∷ chunks) = ap (λ xs. range_inclusive c.0 c.1 ++ xs) (covered-map chunks)

-- For a positive request size and no overflow, the filters of a range of blocks cover, in order and
-- once each, the blocks of the range and the one block after its end.
pub to_log_filter_options-covered :
    {E : Type 0} (start end size : ℕ)
    → 0 < size
    → start ≤ end + 1
    → end + 1 + size ≤ 2 ^ 64
    → (fs : List FilterRange) × (to_log_filter_options {E = E} (range start end) size ≡ ok fs)
      × (covered fs ≡ range_inclusive start (end + 1))
unfolding to_log_filter_options
to_log_filter_options-covered {E} start end size pos le fits =
    let past : add64 end 1 ≡ end + 1 = ground arith in
    let (chunks, found, tiles, whole, count) =
      range_to_chunks_exact {E = E} start (end + 1) size pos le fits in
    (
      map (λ c. record { from_block = c.0; to_block = c.1 }) chunks,
      rw past (after_ok _ found refl),
      covered-map chunks ∙ whole,
    )
