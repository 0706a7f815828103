-- ===== src/Chunks/Number.antt =====
-- crates/freeze/src/types/chunks/number_chunk.rs: chunks of block numbers.
use triodion.Prelude.{
  ℕ, zero, suc, ◌+◌, ◌-◌, Option, none, some, List, [], ◌∷◌, map, length, ltb, ◌==◌, if◌then◌else◌,
}
use triodion.Prelude.Outcome.{Outcome, ok, diverge, ◌>>=◌}
use triodion.Prelude.Order.{nat_ord, minimum, maximum}
use triodion.Prelude.Text.{zero_padded}
use triodion.Prelude.Words.{add64, sub64, mul64, div, div_ceil, u64_mod}
use triodion.Chunks.Interface.{ChunkData}

pub data NumberChunk : Type 0 where
  numbers : List ℕ → NumberChunk
  range : ℕ → ℕ → NumberChunk

-- `n` consecutive numbers from `start`
unfoldable pub range_from : ℕ → ℕ → List ℕ
range_from start zero = []
range_from start (suc n) = start ∷ range_from (suc start) n

-- `(start..=end).collect()`
unfoldable pub range_inclusive : ℕ → ℕ → List ℕ
unfolding range_from
range_inclusive start end = range_from start (end + 1 - start)

unfoldable pub size : NumberChunk → ℕ
size (numbers ns) = length ns
size (range start end) = add64 (sub64 end start) 1

unfoldable pub min_value : NumberChunk → Option ℕ
unfolding minimum
min_value (numbers ns) = minimum ns
min_value (range start end) = some start

unfoldable pub max_value : NumberChunk → Option ℕ
unfolding maximum
max_value (numbers ns) = maximum ns
max_value (range start end) = some end

unfoldable pub values : NumberChunk → List ℕ
unfolding range_inclusive
values (numbers ns) = ns
values (range start end) = range_inclusive start end

-- `impl ChunkData for NumberChunk`
abbrev pub number_chunk_data : ChunkData NumberChunk ℕ
number_chunk_data = record {
  format_item = λ n. ok (zero_padded 8 n);
  size = size;
  min_value = min_value;
  max_value = max_value;
  values = values;
}

-- The end of the chunk that starts at `chunk_start`, no further than `end`.
abbrev pub chunk_end : ℕ → ℕ → ℕ → ℕ
chunk_end chunk_start end chunk_size =
    let last = sub64 (add64 chunk_start chunk_size) 1 in if ltb end last then end else last

-- The loop of `range_to_chunks`, with the rounds that it may still take.
unfoldable pub range_loop : {E : Type 0} → ℕ → ℕ → ℕ → ℕ → Outcome E (List (ℕ × ℕ))
range_loop zero chunk_start end chunk_size = diverge
range_loop (suc rounds) chunk_start end chunk_size =
    let last = chunk_end chunk_start end chunk_size in
    let rest = (do
      chunks ← range_loop rounds (add64 chunk_start chunk_size) end chunk_size
      ok ((chunk_start, last) ∷ chunks)) in
    if last == end then ok ((chunk_start, last) ∷ []) else rest

-- The loop's state is one `u64`: a run of more than `u64_mod` rounds meets a state again and never
-- ends.
unfoldable pub range_to_chunks : {E : Type 0} → ℕ → ℕ → ℕ → Outcome E (List (ℕ × ℕ))
range_to_chunks start end chunk_size =
    if chunk_size == 0 then ok ((start, end) ∷ []) else range_loop u64_mod start end chunk_size

-- `FilterBlockOption::Range` of the RPC types, with both ends given
pub record FilterRange : Type 0 where
  pub from_block : ℕ
  pub to_block : ℕ

unfoldable pub to_log_filter_options : {E : Type 0} → NumberChunk → ℕ → Outcome E (List FilterRange)
to_log_filter_options (numbers ns) log_request_size =
    ok (map (λ n. record { from_block = n; to_block = n }) ns)
to_log_filter_options (range start_block end_block) log_request_size = do
  chunks ← range_to_chunks start_block (add64 end_block 1) log_request_size
  ok (map (λ c. record { from_block = c.0; to_block = c.1 }) chunks)

unfoldable pub align : {E : Type 0} → NumberChunk → ℕ → Outcome E (Option NumberChunk)
align (numbers ns) chunk_size = ok (some (numbers ns))
align (range start end) chunk_size = do
  up ← div_ceil start chunk_size
  down ← div end chunk_size
  let start' = mul64 up chunk_size
  let end' = mul64 down chunk_size
  ok (if ltb start' end' then some (range start' end') else none)
