-- ===== src/Cli/Tests.antt =====
-- The command line's parsers on small inputs, with natural numbers for the floating-point numbers
-- and a chain of four blocks.
use triodion.Prelude.{
  ℕ, zero, suc, ◌+◌, ◌-◌, ◌*◌, ◌%◌, ◌^◌, ◌≤◌, ◌<◌, min, ◌≡◌, refl, ◌⊎◌, inl, inr, true, false, List,
  [], ◌∷◌, none, some, In, length, get_elem?, leb, ◌==◌, if◌then◌else◌, arith,
}
use triodion.Prelude.Chars.{split, without_char, starts_with_char, ends_with_char, parse_unsigned}
use triodion.Prelude.Outcome.{Outcome, ok, err}
use triodion.Prelude.Text.{decimal}
use triodion.Prelude.Words.{u64_mod}
use triodion.Errors.{ParseError, parse_error}
use triodion.Chunks.Number.{NumberChunk, numbers, range, range_inclusive}
use triodion.Cli.Outside.{Floats, Node}
use triodion.Cli.Blocks.{
  evenly_spaced_subset, parse_block_number, parse_block_range, block_range_to_block_chunk,
  every_nth,
}
use triodion.Cli.BlockInputs.{apply_reorg_buffer, parse_block_token}
use triodion.Cli.Timestamps.{block_at_timestamp, timestamps_to_block_numbers}
use triodion.Cli.StepTokens.{parse_block_token_step}
use triodion.Cli.Distinct.{Ascending}
use triodion.Cli.Search.{CurrentAt, block_at_timestamp-CurrentAt}
use triodion.Cli.SearchEnds.{Ended, block_at_timestamp-Ended}
use triodion.Cli.BlocksAt.{Chain, timestamps_to_block_numbers-CurrentAt}
use triodion.Cli.Subsets.{spread, evenly_spaced_subset-spread}
use triodion.Cli.Reorg.{UpTo, apply_reorg_buffer-UpTo}

-- texts are unsigned integers, and arithmetic wraps
abbrev whole_numbers : Floats ℕ
whole_numbers = record {
  parse = parse_unsigned u64_mod;
  of_integer = λ n. n;
  mul = λ a b. a * b;
  round = λ x. x;
  is_finite = λ x. true;
  is_negative = λ x. false;
  reaches_max = λ x. leb (2 ^ 64 - 1) x;
  to_integer = λ x. x % 2 ^ 64;
  show = decimal;
  to_integer-lt = λ x. omega arith;
}

abbrev times : ℕ → ℕ
times n = 100 + n * 12

abbrev four_blocks : Node
four_blocks = record {
  block_number = some 3;
  block_timestamp = λ n. if leb n 3 then some (some (times n)) else some none;
}

four_blocks-Chain : Chain four_blocks times 3
four_blocks-Chain = record {
  head = refl;
  blocks = λ n h. ground arith;
  ordered = λ m n h k. omega arith;
  fits = omega arith;
}

block_at_timestamp-CurrentAt_example :
    (b : ℕ) × (block_at_timestamp 113 3 (λ n. ok (times n)) ≡ ok b) × CurrentAt times 3 113 b
block_at_timestamp-CurrentAt_example =
    block_at_timestamp-CurrentAt times 3 113 (λ n. ok (times n)) (λ n h. refl)
      (λ m n h k. omega arith) (omega arith)

-- a node that fails on block 1
abbrev broken : ℕ → Outcome ParseError ℕ
broken n = if n == 1 then err (parse_error "lost") else ok (times n)

broken-answers :
    (n : ℕ) → n ≤ 3 → ((t : ℕ) × (broken n ≡ ok t)) ⊎ ((e : ParseError) × (broken n ≡ err e))
broken-answers zero h = inl (100, refl)
broken-answers (suc zero) h = inr (parse_error "lost", refl)
broken-answers (suc (suc zero)) h = inl (124, refl)
broken-answers (suc (suc (suc zero))) h = inl (136, refl)
broken-answers (suc (suc (suc (suc n)))) h = absurd (omega arith)

block_at_timestamp-Ended_example : Ended 3 broken (block_at_timestamp 113 3 broken)
block_at_timestamp-Ended_example =
    block_at_timestamp-Ended 3 113 broken broken-answers (omega arith)

timestamps_to_block_numbers-CurrentAt_example :
    (bs : List ℕ) × (timestamps_to_block_numbers four_blocks (130 ∷ 100 ∷ 125 ∷ []) ≡ ok bs)
    × Ascending bs
    × ((b : ℕ) → In b bs → (t : ℕ) × In t (130 ∷ 100 ∷ 125 ∷ []) × CurrentAt times 3 t b)
    × ((t : ℕ) → In t (130 ∷ 100 ∷ 125 ∷ []) → (b : ℕ) × In b bs × CurrentAt times 3 t b)
timestamps_to_block_numbers-CurrentAt_example =
    timestamps_to_block_numbers-CurrentAt four_blocks-Chain (130 ∷ 100 ∷ 125 ∷ [])

evenly_spaced_subset-spread_example :
    (ys : List ℕ) × (evenly_spaced_subset {E = ℕ} (4 ∷ 5 ∷ 6 ∷ 7 ∷ []) 3 ≡ ok ys)
    × (length ys ≡ min 3 4)
    × ((j : ℕ) → j < length ys → get_elem? ys j ≡ get_elem? (4 ∷ 5 ∷ 6 ∷ 7 ∷ []) (spread 4 3 j))
evenly_spaced_subset-spread_example =
    evenly_spaced_subset-spread (4 ∷ 5 ∷ 6 ∷ 7 ∷ []) 3 (omega arith)

abbrev two_ranges : List NumberChunk
two_ranges = range 0 1 ∷ range 2 3 ∷ []

apply_reorg_buffer-UpTo_example :
    ((3 < 2) × (e : ParseError) × (apply_reorg_buffer four_blocks two_ranges 2 ≡ err e))
    ⊎ ((kept : List NumberChunk) × (2 ≤ 3)
        × (apply_reorg_buffer four_blocks two_ranges 2 ≡ ok kept)
        × ((c : NumberChunk)
            → (In c kept → In c two_ranges × UpTo (3 - 2) c)
              × (In c two_ranges → UpTo (3 - 2) c → In c kept)))
apply_reorg_buffer-UpTo_example =
    apply_reorg_buffer-UpTo four_blocks 3 2 two_ranges refl (omega arith)
      ((omega arith, omega arith), ((omega arith, omega arith), tt))

parse_block_token_step_example :
    (ys : List ℕ) × (parse_block_token whole_numbers four_blocks "2_000:5_000:1000" true
      ≡ ok (numbers ys))
    × ((v : ℕ)
        → (In v ys → (2000 ≤ v) × (v < 5000) × ((v - 2000) % 1000 ≡ 0))
          × ((2000 ≤ v) × (v < 5000) × ((v - 2000) % 1000 ≡ 0) → In v ys))
unfolding parse_block_number split without_char starts_with_char ends_with_char parse_unsigned
parse_block_token_step_example =
    parse_block_token_step whole_numbers four_blocks "2000" "5000" "1000" "2_000:5_000:1000" true
      2000 5000 1000 refl refl refl refl refl refl refl refl (omega arith) (omega arith)

three_steps :
    parse_block_token whole_numbers four_blocks "20:50:10" true ≡ ok (numbers (20 ∷ 30 ∷ 40 ∷ []))
unfolding parse_block_token split without_char parse_block_range starts_with_char parse_block_number
    ends_with_char parse_unsigned block_range_to_block_chunk every_nth range_inclusive
three_steps = refl
