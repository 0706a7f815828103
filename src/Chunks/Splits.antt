-- ===== src/Chunks/Splits.antt =====
-- Splitting a chunk keeps its values, in order, and bounds the size or the number of the pieces.
use native.Mathlib.Nat.{le_refl}
use mathlib.Core.List.{append-nil}
use triodion.Prelude.{
  ℕ, zero, suc, ◌+◌, ◌-◌, ◌*◌, ◌/◌, ◌%◌, ◌^◌, ◌≤◌, ◌<◌, max, ◌≡◌, refl, sym, ap, ◌∙◌, List, [], ◌∷◌,
  map, false, inl, inr, arith, length, concat, All, drop, take-append-drop, length-take,
  length-drop, length-map, leb→le, ltb, leb, ◌==◌, Bool-cases, if◌then◌else◌,
}
use triodion.Prelude.Outcome.{ok, panic}
use triodion.Chunks.Interface.{all_values}
use triodion.Chunks.Number.{
  NumberChunk, numbers, range, size, values, number_chunk_data, range_from, range_inclusive,
}
use triodion.Chunks.Ranges.{Tiles-All, numbers_of, range_to_chunks_exact}
use triodion.Chunks.Subchunks.{
  pieces, subchunk_by_size, subchunk_by_count, to_single_chunk, vec_subchunk_by_count,
}

mul-lt_self : (p n : ℕ) → p * n < n → p ≡ 0
mul-lt_self zero n h = refl
mul-lt_self (suc p) n h = absurd (grind arith)

-- counting one more piece
count_step : (k n len rest : ℕ) → 0 < len → rest ≡ len - n → k * n < rest + n → suc k * n < len + n
count_step k n len rest pos e h = elim (Bool-cases (ltb n len)) [
  | inl more ↦ grind arith
  | inr final ↦ let z : k ≡ 0 = mul-lt_self k n (ground arith) in rw z (omega arith)
]

module _ {A : Type 0} (n : ℕ) (pos : 0 < n) where
  concat-pieces : (bound : ℕ) (xs : List A) → length xs ≤ bound → concat (pieces bound n xs) ≡ xs
  unfolding pieces
  concat-pieces zero [] h = refl
  concat-pieces zero (x ∷ xs) h = absurd (omega arith)
  concat-pieces (suc bound) [] h = refl
  concat-pieces (suc bound) (x ∷ xs) h =
      rw (concat-pieces bound (drop n (x ∷ xs)) (omega (arith, length-drop n (x ∷ xs))))
        (take-append-drop n (x ∷ xs))

  pieces-All :
      (bound : ℕ) (xs : List A) → All (λ p. (0 < length p) × (length p ≤ n)) (pieces bound n xs)
  unfolding pieces
  pieces-All zero xs = tt
  pieces-All (suc bound) [] = tt
  pieces-All (suc bound) (x ∷ xs) = (
    (omega (arith, length-take n (x ∷ xs)), omega (arith, length-take n (x ∷ xs))),
    pieces-All bound (drop n (x ∷ xs)),
  )

  length-pieces : (bound : ℕ) (xs : List A) → length (pieces bound n xs) * n < length xs + n
  unfolding pieces
  length-pieces zero xs = omega arith
  length-pieces (suc bound) [] = omega arith
  length-pieces (suc bound) (x ∷ xs) =
      count_step (length (pieces bound n (drop n (x ∷ xs)))) n (length (x ∷ xs)) _ (omega arith)
        (length-drop n (x ∷ xs)) (length-pieces bound (drop n (x ∷ xs)))

-- The chunk is not inverted, and adding `n` to its numbers does not overflow.
abbrev pub Fits : NumberChunk → ℕ → Type 0
Fits (numbers ns) n = Unit
Fits (range a b) n = (a ≤ b) × (b + n ≤ 2 ^ 64)

all_values-numbers :
    (parts : List (List ℕ)) → all_values number_chunk_data (map numbers parts) ≡ concat parts
unfolding all_values values
all_values-numbers [] = refl
all_values-numbers (p ∷ parts) = rw (all_values-numbers parts)

all_values-range :
    (chunks : List (ℕ × ℕ))
    → all_values number_chunk_data (map (λ c. range c.0 c.1) chunks) ≡ numbers_of chunks
unfolding all_values values
all_values-range [] = refl
all_values-range ((a, b) ∷ chunks) = rw (all_values-range chunks)

All-numbers :
    (n : ℕ) (parts : List (List ℕ))
    → All (λ (p : List ℕ). (0 < length p) × (length p ≤ n)) parts
    → All (λ k. (0 < size k) × (size k ≤ n)) (map numbers parts)
unfolding size
All-numbers n [] h = tt
All-numbers n (p ∷ parts) h = (h.0, All-numbers n parts h.1)

-- the number of items of a range that is not inverted
pub size_range :
    (a b n : ℕ) → a ≤ b → b < a + n → b + n ≤ 2 ^ 64 → 0 < n → size (range a b) ≡ b + 1 - a
unfolding size
size_range a b n h k m pos = omega arith

All-range :
    (start n end : ℕ) (fits : end + n ≤ 2 ^ 64) (chunks : List (ℕ × ℕ))
    → All (λ (c : ℕ × ℕ). (start ≤ c.0) × (c.0 ≤ c.1) × (c.1 < c.0 + n) × (c.1 ≤ end)) chunks
    → All (λ k. (0 < size k) × (size k ≤ n)) (map (λ c. range c.0 c.1) chunks)
unfolding size
All-range start n end fits [] h = tt
All-range start n end fits ((a, b) ∷ chunks) h =
    (omega arith, All-range start n end fits chunks h.1)

length-range_from : (start n : ℕ) → length (range_from start n) ≡ n
unfolding range_from
length-range_from start zero = refl
length-range_from start (suc n) = ap suc (length-range_from (suc start) n)

pub length-range_inclusive : (a b : ℕ) → length (range_inclusive a b) ≡ b + 1 - a
unfolding range_inclusive
length-range_inclusive a b = length-range_from a (b + 1 - a)

-- The pieces of a split of `c` by `n`.
pub record Split (c : NumberChunk) (n : ℕ) (cs : List NumberChunk) : Type 0 where
  pub same_values : all_values number_chunk_data cs ≡ values c
  pub sizes : All (λ k. (0 < size k) × (size k ≤ n)) cs
  pub few : length cs * n < length (values c) + n

-- A chunk that is not inverted, whose numbers plus the size stay within `u64`, splits by a positive
-- size: the values stay the same, in order, every piece holds from one to that many of them, and
-- there are no more pieces than the size asks for.
pub subchunk_by_size-Split :
    {E : Type 0} (c : NumberChunk) (n : ℕ)
    → 0 < n
    → Fits c n
    → (cs : List NumberChunk) × (subchunk_by_size {E = E} c n ≡ ok cs) × Split c n cs
unfolding subchunk_by_size values
subchunk_by_size-Split (numbers ns) n pos h =
    let parts = pieces (length ns) n ns in
    (
      map numbers parts,
      ground arith,
      record {
        same_values = all_values-numbers parts ∙ concat-pieces n pos (length ns) ns (le_refl _);
        sizes = All-numbers n parts (pieces-All n pos (length ns) ns);
        few = rw (length-map numbers parts) (length-pieces n pos (length ns) ns);
      },
    )
subchunk_by_size-Split {E} (range a b) n pos h =
    let (chunks, found, tiles, same, few) = range_to_chunks_exact {E = E} a b n pos h.0 h.1 in
    (
      map (λ c. range c.0 c.1) chunks,
      rw found,
      record {
        same_values = all_values-range chunks ∙ same;
        sizes = All-range a n b h.1 chunks (Tiles-All pos tiles);
        few = rw (length-map (λ (c : ℕ × ℕ). range c.0 c.1) chunks, length-range_inclusive a b) few;
      },
    )

-- the size of the pieces when `total` values go into `n_chunks` chunks
unfoldable pub piece_size : ℕ → ℕ → ℕ
piece_size total n_chunks =
    if ltb 0 (total % n_chunks) then total / n_chunks + 1 else total / n_chunks

pub piece_size_enough :
    (total n_chunks : ℕ) → 0 < n_chunks → total ≤ n_chunks * piece_size total n_chunks
unfolding piece_size
piece_size_enough total n_chunks pos = grind arith

piece_size_pos : (total n_chunks : ℕ) → 0 < total → 0 < piece_size total n_chunks
unfolding piece_size
piece_size_pos total n_chunks pos = grind arith

-- `n * s` values in pieces of `s` need at most `n` pieces
few_enough : (k n s total : ℕ) → 0 < s → total ≤ n * s → k * s < total + s → k ≤ n
few_enough k n s total pos h m = elim (Bool-cases (leb k n)) [
  | inl yes_le ↦ leb→le k n yes_le
  | inr more ↦ let step : suc n ≤ k = ground arith in absurd (grind arith)
]

pub subchunk_by_count-pos :
    {E : Type 0} (c : NumberChunk) (n : ℕ)
    → 0 < n
    → subchunk_by_count {E = E} c n ≡ subchunk_by_size c (piece_size (size c) n)
unfolding subchunk_by_count piece_size
subchunk_by_count-pos c n pos = let e : (n == 0) ≡ false = ground arith in rw e

-- Divided by a positive count, a chunk that holds a value gives at most that many pieces, which
-- hold its values in order.
pub subchunk_by_count-Split :
    {E : Type 0} (c : NumberChunk) (n : ℕ)
    → 0 < n
    → size c ≡ length (values c)
    → 0 < size c
    → Fits c (piece_size (size c) n)
    → (cs : List NumberChunk) × (subchunk_by_count {E = E} c n ≡ ok cs)
      × (all_values number_chunk_data cs ≡ values c)
      × (length cs ≤ n)
subchunk_by_count-Split {E} c n pos sized some_values fits =
    let s_pos = piece_size_pos (size c) n some_values in
    let (cs, found, split) = subchunk_by_size-Split {E = E} c _ s_pos fits in
    (
      cs,
      subchunk_by_count-pos c n pos ∙ found,
      split.same_values,
      few_enough (length cs) n _ (size c) s_pos (piece_size_enough (size c) n pos)
          (omega (arith, split.few, sized)),
    )

-- a split of a chunk by its own size has one piece
whole :
    (c : NumberChunk) (cs : List NumberChunk)
    → size c ≡ length (values c)
    → 0 < size c
    → Split c (size c) cs
    → (k : NumberChunk) × (cs ≡ k ∷ []) × (values k ≡ values c)
unfolding all_values
whole c [] sized some_values split = absurd (omega (arith, ap length split.same_values))
whole c (k ∷ []) sized some_values split = (k, refl, sym (append-nil _) ∙ split.same_values)
whole c (k ∷ (l ∷ cs)) sized some_values split = absurd (grind (arith, split.few))

-- Divided by zero, a chunk that holds a value stays whole.
pub subchunk_by_count-zero :
    {E : Type 0} (c : NumberChunk)
    → size c ≡ length (values c)
    → 0 < size c
    → Fits c (size c)
    → (k : NumberChunk) × (subchunk_by_count {E = E} c 0 ≡ ok (k ∷ [])) × (values k ≡ values c)
unfolding subchunk_by_count
subchunk_by_count-zero {E} c sized some_values fits =
    let (cs, found, split) = subchunk_by_size-Split {E = E} c (size c) some_values fits in
    let (k, one, same) = whole c cs sized some_values split in
    let e : max (size c) 1 ≡ size c = omega arith in (k, rw (e, found, one), same)

subchunk_by_count_empty :
    {E : Type 0} (n : ℕ) → 0 < n → subchunk_by_count {E = E} (numbers []) n ≡ panic
unfolding piece_size size subchunk_by_size
subchunk_by_count_empty n pos =
    let z : piece_size (size (numbers [])) n ≡ 0 = ground arith in
    subchunk_by_count-pos (numbers []) n pos ∙ rw z

-- With no values left, as when alignment has dropped every chunk, a split by a positive count
-- panics: the size of the pieces comes out as zero, which `slice::chunks` refuses.
pub vec_subchunk_by_count_panics :
    {E : Type 0} (chunks : List NumberChunk) (n : ℕ)
    → 0 < n
    → to_single_chunk chunks ≡ numbers []
    → vec_subchunk_by_count {E = E} chunks n ≡ panic
unfolding vec_subchunk_by_count
vec_subchunk_by_count_panics chunks n pos empty = rw empty (subchunk_by_count_empty n pos)
