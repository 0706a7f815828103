-- ===== src/Partitions/InnerBlocks.antt =====
-- The block ranges that `param_sets` makes under an inner request size, and the blocks in them.
use mathlib.Core.Path.{subst}
use mathlib.Core.List.{append-nil}
use triodion.Prelude.{
  ℕ, zero, suc, ◌+◌, ◌-◌, ◌≤◌, ◌<◌, ◌≡◌, ◌↔◌, refl, sym, ap, ◌∙◌, Option, some, List, [], ◌∷◌, ◌++◌,
  flat_map, In, In-map, map-In, In-flat_map, flat_map-In, inl, inr, All, arith, Bool-cases, ◌==◌,
}
use triodion.Prelude.Outcome.{ok}
use triodion.Errors.{CollectError}
use triodion.Chunks.Interface.{all_values}
use triodion.Chunks.Number.{
  NumberChunk, numbers, range, range_from, range_inclusive, values, number_chunk_data,
}
use triodion.Chunks.Subchunks.{to_single_chunk, vec_subchunk_by_size}
use triodion.Chunks.Splits.{Fits, subchunk_by_size-Split}
use triodion.Partitions.Requests.{piece_ranges}

range_from-In : (v a n : ℕ) → In v (range_from a n) ↔ ((a ≤ v) × (v < a + n))
unfolding range_from
range_from-In v a zero = (λ m. elim m [ ], λ h. absurd (omega (arith, h.0, h.1)))
range_from-In v a (suc n) =
    let (from, to) = range_from-In v (suc a) n in
    (
      λ m. elim m [
        | inl e ↦ (omega arith, omega arith)
        | inr k ↦ let (x, y) = from k in (omega arith, omega arith)
      ],
      λ (x, y). elim (Bool-cases (v == a)) [
        | inl e ↦ inl (ground arith)
        | inr ne ↦ inr (to (ground arith, omega arith))
      ],
    )

-- One of the ranges has the block.
abbrev pub Ranged : List (Option (ℕ × ℕ)) → ℕ → Type 0
Ranged ranges v = (a : ℕ) × (b : ℕ) × In (some (a, b)) ranges × (a ≤ v) × (v ≤ b)

piece_ranges-Ranged : (c : NumberChunk) (v : ℕ) → In v (values c) ↔ Ranged (piece_ranges c) v
unfolding values piece_ranges range_inclusive
piece_ranges-Ranged (range a b) v =
    let (from, to) = range_from-In v a (b + 1 - a) in
    (
      λ m. let (x, y) = from m in (a, b, inl refl, x, omega arith),
      λ (c, d, m, x, y). elim m [ inl e ↦ to (ground arith) | inr k ↦ elim k [ ] ],
    )
piece_ranges-Ranged (numbers ns) v = (
  λ m. (v, v, In-map (λ n. some (n, n)) v ns m, omega arith, omega arith),
  λ (c, d, m, x, y).
      let (n, k, e) = map-In (λ n. some (n, n)) (some (c, d)) ns m in
      let same : v ≡ n = ground arith in subst (λ z. In z ns) (sym same) k,
)

all_values-flat_map : (cs : List NumberChunk) → all_values number_chunk_data cs ≡ flat_map values cs
unfolding all_values
all_values-flat_map [] = refl
all_values-flat_map (c ∷ cs) = ap (λ vs. values c ++ vs) (all_values-flat_map cs)

values-to_single_chunk : (cs : List NumberChunk) → values (to_single_chunk cs) ≡ flat_map values cs
unfolding to_single_chunk values
values-to_single_chunk [] = all_values-flat_map []
values-to_single_chunk (c ∷ []) = sym (append-nil (values c))
values-to_single_chunk (c ∷ d ∷ cs) = all_values-flat_map (c ∷ d ∷ cs)

to_single_chunk-Fits :
    (cs : List NumberChunk) (size : ℕ) → All (λ c. Fits c size) cs → Fits (to_single_chunk cs) size
unfolding to_single_chunk
to_single_chunk-Fits [] size h = tt
to_single_chunk-Fits (c ∷ []) size h = h.0
to_single_chunk-Fits (c ∷ d ∷ cs) size h = tt

-- The ranges of the pieces have exactly the blocks of the chunks.
pub piece_ranges-vec_subchunk_by_size :
    (bs : List NumberChunk) (size : ℕ)
    → 0 < size
    → All (λ c. Fits c size) bs
    → (pieces : List NumberChunk) × (vec_subchunk_by_size {E = CollectError} bs size ≡ ok pieces)
      × ((v : ℕ) → In v (flat_map values bs) ↔ Ranged (flat_map piece_ranges pieces) v)
unfolding vec_subchunk_by_size
piece_ranges-vec_subchunk_by_size bs size pos fits =
    let (pieces, found, split) =
      subchunk_by_size-Split {E = CollectError} (to_single_chunk bs) size pos
        (to_single_chunk-Fits bs size fits) in
    let same : flat_map values pieces ≡ flat_map values bs =
      sym (all_values-flat_map pieces) ∙ split.same_values ∙ values-to_single_chunk bs in
    (
      pieces,
      found,
      λ v. (
        λ m.
            let (c, k, inner) = flat_map-In values v pieces (subst (In v) (sym same) m) in
            let (a, b, r, x, y) = (piece_ranges-Ranged c v).0 inner in
            (a, b, In-flat_map piece_ranges (some (a, b)) c pieces k r, x, y),
        λ (a, b, r, x, y).
            let (c, k, inner) = flat_map-In piece_ranges (some (a, b)) pieces r in
            subst (In v) same
              (In-flat_map values v c pieces k ((piece_ranges-Ranged c v).1 (a, b, inner, x, y))),
      ),
    )
