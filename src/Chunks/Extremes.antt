-- ===== src/Chunks/Extremes.antt =====
-- The statistics of a list of chunks are those of its values.
use native.Mathlib.Nat.{mod-eq_of_lt}
use mathlib.Core.List.{foldl}
use triodion.Prelude.{
  ℕ, zero, suc, ◌+◌, ◌-◌, ◌%◌, ◌^◌, ◌≤◌, ◌<◌, ◌≡◌, refl, sym, ap, ◌∙◌, Option, some, Option-cases,
  List, [], ◌∷◌, inl, inr, arith, length, length-append, All,
}
use triodion.Prelude.Order.{Ord, nat_ord, min_of, max_of, minimum, maximum}
use triodion.Prelude.Extremes.{merge_with, minimum-append, maximum-append}
use triodion.Chunks.Interface.{ChunkData, filter_map, all_values, sum_sizes, vec_stats}
use triodion.Chunks.Number.{
  NumberChunk, numbers, range, size, min_value, max_value, values, number_chunk_data, range_from,
  range_inclusive,
}
use triodion.Chunks.Splits.{length-range_inclusive}

-- A chunk that describes its values: its size is their number, and its ends are their extremes.
pub record Describes {C I : Type 0} ⦃o : Ord I⦄ (d : ChunkData C I) (c : C) : Type 0 where
  pub size_is : d.size c ≡ length (d.values c)
  pub min_is : d.min_value c ≡ minimum (d.values c)
  pub max_is : d.max_value c ≡ maximum (d.values c)

pub minimum_singleton : {I : Type 0} ⦃o : Ord I⦄ (a : I) → minimum (a ∷ []) ≡ some a
unfolding minimum
minimum_singleton a = refl

pub maximum_singleton : {I : Type 0} ⦃o : Ord I⦄ (a : I) → maximum (a ∷ []) ≡ some a
unfolding maximum
maximum_singleton a = refl

module _ {C I : Type 0} ⦃o : Ord I⦄ (d : ChunkData C I) where
  minimum-filter_map :
      (f : C → Option I) (c : C) (cs : List C)
      → minimum (filter_map f (c ∷ cs)) ≡ merge_with min_of (f c) (minimum (filter_map f cs))
  unfolding filter_map
  minimum-filter_map f c cs = elim (Option-cases (f c)) [
    | inl e ↦ rw (e, filter_map)
    | inr (y, e) ↦
        rw (e, filter_map) (minimum-append (y ∷ []) (filter_map f cs) ∙ rw minimum_singleton)
  ]

  maximum-filter_map :
      (f : C → Option I) (c : C) (cs : List C)
      → maximum (filter_map f (c ∷ cs)) ≡ merge_with max_of (f c) (maximum (filter_map f cs))
  unfolding filter_map
  maximum-filter_map f c cs = elim (Option-cases (f c)) [
    | inl e ↦ rw (e, filter_map)
    | inr (y, e) ↦
        rw (e, filter_map) (maximum-append (y ∷ []) (filter_map f cs) ∙ rw maximum_singleton)
  ]

  filter_map-minimum :
      (cs : List C)
      → All (Describes d) cs
      → minimum (filter_map d.min_value cs) ≡ minimum (all_values d cs)
  unfolding filter_map all_values
  filter_map-minimum [] h = refl
  filter_map-minimum (c ∷ cs) h =
      minimum-filter_map d.min_value c cs
      ∙ rw (h.0.min_is, filter_map-minimum cs h.1)
          (sym (minimum-append (d.values c) (all_values d cs)))

  filter_map-maximum :
      (cs : List C)
      → All (Describes d) cs
      → maximum (filter_map d.max_value cs) ≡ maximum (all_values d cs)
  unfolding filter_map all_values
  filter_map-maximum [] h = refl
  filter_map-maximum (c ∷ cs) h =
      maximum-filter_map d.max_value c cs
      ∙ rw (h.0.max_is, filter_map-maximum cs h.1)
          (sym (maximum-append (d.values c) (all_values d cs)))

  sum_sizes-length :
      (cs : List C) → All (Describes d) cs → sum_sizes d cs ≡ length (all_values d cs) % 2 ^ 64
  unfolding sum_sizes all_values
  sum_sizes-length [] h = omega arith
  sum_sizes-length (c ∷ cs) h =
      omega
        (arith, h.0.size_is, sum_sizes-length cs h.1, length-append (d.values c) (all_values d cs))

  -- The statistics of a vector of chunks that describe their values: the least and the greatest of
  -- all values, and their number, if that fits a `u64`.
  pub vec_stats_values :
      (cs : List C)
      → All (Describes d) cs
      → length (all_values d cs) < 2 ^ 64
      → vec_stats d cs ≡ record {
        min_value = minimum (all_values d cs);
        max_value = maximum (all_values d cs);
        total_values = length (all_values d cs);
        chunk_size = length (all_values d cs);
        n_chunks = length cs;
      }
  unfolding vec_stats
  vec_stats_values cs h fits =
      let total = sum_sizes-length cs h ∙ mod-eq_of_lt fits in
      rw (filter_map-minimum cs h, filter_map-maximum cs h, total)

-- an ascending run has its ends for extremes
foldl-min_of-range_from : (a start n : ℕ) → a ≤ start → foldl min_of a (range_from start n) ≡ a
unfolding range_from
foldl-min_of-range_from a start zero h = refl
foldl-min_of-range_from a start (suc n) h =
    let e : min_of a start ≡ a = ground arith in
    rw (foldl, e) (foldl-min_of-range_from a (suc start) n (omega arith))

foldl-max_of-range_from : (a n : ℕ) → foldl max_of a (range_from (suc a) n) ≡ a + n
unfolding range_from
foldl-max_of-range_from a zero = omega arith
foldl-max_of-range_from a (suc n) =
    let e : max_of a (suc a) ≡ suc a = ground arith in
    rw (foldl, e) (foldl-max_of-range_from (suc a) n ∙ omega arith)

range_minimum : (a b : ℕ) → a ≤ b → some a ≡ minimum (range_inclusive a b)
unfolding minimum range_inclusive range_from
range_minimum a b le =
    let e : b + 1 - a ≡ suc (b - a) = omega arith in
    rw e (ap some (sym (foldl-min_of-range_from a (suc a) (b - a) (omega arith))))

range_maximum : (a b : ℕ) → a ≤ b → some b ≡ maximum (range_inclusive a b)
unfolding maximum range_inclusive range_from
range_maximum a b le =
    let e : b + 1 - a ≡ suc (b - a) = omega arith in
    let f : a + (b - a) ≡ b = omega arith in
    rw e (ap some (sym (foldl-max_of-range_from a (b - a) ∙ f)))

-- A range of `u64` numbers that is not inverted and is not all of them, or any list.
abbrev pub IsProper : NumberChunk → Type 0
IsProper (numbers ns) = Unit
IsProper (range a b) = (a ≤ b) × (b + 1 < 2 ^ 64)

-- Every list of numbers describes its values, and so does every range of `u64` numbers that is not
-- inverted and is not all of them.
pub number_chunk-Describes : (c : NumberChunk) → IsProper c → Describes number_chunk_data c
unfolding size min_value max_value values
number_chunk-Describes (numbers ns) h = record { size_is = refl; min_is = refl; max_is = refl }
number_chunk-Describes (range a b) h =
    let (le, fits) = h in
    record {
      size_is = rw (length-range_inclusive a b) (omega arith);
      min_is = range_minimum a b le;
      max_is = range_maximum a b le;
    }
