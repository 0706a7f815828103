-- ===== src/Partitions/StatsFold.antt =====
-- The statistics of partitions, in crates/freeze/src/types/partitions.rs, fold group by group.
use triodion.Prelude.{
  ℕ, String, Option, none, some, List, [], ◌∷◌, ◌++◌, map, ◌≡◌, refl, ap, sym, ◌∙◌, arith,
  Bool-cases, inl, inr,
}
use mathlib.Core.List.{foldl, foldl-append, map-append}
use triodion.Prelude.Order.{Ord, Bytes, nat_ord, bytes_ord, option_min, option_max, min_of, max_of}
use triodion.Prelude.Extremes.{min_of_assoc, max_of_assoc}
use triodion.Prelude.Words.{add64}
use triodion.Chunks.Interface.{ChunkStats, fold_stats}
use triodion.Partitions.Types.{Partition}
use triodion.Partitions.Stats.{
  PartitionStats, fold_option, fold_partition_stats, no_stats, partition_stats, meta_chunks_stats,
}

option_min-some :
    {A : Type 0} ⦃o : Ord A⦄ (a b : A) → option_min (some a) (some b) ≡ some (min_of a b)
option_min-some ⦃o⦄ a b = elim (Bool-cases (o.at_most a b)) [
  | inl h ↦ rw h refl
  | inr h ↦ rw h refl
]

option_max-some :
    {A : Type 0} ⦃o : Ord A⦄ (a b : A) → option_max (some a) (some b) ≡ some (max_of a b)
option_max-some ⦃o⦄ a b = elim (Bool-cases (o.at_most a b)) [
  | inl h ↦ rw h refl
  | inr h ↦ rw h refl
]

add64_assoc : (a b c : ℕ) → add64 (add64 a b) c ≡ add64 a (add64 b c)
add64_assoc a b c = omega arith

module _ {A : Type 0} ⦃o : Ord A⦄ where
  option_min-none : (a : Option A) → option_min a none ≡ none
  option_min-none none = refl
  option_min-none (some a) = refl

  option_max-none : (a : Option A) → option_max a none ≡ a
  option_max-none none = refl
  option_max-none (some a) = refl

  option_min_assoc :
      (a b c : Option A) → option_min (option_min a b) c ≡ option_min a (option_min b c)
  option_min_assoc none b c = refl
  option_min_assoc (some a) none c = refl
  option_min_assoc (some a) (some b) none = option_min-none (option_min (some a) (some b))
  option_min_assoc (some a) (some b) (some c) =
      ap (λ x. option_min x (some c)) (option_min-some a b)
      ∙ option_min-some (min_of a b) c
      ∙ ap some (min_of_assoc a b c)
      ∙ sym (ap (option_min (some a)) (option_min-some b c) ∙ option_min-some a (min_of b c))

  option_max_assoc :
      (a b c : Option A) → option_max (option_max a b) c ≡ option_max a (option_max b c)
  option_max_assoc none b c = refl
  option_max_assoc (some a) none c = refl
  option_max_assoc (some a) (some b) none = option_max-none (option_max (some a) (some b))
  option_max_assoc (some a) (some b) (some c) =
      ap (λ x. option_max x (some c)) (option_max-some a b)
      ∙ option_max-some (max_of a b) c
      ∙ ap some (max_of_assoc a b c)
      ∙ sym (ap (option_max (some a)) (option_max-some b c) ∙ option_max-some a (max_of b c))

  fold_stats_assoc :
      (a b c : ChunkStats A) → fold_stats (fold_stats a b) c ≡ fold_stats a (fold_stats b c)
  unfolding fold_stats
  fold_stats_assoc a b c =
      rw
        (
          option_min_assoc a.min_value b.min_value c.min_value,
          option_max_assoc a.max_value b.max_value c.max_value,
          add64_assoc a.total_values b.total_values c.total_values,
          add64_assoc a.n_chunks b.n_chunks c.n_chunks,
        )
        refl

  fold_option_assoc :
      (a b c : Option (ChunkStats A))
      → fold_option (fold_option a b) c ≡ fold_option a (fold_option b c)
  unfolding fold_option
  fold_option_assoc none none none = refl
  fold_option_assoc none none (some c) = refl
  fold_option_assoc none (some b) none = refl
  fold_option_assoc none (some b) (some c) = refl
  fold_option_assoc (some a) none none = refl
  fold_option_assoc (some a) none (some c) = refl
  fold_option_assoc (some a) (some b) none = refl
  fold_option_assoc (some a) (some b) (some c) = ap some (fold_stats_assoc a b c)

  fold_option-none : (a : Option (ChunkStats A)) → fold_option a none ≡ a
  unfolding fold_option
  fold_option-none none = refl
  fold_option-none (some a) = refl

  fold_option-none_left : (a : Option (ChunkStats A)) → fold_option none a ≡ a
  unfolding fold_option
  fold_option-none_left none = refl
  fold_option-none_left (some a) = refl

fold_partition_stats_assoc :
    (a b c : PartitionStats)
    → fold_partition_stats (fold_partition_stats a b) c
      ≡ fold_partition_stats a (fold_partition_stats b c)
unfolding fold_partition_stats
fold_partition_stats_assoc a b c i = record {
  block_numbers = fold_option_assoc a.block_numbers b.block_numbers c.block_numbers i;
  transactions = fold_option_assoc a.transactions b.transactions c.transactions i;
  call_datas = fold_option_assoc a.call_datas b.call_datas c.call_datas i;
  addresses = fold_option_assoc a.addresses b.addresses c.addresses i;
  contracts = fold_option_assoc a.contracts b.contracts c.contracts i;
  from_addresses = fold_option_assoc a.from_addresses b.from_addresses c.from_addresses i;
  to_addresses = fold_option_assoc a.to_addresses b.to_addresses c.to_addresses i;
  slots = fold_option_assoc a.slots b.slots c.slots i;
  topic0s = fold_option_assoc a.topic0s b.topic0s c.topic0s i;
  topic1s = fold_option_assoc a.topic1s b.topic1s c.topic1s i;
  topic2s = fold_option_assoc a.topic2s b.topic2s c.topic2s i;
  topic3s = fold_option_assoc a.topic3s b.topic3s c.topic3s i;
}

fold_partition_stats-no_stats : (a : PartitionStats) → fold_partition_stats a no_stats ≡ a
unfolding fold_partition_stats
fold_partition_stats-no_stats a i = record {
  block_numbers = fold_option-none a.block_numbers i;
  transactions = fold_option-none a.transactions i;
  call_datas = fold_option-none a.call_datas i;
  addresses = fold_option-none a.addresses i;
  contracts = fold_option-none a.contracts i;
  from_addresses = fold_option-none a.from_addresses i;
  to_addresses = fold_option-none a.to_addresses i;
  slots = fold_option-none a.slots i;
  topic0s = fold_option-none a.topic0s i;
  topic1s = fold_option-none a.topic1s i;
  topic2s = fold_option-none a.topic2s i;
  topic3s = fold_option-none a.topic3s i;
}

fold_partition_stats-no_stats_left : (a : PartitionStats) → fold_partition_stats no_stats a ≡ a
unfolding fold_partition_stats
fold_partition_stats-no_stats_left a i = record {
  block_numbers = fold_option-none_left a.block_numbers i;
  transactions = fold_option-none_left a.transactions i;
  call_datas = fold_option-none_left a.call_datas i;
  addresses = fold_option-none_left a.addresses i;
  contracts = fold_option-none_left a.contracts i;
  from_addresses = fold_option-none_left a.from_addresses i;
  to_addresses = fold_option-none_left a.to_addresses i;
  slots = fold_option-none_left a.slots i;
  topic0s = fold_option-none_left a.topic0s i;
  topic1s = fold_option-none_left a.topic1s i;
  topic2s = fold_option-none_left a.topic2s i;
  topic3s = fold_option-none_left a.topic3s i;
}

-- a fold from any statistics
foldl-fold_partition_stats :
    (a : PartitionStats) (xs : List PartitionStats)
    → foldl fold_partition_stats a xs
      ≡ fold_partition_stats a (foldl fold_partition_stats no_stats xs)
foldl-fold_partition_stats a [] = sym (fold_partition_stats-no_stats a)
foldl-fold_partition_stats a (x ∷ xs) =
    foldl-fold_partition_stats (fold_partition_stats a x) xs
    ∙ fold_partition_stats_assoc a x _
    ∙ ap (fold_partition_stats a) (
        sym (foldl-fold_partition_stats x xs)
        ∙ ap (λ y. foldl fold_partition_stats y xs) (sym (fold_partition_stats-no_stats_left x)))

-- The statistics of two groups of partitions together are those of each group, folded: minima and
-- maxima, totals that wrap around, and the dimensions that only one group has.
pub meta_chunks_stats-append :
    (hex_encode : Bytes → String) (xs ys : List Partition)
    → meta_chunks_stats hex_encode (xs ++ ys)
      ≡ fold_partition_stats (meta_chunks_stats hex_encode xs) (meta_chunks_stats hex_encode ys)
unfolding meta_chunks_stats
meta_chunks_stats-append hex_encode xs ys =
    ap (foldl fold_partition_stats no_stats) (map-append (partition_stats hex_encode) xs ys)
    ∙ foldl-append fold_partition_stats no_stats (map (partition_stats hex_encode) xs)
        (map (partition_stats hex_encode) ys)
    ∙ foldl-fold_partition_stats _ (map (partition_stats hex_encode) ys)
