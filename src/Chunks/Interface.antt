-- ===== src/Chunks/Interface.antt =====
-- crates/freeze/src/types/chunks/chunk_ops.rs: the trait `ChunkData`, its implementation for
-- vectors of chunks, and the statistics of chunks.
use triodion.Prelude.{ℕ, String, Option, none, some, List, [], ◌∷◌, ◌++◌, length}
use triodion.Prelude.Outcome.{Outcome, ok, err, ◌>>=◌}
use triodion.Prelude.Order.{Ord, minimum, maximum, option_min, option_max}
use triodion.Prelude.Text.{append}
use triodion.Prelude.Words.{add64}

-- `ChunkError` of types/errors.rs
pub data ChunkError : Type 0 where
  invalid_chunk : ChunkError
  chunk_error : String → ChunkError

-- The required methods of the trait, for chunks `C` with items `I`.
pub record ChunkData (C I : Type 0) : Type 0 where
  pub format_item : I → Outcome ChunkError String
  pub size : C → ℕ
  pub min_value : C → Option I
  pub max_value : C → Option I
  pub values : C → List I

pub record ChunkStats (I : Type 0) : Type 0 where
  pub min_value : Option I
  pub max_value : Option I
  pub total_values : ℕ
  pub chunk_size : ℕ
  pub n_chunks : ℕ

stub_of :
    {I : Type 0} → (I → Outcome ChunkError String) → Option I → Option I → Outcome ChunkError String
stub_of format (some low) (some high) = do
  a ← format low
  b ← format high
  ok (append a (append "_to_" b))
stub_of format _ _ = err invalid_chunk

module _ {C I : Type 0} (d : ChunkData C I) where
  unfoldable pub stub : C → Outcome ChunkError String
  unfolding stub_of
  stub c = stub_of d.format_item (d.min_value c) (d.max_value c)

  unfoldable pub stats : C → ChunkStats I
  stats c = record {
    min_value = d.min_value c;
    max_value = d.max_value c;
    total_values = d.size c;
    chunk_size = d.size c;
    n_chunks = 1;
  }

  -- `self.iter().map(|x| x.size()).sum()`
  unfoldable pub sum_sizes : List C → ℕ
  sum_sizes [] = 0
  sum_sizes (c ∷ cs) = add64 (d.size c) (sum_sizes cs)

  -- `self.iter().flat_map(|chunk| chunk.values())`
  unfoldable pub all_values : List C → List I
  all_values [] = []
  all_values (c ∷ cs) = d.values c ++ all_values cs

-- `filter_map`
unfoldable pub filter_map : {A B : Type 0} → (A → Option B) → List A → List B
filter_map f [] = []
filter_map f (x ∷ xs) = elim (f x) [ none ↦ filter_map f xs | some y ↦ y ∷ filter_map f xs ]

module _ {C I : Type 0} ⦃o : Ord I⦄ (d : ChunkData C I) where
  -- `impl<T: ChunkData> ChunkData for Vec<T>`, and for `&[T]`
  abbrev pub vec_chunk_data : ChunkData (List C) I
  vec_chunk_data = record {
    format_item = d.format_item;
    size = sum_sizes d;
    min_value = λ cs. minimum (filter_map d.min_value cs);
    max_value = λ cs. maximum (filter_map d.max_value cs);
    values = all_values d;
  }

  -- the `stats` that vectors override
  unfoldable pub vec_stats : List C → ChunkStats I
  vec_stats cs = record {
    min_value = minimum (filter_map d.min_value cs);
    max_value = maximum (filter_map d.max_value cs);
    total_values = sum_sizes d cs;
    chunk_size = sum_sizes d cs;
    n_chunks = length cs;
  }

-- `ChunkStats::fold`
unfoldable pub fold_stats : {I : Type 0} ⦃o : Ord I⦄ → ChunkStats I → ChunkStats I → ChunkStats I
fold_stats a b = record {
  min_value = option_min a.min_value b.min_value;
  max_value = option_max a.max_value b.max_value;
  total_values = add64 a.total_values b.total_values;
  chunk_size = a.chunk_size;
  n_chunks = add64 a.n_chunks b.n_chunks;
}
