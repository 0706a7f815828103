-- ===== src/Batch/Rpc.antt =====
-- crates/freeze/src/types/rpc_batch.rs: rows that are read by batches of one JSON-RPC method, and one at a
-- time when a batch fails. The dataset and the node are parameters; each chunk of rows is a task, and `reply
-- c n` is what the node answers to batch `n` of chunk `c`. Where the rows of a task go, the data frame, is left out.
use triodion.Prelude.{ℕ, suc, ◌==◌, max, String, List, [], ◌∷◌, ◌++◌, length, ◌⊎◌, if◌then◌else◌}
use triodion.Prelude.Outcome.{Outcome, ok, err, panic, diverge, ◌>>=◌, try_map, returned}
use triodion.Errors.{RpcError, CollectError}
use triodion.Batch.Grouping.{chunks}
use triodion.Batch.Send.{send_batch}

abbrev pub default_rpc_batch_rows : ℕ
default_rpc_batch_rows = 100

-- what a dataset says of its rows, and how one row is read alone
pub record RpcBatchable (P Q I R : Type 0) : Type 0 where
  pub method : String
  pub param_for_row : P → CollectError ⊎ Q
  pub decode_row : P → I → CollectError ⊎ R
  pub batch_rows : ℕ
  pub extract : P → CollectError ⊎ R

module _ {P Q I R : Type 0} (d : RpcBatchable P Q I R) where
  -- `rows.iter().zip(items).map(..).collect()`
  unfoldable pub decode_pairs : List P → List I → Outcome CollectError (List R)
  decode_pairs [] items = ok []
  decode_pairs (p ∷ rows) [] = ok []
  decode_pairs (p ∷ rows) (i ∷ items) =
      let rest = decode_pairs rows items in
      do r ← returned (d.decode_row p i); rs ← rest; ok (r ∷ rs)

  -- the rows one at a time; of several that fail, the first one is reported
  abbrev pub extract_rows : List P → Outcome CollectError (List R)
  extract_rows rows = try_map (λ p. returned (d.extract p)) rows

  unfoldable pub batch_with_fallback :
      (ℕ → List Q → RpcError ⊎ List (RpcError ⊎ I)) → List P → Outcome CollectError (List R)
  unfolding decode_pairs send_batch try_map
  batch_with_fallback reply rows = elim (try_map (λ p. returned (d.param_for_row p)) rows) [
    | panic ↦ panic
    | diverge ↦ diverge
    | err e ↦ extract_rows rows
    | ok params ↦ elim (send_batch reply d.method params) [
      | panic ↦ panic
      | diverge ↦ diverge
      | err e ↦ extract_rows rows
      | ok items ↦
          if length items == length rows then decode_pairs rows items else extract_rows rows
    ]
  ]

  module _ (reply : ℕ → ℕ → List Q → RpcError ⊎ List (RpcError ⊎ I)) where
    -- The tasks, the chunk `c` first; the first one that failed is reported.
    unfoldable pub chunk_tasks : ℕ → List (List P) → Outcome CollectError (List R)
    unfolding batch_with_fallback
    chunk_tasks c [] = ok []
    chunk_tasks c (chunk ∷ chunks) =
        let rest = chunk_tasks (suc c) chunks in
        batch_with_fallback (reply c) chunk >>= λ responses.
        rest >>= λ others. ok (responses ++ others)

    -- the rows that `rpc_batch_collect_by_block` collects
    unfoldable pub rpc_batch_rows : List P → Outcome CollectError (List R)
    unfolding chunk_tasks chunks
    rpc_batch_rows all_rows = chunk_tasks 0 (chunks (max d.batch_rows 1) all_rows)
