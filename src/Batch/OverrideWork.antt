-- ===== src/Batch/OverrideWork.antt =====
-- What the chunks of `state_override_collect_by_block` of crates/freeze/src/types/state_override.rs hold.
use mathlib.Core.List.{Perm, append_assoc, append-nil}
use mathlib.Core.List.Perm as Permuted
use mathlib.Core.Path.{subst}
use triodion.Prelude.{
  ℕ, ◌≤◌, max, ◌≡◌, refl, sym, ap, ◌∙◌, List, [], ◌∷◌, ◌++◌, map, length, concat, flat_map, ◌⊎◌,
  All, All-append, All-mono, All-split,
}
use triodion.Prelude.Order.{Bytes}
use triodion.Partitions.Types.{Params}
use triodion.Errors.{CollectError}
use triodion.Batch.Grouping.{Groups, grouped, even_chunks}
use triodion.Batch.EvenChunks.{even_chunks-Even}
use triodion.Batch.Native.{Item}
use triodion.Batch.Override.{StateReader}
use triodion.Batch.OverridePlan.{retain, group_rows, group_work, override_work}
use triodion.Batch.OverrideGroups.{
  Large, retain-Perm, retain-Large, Eligible, group_rows-Perm, group_rows-Keyed,
}

module _ (reader : StateReader) (target : Params → CollectError ⊎ Bytes)
    (input_word : Params → CollectError ⊎ ℕ) where
  abbrev Fit : ℕ × Bytes → Params → Type 0
  Fit = Eligible reader target input_word

  abbrev pub work_rows : List (Item Params) → List Params
  work_rows items = concat (map (λ item. item.rows) items)

  -- Rows of one block and target, no more than the batch size.
  abbrev pub Ready : ℕ → Item Params → Type 0
  Ready batch_size item =
      (length item.rows ≤ max batch_size 1) × All (Fit (item.block, item.target)) item.rows

  pieces-Ready :
      (batch_size block : ℕ) (t : Bytes) (pieces : List (List Params))
      → All (λ piece. length piece ≤ max batch_size 1) pieces
      → All (Fit (block, t)) (concat pieces)
      → All
          (Ready batch_size)
          (map (λ piece. record { block = block; target = t; rows = piece }) pieces)
        × (work_rows (map (λ piece. record { block = block; target = t; rows = piece }) pieces)
            ≡ concat pieces)
  pieces-Ready batch_size block t [] small own = (tt, refl)
  pieces-Ready batch_size block t (piece ∷ pieces) (few, small) own =
      let (mine, others) = All-split (Fit (block, t)) piece (concat pieces) own in
      let (every, joined) = pieces-Ready batch_size block t pieces small others in
      (((few, mine), every), ap (λ xs. piece ++ xs) joined)

  group_work-Ready :
      (batch_size block : ℕ) (t : Bytes) (rows : List Params)
      → All (Fit (block, t)) rows
      → All (Ready batch_size) (group_work reader target input_word batch_size ((block, t), rows))
        × (work_rows (group_work reader target input_word batch_size ((block, t), rows)) ≡ rows)
  unfolding group_work
  group_work-Ready batch_size block t rows own =
      let (whole, count, (base, sizes)) = even_chunks-Even rows batch_size in
      let small =
        All-mono _ (λ chunk. length chunk ≤ max batch_size 1) (λ chunk h. h.2)
          (even_chunks rows batch_size) sizes in
      let (every, joined) =
        pieces-Ready batch_size block t (even_chunks rows batch_size) small
          (subst (All (Fit (block, t))) (sym whole) own) in
      (every, joined ∙ whole)

  work_rows-append :
      (xs ys : List (Item Params)) → work_rows (xs ++ ys) ≡ work_rows xs ++ work_rows ys
  work_rows-append [] ys = refl
  work_rows-append (x ∷ xs) ys =
      ap (λ rows. x.rows ++ rows) (work_rows-append xs ys)
      ∙ sym (append_assoc x.rows (work_rows xs) (work_rows ys))

  groups-Ready :
      (batch_size : ℕ) (groups : Groups (ℕ × Bytes) Params)
      → Large Fit groups
      → All (Ready batch_size) (flat_map (group_work reader target input_word batch_size) groups)
        × (work_rows (flat_map (group_work reader target input_word batch_size) groups)
            ≡ grouped groups)
  groups-Ready batch_size [] h = (tt, refl)
  groups-Ready batch_size (((block, t), rows) ∷ groups) ((large, own), h) =
      let (here, joined) = group_work-Ready batch_size block t rows own in
      let (there, rest) = groups-Ready batch_size groups h in
      let first = group_work reader target input_word batch_size ((block, t), rows) in
      let others = flat_map (group_work reader target input_word batch_size) groups in
      (
        All-append (Ready batch_size) first others here there,
        work_rows-append first others
            ∙ ap (λ xs. xs ++ work_rows others) joined
            ∙ ap (λ xs. rows ++ xs) rest,
      )

  -- Each row is read in one chunk or alone. The rows of a chunk are no more than the batch size, all of the
  -- chunk's block and target, which the reader does not refuse, and none of them reads what
  -- the override itself sets.
  pub override_work-Ready :
      (batch_size : ℕ) (params : List Params)
      → let (work, ineligible) = override_work reader target input_word batch_size params in
        Perm (work_rows work ++ ineligible) params × All (Ready batch_size) work
  unfolding override_work
  override_work-Ready batch_size params =
      let grouping = group_rows reader target input_word params [] [] in
      let kept = retain grouping.0 grouping.1 in
      let (every, joined) = groups-Ready batch_size kept.0 (
        retain-Large Fit grouping.0 grouping.1
          (group_rows-Keyed reader target input_word params [] [] tt)) in
      (
        subst (λ xs. Perm (xs ++ kept.1) params) (sym joined)
            (Permuted.trans (retain-Perm grouping.0 grouping.1) (
              subst (λ xs. Perm (grouped grouping.0 ++ grouping.1) xs) (append-nil params)
                (group_rows-Perm reader target input_word params [] []))),
        every,
      )
