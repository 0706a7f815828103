-- ===== src/Batch/MulticallBatches.antt =====
-- What the batches of crates/freeze/src/types/multicall.rs hold.
use mathlib.Core.List.{Perm, perm_middle, append_assoc, append-nil, perm_append_singleton}
use mathlib.Core.List.Perm as Permuted
use mathlib.Core.Path.{subst}
use native.Mathlib.Nat.{le-div_iff_mul-le}
use triodion.Prelude.{
  ℕ, ◌*◌, ◌/◌, ◌≤◌, ◌<◌, max, ◌≡◌, refl, sym, ap, ◌∙◌, true, Option, List, [], ◌∷◌, ◌++◌, map,
  length, concat, concat-append, flat_map, ◌⊎◌, inl, inr, ltb, leb, ◌==◌, ==_iff, All, All-append,
  All-split, All-mono, Sum-cases, Bool-cases, arith,
}
use triodion.Partitions.Types.{Params}
use triodion.Errors.{CollectError}
use triodion.Batch.Grouping.{Groups, grouped, chunks}
use triodion.Batch.GroupingRows.{
  push_entry-Perm, push_entry-Keyed, Keyed, chunks-concat, chunks-sizes,
}
use triodion.Batch.Multicall.{rows_per_batch}
use triodion.Batch.MulticallPlan.{
  Multicall3Info, block_of, eligible, route, calls_per_row, block_batches, multicall_plan,
}

-- A row of the block, where Multicall3 is deployed.
abbrev pub InBlock : Option Multicall3Info → ℕ → Params → Type 0
InBlock mc block p = (block_of p ≡ block) × (eligible mc block ≡ true)

module _ (mc : Option Multicall3Info) where
  route-Perm :
      (params : List Params) (groups : Groups ℕ Params) (alone : List Params)
      → Perm
          (grouped (route mc params groups alone).0 ++ (route mc params groups alone).1)
          (params ++ (grouped groups ++ alone))
  unfolding route
  route-Perm [] groups alone = Permuted.refl _
  route-Perm (p ∷ params) groups alone = elim (Bool-cases (eligible mc (block_of p))) [
    | inl together ↦ rw (together) (
        Permuted.trans (route-Perm params _ alone) (
          Permuted.trans
            (Permuted.append_left params (
              Permuted.append_right alone
                (push_entry-Perm (λ a b. a == b) (λ a b. ltb a b) (block_of p) p groups)))
            (perm_middle params (grouped groups ++ alone))))
    | inr apart ↦ rw (apart) (
        Permuted.trans (route-Perm params groups (alone ++ (p ∷ []))) (
          Permuted.trans
            (Permuted.append_left params (
              subst (λ xs. Perm xs (p ∷ (grouped groups ++ alone)))
                (append_assoc (grouped groups) alone (p ∷ []))
                (perm_append_singleton p (grouped groups ++ alone))))
            (perm_middle params (grouped groups ++ alone))))
  ]

  route-Keyed :
      (P : Params → Type 0) (params : List Params) (groups : Groups ℕ Params) (alone : List Params)
      → All P params
      → Keyed (λ block p. InBlock mc block p × P p) groups
      → Keyed (λ block p. InBlock mc block p × P p) (route mc params groups alone).0
  unfolding route
  route-Keyed P [] groups alone own h = h
  route-Keyed P (p ∷ params) groups alone (q, own) h =
      elim (Bool-cases (eligible mc (block_of p))) [
        | inl together ↦ rw (together) (
            route-Keyed P params _ alone own (
              push_entry-Keyed (λ a b. a == b) (λ a b. ltb a b)
                (λ block p. InBlock mc block p × P p)
                (λ k key e a m. subst (λ b. InBlock mc b a × P a) ((==_iff k key).0 e) m)
                (block_of p) p groups ((refl, together), q) h))
        | inr apart ↦ rw (apart) (route-Keyed P params groups (alone ++ (p ∷ [])) own h)
      ]

-- As many rows as the calls allow, or one.
rows_fit :
    (size count n : ℕ) → 0 < n → n ≤ rows_per_batch size count → (n * max count 1 ≤ size) ⊎ (n ≡ 1)
unfolding rows_per_batch
rows_fit size count n pos h = elim (Bool-cases (leb n (size / max count 1))) [
  | inl fits ↦ inl ((le-div_iff_mul-le {x = n} {y = size} (omega arith)).0 (ground arith))
  | inr over ↦ inr (ground arith)
]

abbrev pub rows_of : List (ℕ × List Params) → List (List Params)
rows_of [] = []
rows_of ((block, rows) ∷ batches) = rows ∷ rows_of batches

rows_of-append : (xs ys : List (ℕ × List Params)) → rows_of (xs ++ ys) ≡ rows_of xs ++ rows_of ys
rows_of-append [] ys = refl
rows_of-append ((block, rows) ∷ xs) ys = ap (◌∷◌ rows) (rows_of-append xs ys)

rows_of-map :
    (block : ℕ) (pieces : List (List Params))
    → rows_of (map (λ chunk. (block, chunk)) pieces) ≡ pieces
rows_of-map block [] = refl
rows_of-map block (piece ∷ pieces) = ap (◌∷◌ piece) (rows_of-map block pieces)

rows_per_batch_positive : (size count : ℕ) → 0 < rows_per_batch size count
unfolding rows_per_batch
rows_per_batch_positive size count = omega arith

-- how many calls a row makes, none where its calls cannot be built
abbrev pub n_calls : {C : Type 0} → CollectError ⊎ List C → ℕ
n_calls (inl e) = 0
n_calls (inr cs) = length cs

module _ {C : Type 0} (calls_for_row : Params → CollectError ⊎ List C) (count : ℕ)
    (mc : Option Multicall3Info) (batch_size : ℕ) where
  -- Rows of one block, where Multicall3 is deployed, that make no more calls together than the batch size
  -- allows, or one row.
  abbrev pub Allowed : ℕ × List Params → Type 0
  Allowed (block, rows) =
      (0 < length rows)
      × All (InBlock mc block) rows
      × ((length rows * max count 1 ≤ batch_size) ⊎ (length rows ≡ 1))

  -- The row makes `count` calls.
  abbrev pub Counted : Params → Type 0
  Counted p = n_calls (calls_for_row p) ≡ count

  counted :
      (rows : List Params)
      → 0 < length rows
      → All Counted rows
      → calls_per_row calls_for_row rows ≡ max count 1
  unfolding calls_per_row
  counted [] pos h = absurd (omega arith)
  counted (p ∷ rows) pos (k, h) = elim (Sum-cases (calls_for_row p)) [
    | inl (e, failed) ↦ rw (calls_per_row, failed) (ap (λ m. max m 1) (sym (ap n_calls failed) ∙ k))
    | inr (cs, given) ↦ rw (calls_per_row, given) (ap (λ m. max m 1) (sym (ap n_calls given) ∙ k))
  ]

  pieces-Allowed :
      (block : ℕ) (pieces : List (List Params))
      → All (InBlock mc block) (concat pieces)
      → All
          (λ piece. (0 < length piece) × (length piece ≤ rows_per_batch batch_size (max count 1)))
          pieces
      → All Allowed (map (λ chunk. (block, chunk)) pieces)
  pieces-Allowed block [] own h = tt
  pieces-Allowed block (piece ∷ pieces) own ((pos, small), h) =
      let (mine, others) = All-split (InBlock mc block) piece (concat pieces) own in
      let most : max (max count 1) 1 ≡ max count 1 = omega arith in
      (
        (
          pos,
          mine,
          subst (λ m. (length piece * m ≤ batch_size) ⊎ (length piece ≡ 1)) most
              (rows_fit batch_size (max count 1) (length piece) pos small),
        ),
        pieces-Allowed block pieces others h,
      )

  block-Allowed :
      (block : ℕ) (rows : List Params)
      → 0 < length rows
      → All (λ p. InBlock mc block p × Counted p) rows
      → All Allowed (block_batches calls_for_row batch_size (block, rows))
        × (concat (rows_of (block_batches calls_for_row batch_size (block, rows))) ≡ rows)
  unfolding block_batches
  block-Allowed block rows pos both =
      let own =
        All-mono (λ p. InBlock mc block p × Counted p) (InBlock mc block) (λ p m. m.0) rows both in
      let size : ℕ = rows_per_batch batch_size (max count 1) in
      let some_rows = rows_per_batch_positive batch_size (max count 1) in
      rw
        (counted rows pos
          (All-mono (λ p. InBlock mc block p × Counted p) Counted (λ p m. m.1) rows both))
        (
          pieces-Allowed block (chunks size rows)
              (subst (All (InBlock mc block)) (sym (chunks-concat size rows some_rows)) own)
              (chunks-sizes size rows some_rows),
          ap concat (rows_of-map block (chunks size rows)) ∙ chunks-concat size rows some_rows,
        )

  groups-Allowed :
      (groups : Groups ℕ Params)
      → Keyed (λ block p. InBlock mc block p × Counted p) groups
      → All Allowed (flat_map (block_batches calls_for_row batch_size) groups)
        × (concat (rows_of (flat_map (block_batches calls_for_row batch_size) groups))
            ≡ grouped groups)
  groups-Allowed [] h = (tt, refl)
  groups-Allowed ((block, rows) ∷ groups) ((pos, own), h) =
      let (here, joined) = block-Allowed block rows pos own in
      let (there, rest) = groups-Allowed groups h in
      let batches = block_batches calls_for_row batch_size (block, rows) in
      let others = flat_map (block_batches calls_for_row batch_size) groups in
      (
        All-append Allowed batches others here there,
        ap concat (rows_of-append batches others)
            ∙ concat-append (rows_of batches) (rows_of others)
            ∙ ap (λ xs. xs ++ concat (rows_of others)) joined
            ∙ ap (λ xs. rows ++ xs) rest,
      )

  -- For rows that all make the same number of calls, with a row whose calls cannot be built counted
  -- as making none, each row goes into exactly one batch or is read alone. A batch has at least one
  -- row, all its rows are of one block, where Multicall3 is deployed, and they make no more calls
  -- together than the batch size, or it is a single row.
  pub multicall_plan-Allowed :
      (params : List Params)
      → All Counted params
      → Perm
          (concat (rows_of (multicall_plan calls_for_row mc batch_size params).0)
            ++ (multicall_plan calls_for_row mc batch_size params).1)
          params
        × All Allowed (multicall_plan calls_for_row mc batch_size params).0
  unfolding multicall_plan
  multicall_plan-Allowed params alike =
      let (fine, joined) =
        groups-Allowed (route mc params [] []).0 (route-Keyed mc Counted params [] [] alike tt) in
      (
        subst (λ xs. Perm (xs ++ (route mc params [] []).1) params) (sym joined)
            (subst (λ xs. Perm (grouped (route mc params [] []).0 ++ (route mc params [] []).1) xs)
              (append-nil params) (route-Perm mc params [] [])),
        fine,
      )
