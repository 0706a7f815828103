-- ===== src/Freeze/Aggregation.antt =====
-- `freeze_partitions` of crates/freeze/src/freeze.rs: what the summary has of the tasks that finished.
use mathlib.Core.List.{Perm, filter_map, foldr}
use mathlib.Core.List.Perm as Permuted
use mathlib.Core.Path.{subst₂}
use mathlib.Core.List.{append_assoc, append-nil}
use native.Mathlib.Nat.{ℕ_set}
use triodion.Prelude.{
  ℕ, ◌+◌, ◌<◌, ◌%◌, ◌^◌, Option, none, some, List, [], ◌∷◌, ◌++◌, ◌≡◌, refl, sym, ap, ◌∙◌, inl, inr,
  arith,
}
use triodion.Prelude.Text.{append}
use triodion.Errors.{CollectError, collect_error}
use triodion.Partitions.Types.{Partition}
use triodion.Freeze.Tasks.{
  FreezeSummary, Joined, joined, join_failed, aggregate, aggregate_one, freeze_partitions,
  start_summary,
}

-- What a finished task adds to each part of the summary.
abbrev pub completed_of : Joined → Option Partition
completed_of (joined p (inr rows)) = some p
completed_of (joined p (inl e)) = none
completed_of (join_failed message) = none

abbrev pub errored_of : Joined → Option (Option Partition × CollectError)
errored_of (joined p (inr rows)) = none
errored_of (joined p (inl e)) = some (some p, e)
errored_of (join_failed message) =
    some (none, collect_error (append "error joining chunks: " message))

abbrev pub rows_of : Joined → ℕ
rows_of (joined p (inr rows)) = rows
rows_of (joined p (inl e)) = 0
rows_of (join_failed message) = 0

abbrev total_rows : List Joined → ℕ
total_rows = foldr (λ j n. rows_of j + n) 0

pub aggregate-completed :
    (js : List Joined) (s : FreezeSummary)
    → (aggregate js s).completed ≡ s.completed ++ filter_map completed_of js
unfolding aggregate aggregate_one filter_map
aggregate-completed [] s = sym (append-nil s.completed)
aggregate-completed (joined p (inr rows) ∷ js) s =
    aggregate-completed js (aggregate_one (joined p (inr rows)) s)
    ∙ append_assoc s.completed (p ∷ []) (filter_map completed_of js)
aggregate-completed (joined p (inl e) ∷ js) s =
    aggregate-completed js (aggregate_one (joined p (inl e)) s)
aggregate-completed (join_failed message ∷ js) s =
    aggregate-completed js (aggregate_one (join_failed message) s)

pub aggregate-errored :
    (js : List Joined) (s : FreezeSummary)
    → (aggregate js s).errored ≡ s.errored ++ filter_map errored_of js
unfolding aggregate aggregate_one filter_map
aggregate-errored [] s = sym (append-nil s.errored)
aggregate-errored (joined p (inr rows) ∷ js) s =
    aggregate-errored js (aggregate_one (joined p (inr rows)) s)
aggregate-errored (joined p (inl e) ∷ js) s =
    aggregate-errored js (aggregate_one (joined p (inl e)) s)
    ∙ append_assoc s.errored ((some p, e) ∷ []) (filter_map errored_of js)
aggregate-errored (join_failed message ∷ js) s =
    aggregate-errored js (aggregate_one (join_failed message) s)
    ∙ append_assoc s.errored _ (filter_map errored_of js)

pub aggregate-skipped :
    (js : List Joined) (s : FreezeSummary) → (aggregate js s).skipped ≡ s.skipped
unfolding aggregate aggregate_one
aggregate-skipped [] s = refl
aggregate-skipped (joined p (inr rows) ∷ js) s = aggregate-skipped js _
aggregate-skipped (joined p (inl e) ∷ js) s = aggregate-skipped js _
aggregate-skipped (join_failed message ∷ js) s = aggregate-skipped js _

aggregate-rows :
    (js : List Joined) (s : FreezeSummary)
    → s.n_rows < 2 ^ 64
    → (aggregate js s).n_rows ≡ (s.n_rows + total_rows js) % 2 ^ 64
unfolding aggregate aggregate_one
aggregate-rows [] s h = omega arith
aggregate-rows (joined p (inr rows) ∷ js) s h =
    let rest = aggregate-rows js (aggregate_one (joined p (inr rows)) s) (omega arith) in
    omega (arith, rest)
aggregate-rows (joined p (inl e) ∷ js) s h =
    let rest = aggregate-rows js (aggregate_one (joined p (inl e)) s) h in omega (arith, rest)
aggregate-rows (join_failed message ∷ js) s h =
    let rest = aggregate-rows js (aggregate_one (join_failed message) s) h in omega (arith, rest)

total_rows-Perm : (js ks : List Joined) → Perm js ks → total_rows js ≡ total_rows ks
total_rows-Perm js ks swapped =
    Permuted.foldr-eq ℕ_set (λ j n. rows_of j + n) (λ a b x. omega arith) swapped 0

-- In whatever order the tasks finish, the summary has the same completed partitions and the same errors
-- up to their order, the same skipped partitions and the same number of rows.
pub freeze_partitions-Perm :
    (js ks : List Joined) (skipped : List Partition)
    → Perm js ks
    → Perm (freeze_partitions js skipped).completed (freeze_partitions ks skipped).completed
      × Perm (freeze_partitions js skipped).errored (freeze_partitions ks skipped).errored
      × ((freeze_partitions js skipped).skipped ≡ (freeze_partitions ks skipped).skipped)
      × ((freeze_partitions js skipped).n_rows ≡ (freeze_partitions ks skipped).n_rows)
unfolding freeze_partitions
freeze_partitions-Perm js ks skipped swapped =
    let s = start_summary skipped in
    let totals = total_rows-Perm js ks swapped in
    (
      subst₂ Perm (sym (aggregate-completed js s)) (sym (aggregate-completed ks s))
          (Permuted.filter_map completed_of swapped),
      subst₂ Perm (sym (aggregate-errored js s)) (sym (aggregate-errored ks s))
          (Permuted.filter_map errored_of swapped),
      aggregate-skipped js s ∙ sym (aggregate-skipped ks s),
      aggregate-rows js s (omega arith)
          ∙ ap (λ n. (0 + n) % 2 ^ 64) totals
          ∙ sym (aggregate-rows ks s (omega arith)),
    )
