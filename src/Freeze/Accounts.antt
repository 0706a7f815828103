-- ===== src/Freeze/Accounts.antt =====
-- What `freeze` of crates/freeze/src/freeze.rs answers for: every pair of a datatype and a partition, in
-- whatever order the tasks finish.
use mathlib.Core.List.{Perm, filter_map, foldr}
use mathlib.Core.List.Perm as Permuted
use native.Mathlib.Nat.{ℕ_set, suc-mul, add_comm}
use triodion.Prelude.{
  ℕ, suc, ◌+◌, ◌*◌, String, Bool, true, Option, none, some, List, [], ◌∷◌, map, length,
  length-append, length-map, ◌≡◌, refl, sym, ap, ◌∙◌, ◌⊎◌, inl, inr, Bool-cases, when_true,
  when_false, arith,
}
use triodion.Prelude.Order.{Bytes}
use triodion.Prelude.Outcome.{Outcome, ok, bind-ok}
use triodion.Errors.{CollectError}
use triodion.Partitions.Dim.{Dim}
use triodion.Partitions.Types.{Partition}
use triodion.Freeze.Files.{FileOutput, Query, Names, MetaDatatype}
use triodion.Freeze.Payloads.{Payload, pairs, pairs_with, get_payloads, is_nil}
use triodion.Freeze.Routing.{Routed, get_payloads-Routed}
use triodion.Freeze.Tasks.{
  FreezeSummary, Joined, joined, join_failed, freeze_partitions, start_summary,
}
use triodion.Freeze.Aggregation.{
  completed_of, errored_of, aggregate-completed, aggregate-errored, aggregate-skipped,
}
use triodion.Freeze.Main.{n_tasks, is_valid, outcome, freeze}

length-Perm : {A : Type 0} (xs ys : List A) → Perm xs ys → length xs ≡ length ys
length-Perm xs ys swapped =
    let count = Permuted.foldr-eq ℕ_set (λ x n. suc n) (λ a b x. refl) swapped 0 in
    sym (count_all xs) ∙ count ∙ count_all ys
  where
    count_all : {A : Type 0} (zs : List A) → foldr (λ x n. suc n) 0 zs ≡ length zs
    count_all [] = refl
    count_all (z ∷ zs) = ap suc (count_all zs)

-- Each finished task is completed or has an error.
length-filter_map :
    (js : List Joined)
    → length (filter_map completed_of js) + length (filter_map errored_of js) ≡ length js
unfolding filter_map
length-filter_map [] = omega arith
length-filter_map (joined p (inr rows) ∷ js) = omega (arith, length-filter_map js)
length-filter_map (joined p (inl e) ∷ js) = omega (arith, length-filter_map js)
length-filter_map (join_failed message ∷ js) = omega (arith, length-filter_map js)

length-pairs :
    {A B : Type 0} (xs : List A) (ys : List B) → length (pairs xs ys) ≡ length xs * length ys
length-pairs [] ys = omega arith
length-pairs (x ∷ xs) ys =
    let a = length-append (pairs_with x ys) (pairs xs ys) in
    let b = length-map (λ y. (x, y)) ys in
    a
    ∙ ap (λ n. n + length (pairs xs ys)) b
    ∙ ap (λ n. length ys + n) (length-pairs xs ys)
    ∙ add_comm (length ys) (length xs * length ys)
    ∙ sym (suc-mul (length xs) (length ys))

none_is_not_some :
    {A B : Type 0} {a b : A} {t : B}
    → ◌≡◌ {A = Outcome CollectError (A × Option B)} (ok (a, none)) (ok (b, some t))
    → ⊥
none_is_not_some h = cc

some_summary :
    {A B : Type 0} {a b : A} {s t : B}
    → ◌≡◌ {A = Outcome CollectError (A × Option B)} (ok (a, some s)) (ok (b, some t))
    → s ≡ t
some_summary h = cc

is_nil-length : {A : Type 0} (xs : List A) → is_nil xs ≡ true → length xs ≡ 0
is_nil-length [] h = refl
is_nil-length (x ∷ xs) h = cc

length-freeze_partitions :
    (js : List Joined) (skipping : List Partition) (summary : FreezeSummary)
    → freeze_partitions js skipping ≡ summary
    → length summary.completed + length summary.errored + length summary.skipped
      ≡ length js + length skipping
unfolding freeze_partitions
length-freeze_partitions js skipping summary e =
    let s = start_summary skipping in
    let a = ap (λ t. length t.completed) (sym e) ∙ ap length (aggregate-completed js s) in
    let b = ap (λ t. length t.errored) (sym e) ∙ ap length (aggregate-errored js s) in
    let c = ap (λ t. length t.skipped) (sym e) ∙ ap length (aggregate-skipped js s) in
    let d = length-filter_map js in rw (a, b, c) (omega (arith, d))

module _ {D M : Type 0} (names : Names D M) (hex_encode : Bytes → String)
    (creates exists : String → Bool) (sink : FileOutput) (query : Query D M) where
  length-Routed :
      (todo : List (MetaDatatype D M × Partition)) (payloads : List (Payload D M))
      (skipping : List Partition)
      → Routed names hex_encode creates exists sink query todo payloads skipping
      → length payloads + length skipping ≡ length todo
  length-Routed [] payloads skipping (e, f) = rw (e, f) (omega arith)
  length-Routed ((datatype, p) ∷ todo) payloads skipping
        (paths, found, inl (there, others, e, routed)) =
      let rest = length-Routed todo payloads others routed in rw (e) (omega (arith, rest))
  length-Routed ((datatype, p) ∷ todo) payloads skipping
        (paths, found, inr (wanted, others, e, routed)) =
      let rest = length-Routed todo others skipping routed in rw (e) (omega (arith, rest))

  module _ {F : Type 0} (required_parameters : D → List Dim) (height : F → ℕ)
      (saves : String → F → Bool) (renames : String → String → Bool)
      (collect_partition : MetaDatatype D M → Partition → CollectError ⊎ List (D × F))
      (finishes : List (Payload D M) → List (Payload D M × Option String)) where
    abbrev end_of : Payload D M × Option String → List (String × F) × Joined
    end_of =
        outcome names required_parameters hex_encode creates exists height saves renames
          collect_partition finishes

    -- Where every spawned task ends once, with its result or with a failure to join it, the summary of a run has
    -- as many partitions completed, skipped and failed as the query has tasks.
    pub freeze-n_tasks :
        ((payloads : List (Payload D M)) → Perm (map (λ e. e.0) (finishes payloads)) payloads)
        → (dry : Bool) (files : List (String × F)) (summary : FreezeSummary)
        → freeze names required_parameters hex_encode creates exists height saves renames
            collect_partition finishes query sink dry
          ≡ ok (files, some summary)
        → length summary.completed + length summary.errored + length summary.skipped
          ≡ n_tasks names required_parameters query
    unfolding freeze n_tasks
    freeze-n_tasks ends dry files summary h =
        let (u, valid, found) =
          bind-ok (is_valid names required_parameters query) _ (files, some summary) h in
        let ((payloads, skipping), got, rest) =
          bind-ok (get_payloads names hex_encode creates exists sink query) _ (files, some summary)
            found in
        let routed =
          length-Routed (pairs query.datatypes query.partitions) payloads skipping
            (get_payloads-Routed names hex_encode creates exists sink query payloads skipping
              got).1 in
        let tasks = length-pairs query.datatypes query.partitions in
        let ended = length-Perm _ _ (ends payloads) in
        elim (Bool-cases dry) [
          | inl only_dry ↦ absurd (none_is_not_some (sym (when_true _ _ only_dry) ∙ rest))
          | inr wet ↦ elim (Bool-cases (is_nil payloads)) [
            | inl empty ↦
                let e =
                  some_summary (sym (when_true _ _ empty) ∙ sym (when_false _ _ wet) ∙ rest) in
                length-freeze_partitions [] skipping summary e
                ∙ omega (arith, is_nil-length payloads empty, routed, tasks)
            | inr filled ↦
                let e =
                  some_summary (sym (when_false _ _ filled) ∙ sym (when_false _ _ wet) ∙ rest) in
                length-freeze_partitions (map (λ e. e.1) (map end_of (finishes payloads))) skipping
                  summary e
                ∙ omega (
                  arith,
                  ended,
                  routed,
                  tasks,
                  length-map (λ e. e.0) (finishes payloads),
                  length-map (λ e. e.1) (map end_of (finishes payloads)),
                  length-map end_of (finishes payloads),
                )
          ]
        ]
