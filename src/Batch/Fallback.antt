-- ===== src/Batch/Fallback.antt =====
-- `extractor_batch_with_fallback` and `per_row` of crates/freeze/src/types/state_override.rs: the batches of
-- one contract at one block, halved while that may help, and read row by row otherwise. Parameters: a
-- dataset, the node, and the shared verdict, which the other tasks change too. `worth n` is what
-- `worth_attempting` says at the top of round `n` of the loop, `call n` is what the node answers in it, and
-- `extract n` reads one row alone. When several rows fail, the first one in their order is reported.
use triodion.Prelude.{
  ℕ, zero, suc, ◌+◌, ◌/◌, String, Bool, true, false, not, ◌&&◌, List, [], ◌∷◌, ◌++◌, length, take,
  drop, concat, ◌⊎◌, ltb, if◌then◌else◌,
}
use triodion.Prelude.Order.{Bytes}
use triodion.Prelude.Outcome.{Outcome, ok, err, panic, diverge, ◌>>=◌, try_map, returned}
use triodion.Errors.{CollectError}
use triodion.Batch.Classify.{override_unavailable, batch_may_shrink_to_fit}
use triodion.Batch.Override.{StateReader, AccountOverride}
use triodion.Batch.Extractor.{extractor_batch}

-- what a dataset says of its rows
pub record StateOverrideBatchable (P R : Type 0) : Type 0 where
  pub reader : StateReader
  pub input_word : P → CollectError ⊎ ℕ
  pub decode_row : P → Bytes → CollectError ⊎ R
  pub extract : ℕ → P → CollectError ⊎ R

-- the items from the last to the first
abbrev pub backwards : {A : Type 0} → List A → List A
backwards [] = []
backwards (x ∷ xs) = backwards xs ++ (x ∷ [])

module _ {P R : Type 0} (show_word : Bytes → String) (d : StateOverrideBatchable P R)
    (call : ℕ → Bytes → Bytes → AccountOverride → CollectError ⊎ Bytes) (worth : ℕ → Bool)
    (target : Bytes) where
  unfoldable pub per_row : ℕ → List P → Outcome CollectError (List R)
  unfolding try_map
  per_row n rows = try_map (λ p. returned (d.extract n p)) rows

  -- The rows that are left, the current ones first, then the stack from its bottom, after those out.
  unfoldable pub demote : ℕ → List P → List (List P) → List R → Outcome CollectError (List R)
  unfolding per_row
  demote n current stack out = do
    rs ← per_row n (current ++ concat (backwards stack))
    ok (out ++ rs)

  -- The loop, with the rounds that it may still take; the head of the list is the top of the stack.
  unfoldable pub extractor_loop : ℕ → ℕ → List (List P) → List R → Outcome CollectError (List R)
  unfolding per_row demote
  extractor_loop rounds n [] out = ok out
  extractor_loop zero n (current ∷ stack) out = diverge
  extractor_loop (suc rounds) n (current ∷ stack) out = elim (worth n) [
    | false ↦ demote n current stack out
    | true ↦
        elim (extractor_batch show_word d.reader d.input_word d.decode_row (call n) target
          current) [
            | ok responses ↦ extractor_loop rounds (suc n) stack (out ++ responses)
            | panic ↦ panic
            | diverge ↦ diverge
            | err e ↦ elim (override_unavailable e) [
              | true ↦ demote n current stack out
              | false ↦ elim (ltb 1 (length current) && batch_may_shrink_to_fit e) [
                | true ↦
                    let mid = length current / 2 in
                    extractor_loop rounds (suc n) (take mid current ∷ (drop mid current ∷ stack))
                      out
                | false ↦ elim (per_row n current) [
                  | ok responses ↦ extractor_loop rounds (suc n) stack (out ++ responses)
                  | err failure ↦ err failure
                  | panic ↦ panic
                  | diverge ↦ diverge
                ]
              ]
            ]
          ]
  ]

  -- `gate n` is what `worth_attempting` says before the loop, the first time and after waiting for the
  -- permit. Halving `k` rows down to single rows takes 2k - 1 rounds.
  unfoldable pub extractor_batch_with_fallback : (ℕ → Bool) → List P → Outcome CollectError (List R)
  unfolding extractor_loop per_row
  extractor_batch_with_fallback gate batch =
      if not (gate 0)
      then per_row 0 batch
      else if not (gate 1)
      then per_row 0 batch
      else extractor_loop (length batch + length batch) 0 (batch ∷ []) []
