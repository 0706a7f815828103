-- ===== src/Batch/Multicall.antt =====
-- crates/freeze/src/types/multicall.rs: many contract calls in one `aggregate3` call, and what is done
-- when it fails. A dataset and the node are parameters: `call2 n` is what the node answers to the
-- encoded calls, at the address of Multicall3 and the block of the batch, when `n` batches were sent
-- before, and `encode` and `decode_returns` are the generated codecs of `aggregate3`.
use triodion.Prelude.{
  ℕ, zero, suc, ◌+◌, ◌/◌, max, String, Bool, true, false, List, [], ◌∷◌, ◌++◌, length, take, drop,
  ◌⊎◌, inl, inr, ltb, ◌==◌, ◌&&◌, if◌then◌else◌,
}
use triodion.Prelude.Outcome.{Outcome, ok, err, panic, diverge, and_then, map_inl}
use triodion.Prelude.Text.{append, decimal}
use triodion.Errors.{RpcError, CollectError, collect_error, provider_error}
use triodion.Batch.Classify.{batch_may_shrink_to_fit}
use triodion.Batch.Send.{slice}

-- what a dataset says of its rows; `extract n` reads one row alone after `n` batches
pub record MulticallBatchable (P C V R : Type 0) : Type 0 where
  pub calls_for_row : P → Bool → CollectError ⊎ List C
  pub decode_row : P → List V → CollectError ⊎ R
  pub extract : ℕ → P → CollectError ⊎ R

unfoldable pub rows_per_batch : ℕ → ℕ → ℕ
rows_per_batch batch_size calls_per_row = max (batch_size / max calls_per_row 1) 1

abbrev pub sum : List ℕ → ℕ
sum [] = 0
sum (n ∷ ns) = n + sum ns

-- the error for an answer of the wrong length
abbrev pub short_answer : ℕ → ℕ → ℕ → CollectError
short_answer n expected rows = collect_error (
    append "multicall returned " (
      append (decimal n) (
        append " results for " (
          append (decimal expected)
            (append " expected (batch=" (append (decimal rows) " rows)"))))))

module _ {P C V R : Type 0} (d : MulticallBatchable P C V R) (require_success : Bool) where
  -- the calls of all rows, and how many each row contributed
  unfoldable pub flat_calls : List P → CollectError ⊎ (List C × List ℕ)
  flat_calls [] = inr ([], [])
  flat_calls (p ∷ ps) =
      let rest = flat_calls ps in
      and_then (d.calls_for_row p require_success)
        (λ cs. and_then rest (λ (calls, counts). inr (cs ++ calls, length cs ∷ counts)))

module _ {P C V R : Type 0} (d : MulticallBatchable P C V R) where
  -- the loop that slices the results back per row
  unfoldable pub decode_rows : List P → List ℕ → List V → ℕ → CollectError ⊎ List R
  decode_rows [] ns decoded idx = inr []
  decode_rows (p ∷ ps) [] decoded idx = inr []
  decode_rows (p ∷ ps) (n ∷ ns) decoded idx =
      let rest = decode_rows ps ns decoded (idx + n) in
      and_then (d.decode_row p (slice decoded idx (idx + n)))
        (λ r. and_then rest (λ rs. inr (r ∷ rs)))

module _ {P C V R Bytes : Type 0} (d : MulticallBatchable P C V R) (encode : List C → Bytes)
    (decode_returns : Bytes → String ⊎ List V) (call2 : ℕ → Bytes → RpcError ⊎ Bytes)
    (require_success : Bool) where
  unfoldable pub multicall_batch : ℕ → List P → CollectError ⊎ List R
  unfolding flat_calls decode_rows
  multicall_batch n batch = and_then (flat_calls d require_success batch) (λ (calls, counts).
      and_then (map_inl provider_error (call2 n (encode calls))) (λ raw.
        and_then
          (map_inl (λ e. collect_error (append "multicall decode failed: " e)) (decode_returns raw))
          (λ decoded.
            if length decoded == sum counts
            then decode_rows d batch counts decoded 0
            else inl (short_answer (length decoded) (sum counts) (length batch)))))

  -- The loop of `multicall_batch_with_fallback`, with the rounds that it may still take; the head of
  -- the list is the top of the stack.
  unfoldable pub fallback_loop : ℕ → ℕ → List (List P) → List R → Outcome CollectError (List R)
  fallback_loop rounds n [] out = ok out
  fallback_loop zero n (current ∷ stack) out = diverge
  fallback_loop (suc rounds) n (current ∷ stack) out = elim (multicall_batch n current) [
    | inr responses ↦ fallback_loop rounds (suc n) stack (out ++ responses)
    | inl e ↦ elim (ltb 1 (length current) && batch_may_shrink_to_fit e) [
      | true ↦
          let mid = length current / 2 in
          fallback_loop rounds (suc n) (take mid current ∷ (drop mid current ∷ stack)) out
      | false ↦ elim (ltb 1 (length current)) [
        | true ↦ err e
        | false ↦ elim require_success [
          | true ↦ err e
          | false ↦ elim current [
            | [] ↦ panic
            | p ∷ rest ↦ elim (d.extract n p) [
              | inl failure ↦ err failure
              | inr r ↦ fallback_loop rounds (suc n) stack (out ++ (r ∷ []))
            ]
          ]
        ]
      ]
    ]
  ]

  -- Halving `k` rows down to single rows takes 2k - 1 requests.
  unfoldable pub multicall_batch_with_fallback : List P → Outcome CollectError (List R)
  unfolding fallback_loop
  multicall_batch_with_fallback batch =
      fallback_loop (length batch + length batch) 0 (batch ∷ []) []
