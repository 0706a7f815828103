-- ===== src/Batch/Tests.antt =====
-- Tests of the batches, and inputs at which the theorems on them apply.
use mathlib.Core.List.{Perm}
use triodion.Prelude.{
  ℕ, suc, ◌+◌, ◌≤◌, ◌<◌, max, ◌≡◌, refl, sym, ap, ◌∙◌, String, true, none, some, List, [], ◌∷◌,
  ◌++◌, map, concat, length, ◌⊎◌, inl, inr, ltb, if◌then◌else◌, Bool-cases, All, All2, arith,
}
use mathlib.Core.Path.{subst}
use triodion.Prelude.Order.{Bytes}
use triodion.Prelude.Outcome.{ok, err, inr_inj, and_then}
use triodion.Errors.{RpcError, CollectError, collect_error}
use triodion.Batch.Classify.{batch_too_large}
use triodion.Batch.Send.{await_all, send_one_batch, send_batch}
use triodion.Batch.SendOrder.{Answered, send_batch-Answered, send_batch_capped}
use triodion.Batch.Multicall.{
  MulticallBatchable, multicall_batch, multicall_batch_with_fallback, rows_per_batch,
}
use triodion.Batch.MulticallLadder.{Collected, Refused, multicall_batch_with_fallback-Collected}
use triodion.Batch.Grouping.{ceiling, even_chunks}
use triodion.Batch.EvenChunks.{even_chunks-Even}
use triodion.Partitions.Types.{Params, no_params}
use triodion.Batch.MulticallPlan.{multicall3_info, multicall_plan}
use triodion.Batch.MulticallBatches.{rows_of, Allowed, Counted, multicall_plan-Allowed}
use triodion.Batch.Native.{Item, plan_native_chunks}
use triodion.Batch.NativePlan.{Fits, plan_native_chunks-Fits}

abbrev payload_too_large : RpcError
payload_too_large = record {
  as_error_resp = none;
  http_status = some 413;
  custom_cause = none;
  printed = "HTTP error 413";
  debug = "HttpError { status: 413 }";
}

-- A node that takes two calls at once, and answers each with the next number.
abbrev small_node : ℕ → List ℕ → RpcError ⊎ List ℕ
small_node n calls = if ltb 2 (length calls) then inl payload_too_large else inr (map suc calls)

small_node-in_order :
    (n : ℕ) (calls answers : List ℕ) → small_node n calls ≡ inr answers → answers ≡ map suc calls
small_node-in_order n calls answers h = elim (Bool-cases (ltb 2 (length calls))) [
  | inl many ↦ let failed : small_node n calls ≡ inl payload_too_large = rw (many) refl in absurd cc
  | inr few ↦ let answered : small_node n calls ≡ inr (map suc calls) = rw (few) refl in cc
]

abbrev next_waiter : ℕ → RpcError ⊎ ℕ
next_waiter call = inr (suc call)

each_next :
    (calls : List ℕ)
    → All2 (λ call w. (t : ℕ) → w ≡ inr t → t ≡ suc call) calls (map next_waiter calls)
each_next [] = tt
each_next (call ∷ calls) = (λ t e. sym (inr_inj e), each_next calls)

await_next : (calls : List ℕ) → await_all (map next_waiter calls) ≡ inr (map suc calls)
await_next [] = refl
await_next (call ∷ calls) = rw (await_next calls) refl

-- A node that takes two calls in one request.
abbrev small_batches : ℕ → List ℕ → RpcError ⊎ List (RpcError ⊎ ℕ)
small_batches n calls =
    if ltb 2 (length calls) then inl payload_too_large else inr (map next_waiter calls)

small_batches-in_order :
    (n : ℕ) (calls : List ℕ) (waiters : List (RpcError ⊎ ℕ))
    → small_batches n calls ≡ inr waiters
    → All2 (λ call w. (t : ℕ) → w ≡ inr t → t ≡ suc call) calls waiters
small_batches-in_order n calls waiters h = elim (Bool-cases (ltb 2 (length calls))) [
  | inl many ↦
      let failed : small_batches n calls ≡ inl payload_too_large = rw (many) refl in absurd cc
  | inr few ↦
      let answered : small_batches n calls ≡ inr (map next_waiter calls) = rw (few) refl in
      let same : map next_waiter calls ≡ waiters = inr_inj (sym answered ∙ h) in
      subst (All2 (λ call w. (t : ℕ) → w ≡ inr t → t ≡ suc call) calls) same (each_next calls)
]

small_batches-refuses :
    (n : ℕ) (calls : List ℕ) (e : RpcError)
    → send_one_batch small_batches n calls ≡ inl e
    → (2 < length calls) × (batch_too_large e ≡ true)
unfolding batch_too_large send_one_batch
small_batches-refuses n [] e h = absurd cc
small_batches-refuses n (call ∷ calls) e h = elim (Bool-cases (ltb 2 (length (call ∷ calls)))) [
  | inl many ↦
      let reply : small_batches n (call ∷ calls) ≡ inl payload_too_large = rw (many) refl in
      let failed : send_one_batch small_batches n (call ∷ calls) ≡ inl payload_too_large =
        ap (λ r. and_then r await_all) reply in
      let same : payload_too_large ≡ e = cc in
      let large : batch_too_large payload_too_large ≡ true = refl in
      (ground arith, subst (λ x. batch_too_large x ≡ true) same large)
  | inr few ↦
      let reply : small_batches n (call ∷ calls) ≡ inr (map next_waiter (call ∷ calls)) =
        rw (few) refl in
      let answered : send_one_batch small_batches n (call ∷ calls) ≡ inr (map suc (call ∷ calls)) =
        ap (λ r. and_then r await_all) reply ∙ await_next (call ∷ calls) in
      absurd cc
]

abbrev five_calls : List ℕ
five_calls = 10 ∷ 20 ∷ 30 ∷ 40 ∷ 50 ∷ []

send_batch-Answered_example :
    Answered small_batches suc small_batches-in_order "eth_getCode" five_calls
      (send_batch small_batches "eth_getCode" five_calls)
send_batch-Answered_example =
    send_batch-Answered small_batches suc small_batches-in_order "eth_getCode" five_calls

send_batch_capped_example :
    send_batch small_batches "eth_getCode" five_calls ≡ ok (11 ∷ 21 ∷ 31 ∷ 41 ∷ 51 ∷ [])
send_batch_capped_example =
    send_batch_capped small_batches suc small_batches-in_order 2 (omega arith) small_batches-refuses
      "eth_getCode" five_calls

-- Each row makes one call, and is what the node answers to it.
abbrev next_numbers : MulticallBatchable ℕ ℕ ℕ (List ℕ)
next_numbers = record {
  calls_for_row = λ p strict. inr (p ∷ []);
  decode_row = λ p answers. inr answers;
  extract = λ n p. inr (suc p ∷ []);
}

plain_returns : List ℕ → String ⊎ List ℕ
plain_returns raw = inr raw

small_aggregate-in_order :
    (n : ℕ) (calls raw answers : List ℕ)
    → small_node n calls ≡ inr raw
    → plain_returns raw ≡ inr answers
    → answers ≡ map suc calls
unfolding plain_returns
small_aggregate-in_order n calls raw answers h k =
    let e = inr_inj k in let f = small_node-in_order n calls raw h in cc

two_rows_run :
    multicall_batch next_numbers (λ cs. cs) plain_returns small_node true 0 (7 ∷ 8 ∷ [])
    ≡ inr ((8 ∷ []) ∷ (9 ∷ []) ∷ [])
unfolding multicall_batch plain_returns
two_rows_run = refl

multicall_batch_with_fallback-Collected_example :
    ((rs : List (List ℕ)) × (multicall_batch_with_fallback next_numbers
          (λ cs. cs)
          plain_returns
          small_node
          true
          five_calls
        ≡ ok rs)
      × All2 (Collected next_numbers (λ cs. cs) plain_returns small_node true suc) five_calls rs)
    ⊎ ((e : CollectError) × (multicall_batch_with_fallback next_numbers
            (λ cs. cs)
            plain_returns
            small_node
            true
            five_calls
          ≡ err e)
        × Refused next_numbers (λ cs. cs) plain_returns small_node true e)
multicall_batch_with_fallback-Collected_example =
    multicall_batch_with_fallback-Collected next_numbers (λ cs. cs) plain_returns small_node true
      suc small_aggregate-in_order five_calls (omega arith)

rows_per_batch_budget : rows_per_batch 300 3 ≡ 100
unfolding rows_per_batch
rows_per_batch_budget = refl

even_chunks-Even_example :
    (concat (even_chunks five_calls 2) ≡ five_calls)
    × (length (even_chunks five_calls 2) ≡ max (ceiling (length five_calls) (max 2 1)) 1)
    × ((base : ℕ) × All
          (λ chunk. (base ≤ length chunk) × (length chunk ≤ base + 1) × (length chunk ≤ max 2 1))
          (even_chunks five_calls 2))
even_chunks-Even_example = even_chunks-Even five_calls 2

five_in_threes : even_chunks five_calls 2 ≡ (10 ∷ 20 ∷ []) ∷ (30 ∷ 40 ∷ []) ∷ (50 ∷ []) ∷ []
unfolding even_chunks
five_in_threes = refl

abbrev token : Bytes
token = 160 ∷ 184 ∷ []

abbrev three_items : List (Item ℕ)
three_items =
    record { block = 9; target = token; rows = 1 ∷ 2 ∷ [] }
    ∷ record { block = 4; target = token; rows = 3 ∷ [] }
    ∷ record { block = 9; target = token; rows = 4 ∷ [] }
    ∷ []

plan_native_chunks-Fits_example :
    Perm (concat (plan_native_chunks three_items true)) three_items
    × All Fits (plan_native_chunks three_items true)
plan_native_chunks-Fits_example = plan_native_chunks-Fits three_items true

abbrev row_at : ℕ → Params
row_at block = record no_params { block_number = some block; address = some (150 ∷ []) }

abbrev mainnet_rows : List Params
mainnet_rows =
    row_at 15000000 ∷ row_at 12000000 ∷ row_at 15000000 ∷ row_at 15000001 ∷ row_at 15000000 ∷ []

-- two calls of the row's contract, which a row without an address does not have
two_calls : Params → CollectError ⊎ List Bytes
two_calls p = elim (p.address) [
  | none ↦ inl (collect_error "address not specified")
  | some contract ↦ inr (contract ∷ contract ∷ [])
]

no_calls_without_address : two_calls no_params ≡ inl (collect_error "address not specified")
unfolding two_calls
no_calls_without_address = refl

mainnet_rows-Counted : All (Counted two_calls 2 (multicall3_info 1) 4) mainnet_rows
unfolding two_calls
mainnet_rows-Counted = (refl, (refl, (refl, (refl, (refl, tt)))))

multicall_plan-Allowed_example :
    Perm
      (concat (rows_of (multicall_plan two_calls (multicall3_info 1) 4 mainnet_rows).0)
        ++ (multicall_plan two_calls (multicall3_info 1) 4 mainnet_rows).1)
      mainnet_rows
    × All
        (Allowed two_calls 2 (multicall3_info 1) 4)
        (multicall_plan two_calls (multicall3_info 1) 4 mainnet_rows).0
multicall_plan-Allowed_example =
    multicall_plan-Allowed two_calls 2 (multicall3_info 1) 4 mainnet_rows mainnet_rows-Counted

one_row_alone :
    (multicall_plan two_calls (multicall3_info 1) 4 mainnet_rows).1 ≡ row_at 12000000 ∷ []
unfolding multicall_plan multicall3_info
one_row_alone = refl
