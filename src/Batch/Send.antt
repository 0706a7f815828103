-- ===== src/Batch/Send.antt =====
-- `send_batch` of crates/freeze/src/types/sources.rs: many calls in few requests, with a batch size
-- that shrinks when the node complains about it. The answers of the node are a parameter: `reply n`
-- is what it answers to a batch when `n` batches were sent before: an error of the request, or one
-- result or error for each call.
use triodion.Prelude.{
  ℕ, zero, suc, ◌+◌, ◌-◌, ◌/◌, min, String, true, false, List, [], ◌∷◌, ◌++◌, length, take, drop,
  ◌⊎◌, inl, inr, ltb, ◌&&◌,
}
use triodion.Prelude.Outcome.{Outcome, ok, err, diverge, and_then}
use triodion.Prelude.Text.{append}
use triodion.Errors.{RpcError, CollectError, collect_error}
use triodion.Batch.Classify.{batch_too_large}

abbrev pub default_rpc_batch_size : ℕ
default_rpc_batch_size = 100

-- `&params[sent..end]`
abbrev pub slice : {P : Type 0} → List P → ℕ → ℕ → List P
slice params sent end = take (end - sent) (drop sent params)

-- The results of the calls, or the first of their errors.
abbrev pub await_all : {T : Type 0} → List (RpcError ⊎ T) → RpcError ⊎ List T
await_all [] = inr []
await_all (w ∷ waiters) =
    let rest = await_all waiters in and_then w (λ value. and_then rest (λ out. inr (value ∷ out)))

module _ {P T : Type 0} (reply : ℕ → List P → RpcError ⊎ List (RpcError ⊎ T)) where
  -- `send_one_batch`: no request for no calls
  unfoldable pub send_one_batch : ℕ → List P → RpcError ⊎ List T
  send_one_batch n [] = inr []
  send_one_batch n (p ∷ ps) = and_then (reply n (p ∷ ps)) await_all

  -- The loop of `send_batch`, with the rounds that it may still take; `n` batches are sent.
  unfoldable pub send_loop :
      String → List P → ℕ → ℕ → ℕ → ℕ → List T → Outcome CollectError (List T)
  unfolding send_one_batch
  send_loop method params zero n size sent out = diverge
  send_loop method params (suc rounds) n size sent out =
      let end = min (sent + size) (length params) in
      elim (ltb sent (length params)) [
        | false ↦ ok out
        | true ↦ elim (send_one_batch n (slice params sent end)) [
          | inr results ↦ send_loop method params rounds (suc n) size end (out ++ results)
          | inl e ↦ elim (ltb 1 size && batch_too_large e) [
            | true ↦ send_loop method params rounds (suc n) ((size + 1) / 2) sent out
            | false ↦ err (collect_error (append method (append " batch failed: " e.debug)))
          ]
        ]
      ]

  -- Each round sends a call or makes the batches smaller.
  unfoldable pub send_batch : String → List P → Outcome CollectError (List T)
  unfolding send_loop
  send_batch method params =
      send_loop method params (length params + default_rpc_batch_size + 1) 0 default_rpc_batch_size
        0 []
