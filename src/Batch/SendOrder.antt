-- ===== src/Batch/SendOrder.antt =====
-- What `send_batch` of crates/freeze/src/types/sources.rs returns, and that it ends.
use mathlib.Core.List.{map-append}
use triodion.Prelude.{
  ℕ, zero, suc, ◌+◌, ◌-◌, ◌/◌, ◌≤◌, ◌<◌, min, ◌≡◌, refl, sym, ap, ◌∙◌, String, true, false, List,
  [], ◌∷◌, ◌++◌, map, Bool, length, length-take, take, take-add, take_all, drop, Sum-cases, All2,
  ◌⊎◌, inl, inr, ltb, ◌&&◌, Bool-cases, arith,
}
use triodion.Prelude.Outcome.{Outcome, ok, err, and_then-inr, inr_inj}
use triodion.Prelude.Text.{append}
use triodion.Errors.{RpcError, CollectError, collect_error}
use triodion.Batch.Classify.{batch_too_large}
use triodion.Batch.Send.{
  slice, await_all, send_one_batch, send_loop, send_batch, default_rpc_batch_size,
}

-- the error for a request that failed with `e`
abbrev pub batch_error : String → RpcError → CollectError
batch_error method e = collect_error (append method (append " batch failed: " e.debug))

-- One round of the loop.
module _ {P T : Type 0} (reply : ℕ → List P → RpcError ⊎ List (RpcError ⊎ T)) (method : String)
    (params : List P) (rounds n size sent : ℕ) (out : List T) where
  abbrev end_of : ℕ
  end_of = min (sent + size) (length params)

  send_loop_done :
      ltb sent (length params) ≡ false
      → send_loop reply method params (suc rounds) n size sent out ≡ ok out
  unfolding send_loop
  send_loop_done h = ground arith

  send_loop_more :
      (rs : List T)
      → ltb sent (length params) ≡ true
      → send_one_batch reply n (slice params sent end_of) ≡ inr rs
      → send_loop reply method params (suc rounds) n size sent out
        ≡ send_loop reply method params rounds (suc n) size end_of (out ++ rs)
  unfolding send_loop
  send_loop_more rs h k = ground arith

  send_loop_smaller :
      (e : RpcError)
      → ltb sent (length params) ≡ true
      → send_one_batch reply n (slice params sent end_of) ≡ inl e
      → (ltb 1 size && batch_too_large e) ≡ true
      → send_loop reply method params (suc rounds) n size sent out
        ≡ send_loop reply method params rounds (suc n) ((size + 1) / 2) sent out
  unfolding send_loop
  send_loop_smaller e h k l = rw (send_loop, h, k, l) refl

  send_loop_fails :
      (e : RpcError)
      → ltb sent (length params) ≡ true
      → send_one_batch reply n (slice params sent end_of) ≡ inl e
      → (ltb 1 size && batch_too_large e) ≡ false
      → send_loop reply method params (suc rounds) n size sent out ≡ err (batch_error method e)
  unfolding send_loop
  send_loop_fails e h k l = rw (send_loop, h, k, l) refl

-- Sending up to `end` adds the calls from `sent` on.
take-slice :
    {P : Type 0} (params : List P) (sent end : ℕ)
    → sent ≤ end
    → take end params ≡ take sent params ++ slice params sent end
take-slice params sent end h =
    let e : end ≡ sent + (end - sent) = omega arith in
    ap (λ k. take k params) e ∙ take-add sent (end - sent) params

small_or_other :
    (len size : ℕ) (too_large : Bool)
    → (ltb 1 size && too_large) ≡ false
    → len ≤ size
    → (len ≤ 1) ⊎ (too_large ≡ false)
small_or_other len size too_large h k = ground arith

module _ {P T : Type 0} (reply : ℕ → List P → RpcError ⊎ List (RpcError ⊎ T)) (answer : P → T)
    (in_order : (n : ℕ) (ps : List P) (ws : List (RpcError ⊎ T))
      → reply n ps ≡ inr ws
      → All2 (λ p w. (t : T) → w ≡ inr t → t ≡ answer p) ps ws) where
  -- A result is the one of its call.
  abbrev Correct : P → RpcError ⊎ T → Type 0
  Correct p w = (t : T) → w ≡ inr t → t ≡ answer p

  -- The results of all calls, in order, or the error of a request that failed with a single call or
  -- for another reason than its size.
  abbrev pub Answered : String → List P → Outcome CollectError (List T) → Type 0
  Answered method params r =
      (r ≡ ok (map answer params))
      ⊎ ((n : ℕ) × (ps : List P) × (e : RpcError) × (send_one_batch reply n ps ≡ inl e)
          × ((length ps ≤ 1) ⊎ (batch_too_large e ≡ false))
          × (r ≡ err (batch_error method e)))

  await_all-answers :
      (ps : List P) (ws : List (RpcError ⊎ T)) (rs : List T)
      → All2 Correct ps ws
      → await_all ws ≡ inr rs
      → rs ≡ map answer ps
  await_all-answers [] [] rs h k = cc
  await_all-answers [] (w ∷ ws) rs h k = elim h [ ]
  await_all-answers (p ∷ ps) [] rs h k = elim h [ ]
  await_all-answers (p ∷ ps) (w ∷ ws) rs (right, h) k =
      let (t, e, rest) = and_then-inr w _ rs k in
      let (ts, l, joined) = and_then-inr (await_all ws) _ rs rest in
      let here : t ≡ answer p = right t e in
      let there : ts ≡ map answer ps = await_all-answers ps ws ts h l in
      sym (inr_inj joined) ∙ ap (λ x. x ∷ ts) here ∙ ap (◌∷◌ (answer p)) there

  send_one_batch-answers :
      (n : ℕ) (ps : List P) (rs : List T) → send_one_batch reply n ps ≡ inr rs → rs ≡ map answer ps
  unfolding send_one_batch
  send_one_batch-answers n [] rs h = cc
  send_one_batch-answers n (p ∷ ps) rs h =
      let (ws, k, l) = and_then-inr (reply n (p ∷ ps)) _ rs h in
      await_all-answers (p ∷ ps) ws rs (in_order n (p ∷ ps) ws k) l

  send_loop-Answered :
      (method : String) (params : List P) (rounds n size sent : ℕ)
      → 0 < size
      → sent ≤ length params
      → length params - sent + size < rounds
      → Answered method params
          (send_loop reply method params rounds n size sent (map answer (take sent params)))
  unfolding send_loop
  send_loop-Answered method params zero n size sent pos inside enough = absurd (omega arith)
  send_loop-Answered method params (suc rounds) n size sent pos inside enough =
      elim (Bool-cases (ltb sent (length params))) [
        | inr done ↦ inl (
            send_loop_done reply method params rounds n size sent _ done
            ∙ ap (λ xs. ok (map answer xs)) (take_all sent params (ground arith)))
        | inl more ↦
            let end : ℕ = min (sent + size) (length params) in
            elim (Sum-cases (send_one_batch reply n (slice params sent end))) [
              | inr (rs, found) ↦
                  let e = send_one_batch-answers n (slice params sent end) rs found in
                  let joined : map answer (take sent params) ++ rs ≡ map answer (take end params) =
                    ap (λ xs. map answer (take sent params) ++ xs) e
                    ∙ sym (map-append answer (take sent params) (slice params sent end))
                    ∙ ap (map answer) (sym (take-slice params sent end (ground arith))) in
                  rw (send_loop_more reply method params rounds n size sent _ rs more found, joined)
                    (send_loop-Answered method params rounds (suc n) size end pos (omega arith)
                      (ground arith))
              | inl (e, failed) ↦ elim (Bool-cases (ltb 1 size && batch_too_large e)) [
                | inl smaller ↦
                    rw
                      (send_loop_smaller reply method params rounds n size sent _ e more failed
                        smaller)
                      (send_loop-Answered method params rounds (suc n) ((size + 1) / 2) sent
                        (omega arith) inside (ground arith))
                | inr other ↦ inr (
                  n,
                  slice params sent end,
                  e,
                  failed,
                  small_or_other (length (slice params sent end)) size (batch_too_large e) other
                      (omega (arith, length-take (end - sent) (drop sent params))),
                  send_loop_fails reply method params rounds n size sent _ e more failed other,
                )
              ]
            ]
      ]

  -- If the node answers a batch, when it answers, with a result or an error for each call, in order, then
  -- `send_batch` ends: with the results of all calls, each once and in order, however often the batch
  -- size shrinks, or with the error of a request that held a single call or that the node did not
  -- refuse for its size.
  pub send_batch-Answered :
      (method : String) (params : List P) → Answered method params (send_batch reply method params)
  unfolding send_batch
  send_batch-Answered method params =
      send_loop-Answered method params (length params + default_rpc_batch_size + 1) 0
        default_rpc_batch_size 0 (omega arith) (omega arith) (omega arith)

  -- If batches fail only when they have more than `limit` calls, for a positive `limit`, and their errors
  -- complain about the size, every call is answered.
  pub send_batch_capped :
      (limit : ℕ)
      → 0 < limit
      → ((n : ℕ) (ps : List P) (e : RpcError)
          → send_one_batch reply n ps ≡ inl e
          → (limit < length ps) × (batch_too_large e ≡ true))
      → (method : String) (params : List P)
      → send_batch reply method params ≡ ok (map answer params)
  send_batch_capped limit pos refuses method params = elim (send_batch-Answered method params) [
    | inl all ↦ all
    | inr (n, ps, e, failed, reason, _) ↦
        let (large, complains) = refuses n ps e failed in
        elim reason [ inl small ↦ absurd (omega arith) | inr other ↦ cc ]
  ]
