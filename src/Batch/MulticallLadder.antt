-- ===== src/Batch/MulticallLadder.antt =====
-- What `multicall_batch_with_fallback` of crates/freeze/src/types/multicall.rs returns, and that it
-- ends.
use mathlib.Core.List.{append_assoc, append-nil}
use mathlib.Core.Path.{subst}
use triodion.Prelude.{
  ℕ, zero, suc, ◌+◌, ◌/◌, ◌≤◌, ◌<◌, ◌≡◌, refl, sym, ap, ◌∙◌, String, Bool, true, false, List, [],
  ◌∷◌, ◌++◌, map, length, take, drop, take-append-drop, concat, ◌⊎◌, inl, inr, ltb, ◌&&◌, All, All2,
  All2-append, All2-mono, Sum-cases, Bool-cases, arith,
}
use triodion.Prelude.Outcome.{Outcome, ok, err}
use triodion.Errors.{RpcError, CollectError}
use triodion.Batch.Classify.{batch_may_shrink_to_fit}
use triodion.Batch.Multicall.{
  MulticallBatchable, multicall_batch, fallback_loop, multicall_batch_with_fallback,
}
use triodion.Batch.Halving.{weight, NonEmpty, halves_weigh_less}
use triodion.Batch.MulticallRows.{FromOwnCalls, multicall_batch-FromOwnCalls}

module _ {P C V R Bytes : Type 0} (d : MulticallBatchable P C V R) (encode : List C → Bytes)
    (decode_returns : Bytes → String ⊎ List V) (call2 : ℕ → Bytes → RpcError ⊎ Bytes)
    (require_success : Bool) where
  abbrev call : ℕ → List P → CollectError ⊎ List R
  call = multicall_batch d encode decode_returns call2 require_success

  abbrev run : ℕ → ℕ → List (List P) → List R → Outcome CollectError (List R)
  run = fallback_loop d encode decode_returns call2 require_success

  -- The row is decoded from the answers to its own calls, or was read alone.
  abbrev pub Collected : (C → V) → P → R → Type 0
  Collected answer p r =
      FromOwnCalls d require_success answer p r
      ⊎ ((require_success ≡ false) × (n : ℕ) × (d.extract n p ≡ inr r))

  -- The error of a batch that success is required of, or that a smaller batch would not avoid, or
  -- the error of a row that is read alone.
  abbrev pub Refused : CollectError → Type 0
  Refused e =
      ((n : ℕ) × (ps : List P) × (call n ps ≡ inl e)
        × ((require_success ≡ true) ⊎ ((1 < length ps) × (batch_may_shrink_to_fit e ≡ false))))
      ⊎ ((require_success ≡ false) × (n : ℕ) × (p : P) × (d.extract n p ≡ inl e))

  -- One round of the loop.
  module _ (rounds n : ℕ) (p : P) (ps : List P) (stack : List (List P)) (out : List R) where
    answered :
        (rs : List R)
        → call n (p ∷ ps) ≡ inr rs
        → run (suc rounds) n ((p ∷ ps) ∷ stack) out ≡ run rounds (suc n) stack (out ++ rs)
    unfolding fallback_loop
    answered rs h = rw (fallback_loop, h) refl

    halved :
        (e : CollectError)
        → call n (p ∷ ps) ≡ inl e
        → (ltb 1 (length (p ∷ ps)) && batch_may_shrink_to_fit e) ≡ true
        → run (suc rounds) n ((p ∷ ps) ∷ stack) out
          ≡ run rounds
              (suc n)
              (take (length (p ∷ ps) / 2) (p ∷ ps) ∷ (drop (length (p ∷ ps) / 2) (p ∷ ps) ∷ stack))
              out
    unfolding fallback_loop
    halved e h k = rw (fallback_loop, h, k) refl

    refused :
        (e : CollectError)
        → call n (p ∷ ps) ≡ inl e
        → (ltb 1 (length (p ∷ ps)) && batch_may_shrink_to_fit e) ≡ false
        → ltb 1 (length (p ∷ ps)) ≡ true
        → run (suc rounds) n ((p ∷ ps) ∷ stack) out ≡ err e
    unfolding fallback_loop
    refused e h k l = rw (fallback_loop, h, k, l) refl

    strict :
        (e : CollectError)
        → call n (p ∷ ps) ≡ inl e
        → (ltb 1 (length (p ∷ ps)) && batch_may_shrink_to_fit e) ≡ false
        → ltb 1 (length (p ∷ ps)) ≡ false
        → require_success ≡ true
        → run (suc rounds) n ((p ∷ ps) ∷ stack) out ≡ err e
    unfolding fallback_loop
    strict e h k l m = rw (fallback_loop, h, k, l, m) refl

    alone :
        (e : CollectError) (r : R)
        → call n (p ∷ ps) ≡ inl e
        → (ltb 1 (length (p ∷ ps)) && batch_may_shrink_to_fit e) ≡ false
        → ltb 1 (length (p ∷ ps)) ≡ false
        → require_success ≡ false
        → d.extract n p ≡ inr r
        → run (suc rounds) n ((p ∷ ps) ∷ stack) out ≡ run rounds (suc n) stack (out ++ (r ∷ []))
    unfolding fallback_loop
    alone e r h k l m x = rw (fallback_loop, h, k, l, m, x) refl

    alone_fails :
        (e failure : CollectError)
        → call n (p ∷ ps) ≡ inl e
        → (ltb 1 (length (p ∷ ps)) && batch_may_shrink_to_fit e) ≡ false
        → ltb 1 (length (p ∷ ps)) ≡ false
        → require_success ≡ false
        → d.extract n p ≡ inl failure
        → run (suc rounds) n ((p ∷ ps) ∷ stack) out ≡ err failure
    unfolding fallback_loop
    alone_fails e failure h k l m x = rw (fallback_loop, h, k, l, m, x) refl

  module _ (answer : C → V)
      (in_order : (n : ℕ) (cs : List C) (raw : Bytes) (vs : List V)
        → call2 n (encode cs) ≡ inr raw
        → decode_returns raw ≡ inr vs
        → vs ≡ map answer cs) where
    -- The rows of the stack are collected, after those already out, or an error is returned.
    abbrev Ends : List (List P) → List R → Outcome CollectError (List R) → Type 0
    Ends stack out r =
        ((rs : List R) × (r ≡ ok (out ++ rs)) × All2 (Collected answer) (concat stack) rs)
        ⊎ ((e : CollectError) × (r ≡ err e) × Refused e)

    batch-Ends :
        (batch : List P) (stack : List (List P)) (out rs : List R)
        (r : Outcome CollectError (List R))
        → All2 (Collected answer) batch rs
        → Ends stack (out ++ rs) r
        → Ends (batch ∷ stack) out r
    batch-Ends batch stack out rs r h (inl (more, e, k)) = inl (
      rs ++ more,
      e ∙ ap ok (append_assoc out rs more),
      All2-append (Collected answer) batch (concat stack) rs more h k,
    )
    batch-Ends batch stack out rs r h (inr (e, k, l)) = inr (e, k, l)

    halves-Ends :
        (mid : ℕ) (batch : List P) (stack : List (List P)) (out : List R)
        (r : Outcome CollectError (List R))
        → Ends (take mid batch ∷ (drop mid batch ∷ stack)) out r
        → Ends (batch ∷ stack) out r
    halves-Ends mid batch stack out r (inl (rs, e, k)) =
        let joined : take mid batch ++ (drop mid batch ++ concat stack) ≡ batch ++ concat stack =
          sym (append_assoc (take mid batch) (drop mid batch) (concat stack))
          ∙ ap (λ xs. xs ++ concat stack) (take-append-drop mid batch) in
        inl (rs, e, subst (λ xs. All2 (Collected answer) xs rs) joined k)
    halves-Ends mid batch stack out r (inr (e, k, l)) = inr (e, k, l)

    sole :
        {p : P} (r : R) (ps : List P)
        → ltb 1 (length (p ∷ ps)) ≡ false
        → Collected answer p r
        → All2 (Collected answer) (p ∷ ps) (r ∷ [])
    sole r [] h k = (k, tt)
    sole r (q ∷ ps) h k = absurd (ground arith)

    read :
        (n : ℕ) (batch : List P) (rs : List R)
        → call n batch ≡ inr rs
        → All2 (Collected answer) batch rs
    read n batch rs h =
        All2-mono _ (Collected answer) (λ p r. inl) batch rs
          (multicall_batch-FromOwnCalls d encode decode_returns call2 require_success answer
            in_order n batch rs h)

    run-Ends :
        (rounds n : ℕ) (stack : List (List P)) (out : List R)
        → All NonEmpty stack
        → weight stack ≤ rounds
        → Ends stack out (run rounds n stack out)
    unfolding fallback_loop
    run-Ends rounds n [] out h k = inl ([], ap ok (sym (append-nil out)), tt)
    run-Ends rounds n ([] ∷ stack) out (pos, h) k = absurd (omega arith)
    run-Ends zero n ((p ∷ ps) ∷ stack) out (pos, h) k = absurd (omega arith)
    run-Ends (suc rounds) n ((p ∷ ps) ∷ stack) out (pos, h) k = elim (Sum-cases (call n (p ∷ ps))) [
      | inr (rs, found) ↦ rw (answered rounds n p ps stack out rs found) (
          batch-Ends (p ∷ ps) stack out rs _ (read n (p ∷ ps) rs found)
            (run-Ends rounds (suc n) stack (out ++ rs) h (omega arith)))
      | inl (e, failed) ↦ elim (Bool-cases (ltb 1 (length (p ∷ ps)) && batch_may_shrink_to_fit e)) [
        | inl smaller ↦
            let mid : ℕ = length (p ∷ ps) / 2 in
            let (first, second, lighter) =
              halves_weigh_less (p ∷ ps) stack rounds (batch_may_shrink_to_fit e) smaller k in
            rw (halved rounds n p ps stack out e failed smaller) (
              halves-Ends mid (p ∷ ps) stack out _ (
                run-Ends rounds (suc n) (take mid (p ∷ ps) ∷ (drop mid (p ∷ ps) ∷ stack)) out
                  (first, (second, h)) lighter))
        | inr same ↦ elim (Bool-cases (ltb 1 (length (p ∷ ps)))) [
          | inl several ↦ inr (
            e,
            refused rounds n p ps stack out e failed same several,
            inl (n, p ∷ ps, failed, inr (ground arith, ground arith)),
          )
          | inr one ↦ elim (Bool-cases require_success) [
            | inl required ↦ inr (
              e,
              strict rounds n p ps stack out e failed same one required,
              inl (n, p ∷ ps, failed, inl required),
            )
            | inr lenient ↦ elim (Sum-cases (d.extract n p)) [
              | inl (failure, x) ↦ inr (
                failure,
                alone_fails rounds n p ps stack out e failure failed same one lenient x,
                inr (lenient, n, p, x),
              )
              | inr (r, x) ↦ rw (alone rounds n p ps stack out e r failed same one lenient x) (
                  batch-Ends (p ∷ ps) stack out (r ∷ []) _ (sole r ps one (inr (lenient, n, x)))
                    (run-Ends rounds (suc n) stack (out ++ (r ∷ [])) h (omega arith)))
            ]
          ]
        ]
      ]
    ]

    -- If `aggregate3`, when it answers, answers each call in order, collecting a batch of at least one
    -- row ends. Either every row is returned, in order, decoded from the answers to its own calls, or,
    -- unless success is required, read alone; or the error returned is that of a batch that success is
    -- required of or that a smaller batch would not avoid, or that of a row that was read alone.
    pub multicall_batch_with_fallback-Collected :
        (batch : List P)
        → 0 < length batch
        → ((rs : List R) × (multicall_batch_with_fallback d encode decode_returns call2
                require_success batch
              ≡ ok rs)
            × All2 (Collected answer) batch rs)
          ⊎ ((e : CollectError) × (multicall_batch_with_fallback d encode decode_returns call2
                  require_success batch
                ≡ err e)
              × Refused e)
    unfolding multicall_batch_with_fallback
    multicall_batch_with_fallback-Collected batch pos =
        subst
          (λ xs.
            ((rs : List R) × (run (length batch + length batch) 0 (batch ∷ []) [] ≡ ok rs)
              × All2 (Collected answer) xs rs)
            ⊎ ((e : CollectError) × (run (length batch + length batch) 0 (batch ∷ []) [] ≡ err e)
                × Refused e))
          (append-nil batch)
          (run-Ends (length batch + length batch) 0 (batch ∷ []) [] (pos, tt) (omega arith))
