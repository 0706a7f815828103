-- ===== src/Batch/FallbackEnds.antt =====
-- What `extractor_batch_with_fallback` of crates/freeze/src/types/state_override.rs returns, and that it
-- ends.
use mathlib.Core.List.{Perm, append_assoc, append-nil, perm_append_comm}
use mathlib.Core.List.Perm as Permuted
use mathlib.Core.Path.{subst}
use triodion.Prelude.{
  ℕ, zero, suc, ◌+◌, ◌/◌, ◌^◌, ◌≤◌, ◌<◌, ◌≡◌, refl, sym, ap, ◌∙◌, String, Bool, true, false, ◌&&◌,
  List, [], ◌∷◌, ◌++◌, map, length, length-take, length-drop, take, take-append-drop, drop, concat,
  concat-append, ◌⊎◌, inl, inr, ltb, All, All-split, All2, All2-append, All2-mono, Bool-cases,
  if◌then◌else◌, arith,
}
use triodion.Prelude.Order.{Bytes}
use triodion.Prelude.Outcome.{
  Outcome, ok, err, try_map, try_map-Settles, bind-err, returned, returned-err, returned-Settles,
}
use triodion.Errors.{CollectError}
use triodion.Batch.Classify.{override_unavailable, batch_may_shrink_to_fit}
use triodion.Batch.Halving.{weight, halves_weigh_less}
use triodion.Batch.Override.{
  AccountOverride, be_bytes, call_target, overrides, calldata, uses_sentinel, sentinel_slot,
  from_be_bytes, row_shadows_override,
}
use triodion.Batch.OverrideAnswers.{Proves}
use triodion.Batch.Extractor.{extractor_batch}
use triodion.Batch.Fallback.{
  StateOverrideBatchable, backwards, per_row, demote, extractor_loop, extractor_batch_with_fallback,
}
use triodion.Batch.FallbackRounds.{
  over_already, answered, unavailable, halved, one_by_one, one_fails,
}
use triodion.Batch.FallbackRows.{
  try_map-All2, FromChain, Clear, extractor_batch-FromChain, extractor_batch-Settles,
}

-- The error of a loop that stops at the first failure is that of an item.
try_map-fails :
    {A B E : Type 0} (f : A → E ⊎ B) (xs : List A) (e : E)
    → try_map (λ x. returned (f x)) xs ≡ err e
    → (x : A) × (f x ≡ inl e)
unfolding try_map
try_map-fails f [] e h = cc
try_map-fails f (x ∷ xs) e h = elim (bind-err (returned (f x)) _ e h) [
  | inl k ↦ (x, returned-err (f x) e k)
  | inr (y, k, rest) ↦ elim (bind-err (try_map (λ x. returned (f x)) xs) _ e rest) [
    | inl l ↦ try_map-fails f xs e l
    | inr (ys, l, m) ↦ absurd cc
  ]
]

backwards-Perm : {A : Type 0} (xss : List (List A)) → Perm (concat (backwards xss)) (concat xss)
backwards-Perm [] = Permuted.refl []
backwards-Perm (xs ∷ xss) =
    rw (concat-append (backwards xss) (xs ∷ []), append-nil xs)
      (Permuted.trans (Permuted.append_right xs (backwards-Perm xss))
        (perm_append_comm (concat xss) xs))

module _ {P R : Type 0} (d : StateOverrideBatchable P R) (chain : Bytes → Bytes) where
  -- The row is decoded from the chain's value for its word, or was read alone.
  abbrev pub Answered : P → R → Type 0
  Answered p r = FromChain d chain p r ⊎ ((n : ℕ) × (d.extract n p ≡ inr r))

  -- All rows are answered, in some order, or the error is that of a row that was read alone.
  abbrev pub Ends : List P → List R → Outcome CollectError (List R) → Type 0
  Ends rows out r =
      ((order : List P) × (rs : List R) × Perm order rows
        × (r ≡ ok (out ++ rs))
        × All2 Answered order rs)
      ⊎ ((n : ℕ) × (p : P) × (e : CollectError) × (d.extract n p ≡ inl e) × (r ≡ err e))

  -- Rows that may be sent in one batch.
  abbrev pub Sendable : List P → Type 0
  Sendable batch = (0 < length batch) × (length batch < 2 ^ 58) × All (Clear d) batch

module _ {P R : Type 0} (show_word : Bytes → String) (d : StateOverrideBatchable P R)
    (call : ℕ → Bytes → Bytes → AccountOverride → CollectError ⊎ Bytes) (worth : ℕ → Bool)
    (target : Bytes) where
  abbrev try_batch : ℕ → List P → Outcome CollectError (List R)
  try_batch n = extractor_batch show_word d.reader d.input_word d.decode_row (call n) target

  abbrev run : ℕ → ℕ → List (List P) → List R → Outcome CollectError (List R)
  run = extractor_loop show_word d call worth target

  abbrev alone : ℕ → List P → Outcome CollectError (List R)
  alone = per_row show_word d call worth target

  abbrev rest_alone : ℕ → List P → List (List P) → List R → Outcome CollectError (List R)
  rest_alone = demote show_word d call worth target

  module _ (read chain : Bytes → Bytes)
      (reads_chain : (n : ℕ)
        → row_shadows_override d.reader n ≡ false
        → read (be_bytes 32 n) ≡ chain (be_bytes 32 n))
      (honest : (round : ℕ) (words : List ℕ) (bytes : Bytes) (values : List Bytes)
        → call round
            (call_target d.reader target)
            (calldata
              (words ++ (if uses_sentinel d.reader then from_be_bytes sentinel_slot ∷ [] else [])))
            (overrides d.reader target)
          ≡ inr bytes
        → Proves show_word d.reader (length words) bytes values
        → values ≡ map (λ w. read (be_bytes 32 w)) words) where
    alone-Ends : (n : ℕ) (rows : List P) → Ends d chain rows [] (alone n rows)
    unfolding per_row
    alone-Ends n rows =
        elim (try_map-Settles (λ p. returned (d.extract n p))
          (λ p. returned-Settles (d.extract n p)) rows) [
            | inl (rs, e) ↦ inl (
              rows,
              rs,
              Permuted.refl rows,
              e,
              All2-mono _ (Answered d chain) (λ p r h. inr (n, h)) rows rs
                  (try_map-All2 (d.extract n) rows rs e),
            )
            | inr (e, k) ↦ let (p, h) = try_map-fails (d.extract n) rows e k in inr (n, p, e, h, k)
          ]

    rest_alone-Ends :
        (n : ℕ) (batch : List P) (stack : List (List P)) (out : List R)
        → Ends d chain (batch ++ concat stack) out (rest_alone n batch stack out)
    unfolding demote
    rest_alone-Ends n batch stack out = elim (alone-Ends n (batch ++ concat (backwards stack))) [
      | inl (order, rs, same, e, h) ↦ inl (
        order,
        rs,
        Permuted.trans same (Permuted.append_left batch (backwards-Perm stack)),
        rw (e) refl,
        h,
      )
      | inr (m, p, e, h, k) ↦ inr (m, p, e, h, rw (k) refl)
    ]

    batch-Ends :
        (batch order : List P) (rows : List P) (out rs : List R) (r : Outcome CollectError (List R))
        → Perm order batch
        → All2 (Answered d chain) order rs
        → Ends d chain rows (out ++ rs) r
        → Ends d chain (batch ++ rows) out r
    batch-Ends batch order rows out rs r same h (inl (more, ms, same', e, k)) = inl (
      order ++ more,
      rs ++ ms,
      Permuted.append same same',
      e ∙ ap ok (append_assoc out rs ms),
      All2-append (Answered d chain) order more rs ms h k,
    )
    batch-Ends batch order rows out rs r same h (inr failure) = inr failure

    halves-Ends :
        (mid : ℕ) (batch : List P) (stack : List (List P)) (out : List R)
        (r : Outcome CollectError (List R))
        → Ends d chain (concat (take mid batch ∷ (drop mid batch ∷ stack))) out r
        → Ends d chain (batch ++ concat stack) out r
    halves-Ends mid batch stack out r h =
        let joined : take mid batch ++ (drop mid batch ++ concat stack) ≡ batch ++ concat stack =
          sym (append_assoc (take mid batch) (drop mid batch) (concat stack))
          ∙ ap (λ xs. xs ++ concat stack) (take-append-drop mid batch) in
        subst (λ rows. Ends d chain rows out r) joined h

    read_together :
        (n : ℕ) (batch : List P) (rs : List R)
        → length batch < 2 ^ 58
        → All (Clear d) batch
        → try_batch n batch ≡ ok rs
        → All2 (Answered d chain) batch rs
    read_together n batch rs small clear h =
        All2-mono _ (Answered d chain) (λ p r. inl) batch rs
          (extractor_batch-FromChain show_word d (call n) target read chain reads_chain (honest n)
            batch rs small clear h)

    -- The rows of later rounds.
    Later : ℕ → ℕ → Type 0
    Later rounds n =
        (stack : List (List P)) (out : List R)
        → All (Sendable d chain) stack
        → weight stack ≤ rounds
        → Ends d chain (concat stack) out (run rounds (suc n) stack out)

    failed-Ends :
        (rounds n : ℕ) (batch : List P) (stack : List (List P)) (out : List R) (e : CollectError)
        → Later rounds n
        → All (Sendable d chain) (batch ∷ stack)
        → weight (batch ∷ stack) ≤ suc rounds
        → worth n ≡ true
        → try_batch n batch ≡ err e
        → Ends d chain (concat (batch ∷ stack)) out (run (suc rounds) n (batch ∷ stack) out)
    unfolding Later
    failed-Ends rounds n batch stack out e later ((pos, small, clear), h) k w failed =
        elim (Bool-cases (override_unavailable e)) [
          | inl gone ↦
              rw
                (unavailable show_word d call worth target rounds n batch stack out e w failed gone)
                (rest_alone-Ends n batch stack out)
          | inr there ↦ elim (Bool-cases (ltb 1 (length batch) && batch_may_shrink_to_fit e)) [
            | inl smaller ↦
                let mid : ℕ = length batch / 2 in
                let (first, second, lighter) =
                  halves_weigh_less batch stack rounds (batch_may_shrink_to_fit e) smaller k in
                let (left, right) =
                  All-split (Clear d) (take mid batch) (drop mid batch)
                    (subst (All (Clear d)) (sym (take-append-drop mid batch)) clear) in
                rw
                  (halved show_word d call worth target rounds n batch stack out e w failed there
                    smaller)
                  (halves-Ends mid batch stack out _ (
                    later (take mid batch ∷ (drop mid batch ∷ stack)) out
                      (
                        (first, omega (arith, length-take mid batch), left),
                        ((second, omega (arith, length-drop mid batch), right), h),
                      )
                      lighter))
            | inr same ↦ elim (alone-Ends n batch) [
              | inr (m, p, failure, x, y) ↦ inr (
                m,
                p,
                failure,
                x,
                one_fails show_word d call worth target rounds n batch stack out e failure w failed
                    there same y,
              )
              | inl (order, rs, perm, found, all) ↦
                  rw
                    (one_by_one show_word d call worth target rounds n batch stack out e rs w failed
                      there same found)
                    (batch-Ends batch order (concat stack) out rs _ perm all
                      (later stack (out ++ rs) h (omega arith)))
            ]
          ]
        ]

    run-Ends :
        (rounds n : ℕ) (stack : List (List P)) (out : List R)
        → All (Sendable d chain) stack
        → weight stack ≤ rounds
        → Ends d chain (concat stack) out (run rounds n stack out)
    unfolding extractor_loop Later
    run-Ends rounds n [] out h k = inl ([], [], Permuted.refl [], ap ok (sym (append-nil out)), tt)
    run-Ends zero n (batch ∷ stack) out ((pos, small, clear), h) k = absurd (omega arith)
    run-Ends (suc rounds) n (batch ∷ stack) out ((pos, small, clear), h) k =
        elim (Bool-cases (worth n)) [
          | inr over ↦
              rw (over_already show_word d call worth target rounds n batch stack out over)
                (rest_alone-Ends n batch stack out)
          | inl open_still ↦
              elim (extractor_batch-Settles show_word d (call n) target read chain reads_chain
                (honest n) batch small) [
                  | inl (rs, found) ↦
                      rw
                        (answered show_word d call worth target rounds n batch stack out rs
                          open_still found)
                        (batch-Ends batch batch (concat stack) out rs _ (Permuted.refl batch)
                          (read_together n batch rs small clear found)
                          (run-Ends rounds (suc n) stack (out ++ rs) h (omega arith)))
                  | inr (e, failed) ↦
                      failed-Ends rounds n batch stack out e (run-Ends rounds (suc n))
                        ((pos, small, clear), h) k open_still failed
                ]
        ]

    -- Assume that an answer that proves words was computed by the extractor, and that the override changes
    -- nothing that the rows ask for. Then collecting a batch of at least one and fewer than 2^58 rows
    -- ends, whatever the shared verdict says in each round and whichever requests fail: either every row
    -- is answered once, in some order, decoded from the chain's value for its own word or read alone, or
    -- the error returned is that of a row that was read alone.
    pub extractor_batch_with_fallback-Ends :
        (gate : ℕ → Bool) (batch : List P)
        → Sendable d chain batch
        → Ends d chain batch []
            (extractor_batch_with_fallback show_word d call worth target gate batch)
    unfolding extractor_batch_with_fallback
    extractor_batch_with_fallback-Ends gate batch (pos, small, clear) = elim (Bool-cases (gate 0)) [
      | inr over ↦ rw (over) (alone-Ends 0 batch)
      | inl first ↦ elim (Bool-cases (gate 1)) [
        | inr over ↦ rw (first, over) (alone-Ends 0 batch)
        | inl second ↦
            rw (first, second)
              (subst
                (λ rows. Ends d chain rows [] (run (length batch + length batch) 0 (batch ∷ []) []))
                (append-nil batch)
                (run-Ends (length batch + length batch) 0 (batch ∷ []) [] ((pos, small, clear), tt)
                  (omega arith)))
      ]
    ]
