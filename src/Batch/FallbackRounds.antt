-- ===== src/Batch/FallbackRounds.antt =====
-- The rounds of the loop of `extractor_batch_with_fallback` of
-- crates/freeze/src/types/state_override.rs, one for each of its branches.
use triodion.Prelude.{
  ℕ, suc, ◌/◌, ◌≡◌, refl, String, Bool, true, false, ◌&&◌, List, ◌∷◌, ◌++◌, length, take, drop, ◌⊎◌,
  ltb,
}
use triodion.Prelude.Order.{Bytes}
use triodion.Prelude.Outcome.{Outcome, ok, err}
use triodion.Errors.{CollectError}
use triodion.Batch.Classify.{override_unavailable, batch_may_shrink_to_fit}
use triodion.Batch.Override.{AccountOverride}
use triodion.Batch.Extractor.{extractor_batch}
use triodion.Batch.Fallback.{StateOverrideBatchable, per_row, demote, extractor_loop}

module _ {P R : Type 0} (show_word : Bytes → String) (d : StateOverrideBatchable P R)
    (call : ℕ → Bytes → Bytes → AccountOverride → CollectError ⊎ Bytes) (worth : ℕ → Bool)
    (target : Bytes) where
  abbrev pub try_batch : ℕ → List P → Outcome CollectError (List R)
  try_batch n = extractor_batch show_word d.reader d.input_word d.decode_row (call n) target

  abbrev pub run : ℕ → ℕ → List (List P) → List R → Outcome CollectError (List R)
  run = extractor_loop show_word d call worth target

  abbrev pub alone : ℕ → List P → Outcome CollectError (List R)
  alone = per_row show_word d call worth target

  abbrev pub rest_alone : ℕ → List P → List (List P) → List R → Outcome CollectError (List R)
  rest_alone = demote show_word d call worth target

  -- One round of the loop.
  module _ (rounds n : ℕ) (batch : List P) (stack : List (List P)) (out : List R) where
    pub over_already :
        worth n ≡ false → run (suc rounds) n (batch ∷ stack) out ≡ rest_alone n batch stack out
    unfolding extractor_loop
    over_already h = rw (extractor_loop, h) refl

    pub answered :
        (rs : List R)
        → worth n ≡ true
        → try_batch n batch ≡ ok rs
        → run (suc rounds) n (batch ∷ stack) out ≡ run rounds (suc n) stack (out ++ rs)
    unfolding extractor_loop
    answered rs h k = rw (extractor_loop, h, k) refl

    pub unavailable :
        (e : CollectError)
        → worth n ≡ true
        → try_batch n batch ≡ err e
        → override_unavailable e ≡ true
        → run (suc rounds) n (batch ∷ stack) out ≡ rest_alone n batch stack out
    unfolding extractor_loop
    unavailable e h k l = rw (extractor_loop, h, k, l) refl

    pub halved :
        (e : CollectError)
        → worth n ≡ true
        → try_batch n batch ≡ err e
        → override_unavailable e ≡ false
        → (ltb 1 (length batch) && batch_may_shrink_to_fit e) ≡ true
        → run (suc rounds) n (batch ∷ stack) out
          ≡ run rounds
              (suc n)
              (take (length batch / 2) batch ∷ (drop (length batch / 2) batch ∷ stack))
              out
    unfolding extractor_loop
    halved e h k l m = rw (extractor_loop, h, k, l, m) refl

    pub one_by_one :
        (e : CollectError) (rs : List R)
        → worth n ≡ true
        → try_batch n batch ≡ err e
        → override_unavailable e ≡ false
        → (ltb 1 (length batch) && batch_may_shrink_to_fit e) ≡ false
        → alone n batch ≡ ok rs
        → run (suc rounds) n (batch ∷ stack) out ≡ run rounds (suc n) stack (out ++ rs)
    unfolding extractor_loop
    one_by_one e rs h k l m x = rw (extractor_loop, h, k, l, m, x) refl

    pub one_fails :
        (e failure : CollectError)
        → worth n ≡ true
        → try_batch n batch ≡ err e
        → override_unavailable e ≡ false
        → (ltb 1 (length batch) && batch_may_shrink_to_fit e) ≡ false
        → alone n batch ≡ err failure
        → run (suc rounds) n (batch ∷ stack) out ≡ err failure
    unfolding extractor_loop
    one_fails e failure h k l m x = rw (extractor_loop, h, k, l, m, x) refl
