-- ===== src/Batch/FallbackRows.antt =====
-- What `extractor_batch_with_fallback` of crates/freeze/src/types/state_override.rs returns, and that it
-- ends.
use mathlib.Core.Path.{subst}
use triodion.Prelude.{
  ℕ, ◌^◌, ◌<◌, ◌≡◌, refl, sym, ap, ◌∙◌, String, false, List, [], ◌∷◌, ◌++◌, map, length, ◌⊎◌, inl,
  inr, All, All2, All2-length, if◌then◌else◌,
}
use triodion.Prelude.Order.{Bytes}
use triodion.Prelude.Outcome.{
  Outcome, ok, err, try_map, try_map-Settles, Settles, bind-ok, bind-Settles, ok_inj, returned,
  returned-ok, returned-Settles,
}
use triodion.Errors.{CollectError}
use triodion.Batch.Override.{
  AccountOverride, request, decode_response, be_bytes, call_target, overrides, calldata,
  uses_sentinel, sentinel_slot, from_be_bytes, row_shadows_override,
}
use triodion.Batch.OverrideAnswers.{Proves, decode_response-Verified}
use triodion.Batch.Extractor.{extractor_batch, decode_zipped}
use triodion.Batch.Fallback.{StateOverrideBatchable}

-- The rows and the results of a loop that stops at the first failure.
pub try_map-All2 :
    {A B E : Type 0} (f : A → E ⊎ B) (xs : List A) (ys : List B)
    → try_map (λ x. returned (f x)) xs ≡ ok ys
    → All2 (λ x y. f x ≡ inr y) xs ys
unfolding try_map
try_map-All2 f [] [] h = tt
try_map-All2 f [] (y ∷ ys) h = cc
try_map-All2 f (x ∷ xs) ys h =
    let (y, k, rest) = bind-ok (returned (f x)) _ ys h in
    let (more, l, e) = bind-ok (try_map (λ x. returned (f x)) xs) _ ys rest in
    subst (λ zs. All2 (λ x y. f x ≡ inr y) (x ∷ xs) zs) (ok_inj e)
      (returned-ok (f x) y k, try_map-All2 f xs more l)

module _ {P R : Type 0} (d : StateOverrideBatchable P R) where
  -- The row is decoded from the chain's value for its word.
  abbrev pub FromChain : (Bytes → Bytes) → P → R → Type 0
  FromChain chain p r =
      (w : ℕ) × (d.input_word p ≡ inr w) × (d.decode_row p (chain (be_bytes 32 w)) ≡ inr r)

  -- The row does not ask for what the override hides.
  abbrev pub Clear : P → Type 0
  Clear p = (w : ℕ) → d.input_word p ≡ inr w → row_shadows_override d.reader w ≡ false

ok_err : {E A : Type 0} {a : A} {e : E} → ◌≡◌ {A = Outcome E A} (ok a) (err e) → ⊥
ok_err h = cc

module _ {P R : Type 0} (show_word : Bytes → String) (d : StateOverrideBatchable P R)
    (call : Bytes → Bytes → AccountOverride → CollectError ⊎ Bytes) (target : Bytes)
    (read chain : Bytes → Bytes)
    (reads_chain : (n : ℕ)
      → row_shadows_override d.reader n ≡ false
      → read (be_bytes 32 n) ≡ chain (be_bytes 32 n))
    (honest : (words : List ℕ) (bytes : Bytes) (values : List Bytes)
      → call
          (call_target d.reader target)
          (calldata
            (words ++ (if uses_sentinel d.reader then from_be_bytes sentinel_slot ∷ [] else [])))
          (overrides d.reader target)
        ≡ inr bytes
      → Proves show_word d.reader (length words) bytes values
      → values ≡ map (λ w. read (be_bytes 32 w)) words) where
  decode_zipped-FromChain :
      (ps : List P) (words : List ℕ) (rs : List R)
      → All (Clear d) ps
      → All2 (λ p w. d.input_word p ≡ inr w) ps words
      → decode_zipped show_word d.reader d.input_word d.decode_row call ps
          (map (λ w. read (be_bytes 32 w)) words)
        ≡ ok rs
      → All2 (FromChain d chain) ps rs
  unfolding decode_zipped
  decode_zipped-FromChain [] [] [] c h k = tt
  decode_zipped-FromChain [] [] (r ∷ rs) c h k = cc
  decode_zipped-FromChain [] (w ∷ words) rs c h k = elim h [ ]
  decode_zipped-FromChain (p ∷ ps) [] rs c h k = elim h [ ]
  decode_zipped-FromChain (p ∷ ps) (w ∷ words) rs (clear, c) (e, h) k =
      let (r, l, rest) = bind-ok (returned (d.decode_row p (read (be_bytes 32 w)))) _ rs k in
      let (more, m, joined) =
        bind-ok
          (decode_zipped show_word d.reader d.input_word d.decode_row call ps
            (map (λ w. read (be_bytes 32 w)) words))
          _ rs rest in
      subst (All2 (FromChain d chain) (p ∷ ps)) (ok_inj joined) (
        (
          w,
          e,
          subst (λ v. d.decode_row p v ≡ inr r) (reads_chain w (clear w e))
              (returned-ok (d.decode_row p (read (be_bytes 32 w))) r l),
        ),
        decode_zipped-FromChain ps words more c h m,
      )

  abbrev call_data : List ℕ → Bytes
  call_data words =
      calldata (words ++ (if uses_sentinel d.reader then from_be_bytes sentinel_slot ∷ [] else []))

  accepted :
      (bytes : Bytes) (values : List Bytes) (n : ℕ)
      → n < 2 ^ 58
      → decode_response show_word d.reader bytes n ≡ ok values
      → Proves show_word d.reader n bytes values
  accepted bytes values n small h =
      elim (decode_response-Verified show_word d.reader bytes n small) [
        | inl (words, e, proof) ↦
            subst (Proves show_word d.reader n bytes) (ok_inj (sym e ∙ h)) proof
        | inr (e, k, l, m) ↦ absurd (ok_err (sym h ∙ k))
      ]

  decoded_or_refused :
      (bytes : Bytes) (n : ℕ) → n < 2 ^ 58 → Settles (decode_response show_word d.reader bytes n)
  decoded_or_refused bytes n small =
      elim (decode_response-Verified show_word d.reader bytes n small) [
        | inl (words, e, proof) ↦ inl (words, e)
        | inr (e, k, l, m) ↦ inr (e, k)
      ]

  decode_zipped-Settles :
      (ps : List P) (values : List Bytes)
      → Settles (decode_zipped show_word d.reader d.input_word d.decode_row call ps values)
  unfolding decode_zipped
  decode_zipped-Settles [] values = inl ([], refl)
  decode_zipped-Settles (p ∷ ps) [] = inl ([], refl)
  decode_zipped-Settles (p ∷ ps) (v ∷ values) =
      bind-Settles (returned (d.decode_row p v)) _ (returned-Settles (d.decode_row p v)) (λ r.
        bind-Settles (decode_zipped show_word d.reader d.input_word d.decode_row call ps values) _
          (decode_zipped-Settles ps values) (λ rs. inl (r ∷ rs, refl)))

  -- The rows of a batch that succeeds.
  pub extractor_batch-FromChain :
      (batch : List P) (rs : List R)
      → length batch < 2 ^ 58
      → All (Clear d) batch
      → extractor_batch show_word d.reader d.input_word d.decode_row call target batch ≡ ok rs
      → All2 (FromChain d chain) batch rs
  unfolding extractor_batch request
  extractor_batch-FromChain batch rs small c h =
      let (words, k, sent) = bind-ok (try_map (λ p. returned (d.input_word p)) batch) _ rs h in
      let given = try_map-All2 d.input_word batch words k in
      let (bytes, l, got) =
        bind-ok
          (returned
            (call (call_target d.reader target) (call_data words) (overrides d.reader target)))
          _ rs sent in
      let (values, m, decoded) =
        bind-ok (decode_response show_word d.reader bytes (length batch)) _ rs got in
      let e = All2-length (λ p w. d.input_word p ≡ inr w) batch words given in
      let proof : Proves show_word d.reader (length words) bytes values =
        subst (λ n. Proves show_word d.reader n bytes values) (sym e)
          (accepted bytes values (length batch) small m) in
      let computed = honest words bytes values (returned-ok _ bytes l) proof in
      decode_zipped-FromChain batch words rs c given (
        ap (decode_zipped show_word d.reader d.input_word d.decode_row call batch) (sym computed)
        ∙ decoded)

  -- A batch ends with results or with an error.
  pub extractor_batch-Settles :
      (batch : List P)
      → length batch < 2 ^ 58
      → Settles (extractor_batch show_word d.reader d.input_word d.decode_row call target batch)
  unfolding extractor_batch request
  extractor_batch-Settles batch small =
      bind-Settles (try_map (λ p. returned (d.input_word p)) batch) _
        (try_map-Settles (λ p. returned (d.input_word p)) (λ p. returned-Settles (d.input_word p))
          batch)
        (λ words.
          bind-Settles
            (returned
              (call (call_target d.reader target) (call_data words) (overrides d.reader target)))
            _ (returned-Settles _)
            (λ bytes.
              bind-Settles (decode_response show_word d.reader bytes (length batch)) _
                (decoded_or_refused bytes (length batch) small)
                (λ values. decode_zipped-Settles batch values)))
