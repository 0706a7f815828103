-- ===== src/Batch/Extractor.antt =====
-- One request of the state-override extractor, `extractor_batch` of
-- crates/freeze/src/types/state_override.rs, and what it reads when the node runs the extractor. A dataset
-- and the node are parameters: `call` is what the node answers to the address, the call data and the
-- override, at the block of the batch.
use triodion.Prelude.{
  ℕ, zero, suc, ◌/◌, ◌%◌, ◌^◌, ◌<◌, ◌≡◌, refl, sym, ap, ◌∙◌, String, true, false, List, [], ◌∷◌,
  ◌++◌, map, length, length-map, length-append, concat, ◌⊎◌, inl, inr, All, if◌then◌else◌,
  Bool-cases, arith,
}
use mathlib.Core.List.{append-nil, append_assoc}
use triodion.Prelude.Order.{Bytes}
use triodion.Prelude.Outcome.{Outcome, ok, ◌>>=◌, try_map, try_map-ok, returned}
use triodion.Errors.{CollectError}
use triodion.Batch.Grouping.{chunks}
use triodion.Batch.Override.{
  StateReader, AccountOverride, request, calldata, be_bytes, from_be_bytes, uses_sentinel,
  sentinel_slot, sentinel_value, decode_response, overrides, call_target, row_shadows_override,
}
use triodion.Batch.OverrideAnswers.{Proves, decode_response-Proves}
use triodion.Batch.OverrideWords.{Sized, chunks-words}

module _ {P R : Type 0} (show_word : Bytes → String) (reader : StateReader)
    (input_word : P → CollectError ⊎ ℕ) (decode_row : P → Bytes → CollectError ⊎ R)
    (call : Bytes → Bytes → AccountOverride → CollectError ⊎ Bytes) where
  -- `batch.iter().zip(values).map(..).collect()`
  unfoldable pub decode_zipped : List P → List Bytes → Outcome CollectError (List R)
  decode_zipped [] values = ok []
  decode_zipped (p ∷ ps) [] = ok []
  decode_zipped (p ∷ ps) (v ∷ values) =
      let rest = decode_zipped ps values in do r ← returned (decode_row p v); rs ← rest; ok (r ∷ rs)

  unfoldable pub extractor_batch : Bytes → List P → Outcome CollectError (List R)
  unfolding decode_zipped request try_map
  extractor_batch target batch = do
    words ← try_map (λ p. returned (input_word p)) batch
    let (call_data, over, to) = request reader target words
    output ← returned (call to call_data over)
    values ← decode_response show_word reader output (length batch)
    decode_zipped batch values

pub length-be_bytes : (width n : ℕ) → length (be_bytes width n) ≡ width
unfolding be_bytes
length-be_bytes zero n = refl
length-be_bytes (suc width) n = omega (
  arith,
  length-append (be_bytes width (n / 256)) (n % 256 ∷ []),
  length-be_bytes width (n / 256),
)

pub slot_word : be_bytes 32 (from_be_bytes sentinel_slot) ≡ sentinel_slot
unfolding be_bytes
slot_word = refl

calldata-words : (words : List ℕ) → calldata words ≡ concat (map (be_bytes 32) words)
unfolding calldata
calldata-words [] = refl
calldata-words (word ∷ words) = ap (λ xs. be_bytes 32 word ++ xs) (calldata-words words)

pub Sized-map :
    {A : Type 0} (f : A → Bytes) (n : ℕ)
    → ((a : A) → length (f a) ≡ n)
    → (xs : List A) → Sized n (map f xs)
Sized-map f n h [] = tt
Sized-map f n h (x ∷ xs) = (h x, Sized-map f n h xs)

-- The words of the call data, as the extractor reads them.
pub chunks-calldata : (words : List ℕ) → chunks 32 (calldata words) ≡ map (be_bytes 32) words
chunks-calldata words =
    ap (chunks 32) (calldata-words words)
    ∙ chunks-words 32 (omega arith) (map (be_bytes 32) words)
        (Sized-map (be_bytes 32) 32 (length-be_bytes 32) words)

module _ {P R : Type 0} (show_word : Bytes → String) (reader : StateReader)
    (input_word : P → CollectError ⊎ ℕ) (decode_row : P → Bytes → CollectError ⊎ R)
    (call : Bytes → Bytes → AccountOverride → CollectError ⊎ Bytes) (target : Bytes) (word : P → ℕ)
    (words_given : (p : P) → input_word p ≡ inr (word p)) (read chain : Bytes → Bytes)
    (read_size : (w : Bytes) → length (read w) ≡ 32)
    (runs : (bytes : Bytes)
      → call (call_target reader target) bytes (overrides reader target)
        ≡ inr (concat (map read (chunks 32 bytes))))
    (reads_sentinel : uses_sentinel reader ≡ true → read sentinel_slot ≡ sentinel_value)
    (reads_chain : (n : ℕ)
      → row_shadows_override reader n ≡ false
      → read (be_bytes 32 n) ≡ chain (be_bytes 32 n)) where
  abbrev value_of : P → Bytes
  value_of p = read (be_bytes 32 (word p))

  -- the answer to a batch
  abbrev answer_to : List ℕ → Bytes
  answer_to words = concat (
      map read (
        chunks 32 (
          calldata
            (words ++ (if uses_sentinel reader then from_be_bytes sentinel_slot ∷ [] else [])))))

  abbrev slot_if_used : List ℕ
  slot_if_used = if uses_sentinel reader then from_be_bytes sentinel_slot ∷ [] else []

  read_words :
      (batch : List P) (more : List ℕ)
      → concat (map read (map (be_bytes 32) (map word batch ++ more)))
        ≡ concat (map value_of batch) ++ concat (map read (map (be_bytes 32) more))
  read_words [] more = refl
  read_words (p ∷ ps) more =
      ap (λ xs. value_of p ++ xs) (read_words ps more)
      ∙ sym (append_assoc (value_of p) (concat (map value_of ps)) _)

  read_slot :
      concat (map read (map (be_bytes 32) slot_if_used))
      ≡ (if uses_sentinel reader then sentinel_value else [])
  read_slot = elim (Bool-cases (uses_sentinel reader)) [
    | inl sentinel ↦ rw (sentinel) (append-nil _ ∙ ap read slot_word ∙ reads_sentinel sentinel)
    | inr plain ↦ rw (plain) refl
  ]

  pub answer-Proves :
      (batch : List P)
      → Proves show_word reader (length batch) (answer_to (map word batch)) (map value_of batch)
  answer-Proves batch = (
    Sized-map value_of 32 (λ p. read_size (be_bytes 32 (word p))) batch,
    length-map value_of batch,
    ap (λ ws. concat (map read ws)) (chunks-calldata (map word batch ++ slot_if_used))
        ∙ read_words batch slot_if_used
        ∙ ap (λ xs. concat (map value_of batch) ++ xs) read_slot,
  )

  unshadowed :
      (batch : List P)
      → All (λ p. row_shadows_override reader (word p) ≡ false) batch
      → decode_zipped show_word reader input_word decode_row call batch (map value_of batch)
        ≡ try_map (λ p. returned (decode_row p (chain (be_bytes 32 (word p))))) batch
  unfolding decode_zipped try_map
  unshadowed [] h = refl
  unshadowed (p ∷ ps) (k, h) = rw (unshadowed ps h, reads_chain (word p) k) refl

  -- If the node runs the injected extractor, which replaces every 32-byte word of the call data by what
  -- the reader's opcode reads for it, if the overridden slot reads its value, and if the override changes
  -- nothing that a row that is not shadowed reads, then a batch of such rows, fewer than 2^58, decodes
  -- each row from the chain's value for its own word.
  pub extractor_batch-reads :
      (batch : List P)
      → length batch < 2 ^ 58
      → All (λ p. row_shadows_override reader (word p) ≡ false) batch
      → extractor_batch show_word reader input_word decode_row call target batch
        ≡ try_map (λ p. returned (decode_row p (chain (be_bytes 32 (word p))))) batch
  unfolding extractor_batch request
  extractor_batch-reads batch small h =
      rw
        (
          try_map-ok (λ p. returned (input_word p)) word (λ p. ap returned (words_given p)) batch,
          runs (
              calldata (
                map word batch
                ++ (if uses_sentinel reader then from_be_bytes sentinel_slot ∷ [] else []))),
          decode_response-Proves show_word reader (answer_to (map word batch)) (length batch)
              (map value_of batch) small (answer-Proves batch),
        )
        (unshadowed batch h)
