-- ===== src/Batch/TestsOverride.antt =====
-- Inputs at which the theorems on the state-override extractor apply.
use mathlib.Core.List.{append-nil}
use mathlib.Core.Path.{subst}
use triodion.Prelude.{
  ℕ, ◌≡◌, refl, sym, ap, ◌∙◌, String, true, false, List, [], ◌∷◌, ◌++◌, map, concat, length,
  replicate, All, ◌⊎◌, inl, inr, ◌==◌, if◌then◌else◌, Bool-cases, arith,
}
use triodion.Prelude.Order.{Bytes}
use triodion.Prelude.Outcome.{try_map, returned, inr_inj}
use triodion.Errors.{CollectError, collect_error}
use triodion.Batch.Grouping.{chunks}
use triodion.Batch.Override.{
  storage, balance, AccountOverride, sentinel_value, decode_response, be_bytes, uses_sentinel,
  row_shadows_override, overrides, call_target, calldata, from_be_bytes, sentinel_slot,
}
use triodion.Batch.OverrideAnswers.{Verified, Proves, decode_response-Verified, proven_plain}
use triodion.Batch.OverrideWords.{chunks-words}
use triodion.Batch.Extractor.{extractor_batch, extractor_batch-reads, Sized-map, chunks-calldata}
use triodion.Batch.Fallback.{StateOverrideBatchable, extractor_batch_with_fallback}
use triodion.Batch.FallbackEnds.{Ends, extractor_batch_with_fallback-Ends}

abbrev no_hex : Bytes → String
no_hex bytes = "0x"

-- A storage answer whose only word is followed by the sentinel's value.
abbrev one_word_answer : Bytes
one_word_answer = replicate 32 7 ++ sentinel_value

decode_response-Verified_example :
    Verified no_hex storage 1 one_word_answer (decode_response no_hex storage one_word_answer 1)
decode_response-Verified_example =
    decode_response-Verified no_hex storage one_word_answer 1 (omega arith)

-- the word of a row, and the row and the first byte of its value
abbrev word_given : ℕ → CollectError ⊎ ℕ
word_given p = inr p

abbrev keep_value : ℕ → Bytes → CollectError ⊎ (ℕ × Bytes)
keep_value p value = inr (p, value)

abbrev token : Bytes
token = replicate 20 170

-- A contract with the same value in every slot.
abbrev same_everywhere : Bytes → Bytes
same_everywhere slot = sentinel_value

runs_extractor : Bytes → Bytes → AccountOverride → CollectError ⊎ Bytes
runs_extractor to bytes over = inr (concat (map same_everywhere (chunks 32 bytes)))

runs_extractor-runs :
    (bytes : Bytes)
    → runs_extractor (call_target storage token) bytes (overrides storage token)
      ≡ inr (concat (map same_everywhere (chunks 32 bytes)))
unfolding runs_extractor
runs_extractor-runs bytes = refl

clear_rows : All (λ p. row_shadows_override storage p ≡ false) (1 ∷ 2 ∷ [])
unfolding row_shadows_override
clear_rows = (refl, (refl, tt))

extractor_batch-reads_example :
    extractor_batch no_hex storage word_given keep_value runs_extractor token (1 ∷ 2 ∷ [])
    ≡ try_map (λ p. returned (keep_value p (same_everywhere (be_bytes 32 p)))) (1 ∷ 2 ∷ [])
extractor_batch-reads_example =
    extractor_batch-reads no_hex storage word_given keep_value runs_extractor token (λ p. p)
      (λ p. refl) same_everywhere same_everywhere (λ w. refl) runs_extractor-runs (λ h. refl)
      (λ n h. refl) (1 ∷ 2 ∷ []) (omega arith) clear_rows

-- Balances that are all the same, from a node whose first answer is an error.
abbrev empty_balance : Bytes → Bytes
empty_balance account = replicate 32 0

abbrev balances : StateOverrideBatchable ℕ (ℕ × Bytes)
balances = record {
  reader = balance;
  input_word = word_given;
  decode_row = keep_value;
  extract = λ n p. inr (p, replicate 32 0);
}

second_try : ℕ → Bytes → Bytes → AccountOverride → CollectError ⊎ Bytes
second_try n to bytes over =
    if n == 0
    then inl (collect_error "dropped")
    else inr (concat (map empty_balance (chunks 32 bytes)))

no_sentinel : uses_sentinel balance ≡ false
unfolding uses_sentinel
no_sentinel = refl

second_try-answers :
    (n : ℕ) (to bytes answer : Bytes) (over : AccountOverride)
    → second_try n to bytes over ≡ inr answer
    → answer ≡ concat (map empty_balance (chunks 32 bytes))
unfolding second_try
second_try-answers n to bytes answer over h = elim (Bool-cases (n == 0)) [
  | inl first ↦
      let failed : second_try n to bytes over ≡ inl (collect_error "dropped") = rw (first) refl in
      absurd cc
  | inr later ↦
      let answered : second_try n to bytes over
          ≡ inr (concat (map empty_balance (chunks 32 bytes))) =
        rw (later) refl in
      cc
]

twice :
    (words : List ℕ)
    → map empty_balance (map (be_bytes 32) words) ≡ map (λ w. empty_balance (be_bytes 32 w)) words
twice [] = refl
twice (w ∷ words) = ap (◌∷◌ (empty_balance (be_bytes 32 w))) (twice words)

empty_balances :
    (words : List ℕ)
    → map empty_balance (chunks 32 (calldata (words ++ [])))
      ≡ map (λ w. empty_balance (be_bytes 32 w)) words
empty_balances words =
    ap (λ ws. map empty_balance (chunks 32 (calldata ws))) (append-nil words)
    ∙ ap (map empty_balance) (chunks-calldata words)
    ∙ twice words

second_try-honest :
    (n : ℕ) (words : List ℕ) (bytes : Bytes) (values : List Bytes)
    → second_try n
        (call_target balance token)
        (calldata
          (words ++ (if uses_sentinel balance then from_be_bytes sentinel_slot ∷ [] else [])))
        (overrides balance token)
      ≡ inr bytes
    → Proves no_hex balance (length words) bytes values
    → values ≡ map (λ w. empty_balance (be_bytes 32 w)) words
unfolding uses_sentinel
second_try-honest n words bytes values h proof =
    let answer = second_try-answers n _ _ bytes _ h in
    let whole = answer ∙ ap concat (empty_balances words) in
    sym (proven_plain no_hex balance bytes (length words) values no_sentinel proof)
    ∙ ap (chunks 32) whole
    ∙ chunks-words 32 (omega arith) (map (λ w. empty_balance (be_bytes 32 w)) words)
        (Sized-map (λ w. empty_balance (be_bytes 32 w)) 32 (λ w. refl) words)

clear_accounts :
    (p w : ℕ)
    → ◌≡◌ {A = CollectError ⊎ ℕ} (inr p) (inr w)
    → row_shadows_override balance p ≡ false
    → row_shadows_override balance w ≡ false
clear_accounts p w e h = subst (λ n. row_shadows_override balance n ≡ false) (inr_inj e) h

one_is_clear : row_shadows_override balance 1 ≡ false
unfolding row_shadows_override
one_is_clear = refl

two_is_clear : row_shadows_override balance 2 ≡ false
unfolding row_shadows_override
two_is_clear = refl

extractor_batch_with_fallback-Ends_example : Ends balances empty_balance (1 ∷ 2 ∷ []) [] (
    extractor_batch_with_fallback no_hex balances second_try
      (λ n. true)
      token
      (λ n. true)
      (1 ∷ 2 ∷ []))
extractor_batch_with_fallback-Ends_example =
    extractor_batch_with_fallback-Ends no_hex balances second_try (λ n. true) token empty_balance
      empty_balance (λ n h. refl) second_try-honest (λ n. true) (1 ∷ 2 ∷ [])
      (
        omega arith,
        omega arith,
        (
          λ w e. clear_accounts 1 w e one_is_clear,
          ((λ w e. clear_accounts 2 w e two_is_clear), tt),
        ),
      )
