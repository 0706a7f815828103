-- ===== src/Batch/Reads.antt =====
-- The readers of many words of crates/freeze/src/types/sources.rs: one request with a state override where
-- the endpoint allows it, and one request per word where it does not. `call`, `get_storage_at` and
-- `get_balance` are what the node answers at one block. One caller runs alone, so the verdict does not
-- change while it waits at the gate of the first attempt.
use triodion.Prelude.{
  ℕ, ◌-◌, ◌^◌, min, String, Option, none, some, List, [], ◌∷◌, ◌++◌, map, length, replicate, ◌⊎◌,
  inr, if◌then◌else◌,
}
use triodion.Prelude.Order.{Bytes}
use triodion.Prelude.Outcome.{Outcome, ok, err, panic, diverge, ◌>>=◌, try_map, returned, and_then}
use triodion.Prelude.Text.{append}
use triodion.Errors.{CollectError, collect_error}
use triodion.Batch.Classify.{override_unavailable}
use triodion.Batch.Grouping.{chunks}
use triodion.Batch.Override.{
  StateReader, storage, balance, code_hash, code_size, AccountOverride, request, be_bytes,
  from_be_bytes, refuses_target, decode_response,
}
use triodion.Batch.Support.{
  OverrideSupport, worth_attempting, reset_failures, exchange_unknown, rule_out,
}

-- `Address::ZERO`
abbrev pub zero_address : Bytes
zero_address = replicate 20 0

abbrev pub default_batch_size : ℕ
default_batch_size = 1000

-- `{:?}` of a reader
unfoldable pub debug_name : StateReader → String
debug_name storage = "Storage"
debug_name balance = "Balance"
debug_name code_hash = "CodeHash"
debug_name code_size = "CodeSize"

-- `find_map` over the addresses: the first that the reader refuses, and why
unfoldable pub first_refused : StateReader → List Bytes → Option (Bytes × String)
unfolding refuses_target
first_refused reader [] = none
first_refused reader (a ∷ addresses) =
    let rest = first_refused reader addresses in
    elim (refuses_target reader a) [ some why ↦ some (a, why) | none ↦ rest ]

-- what the verdict becomes, and the values if the attempt has them
unfoldable pub try_batched :
    {T : Type 0}
    → OverrideSupport
    → Outcome CollectError (List T)
    → Outcome CollectError (OverrideSupport × Option (List T))
unfolding worth_attempting reset_failures exchange_unknown rule_out override_unavailable
try_batched support (ok values) =
    if worth_attempting support
    then ok (exchange_unknown (reset_failures support), some values)
    else ok (support, none)
try_batched support (err e) =
    if worth_attempting support
    then ok ((if override_unavailable e then rule_out support else support), none)
    else ok (support, none)
try_batched support panic = if worth_attempting support then panic else ok (support, none)
try_batched support diverge = if worth_attempting support then diverge else ok (support, none)

-- The loop over the chunks: each is read by one request, or one item at a time.
module _ {I T : Type 0} (batched : List I → Outcome CollectError (List T))
    (single : I → CollectError ⊎ T) where
  abbrev pub one_by_one : List I → Outcome CollectError (List T)
  one_by_one items = try_map (λ i. returned (single i)) items

  unfoldable pub read_loop :
      List (List I) → OverrideSupport → Outcome CollectError (OverrideSupport × List T)
  unfolding try_batched try_map
  read_loop [] support = ok (support, [])
  read_loop (chunk ∷ chunks) support = try_batched support (batched chunk) >>= λ tried.
      (elim tried.1 [ some values ↦ ok values | none ↦ one_by_one chunk ]) >>= λ values.
      read_loop chunks tried.0 >>= λ rest. ok (rest.0, values ++ rest.1)

module _ (show_word show_address : Bytes → String)
    (call : Bytes → Bytes → AccountOverride → CollectError ⊎ Bytes)
    (get_storage_at : Bytes → ℕ → CollectError ⊎ ℕ) (get_balance : Bytes → CollectError ⊎ ℕ) where
  unfoldable pub get_storage_at_many : Bytes → List ℕ → Outcome CollectError (List Bytes)
  unfolding refuses_target request decode_response
  get_storage_at_many address slots = elim (refuses_target storage address) [
    | some why ↦ err (
        collect_error (
          append "cannot batch-read storage at " (append (show_address address) (append ": " why))))
    | none ↦
        let (call_data, over, to) = request storage address slots in
        returned (call to call_data over) >>= λ output.
        decode_response show_word storage output (length slots)
  ]

  unfoldable pub read_storage_slots :
      Bytes → List ℕ → OverrideSupport → Outcome CollectError (OverrideSupport × List Bytes)
  unfolding get_storage_at_many read_loop chunks be_bytes
  read_storage_slots address slots support =
      read_loop (get_storage_at_many address)
        (λ slot. and_then (get_storage_at address slot) (λ word. inr (be_bytes 32 word)))
        (chunks default_batch_size slots) support

  unfoldable pub read_accounts_many : StateReader → List Bytes → Outcome CollectError (List Bytes)
  unfolding first_refused request decode_response debug_name
  read_accounts_many reader addresses = elim (first_refused reader addresses) [
    | some (clash, why) ↦ err (
        collect_error (
          append "cannot batch-read " (
            append (show_address clash)
              (append " with the " (append (debug_name reader) (append " extractor: " why))))))
    | none ↦
        let (call_data, over, to) = request reader zero_address (map from_be_bytes addresses) in
        returned (call to call_data over) >>= λ output.
        decode_response show_word reader output (length addresses)
  ]

  unfoldable pub get_balances_many : List Bytes → Outcome CollectError (List ℕ)
  unfolding read_accounts_many
  get_balances_many addresses =
      read_accounts_many balance addresses >>= λ words. ok (map from_be_bytes words)

  -- `saturating_to::<u64>()`
  unfoldable pub get_code_sizes_many : List Bytes → Outcome CollectError (List ℕ)
  unfolding read_accounts_many
  get_code_sizes_many addresses = read_accounts_many code_size addresses >>= λ words.
      ok (map (λ w. min (from_be_bytes w) (2 ^ 64 - 1)) words)

  unfoldable pub get_code_hashes_many : List Bytes → Outcome CollectError (List Bytes)
  unfolding read_accounts_many
  get_code_hashes_many addresses = read_accounts_many code_hash addresses

  unfoldable pub read_balances :
      List Bytes → OverrideSupport → Outcome CollectError (OverrideSupport × List ℕ)
  unfolding get_balances_many read_loop chunks
  read_balances addresses support =
      read_loop get_balances_many get_balance (chunks default_batch_size addresses) support
