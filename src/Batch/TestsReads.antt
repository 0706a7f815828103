-- ===== src/Batch/TestsReads.antt =====
-- Inputs at which the theorems on the readers of many slots apply: a contract with 7 in every slot but the
-- sentinel's, which has 9.
use triodion.Prelude.{
  ℕ, ◌≡◌, refl, sym, ap, ◌∙◌, String, Bool, false, none, List, [], ◌∷◌, map, length, replicate,
  concat, ◌⊎◌, inl, inr, ◌==◌, if◌then◌else◌, Bool-cases, when_true, when_false, arith,
}
use triodion.Prelude.Order.{Bytes}
use triodion.Prelude.Outcome.{ok}
use triodion.Errors.{CollectError}
use triodion.Batch.Grouping.{chunks}
use triodion.Batch.Override.{
  storage, AccountOverride, sentinel_value, be_bytes, overrides, call_target, from_be_bytes,
  sentinel_slot, refuses_target, same_bytes,
}
use triodion.Batch.Support.{OverrideSupport, default_support}
use triodion.Batch.Reads.{get_storage_at_many, read_storage_slots}
use triodion.Batch.ReadsSlots.{get_storage_at_many-seen, read_storage_slots-value_at}

abbrev hex : Bytes → String
hex bytes = "0x"

abbrev contract_address : Bytes
contract_address = replicate 20 170

abbrev is_sentinel : ℕ → Bool
is_sentinel n = same_bytes (be_bytes 32 n) sentinel_slot

abbrev stored : ℕ → ℕ
stored n =
    if n == from_be_bytes sentinel_slot
    then 9
    else if is_sentinel n
    then from_be_bytes sentinel_value
    else 7

abbrev read : Bytes → Bytes
read w = if same_bytes w sentinel_slot then sentinel_value else be_bytes 32 7

read_size : (w : Bytes) → length (read w) ≡ 32
unfolding be_bytes
read_size w = elim (Bool-cases (same_bytes w sentinel_slot)) [
  | inl same ↦ ap length (when_true _ _ same)
  | inr other ↦ ap length (when_false _ _ other)
]

sentinel_bytes : sentinel_value ≡ be_bytes 32 (from_be_bytes sentinel_value)
unfolding be_bytes
sentinel_bytes = refl

reads_stored :
    (n : ℕ)
    → (n == from_be_bytes sentinel_slot) ≡ false
    → read (be_bytes 32 n) ≡ be_bytes 32 (stored n)
unfolding be_bytes
reads_stored n h =
    let outer =
      ap (be_bytes 32)
        (when_false 9 (if is_sentinel n then from_be_bytes sentinel_value else 7) h) in
    elim (Bool-cases (is_sentinel n)) [
      | inl same ↦
          when_true _ _ same ∙ sentinel_bytes ∙ sym (outer ∙ ap (be_bytes 32) (when_true _ _ same))
      | inr other ↦ when_false _ _ other ∙ sym (outer ∙ ap (be_bytes 32) (when_false _ _ other))
    ]

runs_reads : Bytes → Bytes → AccountOverride → CollectError ⊎ Bytes
runs_reads to bytes over = inr (concat (map read (chunks 32 bytes)))

runs_reads-runs :
    (bytes : Bytes)
    → runs_reads (call_target storage contract_address) bytes (overrides storage contract_address)
      ≡ inr (concat (map read (chunks 32 bytes)))
unfolding runs_reads
runs_reads-runs bytes = refl

abbrev slot_of : Bytes → ℕ → CollectError ⊎ ℕ
slot_of address n = inr (stored n)

abbrev no_balance : Bytes → CollectError ⊎ ℕ
no_balance address = inr 0

abbrev two_slots : List ℕ
two_slots = 1 ∷ from_be_bytes sentinel_slot ∷ []

not_refused : refuses_target storage contract_address ≡ none
unfolding refuses_target
not_refused = refl

get_storage_at_many-seen_example :
    get_storage_at_many hex hex runs_reads slot_of no_balance contract_address two_slots
    ≡ ok (be_bytes 32 7 ∷ sentinel_value ∷ [])
unfolding be_bytes
get_storage_at_many-seen_example =
    get_storage_at_many-seen hex hex runs_reads slot_of no_balance contract_address stored read
      read_size runs_reads-runs refl reads_stored two_slots (omega arith) not_refused

read_storage_slots-value_at_example :
    (after : OverrideSupport) × (read_storage_slots hex hex runs_reads slot_of no_balance
        contract_address
        (1 ∷ 2 ∷ [])
        default_support
      ≡ ok (after, be_bytes 32 7 ∷ be_bytes 32 7 ∷ []))
unfolding be_bytes
read_storage_slots-value_at_example =
    read_storage_slots-value_at hex hex runs_reads slot_of no_balance contract_address stored read
      read_size runs_reads-runs refl reads_stored (λ slot. refl) (1 ∷ 2 ∷ []) default_support
      (refl, (refl, tt))
