-- ===== src/Partitions/CallParams.antt =====
-- crates/freeze/src/types/rpc_params.rs: what a dataset reads of the parameters of a call, the log filter that
-- is sent for them, and the test of a log that another filter found.
use triodion.Prelude.{
  ℕ, ◌-◌, String, Bool, true, false, ◌&&◌, Option, none, some, List, [], ◌∷◌, ◌++◌, length,
  replicate, get_elem?, ◌⊎◌, inl, inr, leb, ◌==◌, if◌then◌else◌,
}
use triodion.Prelude.Order.{Bytes}
use triodion.Prelude.Outcome.{and_then}
use triodion.Prelude.Text.{append, decimal}
use triodion.Errors.{CollectError, collect_error}
use triodion.Partitions.Types.{Params}

-- `ok_or(err(message))`
abbrev pub or_missing : {A : Type 0} → Option A → String → CollectError ⊎ A
or_missing none message = inl (collect_error message)
or_missing (some a) message = inr a

unfoldable pub block_number : Params → CollectError ⊎ ℕ
block_number p = or_missing p.block_number "block_number not specified"

unfoldable pub block_range : Params → CollectError ⊎ (ℕ × ℕ)
block_range p = or_missing p.block_range "block_range not specified"

unfoldable pub transaction_hash : Params → CollectError ⊎ Bytes
transaction_hash p = or_missing p.transaction_hash "transaction not specified"

unfoldable pub address : Params → CollectError ⊎ Bytes
address p = or_missing p.address "address not specified"

unfoldable pub contract : Params → CollectError ⊎ Bytes
contract p = or_missing p.contract "contract not specified"

unfoldable pub slot : Params → CollectError ⊎ Bytes
slot p = or_missing p.slot "slot not specified"

unfoldable pub call_data : Params → CollectError ⊎ Bytes
call_data p = or_missing p.call_data "call_data not specified"

unfoldable pub from_address : Params → CollectError ⊎ Bytes
from_address p = or_missing p.from_address "from_address not specified"

unfoldable pub to_address : Params → CollectError ⊎ Bytes
to_address p = or_missing p.to_address "to_address not specified"

-- the error for a value of another width
unfoldable pub wrong_width : ℕ → Bytes → String → CollectError
unfolding decimal
wrong_width width bytes name = collect_error (
    append name (
      append " must be " (append (decimal width) (append " bytes, got " (decimal (length bytes))))))

-- to a type of `width` bytes
unfoldable pub fixed_from_slice : ℕ → Bytes → String → CollectError ⊎ Bytes
unfolding wrong_width
fixed_from_slice width bytes name =
    if length bytes == width then inr bytes else inl (wrong_width width bytes name)

unfoldable pub ethers_block_number : Params → CollectError ⊎ ℕ
unfolding block_number
ethers_block_number p = block_number p

unfoldable pub ethers_transaction_hash : Params → CollectError ⊎ Bytes
unfolding fixed_from_slice transaction_hash
ethers_transaction_hash p =
    and_then (transaction_hash p) (λ bytes. fixed_from_slice 32 bytes "transaction_hash")

unfoldable pub ethers_address : Params → CollectError ⊎ Bytes
unfolding fixed_from_slice address
ethers_address p = and_then (address p) (λ bytes. fixed_from_slice 20 bytes "address")

unfoldable pub ethers_contract : Params → CollectError ⊎ Bytes
unfolding fixed_from_slice contract
ethers_contract p = and_then (contract p) (λ bytes. fixed_from_slice 20 bytes "contract")

unfoldable pub ethers_from_address : Params → CollectError ⊎ Bytes
unfolding fixed_from_slice from_address
ethers_from_address p =
    and_then (from_address p) (λ bytes. fixed_from_slice 20 bytes "from_address")

unfoldable pub ethers_to_address : Params → CollectError ⊎ Bytes
unfolding fixed_from_slice to_address
ethers_to_address p = and_then (to_address p) (λ bytes. fixed_from_slice 20 bytes "to_address")

-- What the program sets of a filter of the provider library.
pub record Filter : Type 0 where
  pub from_block : ℕ
  pub to_block : ℕ
  pub address : Option Bytes
  pub event_signature : Option Bytes
  pub topic1 : Option Bytes
  pub topic2 : Option Bytes
  pub topic3 : Option Bytes

-- `if let Some(bytes) = want`, with the value of the filter's field
unfoldable pub field_of : ℕ → Option Bytes → String → CollectError ⊎ Option Bytes
unfolding fixed_from_slice
field_of width none name = inr none
field_of width (some bytes) name = and_then (fixed_from_slice width bytes name) (λ v. inr (some v))

unfoldable pub ethers_log_filter : Params → CollectError ⊎ Filter
unfolding block_range field_of
ethers_log_filter p = and_then (block_range p) (λ range.
    and_then (field_of 20 p.address "address") (λ a. and_then (field_of 32 p.topic0 "topic0") (λ t0.
      and_then (field_of 32 p.topic1 "topic1") (λ t1.
        and_then (field_of 32 p.topic2 "topic2") (λ t2.
          and_then (field_of 32 p.topic3 "topic3") (λ t3. inr (record {
            from_block = range.0;
            to_block = range.1;
            address = a;
            event_signature = t0;
            topic1 = t1;
            topic2 = t2;
            topic3 = t3;
          })))))))

-- What the program reads of a log.
pub record Log : Type 0 where
  pub block : ℕ
  pub address : Bytes
  pub topics : List Bytes

abbrev pub equal_bytes : Bytes → Bytes → Bool
equal_bytes [] [] = true
equal_bytes [] (y ∷ ys) = false
equal_bytes (x ∷ xs) [] = false
equal_bytes (x ∷ xs) (y ∷ ys) = x == y && equal_bytes xs ys

unfoldable pub log_address_matches : Log → Option Bytes → Bool
log_address_matches log none = true
log_address_matches log (some bytes) = length bytes == 20 && equal_bytes log.address bytes

abbrev pub topic_is : Option Bytes → Bytes → Bool
topic_is none bytes = false
topic_is (some topic) bytes = equal_bytes topic bytes

unfoldable pub topic_matches : Log → ℕ → Option Bytes → Bool
topic_matches log i none = true
topic_matches log i (some bytes) = topic_is (get_elem? log.topics i) bytes

unfoldable pub address_dim_as_topic : Bytes → Option Bytes
address_dim_as_topic bytes =
    if leb (length bytes) 32 then some (replicate (32 - length bytes) 0 ++ bytes) else none

unfoldable pub address_topic_matches : Log → ℕ → Option Bytes → Bool
unfolding address_dim_as_topic
address_topic_matches log i none = true
address_topic_matches log i (some bytes) = elim (address_dim_as_topic bytes) [
  | none ↦ false
  | some topic ↦ topic_is (get_elem? log.topics i) topic
]

-- `matches_logs` of crates/freeze/src/multi_datasets/log_events.rs
unfoldable pub matches_logs : Log → Params → Bool
unfolding topic_matches
matches_logs log p =
    topic_matches log 0 p.topic0
    && (topic_matches log 1 p.topic1
        && (topic_matches log 2 p.topic2 && topic_matches log 3 p.topic3))
