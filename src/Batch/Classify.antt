-- ===== src/Batch/Classify.antt =====
-- How the program reads the failures of the node: `is_throttle`, `call_outcome` and `contract_read` of
-- crates/freeze/src/types/errors.rs, `batch_may_shrink_to_fit` of multicall.rs, `batch_too_large` of
-- sources.rs, and `override_unavailable` of state_override.rs.
use triodion.Prelude.{
  ℕ, String, Bool, true, false, ◌||◌, Option, none, some, List, [], ◌∷◌, ◌⊎◌, inl, inr, ◌==◌,
  if◌then◌else◌,
}
use triodion.Prelude.Chars.{lower_contains}
use triodion.Prelude.Text.{starts_with}
use triodion.Errors.{
  CollectError, collect_error, provider_error, parse_failed, RpcError, ErrorPayload,
}

-- `fragments.iter().any(|fragment| message.contains(fragment))`, for a lower-case message
unfoldable pub contains_any : String → List String → Bool
contains_any message [] = false
contains_any message (f ∷ fs) = lower_contains message f || contains_any message fs

abbrev pub retries_exhausted : String
retries_exhausted = "Max retries exceeded"

unfoldable pub is_throttle : RpcError → Bool
is_throttle error =
    elim error.as_error_resp [ none ↦ false | some payload ↦ payload.is_retry_err ]
    || elim error.custom_cause [ none ↦ false | some cause ↦ starts_with cause retries_exhausted ]

pub data CallOutcome : Type 0 where
  contract_refused node_failed : CallOutcome

abbrev pub evm_failure_messages : List String
evm_failure_messages =
    "revert" ∷ "invalid opcode" ∷ "invalid jump" ∷ "out of gas" ∷ "stack underflow"
    ∷ "stack limit reached" ∷ "return data out of bounds" ∷ "max call depth exceeded"
    ∷ "gas uint64 overflow" ∷ "nonce uint64 overflow" ∷ "write protection" ∷ "invalid code"
    ∷ "max code size exceeded" ∷ "contract address collision" ∷ []

-- the outcome that an error response stands for
unfoldable pub payload_outcome : ErrorPayload → CallOutcome
payload_outcome payload =
    if payload.is_retry_err
    then node_failed
    else if payload.code_is_revert
    then contract_refused
    else if contains_any payload.message evm_failure_messages
    then contract_refused
    else node_failed

unfoldable pub call_outcome : CollectError → CallOutcome
unfolding payload_outcome
call_outcome (provider_error rpc_err) = elim rpc_err.as_error_resp [
  | none ↦ node_failed
  | some payload ↦ payload_outcome payload
]
call_outcome _ = node_failed

unfoldable pub contract_read : {T : Type 0} → CollectError ⊎ T → CollectError ⊎ Option T
unfolding call_outcome
contract_read (inr value) = inr (some value)
contract_read (inl e) = elim (call_outcome e) [ contract_refused ↦ inr none | node_failed ↦ inl e ]

abbrev pub size_complaints : List String
size_complaints =
    "too large" ∷ "too big" ∷ "exceeds" ∷ "exceeded" ∷ "limit" ∷ "timeout" ∷ "timed out"
    ∷ "out of gas" ∷ "gas required exceeds" ∷ []

unfoldable pub batch_may_shrink_to_fit : CollectError → Bool
unfolding is_throttle contains_any
batch_may_shrink_to_fit (provider_error rpc_err) =
    if is_throttle rpc_err then false else elim rpc_err.as_error_resp [
      | none ↦ true
      | some payload ↦ contains_any payload.message size_complaints
    ]
batch_may_shrink_to_fit _ = true

-- the verdict of the HTTP status, if it has one
abbrev pub status_verdict : Option ℕ → Option Bool
status_verdict none = none
status_verdict (some status) =
    if status == 413 then some true else if status == 401 || status == 403 then some false else none

unfoldable pub batch_too_large : RpcError → Bool
unfolding is_throttle
batch_too_large error = elim (status_verdict error.http_status) [
  | some verdict ↦ verdict
  | none ↦ if is_throttle error then false else lower_contains error.printed "batch"
]

abbrev pub override_complaints : List String
override_complaints =
    "the endpoint ignored the eth_call state override" ∷ "state-override sentinel mismatch"
    ∷ "too many arguments" ∷ "state override" ∷ "stateoverride" ∷ "state_override" ∷ []

unfoldable pub override_unavailable : CollectError → Bool
unfolding contains_any
override_unavailable (collect_error message) = contains_any message override_complaints
override_unavailable (provider_error rpc_err) = elim rpc_err.as_error_resp [
  | none ↦ false
  | some payload ↦ contains_any payload.message override_complaints
]
override_unavailable (parse_failed e) = false
