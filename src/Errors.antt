-- ===== src/Errors.antt =====
-- crates/freeze/src/types/errors.rs: the error variants that the modelled code builds, and what it
-- reads of an error of the provider library.
use triodion.Prelude.{ℕ, Bool, Option, String}

pub data ParseError : Type 0 where
  parse_error : String → ParseError

-- The error response of a JSON-RPC call: whether its code is that of a revert, the message, and
-- whether the library classifies it as one to retry.
pub record ErrorPayload : Type 0 where
  pub code_is_revert : Bool
  pub message : String
  pub is_retry_err : Bool

-- What the program reads of an `RpcError` of the provider library: the error response, the status of
-- an HTTP error, the cause of a custom transport error, and the printed error, plain (`{}`) and with its structure
-- (`{:?}`).
pub record RpcError : Type 0 where
  pub as_error_resp : Option ErrorPayload
  pub http_status : Option ℕ
  pub custom_cause : Option String
  pub printed : String
  pub debug : String

pub data CollectError : Type 0 where
  collect_error : String → CollectError
  parse_failed : ParseError → CollectError
  provider_error : RpcError → CollectError
