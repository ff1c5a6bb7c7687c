-- ===== src/Http.antt =====
-- What the handlers of nem_pay/api/internal/httpapi answer: the error envelope of errors.go, and what
-- a handler writes. Texts that are for people only (`message`) are left out.
pub mod Keys
pub mod Fingerprint
pub mod Idempotency
pub mod Query
pub mod Intents
pub mod Tokens
pub mod Auth
pub mod Portal
use Prim.Native.String.{String}
use monorepo_payment.Base.{ℕ, Bytes, Option}
use monorepo_payment.Db.{Uuid}

-- The error types of errors.go.
pub data ErrorType : Type 0 where
  invalid_request_error authentication_error idempotency_error not_found_error api_error : ErrorType

-- `apiError`, with the status that goes with it; no `param` is the empty string.
pub record ApiError : Type 0 where
  pub status : ℕ
  pub type : ErrorType
  pub code : String
  pub param : String

abbrev pub respond_error : ℕ → ErrorType → String → String → ApiError
respond_error status type code param = record {
  status = status;
  type = type;
  code = code;
  param = param;
}
