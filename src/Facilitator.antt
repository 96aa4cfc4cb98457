-- ===== src/Facilitator.antt =====
-- r402/src/facilitator.rs: the interface of a facilitator, and its errors. A call reads and changes
-- a world, which stands for the chain, the network and whatever else the handler touches.
use Prim.Native.String.{◌++◌}
use r.Base.{String, none, some, Outcome}
use r.Proto.Error.{PaymentVerificationError, ErrorReason, PaymentProblem, as_str}
use r.Proto.Error
use r.Proto.Verify.{VerifyResponse, invalid}
use r.Proto.Settle.{SettleResponse, error}
use r.Proto.V2.{SupportedResponse}

-- A boxed error counts by its text.
pub data FacilitatorError : Type 0 where
  payment_verification : PaymentVerificationError → FacilitatorError
  onchain_failure : String → FacilitatorError
  aborted : String → String → FacilitatorError
  other : String → FacilitatorError

-- `Display`, as derived from the `#[error]` attributes.
unfoldable pub to_string : FacilitatorError → String
to_string (payment_verification e) = Error.to_string e
to_string (onchain_failure e) = "Onchain error: " ++ e
to_string (aborted reason message) = reason ++ (": " ++ message)
to_string (other e) = e

-- `AsPaymentProblem for FacilitatorError`
unfoldable pub as_payment_problem : FacilitatorError → PaymentProblem
as_payment_problem (payment_verification e) = Error.as_payment_problem e
as_payment_problem (onchain_failure e) = record {
  reason = ErrorReason.unexpected_error;
  details = e;
}
as_payment_problem (aborted reason message) = record {
  reason = ErrorReason.unexpected_error;
  details = reason ++ (": " ++ message);
}
as_payment_problem (other e) = record { reason = ErrorReason.unexpected_error; details = e }

-- `VerifyResponse::from_facilitator_error`
unfoldable pub verify_response_of_error : FacilitatorError → VerifyResponse
verify_response_of_error e =
    let problem = as_payment_problem e in
    invalid (as_str problem.reason) (some problem.details) none

-- `SettleResponse::from_facilitator_error`
unfoldable pub settle_response_of_error :
    {Value : Type 0} → FacilitatorError → String → SettleResponse Value
settle_response_of_error e network =
    let problem = as_payment_problem e in
    error (as_str problem.reason) (some problem.details) none network

-- The trait `Facilitator`, over requests that are JSON values.
pub record Facilitator (World Value : Type 0) : Type 0 where
  pub verify : Value → World → Outcome VerifyResponse FacilitatorError × World
  pub settle : Value → World → Outcome (SettleResponse Value) FacilitatorError × World
  pub supported : World → Outcome (SupportedResponse Value) FacilitatorError × World
