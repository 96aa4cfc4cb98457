-- ===== src/Proto/Error.antt =====
-- r402/src/proto/error.rs: why a payment is refused, and the codes that report it.
use Prim.Native.String.{◌++◌}
use r.Base.{String}

pub data PaymentVerificationError : Type 0 where
  invalid_format : String → PaymentVerificationError
  invalid_payment_amount early expired chain_id_mismatch : PaymentVerificationError
  recipient_mismatch asset_mismatch insufficient_funds : PaymentVerificationError
  permit2_allowance_insufficient : PaymentVerificationError
  invalid_signature transaction_simulation : String → PaymentVerificationError
  unsupported_chain unsupported_scheme : PaymentVerificationError
  accepted_requirements_mismatch nonce_already_used : PaymentVerificationError

-- `Display`, as derived from the `#[error]` attributes.
unfoldable pub to_string : PaymentVerificationError → String
to_string (invalid_format e) = "Invalid format: " ++ e
to_string invalid_payment_amount =
    "Payment amount is invalid with respect to the payment requirements"
to_string early = "Payment authorization is not yet valid"
to_string expired = "Payment authorization is expired"
to_string chain_id_mismatch = "Payment chain id is invalid with respect to the payment requirements"
to_string recipient_mismatch =
    "Payment recipient is invalid with respect to the payment requirements"
to_string asset_mismatch = "Payment asset is invalid with respect to the payment requirements"
to_string insufficient_funds = "Onchain balance is not enough to cover the payment amount"
to_string permit2_allowance_insufficient =
    "Permit2 allowance is not enough to cover the payment amount"
to_string (invalid_signature e) = e
to_string (transaction_simulation e) = e
to_string unsupported_chain = "Unsupported chain"
to_string unsupported_scheme = "Unsupported scheme"
to_string accepted_requirements_mismatch = "Accepted does not match payment requirements"
to_string nonce_already_used = "Authorization nonce already used"

pub data ErrorReason : Type 0 where
  invalid_format invalid_payment_amount invalid_payment_early : ErrorReason
  invalid_payment_expired chain_id_mismatch recipient_mismatch asset_mismatch : ErrorReason
  accepted_requirements_mismatch invalid_signature transaction_simulation : ErrorReason
  insufficient_funds permit2_allowance_insufficient unsupported_chain : ErrorReason
  unsupported_scheme nonce_already_used unexpected_error : ErrorReason

unfoldable pub as_str : ErrorReason → String
as_str ErrorReason.invalid_format = "invalid_format"
as_str ErrorReason.invalid_payment_amount = "invalid_payment_amount"
as_str ErrorReason.invalid_payment_early = "invalid_payment_early"
as_str ErrorReason.invalid_payment_expired = "invalid_payment_expired"
as_str ErrorReason.chain_id_mismatch = "chain_id_mismatch"
as_str ErrorReason.recipient_mismatch = "recipient_mismatch"
as_str ErrorReason.asset_mismatch = "asset_mismatch"
as_str ErrorReason.accepted_requirements_mismatch = "accepted_requirements_mismatch"
as_str ErrorReason.invalid_signature = "invalid_signature"
as_str ErrorReason.transaction_simulation = "transaction_simulation"
as_str ErrorReason.insufficient_funds = "insufficient_funds"
as_str ErrorReason.permit2_allowance_insufficient = "permit2_allowance_insufficient"
as_str ErrorReason.unsupported_chain = "unsupported_chain"
as_str ErrorReason.unsupported_scheme = "unsupported_scheme"
as_str ErrorReason.nonce_already_used = "nonce_already_used"
as_str ErrorReason.unexpected_error = "unexpected_error"

pub record PaymentProblem : Type 0 where
  pub reason : ErrorReason
  pub details : String

abbrev pub reason_of : PaymentVerificationError → ErrorReason
reason_of (PaymentVerificationError.invalid_format _) = ErrorReason.invalid_format
reason_of PaymentVerificationError.invalid_payment_amount = ErrorReason.invalid_payment_amount
reason_of PaymentVerificationError.insufficient_funds = ErrorReason.insufficient_funds
reason_of PaymentVerificationError.permit2_allowance_insufficient =
    ErrorReason.permit2_allowance_insufficient
reason_of PaymentVerificationError.early = ErrorReason.invalid_payment_early
reason_of PaymentVerificationError.expired = ErrorReason.invalid_payment_expired
reason_of PaymentVerificationError.chain_id_mismatch = ErrorReason.chain_id_mismatch
reason_of PaymentVerificationError.recipient_mismatch = ErrorReason.recipient_mismatch
reason_of PaymentVerificationError.asset_mismatch = ErrorReason.asset_mismatch
reason_of (PaymentVerificationError.invalid_signature _) = ErrorReason.invalid_signature
reason_of (PaymentVerificationError.transaction_simulation _) = ErrorReason.transaction_simulation
reason_of PaymentVerificationError.unsupported_chain = ErrorReason.unsupported_chain
reason_of PaymentVerificationError.unsupported_scheme = ErrorReason.unsupported_scheme
reason_of PaymentVerificationError.accepted_requirements_mismatch =
    ErrorReason.accepted_requirements_mismatch
reason_of PaymentVerificationError.nonce_already_used = ErrorReason.nonce_already_used

-- `AsPaymentProblem for PaymentVerificationError`
unfoldable pub as_payment_problem : PaymentVerificationError → PaymentProblem
as_payment_problem e = record { reason = reason_of e; details = to_string e }
