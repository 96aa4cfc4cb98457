-- ===== src/Http/Paygate.antt =====
-- r402-http/src/server/paygate.rs: the payment gate in front of a handler.
pub mod Selection
pub mod Lifecycle
pub mod Handles
pub mod Safety
use Prim.Native.String
use r.Base.{
  String, ℕ, Option, none, some, List, [], ◌∷◌, map, Bool, ◌||◌, Outcome, ok, err, ok_or, to_option,
  map_err, find, if◌then◌else◌,
}
use r.Base
use r.Base.Actions.{Action, ◌>>=◌, ◌>>◌, lift, with_error, attempt}
use r.Facilitator.{FacilitatorError, Facilitator}
use r.Facilitator
use r.Proto.Verify.{VerifyResponse, valid, invalid}
use r.Proto.Settle.{SettleResponse, success, error}
use r.Proto.V2.{
  PriceTag, ResourceInfo, PaymentRequired, WireRequirements, SupportedResponse, tag_eq, enrich,
}
use r.Http.Platform.{Platform, WirePayload}

-- `VerificationError` and `PaygateError` of r402-http/src/server/mod.rs
pub data VerificationError : Type 0 where
  payment_header_required : String → VerificationError
  invalid_payment_header no_payment_matching : VerificationError
  verification_failed : String → VerificationError

pub data PaygateError : Type 0 where
  verification : VerificationError → PaygateError
  settlement : String → PaygateError

unfoldable pub to_string : VerificationError → String
to_string (payment_header_required name) = String.◌++◌ name " header is required"
to_string invalid_payment_header = "Invalid or malformed payment header"
to_string no_payment_matching = "Unable to find matching payment requirements"
to_string (verification_failed e) = String.◌++◌ "Verification failed: " e

abbrev pub payment_header_name : String
payment_header_name = "Payment-Signature"

pub record Paygate (World Handle Value : Type 0) : Type 0 where
  pub facilitator : Facilitator World Value
  pub accepts : List (PriceTag Handle Value)
  pub resource : ResourceInfo

-- `_` in the source stands for variants that a later version may add.
unfoldable pub validate_verify_response : VerifyResponse → Outcome (Unit {0}) VerificationError
validate_verify_response (valid payer) = ok tt
validate_verify_response (invalid reason message payer) = err (verification_failed reason)

abbrev pub and_then : {A B : Type 0} → Option A → (A → Option B) → Option B
and_then none k = none
and_then (some a) k = k a

abbrev detail_of : Option String → String → String
detail_of none reason = reason
detail_of (some message) reason = message

abbrev pub settled :
    {Value : Type 0} → SettleResponse Value → Outcome (SettleResponse Value) PaygateError
settled (success payer transaction network extensions) =
    ok (success payer transaction network extensions)
settled (error reason message payer network) = err (settlement (detail_of message reason))

-- `unwrap_or_default`
abbrev capabilities :
    {Value : Type 0} → Outcome (SupportedResponse Value) FacilitatorError → SupportedResponse Value
capabilities (ok s) = s
capabilities (err e) = record { kinds = []; extensions = []; signers = [] }

module _ (platform : Platform) where
  open platform use {Value, Bytes, header_value, decode, encode, read_payload, write_settlement}

  -- `extract_payment_payload`
  unfoldable pub extract_payment_payload : Bytes → Option (WirePayload Value)
  extract_payment_payload header = and_then (decode header) read_payload

  -- `settlement_to_header`
  unfoldable pub settlement_to_header : SettleResponse Value → Outcome Bytes PaygateError
  settlement_to_header s =
      map_err settlement (Base.◌>>=◌ (write_settlement s) (λ json. header_value (encode json)))

module _ (platform : Platform) {Handle : Type 0} where
  open platform use {
    Value, Bytes, Request, Response, request_header, build, header_value, encode, ascii,
    write_payment_required, write_failure, to_value,
  }

  abbrev pub requested : WirePayload Value → PriceTag Handle Value → Outcome Value VerificationError
  requested payload selected = map_err verification_failed (
      to_value (record { payment_payload = payload; payment_requirements = selected.requirements }))

  unfoldable pub make_verify_request :
      WirePayload Value → List (PriceTag Handle Value) → Outcome Value VerificationError
  make_verify_request payload accepts =
      Base.◌>>=◌ (ok_or no_payment_matching (find (λ tag. tag_eq tag payload.accepted) accepts))
        (requested payload)

  -- The part of `handle_request_fallible` that calls nothing.
  unfoldable pub prepare : List (PriceTag Handle Value) → Request → Outcome Value VerificationError
  prepare accepts req =
      Base.◌>>=◌
        (ok_or (payment_header_required payment_header_name)
          (request_header payment_header_name req))
        (λ header.
          Base.◌>>=◌ (ok_or invalid_payment_header (extract_payment_payload platform header))
            (λ payload. make_verify_request payload accepts))

  abbrev pub refusal :
      List (PriceTag Handle Value) → ResourceInfo → VerificationError → PaymentRequired Value
  refusal accepts resource e = record {
    error = some (to_string e);
    resource = resource;
    accepts = map (λ tag. tag.requirements) accepts;
    extensions = none;
  }

  -- `none` is a panic of `expect`.
  unfoldable pub error_into_response :
      PaygateError → List (PriceTag Handle Value) → ResourceInfo → Option Response
  error_into_response (verification e) accepts resource =
      and_then (to_option (write_payment_required (refusal accepts resource e))) λ bytes.
        and_then (to_option (header_value (encode bytes))) λ header. some (
          build 402 (("Payment-Required", header) ∷ ("Content-Type", ascii "application/json") ∷ [])
            bytes)
  error_into_response (settlement e) accepts resource =
      some (build 402 (("Content-Type", ascii "application/json") ∷ []) (write_failure e))

module _ (platform : Platform) {World : Type 0} where
  open platform use {Value, Request, Response, is_client_error, is_server_error, insert_header}

  -- Settlement, once the handler has answered.
  unfoldable pub settle_after :
      Facilitator World Value → Value → Response → Action World PaygateError Response
  settle_after facilitator request response = do
    receipt ← with_error (λ e. settlement (Facilitator.to_string e)) (facilitator.settle request)
    final ← lift (settled receipt)
    header ← lift (settlement_to_header platform final)
    lift (ok (insert_header "Payment-Response" header response))

  -- What follows the handler; its own failure is an answer, and a failed request is not settled.
  unfoldable pub after_handler :
      Facilitator World Value
      → Value
      → Outcome Response Response
      → Action World PaygateError Response
  after_handler facilitator request (err failure) = lift (ok failure)
  after_handler facilitator request (ok response) =
      if is_client_error response || is_server_error response
      then lift (ok response)
      else settle_after facilitator request response

  module _ {Handle : Type 0} where
    unfoldable pub handle_request_fallible :
        Paygate World Handle Value
        → (Request → Action World Response Response)
        → Request
        → Action World PaygateError Response
    handle_request_fallible gate inner req = do
      request ← lift (map_err verification (prepare platform gate.accepts req))
      response ←
          with_error (λ e. verification (verification_failed (Facilitator.to_string e)))
            (gate.facilitator.verify request)
      lift (map_err verification (validate_verify_response response))
      answer ← attempt (inner req)
      after_handler gate.facilitator request answer

    abbrev answered :
        Paygate World Handle Value → Outcome Response PaygateError × World → Option Response × World
    answered gate (ok response, w) = (some response, w)
    answered gate (err e, w) = (error_into_response platform e gate.accepts gate.resource, w)

    unfoldable pub handle_request :
        Paygate World Handle Value
        → (Request → Action World Response Response)
        → Request
        → World
        → Option Response × World
    handle_request gate inner req w = answered gate (handle_request_fallible gate inner req w)

    unfoldable pub enrich_accepts :
        (Handle → PriceTag Handle Value → SupportedResponse Value → PriceTag Handle Value)
        → Paygate World Handle Value
        → World
        → Paygate World Handle Value × World
    enrich_accepts call gate w =
        let (answer, v) = gate.facilitator.supported w in
        (
          record gate { accepts = map (λ tag. enrich call tag (capabilities answer)) gate.accepts },
          v,
        )
