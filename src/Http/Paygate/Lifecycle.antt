-- ===== src/Http/Paygate/Lifecycle.antt =====
-- The ways in which the payment gate may handle a request, as a relation.
use r.Base.{String, ◌≡◌, true, false, ◌||◌, Option, Outcome, ok, err}
use r.Base.Actions.{Action}
use r.Facilitator.{FacilitatorError}
use r.Facilitator
use r.Proto.Verify.{valid, invalid}
use r.Proto.Settle.{SettleResponse}
use r.Http.Platform.{Platform}
use r.Http.Paygate.{
  Paygate, PaygateError, VerificationError, verification, settlement, verification_failed, prepare,
  settled, settlement_to_header,
}

module _ (platform : Platform) {World Handle : Type 0} (gate : Paygate World Handle platform.Value)
    (inner : platform.Request → Action World platform.Response platform.Response)
    (req : platform.Request) (w : World) where
  open platform use {Value, Response, is_client_error, is_server_error, insert_header}

  -- The request is well formed, and the facilitator calls its payment valid; only the facilitator
  -- was called.
  pub record Verified (request : Value) (payer : String) (v : World) : Type 0 where
    pub prepared : prepare platform gate.accepts req ≡ ok request
    pub verified : gate.facilitator.verify request w ≡ (ok (valid payer), v)

  -- Then the handler was called, and answered without an error status.
  pub record Served (request : Value) (response : Response) (u : World) : Type 0 where
    pub payer : String
    pub v : World
    pub paid : Verified request payer v
    pub answered : inner req v ≡ (ok response, u)
    pub fine : is_client_error response || is_server_error response ≡ false

  pub data Handles (result : Outcome Response PaygateError × World) : Type 0 where
    is_malformed :
        (e : VerificationError)
        → prepare platform gate.accepts req ≡ err e
        → result ≡ (err (verification e), w)
        → Handles result
    is_unverified :
        (request : Value) (e : FacilitatorError) (v : World)
        → prepare platform gate.accepts req ≡ ok request
        → gate.facilitator.verify request w ≡ (err e, v)
        → result ≡ (err (verification (verification_failed (Facilitator.to_string e))), v)
        → Handles result
    is_invalid :
        (request : Value) (reason : String) (message payer : Option String) (v : World)
        → prepare platform gate.accepts req ≡ ok request
        → gate.facilitator.verify request w ≡ (ok (invalid reason message payer), v)
        → result ≡ (err (verification (verification_failed reason)), v)
        → Handles result
    handler_fails :
        (request : Value) (payer : String) (v : World) (failure : Response) (u : World)
        → Verified request payer v
        → inner req v ≡ (err failure, u)
        → result ≡ (ok failure, u)
        → Handles result
    handler_refuses :
        (request : Value) (payer : String) (v : World) (response : Response) (u : World)
        → Verified request payer v
        → inner req v ≡ (ok response, u)
        → is_client_error response || is_server_error response ≡ true
        → result ≡ (ok response, u)
        → Handles result
    settlement_fails :
        (request : Value) (response : Response) (u : World) (e : FacilitatorError) (t : World)
        → Served request response u
        → gate.facilitator.settle request u ≡ (err e, t)
        → result ≡ (err (settlement (Facilitator.to_string e)), t)
        → Handles result
    is_unsettled :
        (request : Value) (response : Response) (u : World) (receipt : SettleResponse Value)
        (e : PaygateError) (t : World)
        → Served request response u
        → gate.facilitator.settle request u ≡ (ok receipt, t)
        → settled receipt ≡ err e
        → result ≡ (err e, t)
        → Handles result
    is_unsendable :
        (request : Value) (response : Response) (u : World) (receipt : SettleResponse Value)
        (e : PaygateError) (t : World)
        → Served request response u
        → gate.facilitator.settle request u ≡ (ok receipt, t)
        → settled receipt ≡ ok receipt
        → settlement_to_header platform receipt ≡ err e
        → result ≡ (err e, t)
        → Handles result
    is_paid :
        (request : Value) (response : Response) (u : World) (receipt : SettleResponse Value)
        (header : platform.Bytes) (t : World)
        → Served request response u
        → gate.facilitator.settle request u ≡ (ok receipt, t)
        → settled receipt ≡ ok receipt
        → settlement_to_header platform receipt ≡ ok header
        → result ≡ (ok (insert_header "Payment-Response" header response), t)
        → Handles result
