-- ===== src/Http/Paygate/Handles.antt =====
-- The payment gate handles every request in one of the ways of the relation, and in no other.
use mathlib.Core.Path.{subst}
use r.Proto.Verify.{VerifyResponse, valid, invalid}
use r.Http.Paygate.Lifecycle.{Verified, is_malformed, is_unverified, is_invalid}
use r.Base.{◌||◌, String, ◌≡◌, refl, sym, ◌⊎◌, inl, inr, Outcome, ok, err, Outcome-cases}
use r.Base.Actions.{Action, Action-cases}
use r.Proto.Settle.{SettleResponse, success, error}
use r.Http.Platform.{Platform}
use r.Http.Paygate.{
  Paygate, PaygateError, handle_request_fallible, after_handler, settle_after, settled,
  settlement_to_header, validate_verify_response,
}
use r.Http.Paygate.Lifecycle.{
  Served, Handles, is_malformed, is_unverified, is_invalid, handler_fails, handler_refuses,
  settlement_fails, is_unsettled, is_unsendable, is_paid,
}
use r.Base.{Bool-cases}
use r.Base.{◌↔◌}
use r.Http.Paygate.{prepare}

settled-cases :
    {Value : Type 0} (r : SettleResponse Value)
    → (settled r ≡ ok r) ⊎ ((e : PaygateError) × (settled r ≡ err e))
settled-cases (success payer transaction network extensions) = inl refl
settled-cases (error reason message payer network) = inr (_, refl)

module _ (platform : Platform) {World Handle : Type 0} (gate : Paygate World Handle platform.Value)
    (inner : platform.Request → Action World platform.Response platform.Response)
    (req : platform.Request) (w : World) where
  open platform use {Value, Response, is_client_error, is_server_error}

  complete :
      {result : Outcome Response PaygateError × World}
      → Handles platform gate inner req w result
      → handle_request_fallible platform gate inner req w ≡ result
  unfolding handle_request_fallible after_handler settle_after validate_verify_response
  complete (is_malformed e p q) = rw p (sym q)
  complete (is_unverified request e v p i q) = rw (p, i) (sym q)
  complete (is_invalid request reason message payer v p i q) = rw (p, i) (sym q)
  complete (handler_fails request payer v failure u s i q) = rw (s.prepared, s.verified, i) (sym q)
  complete (handler_refuses request payer v response u s i b q) =
      rw (s.prepared, s.verified, i, b) (sym q)
  complete (settlement_fails request response u e t s i q) =
      rw (s.paid.prepared, s.paid.verified, s.answered, s.fine, i) (sym q)
  complete (is_unsettled request response u receipt e t s i b q) =
      rw (s.paid.prepared, s.paid.verified, s.answered, s.fine, i, b) (sym q)
  complete (is_unsendable request response u receipt e t s i b h q) =
      rw (s.paid.prepared, s.paid.verified, s.answered, s.fine, i, b, h) (sym q)
  complete (is_paid request response u receipt header t s i b h q) =
      rw (s.paid.prepared, s.paid.verified, s.answered, s.fine, i, b, h) (sym q)

  Final : Type 0
  Final = Handles platform gate inner req w (handle_request_fallible platform gate inner req w)

  finally :
      {result : Outcome Response PaygateError × World}
      → Handles platform gate inner req w result
      → Final
  unfolding Final
  finally h = subst (Handles platform gate inner req w) (sym (complete h)) h

  after_service :
      (request : Value) (response : Response) (u : World)
      → Served platform gate inner req w request response u
      → Final
  after_service request response u s = elim (Action-cases (gate.facilitator.settle request u)) [
    | inr (e, t, i) ↦ finally (settlement_fails request response u e t s i refl)
    | inl (receipt, t, i) ↦ elim (settled-cases receipt) [
      | inr (e, b) ↦ finally (is_unsettled request response u receipt e t s i b refl)
      | inl b ↦ elim (Outcome-cases (settlement_to_header platform receipt)) [
        | inr (e, h) ↦ finally (is_unsendable request response u receipt e t s i b h refl)
        | inl (header, h) ↦ finally (is_paid request response u receipt header t s i b h refl)
      ]
    ]
  ]

  after_verified :
      (request : Value) (payer : String) (v : World)
      → Verified platform gate inner req w request payer v
      → Final
  after_verified request payer v s = elim (Action-cases (inner req v)) [
    | inr (failure, u, i) ↦ finally (handler_fails request payer v failure u s i refl)
    | inl (response, u, i) ↦
        elim (Bool-cases (is_client_error response || is_server_error response)) [
          | inl b ↦ finally (handler_refuses request payer v response u s i b refl)
          | inr b ↦
              after_service request response u
                (record { payer = payer; v = v; paid = s; answered = i; fine = b })
        ]
  ]

  after_answer :
      (request : Value) (answer : VerifyResponse) (v : World)
      → prepare platform gate.accepts req ≡ ok request
      → gate.facilitator.verify request w ≡ (ok answer, v)
      → Final
  after_answer request (valid payer) v p i =
      after_verified request payer v (record { prepared = p; verified = i })
  after_answer request (invalid reason message payer) v p i =
      finally (is_invalid request reason message payer v p i refl)

  sound : Final
  sound = elim (Outcome-cases (prepare platform gate.accepts req)) [
    | inr (e, p) ↦ finally (is_malformed e p refl)
    | inl (request, p) ↦ elim (Action-cases (gate.facilitator.verify request w)) [
      | inr (e, v, i) ↦ finally (is_unverified request e v p i refl)
      | inl (answer, v, i) ↦ after_answer request answer v p i
    ]
  ]

  -- The payment gate handles a request in one of the ways of the relation, and in no other.
  pub handle_request_iff :
      (result : Outcome Response PaygateError × World)
      → (handle_request_fallible platform gate inner req w ≡ result)
        ↔ Handles platform gate inner req w result
  unfolding Final
  handle_request_iff result = ((λ e. subst (Handles platform gate inner req w) e sound), complete)
