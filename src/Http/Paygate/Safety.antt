-- ===== src/Http/Paygate/Safety.antt =====
-- No service without payment, and no answer of success without settlement.
use r.Base.{String, ◌≡◌, refl, sym, ap, ◌∙◌, ◌⊎◌, inl, inr, true, ◌||◌, Outcome, ok, err}
use r.Base.Actions.{Action}
use r.Proto.Verify.{valid}
use r.Proto.Settle.{SettleResponse, success, error, Extensions}
use r.Http.Platform.{Platform}
use r.Http.Paygate.{
  Paygate, PaygateError, VerificationError, verification, handle_request_fallible, settled,
  settlement_to_header,
}
use r.Http.Paygate.Lifecycle.{
  Verified, Served, Handles, is_malformed, is_unverified, is_invalid, handler_fails,
  handler_refuses, settlement_fails, is_unsettled, is_unsendable, is_paid,
}
use r.Http.Paygate.Handles.{handle_request_iff}
use r.Base.{Option}

ok_pair :
    {World E A : Type 0} {a b : A} {t u : World}
    → ◌≡◌ {A = Outcome A E × World} (ok a, t) (ok b, u)
    → (a ≡ b) × (t ≡ u)
ok_pair q = (cc (ap (λ x. x.0) q), ap (λ x. x.1) q)

module _ (platform : Platform) {World Handle : Type 0} (gate : Paygate World Handle platform.Value)
    (inner : platform.Request → Action World platform.Response platform.Response)
    (req : platform.Request) (w : World) where
  open platform use {Value, Response, is_client_error, is_server_error, insert_header}

  -- The request was refused before its handler was called: the world is as it was, or as the
  -- facilitator left it after the check of one request.
  pub record IsRefused (result : Outcome Response PaygateError) (t : World) : Type 0 where
    pub reason : VerificationError
    pub refused : result ≡ err (verification reason)
    pub untouched : (t ≡ w) ⊎ ((request : Value) × (t ≡ (gate.facilitator.verify request w).1))

  NeverValid : Type 0
  NeverValid =
      (request : Value) (payer : String) (v : World)
      → ¬ (gate.facilitator.verify request w ≡ (ok (valid payer), v))

  Handles-IsRefused :
      (result : Outcome Response PaygateError × World)
      → NeverValid
      → Handles platform gate inner req w result
      → IsRefused result.0 result.1
  unfolding NeverValid
  Handles-IsRefused result unpaid (is_malformed e p q) = record {
    reason = e;
    refused = ap (λ x. x.0) q;
    untouched = inl (ap (λ x. x.1) q);
  }
  Handles-IsRefused result unpaid (is_unverified request e v p i q) = record {
    reason = _;
    refused = ap (λ x. x.0) q;
    untouched = inr (request, ap (λ x. x.1) q ∙ sym (ap (λ x. x.1) i));
  }
  Handles-IsRefused result unpaid (is_invalid request reason message payer v p i q) = record {
    reason = _;
    refused = ap (λ x. x.0) q;
    untouched = inr (request, ap (λ x. x.1) q ∙ sym (ap (λ x. x.1) i));
  }
  Handles-IsRefused result unpaid (handler_fails request payer v failure u s i q) =
      absurd (unpaid request payer v s.verified)
  Handles-IsRefused result unpaid (handler_refuses request payer v response u s i b q) =
      absurd (unpaid request payer v s.verified)
  Handles-IsRefused result unpaid (settlement_fails request response u e t s i q) =
      absurd (unpaid request s.payer s.v s.paid.verified)
  Handles-IsRefused result unpaid (is_unsettled request response u receipt e t s i b q) =
      absurd (unpaid request s.payer s.v s.paid.verified)
  Handles-IsRefused result unpaid (is_unsendable request response u receipt e t s i b h q) =
      absurd (unpaid request s.payer s.v s.paid.verified)
  Handles-IsRefused result unpaid (is_paid request response u receipt header t s i b h q) =
      absurd (unpaid request s.payer s.v s.paid.verified)

  -- A request that the facilitator calls valid for no payer never reaches its handler and is never
  -- settled.
  pub unpaid-IsRefused :
      ((request : Value) (payer : String) (v : World)
        → ¬ (gate.facilitator.verify request w ≡ (ok (valid payer), v)))
      → let result = handle_request_fallible platform gate inner req w in
        IsRefused result.0 result.1
  unfolding NeverValid
  unpaid-IsRefused unpaid =
      Handles-IsRefused _ unpaid ((handle_request_iff platform gate inner req w _).0 refl)

  -- The request was verified, handled and settled, in this order and each once, and the answer is
  -- the handler's with the receipt in a header.
  pub record IsSettled (answer : Response) (t : World) : Type 0 where
    pub request : Value
    pub response : Response
    pub u : World
    pub served : Served platform gate inner req w request response u
    pub payer : String
    pub transaction : String
    pub network : String
    pub extensions : Option (Extensions Value)
    pub paid :
        gate.facilitator.settle request u ≡ (ok (success payer transaction network extensions), t)
    pub header : platform.Bytes
    pub printed :
        settlement_to_header platform (success payer transaction network extensions) ≡ ok header
    pub same : answer ≡ insert_header "Payment-Response" header response

  -- The request was verified, and its handler failed or answered with an error status; the answer
  -- is passed on as it is, and nothing was called after the handler.
  pub record IsUncharged (answer : Response) (t : World) : Type 0 where
    pub request : Value
    pub payer : String
    pub v : World
    pub verified : Verified platform gate inner req w request payer v
    pub failed :
        (inner req v ≡ (err answer, t))
        ⊎ ((inner req v ≡ (ok answer, t))
            × (is_client_error answer || is_server_error answer ≡ true))

  settled_of :
      (receipt : SettleResponse Value) (request : Value) (response : Response) (u t : World)
      (header : platform.Bytes) (answer : Response)
      → Served platform gate inner req w request response u
      → gate.facilitator.settle request u ≡ (ok receipt, t)
      → settled receipt ≡ ok receipt
      → settlement_to_header platform receipt ≡ ok header
      → answer ≡ insert_header "Payment-Response" header response
      → IsSettled answer t
  settled_of (success payer transaction network extensions) request response u t header answer s i b
        h q =
      record {
        request = request;
        response = response;
        u = u;
        served = s;
        payer = payer;
        transaction = transaction;
        network = network;
        extensions = extensions;
        paid = i;
        header = header;
        printed = h;
        same = q;
      }
  settled_of (error reason message payer network) request response u t header answer s i b h q = cc

  answered_of :
      (answer : Response) (t : World)
      → Handles platform gate inner req w (ok answer, t)
      → IsSettled answer t ⊎ IsUncharged answer t
  answered_of answer t (is_malformed e p q) = cc (ap (λ x. x.0) q)
  answered_of answer t (is_unverified request e v p i q) = cc (ap (λ x. x.0) q)
  answered_of answer t (is_invalid request reason message payer v p i q) = cc (ap (λ x. x.0) q)
  answered_of answer t (settlement_fails request response u e v s i q) = cc (ap (λ x. x.0) q)
  answered_of answer t (is_unsettled request response u receipt e v s i b q) = cc (ap (λ x. x.0) q)
  answered_of answer t (is_unsendable request response u receipt e v s i b h q) =
      cc (ap (λ x. x.0) q)
  answered_of answer t (handler_fails request payer v failure u s i q) = inr (record {
    request = request;
    payer = payer;
    v = v;
    verified = s;
    failed = inl (i ∙ sym (λ k. (err ((ok_pair q).0 k), (ok_pair q).1 k)));
  })
  answered_of answer t (handler_refuses request payer v response u s i b q) =
      let (a, e) = ok_pair q in
      inr (record {
        request = request;
        payer = payer;
        v = v;
        verified = s;
        failed = inr (
          i ∙ sym (λ k. (ok (a k), e k)),
          ap (λ x. is_client_error x || is_server_error x) a ∙ b,
        );
      })
  answered_of answer t (is_paid request response u receipt header v s i b h q) =
      let (a, e) = ok_pair q in
      inl (
        settled_of receipt request response u t header answer s (i ∙ sym (λ k. (ok receipt, e k))) b
          h a)

  -- Every answer that is no error of the gate comes after a payment that the facilitator calls
  -- valid. Either it is the handler's with the receipt of a settlement of that same payment, or
  -- the handler failed or answered with an error status, and nothing was settled.
  pub answered-IsSettled :
      (answer : Response) (t : World)
      → handle_request_fallible platform gate inner req w ≡ (ok answer, t)
      → IsSettled answer t ⊎ IsUncharged answer t
  answered-IsSettled answer t h =
      answered_of answer t ((handle_request_iff platform gate inner req w (ok answer, t)).0 h)
