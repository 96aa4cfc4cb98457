-- ===== src/Client/Payment.antt =====
-- r402-http/src/client: the middleware that pays where a server asks for payment.
pub mod Limits
pub mod Handling
pub mod Answers
use Prim.Native.String.{◌++◌ as text_append}
use r.Base.{
  String, ℕ, Bool, true, false, Option, none, some, List, [], ◌∷◌, ◌++◌, map, Outcome, ok, err,
  ok_or, ◌==◌, if◌then◌else◌,
}
use r.Base
use r.Base.Actions.{Action, ◌>>=◌, ◌>>◌, lift, with_error}
use r.Proto.V2.{PaymentRequired}
use r.Hooks.Lifecycle.{HookDecision, FailureRecovery, propagate, recovered, Phases, hooked}
use r.Client.Selection.{
  ClientError, no_matching_payment_option, request_not_cloneable, parse_error, signing_error,
  json_error, pre_condition_failed, PaymentCandidate, PaymentSelector, PaymentPolicy,
}
use r.Http.Platform.{Platform}

unfoldable pub to_string : ClientError → String
to_string no_matching_payment_option = "No matching payment option found"
to_string request_not_cloneable = "Request is not cloneable (streaming body?)"
to_string (parse_error e) = text_append "Failed to parse 402 response: " e
to_string (signing_error e) = text_append "Failed to sign payment: " e
to_string (json_error e) = text_append "JSON error: " e
to_string (pre_condition_failed e) = text_append "Payment pre-condition not met: " e

-- `HeaderMap`
abbrev pub Headers : Type 0 → Type 0
Headers Bytes = List (String × Bytes)

-- `ClientHooks`; the context holds the parsed requirements and nothing else.
pub record ClientHooks (World Value Bytes : Type 0) : Type 0 where
  pub before_payment_creation : PaymentRequired Value → World → HookDecision × World
  pub after_payment_creation : PaymentRequired Value → Headers Bytes → World → World
  pub on_payment_creation_failure :
      PaymentRequired Value → String → World → FailureRecovery (Headers Bytes) × World

pub record X402Client (World Value Bytes : Type 0) : Type 0 where
  -- each scheme client by its `accept`
  pub schemes : List (PaymentRequired Value → List (PaymentCandidate World))
  pub selector : PaymentSelector World
  pub policies : List (PaymentPolicy World)
  pub hooks : List (ClientHooks World Value Bytes)

-- An error of the middleware: the transport's, or a `ClientError` that is wrapped.
pub data MiddlewareError (Failure : Type 0) : Type 0 where
  transport : Failure → MiddlewareError Failure
  payment : ClientError → MiddlewareError Failure

module _ {World : Type 0} where
  -- The loop over the policies; the first to leave nothing ends it.
  abbrev unless_empty :
      List (PaymentCandidate World)
      → Outcome (List (PaymentCandidate World)) ClientError
      → Outcome (List (PaymentCandidate World)) ClientError
  unless_empty [] rest = err no_matching_payment_option
  unless_empty (c ∷ cs) rest = rest

  unfoldable pub apply_policies :
      List (PaymentPolicy World)
      → List (PaymentCandidate World)
      → Outcome (List (PaymentCandidate World)) ClientError
  apply_policies [] filtered = ok filtered
  apply_policies (policy ∷ policies) filtered =
      unless_empty (policy filtered) (apply_policies policies (policy filtered))

-- `ClientSchemes::candidates`
unfoldable pub candidates :
    {World Value : Type 0}
    → List (PaymentRequired Value → List (PaymentCandidate World))
    → PaymentRequired Value
    → List (PaymentCandidate World)
candidates [] required = []
candidates (accept ∷ schemes) required = accept required ++ candidates schemes required

-- The part of `create_payment_headers_inner` that signs nothing.
unfoldable pub choose :
    {World Value Bytes : Type 0}
    → X402Client World Value Bytes
    → PaymentRequired Value
    → Outcome (PaymentCandidate World) ClientError
choose client required =
    Base.◌>>=◌ (apply_policies client.policies (candidates client.schemes required))
      (λ filtered. ok_or no_matching_payment_option (client.selector filtered))

abbrev with_headers :
    {World Bytes : Type 0}
    → FailureRecovery (Headers Bytes) × World
    → FailureRecovery (Option (Headers Bytes)) × World
with_headers (propagate, w) = (propagate, w)
with_headers (recovered headers, w) = (recovered (some headers), w)

module _ {World Value Bytes : Type 0} where
  abbrev notify :
      ClientHooks World Value Bytes → PaymentRequired Value → Option (Headers Bytes) → World → World
  notify hook required none w = w
  notify hook required (some headers) w = hook.after_payment_creation required headers w

  -- A hook's part in the lifecycle; after a panic no hook is called.
  abbrev pub creation_phases :
      ClientHooks World Value Bytes
      → Phases World (PaymentRequired Value) (Option (Headers Bytes)) ClientError
  creation_phases hook = record {
    before = hook.before_payment_creation;
    after = notify hook;
    on_failure =
        λ required e w. with_headers (hook.on_payment_creation_failure required (to_string e) w);
  }

abbrev and_then : {A B : Type 0} → Option A → (A → Option B) → Option B
and_then none k = none
and_then (some a) k = k a

abbrev or_else : {A : Type 0} → Option A → Option A → Option A
or_else (some a) other = some a
or_else none other = other

module _ (platform : Platform) where
  open platform use {Value, Bytes, Response, response_header, body, decode, read_payment_required}

  abbrev signature_headers : Option Bytes → Option (Headers Bytes)
  signature_headers none = none
  signature_headers (some value) = some (("Payment-Signature", value) ∷ [])

  -- The header first, then the body.
  unfoldable pub parse_payment_required : Response → Option (PaymentRequired Value)
  parse_payment_required res =
      or_else
        (and_then (response_header "Payment-Required" res)
          (λ h. and_then (decode h) read_payment_required))
        (and_then (body res) read_payment_required)

module _ (platform : Platform) {World : Type 0} where
  open platform use {
    Value, Bytes, Request, Response, response_header, status, body, decode, read_payment_required,
    try_clone, extend_headers, parse_header,
  }

  -- `none` is a panic of `expect`.
  unfoldable pub create_payment_headers_inner :
      X402Client World Value Bytes
      → PaymentRequired Value
      → Action World ClientError (Option (Headers Bytes))
  create_payment_headers_inner client required = do
    selected ← lift (choose client required)
    signed_payload ← selected.sign
    lift (ok (signature_headers platform (parse_header signed_payload)))

  unfoldable pub make_payment_headers :
      X402Client World Value Bytes → Response → Action World ClientError (Option (Headers Bytes))
  make_payment_headers client res = do
    required ←
        lift (ok_or (parse_error "Invalid 402 response") (parse_payment_required platform res))
    hooked (λ reason message. parse_error reason) (map creation_phases client.hooks)
        (create_payment_headers_inner client) required

  module _ {Failure : Type 0} (run_next : Request → Action World Failure Response) where
    abbrev answer_of :
        Outcome Response Failure × World
        → Outcome (Option Response) (MiddlewareError Failure) × World
    answer_of (ok res, w) = (ok (some res), w)
    answer_of (err e, w) = (err (transport e), w)

    abbrev repeat_with :
        Request → Option (Headers Bytes) → Action World (MiddlewareError Failure) (Option Response)
    repeat_with retry none w = (ok none, w)
    repeat_with retry (some headers) w = answer_of (run_next (extend_headers headers retry) w)

    abbrev pay :
        X402Client World Value Bytes
        → Response
        → Option Request
        → Action World (MiddlewareError Failure) (Option Response)
    pay client res none = lift (ok (some res))
    pay client res (some retry) = do
      headers ← with_error payment (make_payment_headers client res)
      repeat_with retry headers

    -- The clone is taken before the request is sent; `none` is the panic above.
    unfoldable pub handle :
        X402Client World Value Bytes
        → Request
        → Action World (MiddlewareError Failure) (Option Response)
    handle client req = do
      res ← with_error transport (run_next req)
      if status res == 402 then pay client res (try_clone req) else lift (ok (some res))
