-- ===== src/Mcp/Server.antt =====
-- r402-mcp/src/server.rs: the wrapper that has a tool's calls paid, with the payment in a call's
-- `_meta` and the envelope of an error (extract.rs).
pub mod Steps
pub mod Refusing
pub mod Paid
use Prim.Native.String.{◌++◌}
use r.Base.{
  String, ℕ, Bool, true, false, Option, none, some, List, [], ◌∷◌, Outcome, ok, err, map_err, guard,
  refuse, ok_or, lookup, insert, string_eq, ◌==◌, if◌then◌else◌,
}
use r.Base
use mathlib.Core.Option
use r.Base.Actions.{Action, ◌>>=◌, ◌>>◌, lift, with_error, attempt}
use r.Proto.V2.{ResourceInfo, WireRequirements, PaymentRequired}
use r.Proto.Verify.{VerifyResponse, valid, invalid}
use r.Proto.Settle.{SettleResponse, success, error, Extensions}
use r.Facilitator.{Facilitator, to_string}
use r.Mcp.Types.{
  Json, Map, CallToolParams, CallToolResult, ServerHookContext, ServerHooks, PaymentWrapperConfig,
  PaymentWrapper, payment_meta_key, payment_response_meta_key, payment_error_key,
  payment_required_code, no_server_hooks, ◌>=◌,
}

module _ (json : Json) where
  open json use {Value}

  abbrev with_first :
      {World : Type 0}
      → Facilitator World Value
      → PaymentWrapperConfig json World
      → List (WireRequirements Value)
      → Option (PaymentWrapper json World)
  with_first facilitator config [] = none
  with_first facilitator config (first ∷ rest) =
      some (record { facilitator = facilitator; config = config; requirements = first })

  -- `PaymentWrapper::new`, which panics without requirements
  unfoldable pub new :
      {World : Type 0}
      → Facilitator World Value
      → PaymentWrapperConfig json World
      → Option (PaymentWrapper json World)
  new facilitator config = with_first facilitator config config.accepts

  abbrev unless_zero : ℕ → Value → Option Value
  unless_zero version payment = if version == 0 then none else some payment

  unfoldable pub extract_payment_from_meta : Map json → Option Value
  extract_payment_from_meta meta = lookup payment_meta_key meta >= λ payment.
      json.as_object payment >= λ obj. (lookup "x402Version" obj >= json.as_u64) >= λ version.
      unless_zero version payment >= λ found. lookup "payload" obj >= λ payload. some found

  abbrev pub hooks : {World : Type 0} → Option (ServerHooks json World) → ServerHooks json World
  hooks configured = Option.get_or configured (no_server_hooks json)

  -- `wrap_x402_error_envelope`
  unfoldable pub wrap_x402_error_envelope : PaymentRequired Value → Option Value
  wrap_x402_error_envelope required = json.required_to_value required >= λ body. some (
      json.object (
        (
          payment_error_key,
          json.object (("code", json.number payment_required_code) ∷ ("data", body) ∷ []),
        )
        ∷ []))

  abbrev unknown_tool : ResourceInfo
  unknown_tool = record {
    url = "mcp://tool/unknown";
    description = "Unknown tool";
    mime_type = "application/json";
  }

  -- What the result below asks for
  abbrev pub required :
      {World : Type 0} → PaymentWrapperConfig json World → String → PaymentRequired Value
  required config error_msg = record {
    error = some error_msg;
    resource = Option.get_or config.resource unknown_tool;
    accepts = config.accepts;
    extensions = config.extensions;
  }

  unfoldable pub payment_required_result :
      {World : Type 0} → PaymentWrapperConfig json World → String → CallToolResult json
  payment_required_result config error_msg =
      let envelope =
        Option.get_or (wrap_x402_error_envelope (required config error_msg)) json.null in
      record {
        content = Option.get_or (json.to_text envelope) "" ∷ [];
        is_error = true;
        meta = none;
        structured_content = some envelope;
      }

  unfoldable pub build_verify_request : Value → WireRequirements Value → Outcome Value String
  build_verify_request payment_value requirements =
      Base.◌>>=◌
        (map_err (λ e. "Invalid requirements: " ++ e) (json.requirements_to_value requirements))
        (λ requirements_value. ok (
          json.object (
            ("x402Version", json.number 2)
            ∷ ("paymentPayload", payment_value)
            ∷ ("paymentRequirements", requirements_value)
            ∷ [])))

  -- The tests of the facilitator's two answers
  abbrev pub accepted : VerifyResponse → Outcome (Unit {0}) String
  accepted (valid payer) = ok tt
  accepted (invalid reason message payer) = err ("Payment verification failed: " ++ reason)

  abbrev pub settled : SettleResponse Value → Outcome (Unit {0}) String
  settled (success payer transaction network extensions) = ok tt
  settled (error reason message payer network) = err ("Settlement failed: " ++ reason)

  abbrev noted : Map json → Option Value → Map json
  noted meta none = meta
  noted meta (some v) = insert payment_response_meta_key v meta

  -- The tool's result with the settlement in its `_meta`
  unfoldable pub with_settlement : CallToolResult json → SettleResponse Value → CallToolResult json
  with_settlement result settlement = record result {
    meta = some (noted (Option.get_or result.meta []) (json.settlement_to_value settlement));
  }

  abbrev pub tool_failed : String → CallToolResult json
  tool_failed e = record {
    content = e ∷ [];
    is_error = true;
    meta = none;
    structured_content = none;
  }

  module _ {World : Type 0} (wrapper : PaymentWrapper json World)
      (handler : CallToolParams json → Action World String (CallToolResult json)) where
    abbrev pub refusal : String → CallToolResult json
    refusal = payment_required_result wrapper.config

    abbrev pub hook_context : CallToolParams json → Value → ServerHookContext json
    hook_context request payment_value = record {
      tool_name = request.name;
      arguments = request.arguments;
      payment_requirements = wrapper.requirements;
      payment_payload = payment_value;
    }

    -- From the handler's result on
    unfoldable pub settle_call :
        ServerHookContext json
        → Value
        → CallToolResult json
        → Action World (CallToolResult json) (CallToolResult json)
    settle_call ctx verify_request result = do
      lift (refuse result.is_error result)
      _ ← attempt ((hooks wrapper.config.hooks).on_after_execution ctx result)
      settle_response ←
          with_error (λ e. refusal ("Settlement error: " ++ to_string e))
            (wrapper.facilitator.settle verify_request)
      with_error refusal (lift (settled settle_response))
      _ ← attempt ((hooks wrapper.config.hooks).on_after_settlement ctx settle_response)
      lift (ok (with_settlement result settle_response))

    -- The body of `process`; what it returns early is an error here.
    unfoldable pub paid_call :
        CallToolParams json → Action World (CallToolResult json) (CallToolResult json)
    paid_call request = do
      payment_value ←
          with_error refusal
            (lift (ok_or "Payment Required" (request.meta >= extract_payment_from_meta)))
      verify_request ←
          with_error refusal (lift (build_verify_request payment_value wrapper.requirements))
      verify_response ←
          with_error (λ e. refusal ("Payment verification error: " ++ to_string e))
            (wrapper.facilitator.verify verify_request)
      with_error refusal (lift (accepted verify_response))
      let ctx = hook_context request payment_value
      proceeds ←
          with_error (λ e. refusal ("Before execution hook error: " ++ e))
            ((hooks wrapper.config.hooks).on_before_execution ctx)
      lift (guard proceeds (refusal "Execution aborted by on_before_execution hook"))
      result ← with_error tool_failed (handler request)
      settle_call ctx verify_request result

    abbrev pub returned :
        Outcome (CallToolResult json) (CallToolResult json) × World → (CallToolResult json) × World
    returned (ok result, w) = (result, w)
    returned (err result, w) = (result, w)

    unfoldable pub process : CallToolParams json → World → (CallToolResult json) × World
    process request w = returned (paid_call request w)
