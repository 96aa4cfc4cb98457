-- ===== src/Mcp/Server/Paid.antt =====
-- When the wrapper of a tool returns more than an error: r402-mcp/src/server.rs.
use mathlib.Core.Path.{subst}
use mathlib.Core.Option
use r.Mcp.Types.{no_server_hooks}
use r.Mcp.Types.{
  Json, CallToolParams, CallToolResult, PaymentWrapper, ServerHookContext, ServerHooks, ◌>=◌,
}
use r.Base.{
  String, Bool, ◌≡◌, refl, sym, ap, ◌∙◌, ◌↔◌, true, false, Outcome, ok, err, guard, refuse, ok_or,
  ok_or-eq-ok, guard-eq-ok, refuse-eq-ok,
}
use r.Base.Actions.{Action, lifted-eq-ok, with_error-eq-ok, with_error-lift-eq-ok, ok-injective}
use r.Proto.Verify.{VerifyResponse, valid, invalid}
use r.Proto.Settle.{SettleResponse}
use r.Mcp.Server.{
  extract_payment_from_meta, build_verify_request, accepted, settled, with_settlement, settle_call,
  paid_call, returned, process,
}
use r.Mcp.Server.Steps.{
  Carries, Carries-extract, extract-Carries, IsQuestion, build_verify_request_iff, IsSuccess,
  settled_iff, Reports, with_settlement_iff,
}
use r.Mcp.Server.Refusing.{paid_call-Fails}

refuse-ok : {E : Type 0} (b : Bool) (e : E) → b ≡ false → refuse b e ≡ ok tt
refuse-ok true e h = cc
refuse-ok false e h = refl

module _ (json : Json) where
  accepted-eq-ok :
      (r : VerifyResponse) {u : Unit {0}}
      → accepted json r ≡ ok u
      → (payer : String) × (r ≡ valid payer)
  accepted-eq-ok (valid payer) h = (payer, refl)
  accepted-eq-ok (invalid reason message payer) h = cc h

module _ (json : Json) {World : Type 0} (wrapper : PaymentWrapper json World)
    (handler : CallToolParams json → Action World String (CallToolResult json)) where
  open json use {Value}

  abbrev hook : ServerHooks json World
  hook = Option.get_or wrapper.config.hooks (no_server_hooks json)

  settle_call-ok :
      (ctx : ServerHookContext json) (question : Value) (result : CallToolResult json) (w : World)
      (r : CallToolResult json) (v : World)
      → settle_call json wrapper handler ctx question result w ≡ (ok r, v)
      → (result.is_error ≡ false)
        × (settlement : SettleResponse Value) × (u : World) × (wrapper.facilitator.settle question
              (hook.on_after_execution ctx result w).1
            ≡ (ok settlement, u))
        × (settled json settlement ≡ ok tt)
        × (r ≡ with_settlement json result settlement)
        × (v ≡ (hook.on_after_settlement ctx settlement u).1)
  unfolding settle_call
  settle_call-ok ctx question result w r v h =
      let (u, a, h1) = lifted-eq-ok (refuse result.is_error result) _ w h in
      let (settlement, w1, answered, h2) =
        with_error-eq-ok _ _
          (wrapper.facilitator.settle question (hook.on_after_execution ctx result w).1) h1 in
      let (t, paid, h3) = with_error-lift-eq-ok _ _ (settled json settlement) w1 h2 in
      let same : (
        with_settlement json result settlement,
        (hook.on_after_settlement ctx settlement w1).1,
      )
          ≡ (r, v) =
        ok-injective h3 in
      (
        refuse-eq-ok _ _ a,
        settlement,
        w1,
        answered,
        paid,
        sym (ap (λ x. x.0) same),
        sym (ap (λ x. x.1) same),
      )

  module _ (request : CallToolParams json) (w : World) where
    abbrev context : Value → ServerHookContext json
    context payment = record {
      tool_name = request.name;
      arguments = request.arguments;
      payment_requirements = wrapper.requirements;
      payment_payload = payment;
    }

    -- What happened in a call that was paid
    pub record IsPaid (r : CallToolResult json) (v : World) : Type 0 where
      pub payment : Value
      pub extracted : Carries json request.meta payment
      pub question : Value
      pub built : IsQuestion json wrapper.requirements payment question
      pub payer : String
      pub verified_at : World
      pub verified : wrapper.facilitator.verify question w ≡ (ok (valid payer), verified_at)
      pub allowed_at : World
      pub allowed : hook.on_before_execution (context payment) verified_at ≡ (ok true, allowed_at)
      pub result : CallToolResult json
      pub called_at : World
      pub called : handler request allowed_at ≡ (ok result, called_at)
      pub succeeded : result.is_error ≡ false
      pub settlement : SettleResponse Value
      pub settled_at : World
      pub answered :
          wrapper.facilitator.settle question
            (hook.on_after_execution (context payment) result called_at).1
          ≡ (ok settlement, settled_at)
      pub paid : IsSuccess json settlement
      pub returned_result : Reports json result settlement r
      pub final : v ≡ (hook.on_after_settlement (context payment) settlement settled_at).1

    sound :
        (r : CallToolResult json) (v : World)
        → paid_call json wrapper handler request w ≡ (ok r, v)
        → IsPaid r v
    unfolding paid_call
    sound r v h =
        let (payment, extracted, h1) =
          with_error-lift-eq-ok _ _
            (ok_or "Payment Required" (request.meta >= extract_payment_from_meta json)) w h in
        let (question, built, h2) =
          with_error-lift-eq-ok _ _ (build_verify_request json payment wrapper.requirements) w h1 in
        let (answer, w1, verified, h3) =
          with_error-eq-ok _ _ (wrapper.facilitator.verify question w) h2 in
        let (u, ok_answer, h4) = with_error-lift-eq-ok _ _ (accepted json answer) w1 h3 in
        let (proceeds, w2, allowed, h5) =
          with_error-eq-ok _ _ (hook.on_before_execution (context payment) w1) h4 in
        let (u, b, h6) = lifted-eq-ok (guard proceeds _) _ w2 h5 in
        let (result, w3, called, h7) = with_error-eq-ok _ _ (handler request w2) h6 in
        let (payer, is_valid) = accepted-eq-ok json answer ok_answer in
        let (succeeded, settlement, w4, answered, paid, r_eq, v_eq) =
          settle_call-ok (context payment) question result w3 r v h7 in
        record {
          payment = payment;
          extracted =
              extract-Carries json request.meta payment
                (ok_or-eq-ok "Payment Required" _ extracted);
          question = question;
          built = (build_verify_request_iff json wrapper.requirements payment question).0 built;
          payer = payer;
          verified_at = w1;
          verified =
              subst (λ x. wrapper.facilitator.verify question w ≡ (ok x, w1)) is_valid verified;
          allowed_at = w2;
          allowed =
              subst (λ x. hook.on_before_execution (context payment) w1 ≡ (ok x, w2))
                (guard-eq-ok proceeds _ b) allowed;
          result = result;
          called_at = w3;
          called = called;
          succeeded = succeeded;
          settlement = settlement;
          settled_at = w4;
          answered = answered;
          paid = (settled_iff json settlement).0 paid;
          returned_result = (with_settlement_iff json result settlement r).0 r_eq;
          final = v_eq;
        }

    complete :
        (r : CallToolResult json) (v : World)
        → IsPaid r v
        → process json wrapper handler request w ≡ (r, v)
    unfolding process paid_call settle_call
    complete r v p =
        let passes : refuse p.result.is_error p.result ≡ ok tt =
          refuse-ok p.result.is_error p.result p.succeeded in
        let extracted = Carries-extract json request.meta p.payment p.extracted in
        let built =
          (build_verify_request_iff json wrapper.requirements p.payment p.question).1 p.built in
        let paid = (settled_iff json p.settlement).1 p.paid in
        let reported = (with_settlement_iff json p.result p.settlement r).1 p.returned_result in
        rw
          (
            extracted, built, p.verified, p.allowed, p.called, passes, p.answered, paid, reported,
            p.final,
          )
          refl

    returned-ok :
        (d : Outcome (CallToolResult json) (CallToolResult json) × World)
        → d ≡ paid_call json wrapper handler request w
        → (r : CallToolResult json) (v : World) → returned json wrapper handler d ≡ (r, v)
        → r.is_error ≡ false
        → d ≡ (ok r, v)
    returned-ok (ok a, u) q r v h n = ap (λ x. (ok x.0, x.1)) h
    returned-ok (err a, u) q r v h n =
        let failed = paid_call-Fails json wrapper handler request w a u (sym q) in
        let same : a ≡ r = ap (λ x. x.0) h in
        let impossible : true ≡ false = sym failed ∙ ap (λ x. x.is_error) same ∙ n in cc

    -- A call returns a result that is not an error exactly if its `_meta` carries a payment, the
    -- facilitator called the payment valid for the wrapper's requirements, the hook let the call
    -- proceed, the handler returned a result that is not an error, and the facilitator answered the
    -- same request with a successful settlement after that; what is returned is the handler's result
    -- with the settlement in its metadata, where the settlement can be written as JSON.
    pub process_iff :
        (r : CallToolResult json) (v : World)
        → ((process json wrapper handler request w ≡ (r, v)) × (r.is_error ≡ false)) ↔ IsPaid r v
    unfolding process
    process_iff r v = (
      λ h. sound r v (returned-ok (paid_call json wrapper handler request w) refl r v h.0 h.1),
      λ p. (complete r v p, p.returned_result.is_error ∙ p.succeeded),
    )
