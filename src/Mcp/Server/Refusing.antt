-- ===== src/Mcp/Server/Refusing.antt =====
-- What the wrapper of a tool returns early is an error: r402-mcp/src/server.rs.
use Prim.Native.String.{◌++◌}
use mathlib.Core.Path.{subst}
use r.Mcp.Types.{Json, CallToolParams, CallToolResult, PaymentWrapper, ServerHookContext, ◌>=◌}
use r.Base.{String, Bool, ◌≡◌, refl, ap, true, false, Outcome, ok, err, guard, refuse, ok_or}
use r.Base.Actions.{Action, ◌>>=◌, ◌>>◌, lift, with_error, proceed, mapped}
use r.Facilitator.{to_string}
use r.Mcp.Server.{
  hooks, extract_payment_from_meta, payment_required_result, build_verify_request, accepted,
  settled, hook_context, tool_failed, settle_call, paid_call,
}

-- Every error of an action has a property.
abbrev pub Fails : {World E A : Type 0} → (E → Type 0) → (World → Outcome A E × World) → Type 0
Fails {World = World} {E = E} P m = (w : World) (e : E) (v : World) → m w ≡ (err e, v) → P e

module _ {World E A : Type 0} (P : E → Type 0) where
  proceed-Fails :
      {B : Type 0} (d : Outcome A E × World) (f : A → Action World E B)
      → ((e : E) (v : World) → d ≡ (err e, v) → P e)
      → ((a : A) → Fails P (f a))
      → (e : E) (v : World) → proceed d f ≡ (err e, v)
      → P e
  proceed-Fails (ok a, u) f p q e v h = q a u e v h
  proceed-Fails (err a, u) f p q e v h = p e v (cc h)

  then-Fails :
      {B : Type 0} (m : Action World E A) (f : A → Action World E B)
      → Fails P m
      → ((a : A) → Fails P (f a))
      → Fails P (m >>= f)
  then-Fails m f p q w = proceed-Fails (m w) f (p w) q

  mapped-Fails :
      {F : Type 0} (g : F → E)
      → ((x : F) → P (g x))
      → (d : Outcome A F × World) (e : E) (v : World) → mapped g d ≡ (err e, v)
      → P e
  mapped-Fails g p (ok a, u) e v h = cc (ap (λ x. x.0) h)
  mapped-Fails g p (err x, u) e v h = subst P (cc (ap (λ x. x.0) h)) (p x)

  with_error-Fails :
      {F : Type 0} (g : F → E) (m : Action World F A)
      → ((x : F) → P (g x))
      → Fails P (with_error g m)
  with_error-Fails g m p w = mapped-Fails g p (m w)

  lift-Fails :
      (r : Outcome A E)
      → ((e : E) → r ≡ err e → P e)
      → (w : World) (e : E) (v : World) → ◌≡◌ {A = Outcome A E × World} (r, w) (err e, v)
      → P e
  lift-Fails r p w e v h = p e (ap (λ x. x.0) h)

refuse-eq-err : {E : Type 0} (b : Bool) (a : E) {e : E} → refuse b a ≡ err e → (b ≡ true) × (a ≡ e)
refuse-eq-err true a h = (refl, cc h)
refuse-eq-err false a h = cc h

guard-eq-err : {E : Type 0} (b : Bool) (a : E) {e : E} → guard b a ≡ err e → a ≡ e
guard-eq-err true a h = cc h
guard-eq-err false a h = cc h

module _ (json : Json) {World : Type 0} (wrapper : PaymentWrapper json World)
    (handler : CallToolParams json → Action World String (CallToolResult json)) where
  open json use {Value}

  abbrev pub IsError : CallToolResult json → Type 0
  IsError r = r.is_error ≡ true

  abbrev pub Refuses : {A : Type 0} → Action World (CallToolResult json) A → Type 0
  Refuses m = Fails IsError m

  refused : (e : String) → IsError (payment_required_result json wrapper.config e)
  unfolding payment_required_result
  refused e = refl

  step :
      {F A B : Type 0} (g : F → String) (m : Action World F A)
      (f : A → Action World (CallToolResult json) B)
      → ((a : A) → Refuses (f a))
      → Refuses (with_error (λ e. payment_required_result json wrapper.config (g e)) m >>= f)
  step g m f q =
      then-Fails IsError (with_error (λ e. payment_required_result json wrapper.config (g e)) m) f
        (with_error-Fails IsError (λ e. payment_required_result json wrapper.config (g e)) m
          (λ x. refused (g x)))
        q

  settle_call-Fails :
      (ctx : ServerHookContext json) (request : Value) (result : CallToolResult json)
      → Refuses (settle_call json wrapper handler ctx request result)
  unfolding settle_call
  settle_call-Fails ctx request result =
      then-Fails IsError (lift (refuse result.is_error result)) _
        (lift-Fails IsError (refuse result.is_error result)
          (λ e h. let (b, same) = refuse-eq-err result.is_error result h in subst IsError same b))
        (λ u w.
          step (λ e. "Settlement error: " ++ to_string e) (wrapper.facilitator.settle request) _
            (λ response.
              step (λ e. e) (lift (settled json response)) _ (λ u w e v h. cc (ap (λ x. x.0) h)))
            ((hooks json wrapper.config.hooks).on_after_execution ctx result w).1)

  -- The hook before the call, the call, and what follows it
  executed :
      (request : CallToolParams json) (payment question : Value)
      → Refuses (
          with_error
            (λ e.
              payment_required_result json wrapper.config ("Before execution hook error: " ++ e))
            ((hooks json wrapper.config.hooks).on_before_execution
              (hook_context json wrapper handler request payment))
          >>= λ proceeds.
              lift (
                guard proceeds (
                  payment_required_result json wrapper.config
                    "Execution aborted by on_before_execution hook"))
              >> (with_error (tool_failed json) (handler request)
                  >>= settle_call json wrapper handler
                      (hook_context json wrapper handler request payment)
                      question))
  executed request payment question =
      step (λ e. "Before execution hook error: " ++ e) _ _
        (λ proceeds.
          let stop =
            payment_required_result json wrapper.config
              "Execution aborted by on_before_execution hook" in
          then-Fails IsError (lift (guard proceeds stop)) _
            (lift-Fails IsError (guard proceeds stop)
              (λ e h. subst IsError (guard-eq-err proceeds stop h) (refused _)))
            (λ u.
              then-Fails IsError (with_error (tool_failed json) (handler request)) _
                (with_error-Fails IsError (tool_failed json) (handler request) (λ e. refl))
                (settle_call-Fails (hook_context json wrapper handler request payment) question)))

  pub paid_call-Fails :
      (request : CallToolParams json) → Refuses (paid_call json wrapper handler request)
  unfolding paid_call
  paid_call-Fails request =
      step (λ e. e)
        (lift (ok_or "Payment Required" (request.meta >= extract_payment_from_meta json))) _
        (λ payment.
          step (λ e. e) (lift (build_verify_request json payment wrapper.requirements)) _
            (λ question.
              step (λ e. "Payment verification error: " ++ to_string e)
                (wrapper.facilitator.verify question) _
                (λ answer.
                  step (λ e. e) (lift (accepted json answer)) _
                    (λ u. executed request payment question))))
