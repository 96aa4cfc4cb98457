-- ===== src/Hooks/Decorator.antt =====
-- `FacilitatorHooks` and `HookedFacilitator` of r402/src/hooks.rs. The contexts hold the request
-- and nothing else, so a context is the request here.
use r.Base.{ℕ, List, [], ◌∷◌, ◌++◌, map, length}
use r.Facilitator.{FacilitatorError, aborted, Facilitator}
use r.Proto.Verify.{VerifyResponse}
use r.Proto.Settle.{SettleResponse}
use r.Hooks.Lifecycle.{HookDecision, continue, FailureRecovery, propagate, Phases, hooked}

-- `FailureRecovery` and `HookDecision` are those of `Lifecycle`.
pub record FacilitatorHooks (World Value : Type 0) : Type 0 where
  pub before_verify : Value → World → HookDecision × World
  pub after_verify : Value → VerifyResponse → World → World
  pub on_verify_failure : Value → FacilitatorError → World → FailureRecovery VerifyResponse × World
  pub before_settle : Value → World → HookDecision × World
  pub after_settle : Value → SettleResponse Value → World → World
  pub on_settle_failure :
      Value → FacilitatorError → World → FailureRecovery (SettleResponse Value) × World

-- The trait's default methods.
abbrev pub default_hooks : {World Value : Type 0} → FacilitatorHooks World Value
default_hooks = record {
  before_verify = λ request w. (continue, w);
  after_verify = λ request response w. w;
  on_verify_failure = λ request e w. (propagate, w);
  before_settle = λ request w. (continue, w);
  after_settle = λ request response w. w;
  on_settle_failure = λ request e w. (propagate, w);
}

pub record HookedFacilitator (World Value : Type 0) : Type 0 where
  pub inner : Facilitator World Value
  pub hooks : List (FacilitatorHooks World Value)

module _ {World Value : Type 0} where
  abbrev pub verify_phases :
      FacilitatorHooks World Value → Phases World Value VerifyResponse FacilitatorError
  verify_phases hook = record {
    before = hook.before_verify;
    after = hook.after_verify;
    on_failure = hook.on_verify_failure;
  }

  abbrev pub settle_phases :
      FacilitatorHooks World Value → Phases World Value (SettleResponse Value) FacilitatorError
  settle_phases hook = record {
    before = hook.before_settle;
    after = hook.after_settle;
    on_failure = hook.on_settle_failure;
  }

  -- `HookedFacilitator::new`
  unfoldable pub new : Facilitator World Value → HookedFacilitator World Value
  new inner = record { inner = inner; hooks = [] }

  -- `with_hook`; `add_hook` does the same in place.
  unfoldable pub with_hook :
      HookedFacilitator World Value → FacilitatorHooks World Value → HookedFacilitator World Value
  with_hook f hook = record f { hooks = f.hooks ++ hook ∷ [] }

  unfoldable pub hook_count : HookedFacilitator World Value → ℕ
  hook_count f = length f.hooks

  -- `Facilitator for HookedFacilitator`
  unfoldable pub as_facilitator : HookedFacilitator World Value → Facilitator World Value
  as_facilitator f = record {
    verify = hooked aborted (map verify_phases f.hooks) (f.inner.verify);
    settle = hooked aborted (map settle_phases f.hooks) (f.inner.settle);
    supported = f.inner.supported;
  }
