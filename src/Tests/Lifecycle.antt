-- ===== src/Tests/Lifecycle.antt =====
-- The hooks of a facilitator at concrete inputs. The world is the log of what was called.
use r.Base.{String, ◌≡◌, ◌↔◌, List, [], ◌∷◌, ◌++◌, Outcome, ok, err, map, replicate, none}
use r.Facilitator.{Facilitator, FacilitatorError, aborted, onchain_failure}
use r.Proto.Verify.{VerifyResponse, valid}
use r.Proto.Settle.{SettleResponse, success}
use r.Hooks.Lifecycle.{abort, recovered, hooked}
use r.Hooks.Runs.{Runs}
use r.Hooks.Laws.{hooked_iff}
use r.Hooks.Decorator.{
  FacilitatorHooks, HookedFacilitator, default_hooks, verify_phases, settle_phases, with_hook,
  as_facilitator,
}
use r.Hooks.Decorated.{as_facilitator_iff, default_hooks-transparent}

abbrev Log : Type 0
Log = List String

abbrev flaky : Facilitator Log String
flaky = record {
  verify = λ request w. (ok (valid "0xabc"), w ++ "verify" ∷ []);
  settle = λ request w. (err (onchain_failure "reverted"), w ++ "settle" ∷ []);
  supported = λ w. (ok (record { kinds = []; extensions = []; signers = [] }), w);
}

-- It aborts each check, and recovers each settlement.
abbrev strict : FacilitatorHooks Log String
strict = record default_hooks {
  before_verify = λ request w. (abort "blocked" "not today", w ++ "strict" ∷ []);
  on_settle_failure =
      λ request e w. (recovered (success "0xabc" "0x01" "eip155:8453" none), w ++ "rescue" ∷ []);
}

hooked_iff_example :
    (hooked aborted (verify_phases strict ∷ []) flaky.verify "request" []
      ≡ (err (aborted "blocked" "not today"), "strict" ∷ []))
    ↔ Runs aborted flaky.verify "request"
        (verify_phases strict ∷ [])
        []
        (err (aborted "blocked" "not today"), "strict" ∷ [])
hooked_iff_example =
    hooked_iff aborted flaky.verify "request" (verify_phases strict ∷ []) []
      (err (aborted "blocked" "not today"), "strict" ∷ [])

abbrev guarded : HookedFacilitator Log String
guarded = record { inner = flaky; hooks = default_hooks ∷ [] }

as_facilitator_iff_example :
    let g = as_facilitator (with_hook guarded strict) in
    ((result : Outcome VerifyResponse FacilitatorError × Log)
      → (g.verify "request" [] ≡ result)
        ↔ Runs aborted flaky.verify "request"
            (map verify_phases guarded.hooks ++ verify_phases strict ∷ [])
            []
            result)
    × ((result : Outcome (SettleResponse String) FacilitatorError × Log)
        → (g.settle "request" [] ≡ result)
          ↔ Runs aborted flaky.settle "request"
              (map settle_phases guarded.hooks ++ settle_phases strict ∷ [])
              []
              result)
as_facilitator_iff_example = as_facilitator_iff guarded strict "request" []

default_hooks-transparent_example :
    let g = as_facilitator (record { inner = flaky; hooks = replicate 3 default_hooks }) in
    (g.verify "request" [] ≡ flaky.verify "request" [])
    × (g.settle "request" [] ≡ flaky.settle "request" [])
default_hooks-transparent_example = default_hooks-transparent flaky 3 "request" []
