-- ===== src/Hooks/Decorated.antt =====
-- The decorator of a facilitator runs its hooks by the lifecycle.
use mathlib.Core.List.{map-append}
use r.Base.{
  String, ap, inl, inr, ℕ, zero, suc, ◌≡◌, refl, ◌↔◌, [], ◌∷◌, ◌++◌, map, Outcome, ok, err,
  replicate,
}
use r.Facilitator.{FacilitatorError, aborted, Facilitator}
use r.Proto.Verify.{VerifyResponse}
use r.Proto.Settle.{SettleResponse}
use r.Hooks.Lifecycle.{Phases, continue, propagate, before_all, after_all, recover_first, hooked}
use r.Hooks.Runs.{Runs}
use r.Hooks.Cases.{effect_cases}
use r.Hooks.Laws.{hooked_iff}
use r.Hooks.Decorator.{
  FacilitatorHooks, HookedFacilitator, default_hooks, verify_phases, settle_phases, with_hook,
  as_facilitator,
}

map-replicate :
    {A B : Type 0} (f : A → B) (n : ℕ) (a : A) → map f (replicate n a) ≡ replicate n (f a)
map-replicate f zero a = refl
map-replicate f (suc n) a = ap (λ l. f a ∷ l) (map-replicate f n a)

module _ {World Ctx R E : Type 0} where
  -- A hook that lets everything pass.
  abbrev quiet : Phases World Ctx R E
  quiet = record {
    before = λ ctx w. (continue, w);
    after = λ ctx r w. w;
    on_failure = λ ctx e w. (propagate, w);
  }

  quiet_phases :
      (abort_error : String → String → E) (n : ℕ) (ctx : Ctx) (w : World)
      → (before_all abort_error (replicate n quiet) ctx w ≡ (ok tt, w))
        × ((r : R) → after_all (replicate n quiet) ctx r w ≡ w)
        × ((e : E) → recover_first (replicate n quiet) ctx e w ≡ (err e, w))
  unfolding before_all after_all recover_first
  quiet_phases abort_error zero ctx w = (refl, (λ r. refl), (λ e. refl))
  quiet_phases abort_error (suc n) ctx w = quiet_phases abort_error n ctx w

  hooked-quiet :
      (abort_error : String → String → E) (inner : Ctx → World → Outcome R E × World) (ctx : Ctx)
      (n : ℕ) (w : World)
      → hooked abort_error (replicate n quiet) inner ctx w ≡ inner ctx w
  unfolding hooked
  hooked-quiet abort_error inner ctx n w =
      let (passes, _, _) = quiet_phases abort_error n ctx w in
      rw passes (elim (effect_cases (inner ctx w)) [
        | inl (r, v, e) ↦ rw e (ap (λ u. (ok r, u)) ((quiet_phases abort_error n ctx v).1 r))
        | inr (x, v, e) ↦ rw e ((quiet_phases abort_error n ctx v).2 x)
      ])

module _ {World Value : Type 0} where
  -- A decorated facilitator verifies and settles as the lifecycle says, over its hooks in their
  -- order, and a registered hook comes last.
  pub as_facilitator_iff :
      (f : HookedFacilitator World Value) (hook : FacilitatorHooks World Value) (request : Value)
      (w : World)
      → let g = as_facilitator (with_hook f hook) in
        ((result : Outcome VerifyResponse FacilitatorError × World)
          → (g.verify request w ≡ result)
            ↔ Runs aborted f.inner.verify request
                (map verify_phases f.hooks ++ verify_phases hook ∷ [])
                w
                result)
        × ((result : Outcome (SettleResponse Value) FacilitatorError × World)
            → (g.settle request w ≡ result)
              ↔ Runs aborted f.inner.settle request
                  (map settle_phases f.hooks ++ settle_phases hook ∷ [])
                  w
                  result)
  unfolding as_facilitator with_hook
  as_facilitator_iff f hook request w = (
    (λ result. rw map-append (hooked_iff aborted f.inner.verify request _ w result)),
    (λ result. rw map-append (hooked_iff aborted f.inner.settle request _ w result)),
  )

  -- Any number of hooks with the default methods changes neither an answer nor the world.
  pub default_hooks-transparent :
      (inner : Facilitator World Value) (n : ℕ) (request : Value) (w : World)
      → let g = as_facilitator (record { inner = inner; hooks = replicate n default_hooks }) in
        (g.verify request w ≡ inner.verify request w)
        × (g.settle request w ≡ inner.settle request w)
  unfolding as_facilitator hooked
  default_hooks-transparent inner n request w = (
    rw map-replicate (hooked-quiet aborted inner.verify request n w),
    rw map-replicate (hooked-quiet aborted inner.settle request n w),
  )
