-- ===== src/Scheme/Registry/Routing.antt =====
-- Requests reach the handler that is registered for the terms which they accept.
use mathlib.Core.Path.{subst}
use r.Proto.Verify.{VerifyResponse}
use r.Proto.Settle.{SettleResponse}
use r.Base.{Outcome, Option-cases, ap, ◌∙◌, ◌↔◌, refl, ◌≡◌, inl, inr, Option, some, ok, err}
use r.Scheme.Slug.{SchemeSlug}
use r.Facilitator.{Facilitator, FacilitatorError, aborted}
use r.Proto.Request.{Json, scheme_slug_from_json, IsRouted, scheme_slug_iff}
use r.Scheme.Registry.{
  ChainProvider, SchemeBlueprint, SchemeRegistry, register, by_slug, slug_of, require_handler,
  as_facilitator, dispatch,
}
use r.Scheme.Registry.Lookup.{by_slug-register}

module _ (json : Json) {World : Type 0} where
  open json use {Value}

  routed :
      (registry : SchemeRegistry World Value) (request : Value) (slug : SchemeSlug)
      (handler : Facilitator World Value) (w : World)
      → IsRouted json request slug
      → by_slug registry slug ≡ some handler
      → ((as_facilitator json registry).verify request w ≡ handler.verify request w)
        × ((as_facilitator json registry).settle request w ≡ handler.settle request w)
  unfolding as_facilitator require_handler
  routed registry request slug handler w r found =
      let e = (scheme_slug_iff json request slug).1 r in (rw (e, found), rw (e, found))

  -- After a handler is registered, the registry verifies and settles by it each request whose
  -- payload accepts terms on the provider's chain in the blueprint's scheme.
  pub register-verify :
      {P : Type 0} (chains : ChainProvider P) (registry : SchemeRegistry World Value)
      (blueprint : SchemeBlueprint World Value P) (provider : P) (config : Option Value)
      (handler : Facilitator World Value) (request : Value) (w : World)
      → blueprint.build provider config ≡ ok handler
      → IsRouted json request (slug_of chains blueprint provider)
      → let f = as_facilitator json (register chains registry blueprint provider config).1 in
        (f.verify request w ≡ handler.verify request w)
        × (f.settle request w ≡ handler.settle request w)
  register-verify chains registry blueprint provider config handler request w built r =
      routed (register chains registry blueprint provider config).1 request
        (slug_of chains blueprint provider) handler w r
        (by_slug-register chains registry blueprint provider config handler built)

  -- How a call of the registry ends: the handler under the request's slug answers it; or the request
  -- has no slug with a handler, and is refused without a call.
  pub data Dispatches {R : Type 0}
      (call : Facilitator World Value → World → Outcome R FacilitatorError × World)
      (registry : SchemeRegistry World Value) (request : Value) (w : World)
      (result : Outcome R FacilitatorError × World) : Type 0 where
    is_routed :
        (slug : SchemeSlug) (handler : Facilitator World Value)
        → IsRouted json request slug
        → by_slug registry slug ≡ some handler
        → result ≡ call handler w
        → Dispatches call registry request w result
    is_refused :
        ((slug : SchemeSlug) (handler : Facilitator World Value)
          → IsRouted json request slug
          → ¬ (by_slug registry slug ≡ some handler))
        → result ≡ (
          err (
              aborted "no_facilitator_for_network" "no handler registered for this payment scheme"),
          w,
        )
        → Dispatches call registry request w result

  module _ {R : Type 0}
      (call : Facilitator World Value → World → Outcome R FacilitatorError × World)
      (registry : SchemeRegistry World Value) (request : Value) (w : World) where
    abbrev Dispatched : Outcome R FacilitatorError × World → Type 0
    Dispatched = Dispatches call registry request w

    abbrev dispatched : Outcome R FacilitatorError × World
    dispatched =
        dispatch json (require_handler registry (scheme_slug_from_json json request)) call w

    dispatched_complete :
        {result : Outcome R FacilitatorError × World} → Dispatched result → dispatched ≡ result
    unfolding require_handler
    dispatched_complete (Dispatches.is_routed slug handler r found q) =
        rw ((scheme_slug_iff json request slug).1 r, found, q) refl
    dispatched_complete (Dispatches.is_refused missed q) =
        elim (Option-cases (scheme_slug_from_json json request)) [
          | inl unread ↦ rw (unread, q) refl
          | inr (slug, e) ↦ elim (Option-cases (by_slug registry slug)) [
            | inl empty ↦ rw (e, empty, q) refl
            | inr (handler, found) ↦
                absurd (missed slug handler ((scheme_slug_iff json request slug).0 e) found)
          ]
        ]

    dispatched_sound : Dispatched dispatched
    unfolding require_handler
    dispatched_sound = elim (Option-cases (scheme_slug_from_json json request)) [
      | inl unread ↦
          Dispatches.is_refused
            (λ slug handler r found. let e = (scheme_slug_iff json request slug).1 r in cc)
            (rw unread refl)
      | inr (slug, e) ↦ elim (Option-cases (by_slug registry slug)) [
        | inr (handler, found) ↦
            Dispatches.is_routed slug handler ((scheme_slug_iff json request slug).0 e) found
              (rw (e, found) refl)
        | inl empty ↦
            Dispatches.is_refused
              (λ other handler r found.
                let e' = (scheme_slug_iff json request other).1 r in
                let same : slug ≡ other = cc in
                let found' : by_slug registry slug ≡ some handler =
                  ap (by_slug registry) same ∙ found in
                cc)
              (rw (e, empty) refl)
      ]
    ]

    dispatched_iff :
        (result : Outcome R FacilitatorError × World) → (dispatched ≡ result) ↔ Dispatched result
    dispatched_iff result = ((λ e. subst Dispatched e dispatched_sound), dispatched_complete)

  -- The registry verifies and settles a request by the handler under the slug of the terms which the
  -- request accepts, the wildcard's included; where no such handler is registered, or the request has
  -- no slug, both operations refuse it with the same error, and nothing is called.
  pub as_facilitator-Dispatches :
      (registry : SchemeRegistry World Value) (request : Value) (w : World)
      (answer : Outcome VerifyResponse FacilitatorError × World)
      (report : Outcome (SettleResponse Value) FacilitatorError × World)
      → (((as_facilitator json registry).verify request w ≡ answer)
          ↔ Dispatches (λ handler. handler.verify request) registry request w answer)
        × (((as_facilitator json registry).settle request w ≡ report)
            ↔ Dispatches (λ handler. handler.settle request) registry request w report)
  unfolding as_facilitator
  as_facilitator-Dispatches registry request w answer report = (
    dispatched_iff (λ handler. handler.verify request) registry request w answer,
    dispatched_iff (λ handler. handler.settle request) registry request w report,
  )
