-- ===== src/Scheme/Registry.antt =====
-- `SchemeRegistry` of r402/src/scheme/registry.rs. The map is a list in the order in which it
-- iterates.
pub mod Lookup
pub mod Routing
use Prim.Native.String.{compare}
use Prim.Native.Nat.{Ordering}
use mathlib.Core.Option
use r.Base.{
  String, Option, none, some, List, [], ◌∷◌, ◌++◌, Outcome, ok, err, lookup, insert, ◌=?◌,
  string_eq, if◌then◌else◌,
}
use r.Chain.Id.{ChainId}
use r.Scheme.Slug.{SchemeSlug, slug_eq, as_wildcard, wildcard_chain}
use r.Facilitator.{FacilitatorError, aborted, Facilitator}
use r.Proto.Request.{Json, scheme_slug_from_json}
use r.Proto.Verify.{VerifyResponse}
use r.Proto.Settle.{SettleResponse}
use r.Proto.V2.{SupportedResponse, SupportedPaymentKind, list_or_nil}

-- `ChainProvider`
pub record ChainProvider (P : Type 0) : Type 0 where
  pub signer_addresses : P → List String
  pub chain_id : P → ChainId

-- `SchemeId` and `SchemeBuilder`: a blueprint names a scheme and builds a handler or fails. The
-- configuration is a JSON value.
pub record SchemeBlueprint (World Value P : Type 0) : Type 0 where
  pub namespace : String
  pub scheme : String
  pub build : P → Option Value → Outcome (Facilitator World Value) String

abbrev pub SchemeRegistry : Type 0 → Type 0 → Type 0
SchemeRegistry World Value = List (SchemeSlug × Facilitator World Value)

abbrev pub no_handler : FacilitatorError
no_handler = aborted "no_facilitator_for_network" "no handler registered for this payment scheme"

-- `sort_unstable`, on texts by their bytes
abbrev pub sorted_insert : String → List String → List String
sorted_insert a [] = a ∷ []
sorted_insert a (b ∷ bs) =
    let later = b ∷ sorted_insert a bs in
    elim (compare a b) [ Ordering.gt ↦ later | _ ↦ a ∷ b ∷ bs ]

abbrev pub sort : List String → List String
sort [] = []
sort (a ∷ as') = sorted_insert a (sort as')

-- `dedup`, of neighbours that are equal
abbrev pub dedup : List String → List String
dedup [] = []
dedup (a ∷ []) = a ∷ []
dedup (a ∷ b ∷ bs) = let rest = dedup (b ∷ bs) in if a =? b then rest else a ∷ rest

-- The addresses of signers by family.
abbrev pub Signers : Type 0
Signers = List (String × List String)

-- `for (family, addrs) in resp.signers { signers.entry(family).or_default().extend(addrs); }`
unfoldable pub extend : Signers → Signers → Signers
extend signers [] = signers
extend signers ((family, addrs) ∷ more) =
    extend (insert family (list_or_nil (lookup family signers) ++ addrs) signers) more

-- `for addrs in signers.values_mut() { addrs.sort_unstable(); addrs.dedup(); }`
unfoldable pub tidy : Signers → Signers
tidy [] = []
tidy ((family, addrs) ∷ more) = (family, dedup (sort addrs)) ∷ tidy more

module _ {World Value P : Type 0} (chains : ChainProvider P) where
  abbrev pub slug_of : SchemeBlueprint World Value P → P → SchemeSlug
  slug_of blueprint provider = record {
    chain_id = chains.chain_id provider;
    name = blueprint.scheme;
  }

  abbrev stored :
      SchemeSlug
      → SchemeRegistry World Value
      → Outcome (Facilitator World Value) String
      → Outcome (Unit {0}) String × SchemeRegistry World Value
  stored slug registry (err e) = (err e, registry)
  stored slug registry (ok handler) = (ok tt, insert slug handler registry)

  -- The registry is changed in place; it is the second part of the result.
  unfoldable pub register :
      SchemeRegistry World Value
      → SchemeBlueprint World Value P
      → P
      → Option Value
      → Outcome (Unit {0}) String × SchemeRegistry World Value
  register registry blueprint provider config =
      stored (slug_of blueprint provider) registry (blueprint.build provider config)

  unfoldable pub register_for_namespace :
      SchemeRegistry World Value
      → SchemeBlueprint World Value P
      → P
      → Option Value
      → Outcome (Unit {0}) String × SchemeRegistry World Value
  register_for_namespace registry blueprint provider config =
      stored
        (record { chain_id = wildcard_chain (chains.chain_id provider); name = blueprint.scheme })
        registry (blueprint.build provider config)

module _ {World Value : Type 0} where
  abbrev or_else :
      Option (Facilitator World Value)
      → Option (Facilitator World Value)
      → Option (Facilitator World Value)
  or_else (some handler) other = some handler
  or_else none other = other

  unfoldable pub by_slug :
      SchemeRegistry World Value → SchemeSlug → Option (Facilitator World Value)
  by_slug registry slug = or_else (lookup slug registry) (lookup (as_wildcard slug) registry)

  abbrev found :
      Option (Facilitator World Value) → Outcome (Facilitator World Value) FacilitatorError
  found none = err no_handler
  found (some handler) = ok handler

  abbrev handler_for :
      SchemeRegistry World Value → Option SchemeSlug → Option (Facilitator World Value)
  handler_for registry none = none
  handler_for registry (some slug) = by_slug registry slug

  unfoldable pub require_handler :
      SchemeRegistry World Value
      → Option SchemeSlug
      → Outcome (Facilitator World Value) FacilitatorError
  require_handler registry slug = found (handler_for registry slug)

  abbrev pub answer :
      SupportedResponse Value
      → Outcome (SupportedResponse Value) FacilitatorError × World
      → SupportedResponse Value × World
  answer so_far (err e, w) = (so_far, w)
  answer so_far (ok resp, w) = (
    record so_far {
      kinds = so_far.kinds ++ resp.kinds;
      signers = extend so_far.signers resp.signers;
    },
    w,
  )

  -- The loop of `supported` over the handlers; one that fails is passed over.
  unfoldable pub collect :
      List (SchemeSlug × Facilitator World Value)
      → SupportedResponse Value × World
      → SupportedResponse Value × World
  collect [] (so_far, w) = (so_far, w)
  collect ((slug, handler) ∷ handlers) (so_far, w) =
      collect handlers (answer so_far (handler.supported w))

module _ (json : Json) {World : Type 0} where
  open json use {Value}

  abbrev pub dispatch :
      {R : Type 0}
      → Outcome (Facilitator World Value) FacilitatorError
      → (Facilitator World Value → World → Outcome R FacilitatorError × World)
      → World
      → Outcome R FacilitatorError × World
  dispatch (err e) call w = (err e, w)
  dispatch (ok handler) call w = call handler w

  -- `Facilitator for SchemeRegistry`
  unfoldable pub as_facilitator : SchemeRegistry World Value → Facilitator World Value
  as_facilitator registry = record {
    verify = λ request.
        dispatch (require_handler registry (scheme_slug_from_json json request))
          (λ handler. handler.verify request);
    settle = λ request.
        dispatch (require_handler registry (scheme_slug_from_json json request))
          (λ handler. handler.settle request);
    supported = λ w.
        let (all, v) = collect registry (record { kinds = []; extensions = []; signers = [] }, w) in
        (ok (record { kinds = all.kinds; extensions = []; signers = tidy all.signers }), v);
  }
