-- ===== src/Tests/Routing.antt =====
-- The registry of schemes at concrete inputs. A request is a list of fields here, and the world
-- counts the calls.
use r.Base.{
  String, ℕ, suc, ◌≡◌, refl, ◌↔◌, ◌=?◌, string_eq, if◌then◌else◌, false, Option, none, some, [], ok,
  err, lookup,
}
use mathlib.Core.Option
use r.Base.Text.{split_once}
use r.Chain.Id.{from_str}
use r.Scheme.Slug.{SchemeSlug, is_wildcard, slug_eq}
use r.Facilitator.{Facilitator}
use r.Proto.Verify.{valid}
use r.Proto.Settle.{success}
use r.Proto.Request.{Json, IsRouted, scheme_slug_from_json, scheme_slug_iff}
use r.Scheme.Registry.{
  ChainProvider, SchemeBlueprint, register, register_for_namespace, by_slug, as_facilitator,
}
use r.Scheme.Registry.Lookup.{by_slug-register_for_namespace}
use r.Facilitator.{FacilitatorError, aborted}
use r.Base.{◌↔◌}
use r.Scheme.Registry.Routing.{register-verify, Dispatches, as_facilitator-Dispatches}
use r.Tests.Chains.{base}
use r.Base.{if◌then◌else◌}
use r.Base.{◌=?◌}

-- A JSON value: a number, a text or an object.
mutual
  data Tree : Type 0 where
    number : ℕ → Tree
    text : String → Tree
    object : Fields → Tree

  data Fields : Type 0 where
    no_fields : Fields
    with_field : String → Tree → Fields → Fields

abbrev lookup_field : String → Fields → Option Tree
lookup_field name no_fields = none
lookup_field name (with_field key value fields) =
    if key =? name then some value else lookup_field name fields

abbrev field : String → Tree → Option Tree
field name (object fields) = lookup_field name fields
field name (number n) = none
field name (text s) = none

abbrev as_number : Tree → Option ℕ
as_number (number n) = some n
as_number (text s) = none
as_number (object _) = none

abbrev as_text : Tree → Option String
as_text (text s) = some s
as_text (number n) = none
as_text (object _) = none

abbrev trees : Json
trees = record { Value = Tree; get = field; as_u64 = as_number; as_str = as_text }

abbrev accepted : Tree
accepted =
    object
      (with_field "network" (text "eip155:8453") (with_field "scheme" (text "exact") no_fields))

abbrev payload : Tree
payload = object (with_field "accepted" accepted no_fields)

abbrev request : Tree
request =
    object (with_field "x402Version" (number 2) (with_field "paymentPayload" payload no_fields))

abbrev slug : SchemeSlug
slug = record { chain_id = base; name = "exact" }

request-IsRouted : IsRouted trees request slug
unfolding lookup from_str split_once
request-IsRouted = record {
  version = number 2;
  payload = payload;
  accepted = accepted;
  chain = text "eip155:8453";
  text = "eip155:8453";
  scheme = text "exact";
  has_version = refl;
  is_2 = refl;
  has_payload = refl;
  has_accepted = refl;
  has_network = refl;
  is_text = refl;
  is_chain = refl;
  has_scheme = refl;
  is_name = refl;
}

scheme_slug_iff_example :
    (scheme_slug_from_json trees request ≡ some slug) ↔ IsRouted trees request slug
scheme_slug_iff_example = scheme_slug_iff trees request slug

abbrev handler : Facilitator ℕ Tree
handler = record {
  verify = λ j n. (ok (valid "0xabc"), suc n);
  settle = λ j n. (ok (success "0xabc" "0x01" "eip155:8453" none), suc n);
  supported = λ n. (ok (record { kinds = []; extensions = []; signers = [] }), n);
}

abbrev chains : ChainProvider ℕ
chains = record { signer_addresses = λ p. []; chain_id = λ p. base }

abbrev blueprint : SchemeBlueprint ℕ Tree ℕ
blueprint = record { namespace = "eip155"; scheme = "exact"; build = λ p config. ok handler }

slug-is_wildcard : is_wildcard slug ≡ false
unfolding is_wildcard
slug-is_wildcard = refl

by_slug-register_for_namespace_example :
    by_slug (register_for_namespace chains [] blueprint 0 none).1 slug
    ≡ some (Option.get_or (lookup slug []) handler)
by_slug-register_for_namespace_example =
    by_slug-register_for_namespace chains [] blueprint 0 none handler slug refl refl refl
      slug-is_wildcard

register-verify_example :
    let f = as_facilitator trees (register chains [] blueprint 0 none).1 in
    (f.verify request 0 ≡ handler.verify request 0)
    × (f.settle request 0 ≡ handler.settle request 0)
register-verify_example =
    register-verify trees chains [] blueprint 0 none handler request 0 refl request-IsRouted

abbrev stopped : FacilitatorError
stopped = aborted "no_facilitator_for_network" "no handler registered for this payment scheme"

as_facilitator-Dispatches_example :
    (((as_facilitator trees {World = ℕ} []).verify request 0 ≡ (err stopped, 0))
      ↔ Dispatches trees {World = ℕ}
          (λ handler. handler.verify request)
          []
          request
          0
          (err stopped, 0))
    × (((as_facilitator trees {World = ℕ} []).settle request 0 ≡ (err stopped, 0))
        ↔ Dispatches trees {World = ℕ}
            (λ handler. handler.settle request)
            []
            request
            0
            (err stopped, 0))
as_facilitator-Dispatches_example =
    as_facilitator-Dispatches trees [] request 0 (err stopped, 0) (err stopped, 0)
