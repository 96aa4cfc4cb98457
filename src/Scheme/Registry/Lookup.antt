-- ===== src/Scheme/Registry/Lookup.antt =====
-- Which handler a slug finds, after handlers were registered for a chain or for a namespace.
use mathlib.Core.Option
use r.Base.{
  ◌⊎◌, Outcome-cases, inl, inr, sym, ap, ◌≢◌, =?-eq-false, eq_iff, Option-cases, false, ◌≡◌, true,
  Option, some, ok, lookup, lookup-insert, ◌=?◌, =?_refl, string_eq,
}
use r.Scheme.Slug.{SchemeSlug, slug_eq, slug_beq_iff, as_wildcard, is_wildcard, wildcard_chain}
use r.Facilitator.{Facilitator}
use r.Scheme.Registry.{
  ChainProvider, SchemeBlueprint, SchemeRegistry, register, register_for_namespace, by_slug,
  slug_of,
}

module _ {World Value P : Type 0} (chains : ChainProvider P) (registry : SchemeRegistry World Value)
    (blueprint : SchemeBlueprint World Value P) (provider : P) (config : Option Value)
    (handler : Facilitator World Value) where
  -- A handler that was built and registered for its provider's chain is found under its slug,
  -- whatever was registered before.
  pub by_slug-register :
      blueprint.build provider config ≡ ok handler
      → by_slug
          (register chains registry blueprint provider config).1
          (slug_of chains blueprint provider)
        ≡ some handler
  unfolding by_slug register
  by_slug-register built = rw (built, lookup-insert, =?_refl (slug_of chains blueprint provider))

  -- A handler registered for a namespace is found for each chain of the namespace and its scheme,
  -- unless one is registered for that chain itself, which then is found as before.
  pub by_slug-register_for_namespace :
      (slug : SchemeSlug)
      → blueprint.build provider config ≡ ok handler
      → slug.chain_id.namespace ≡ (chains.chain_id provider).namespace
      → slug.name ≡ blueprint.scheme
      → is_wildcard slug ≡ false
      → by_slug (register_for_namespace chains registry blueprint provider config).1 slug
        ≡ some (Option.get_or (lookup slug registry) handler)
  unfolding by_slug register_for_namespace is_wildcard as_wildcard
  by_slug-register_for_namespace slug built same_namespace same_name exact =
      let wild : SchemeSlug = record {
        chain_id = wildcard_chain (chains.chain_id provider);
        name = blueprint.scheme;
      } in
      let star : (wild =? as_wildcard slug) ≡ true = (slug_beq_iff wild (as_wildcard slug)).1 (λ i.
        record {
          chain_id = record { namespace = sym same_namespace i; reference = "*" };
          name = sym same_name i;
        }) in
      let other : (wild =? slug) ≡ false = =?-eq-false wild slug (λ e.
        cc (
          (eq_iff slug.chain_id.reference "*").1 (sym (ap (λ s. s.chain_id.reference) e)),
          exact,
        )) in
      rw
        (
          built,
          lookup-insert wild slug handler registry,
          lookup-insert wild (as_wildcard slug) handler registry,
          star,
          other,
        )
        (elim (Option-cases (lookup slug registry)) [
          | inl missed ↦ rw missed
          | inr (h, found) ↦ rw found
        ])

  apart_from :
      (slug : SchemeSlug)
      → ((slug.chain_id.namespace ≢ (chains.chain_id provider).namespace)
          ⊎ (slug.name ≢ blueprint.scheme))
      → ◌≢◌ {A = SchemeSlug}
          (record { chain_id = wildcard_chain (chains.chain_id provider); name = blueprint.scheme })
          slug
  apart_from slug (inl h) e = h (sym (ap (λ s. s.chain_id.namespace) e))
  apart_from slug (inr h) e = h (sym (ap (λ s. s.name) e))

  -- A registration for a namespace changes nothing for other namespaces and other schemes.
  pub by_slug-register_for_namespace_other :
      (slug : SchemeSlug)
      → ((slug.chain_id.namespace ≢ (chains.chain_id provider).namespace)
          ⊎ (slug.name ≢ blueprint.scheme))
      → by_slug (register_for_namespace chains registry blueprint provider config).1 slug
        ≡ by_slug registry slug
  unfolding by_slug register_for_namespace as_wildcard
  by_slug-register_for_namespace_other slug apart =
      let wild : SchemeSlug = record {
        chain_id = wildcard_chain (chains.chain_id provider);
        name = blueprint.scheme;
      } in
      elim (Outcome-cases (blueprint.build provider config)) [
        | inr (e, failed) ↦ rw failed
        | inl (h, built) ↦ rw (
          built,
          lookup-insert wild slug h registry,
          lookup-insert wild (as_wildcard slug) h registry,
          =?-eq-false wild slug (apart_from slug apart),
          =?-eq-false wild (as_wildcard slug) (apart_from (as_wildcard slug) apart),
        )
      ]
