-- ===== src/Evm/Checks/SigningDomain.antt =====
-- The domain that an EIP-3009 payer signs in.
use mathlib.Core.Path.{subst}
use r.Base
use r.Base.{
  String, ◌≡◌, refl, sym, ap, ◌↔◌, ◌⊎◌, inl, inr, Option, none, some, Outcome, ok, >>=-eq-ok,
}
use r.Evm.Types.{Address, PaymentRequirementsExtra, Domain, Eip155ExactError}
use r.Evm.Checks.{Chain, Contracts, assert_domain, name_of, version_of}

module _ (contracts : Contracts) (chain : Chain) (asset : Address)
    (extra : Option PaymentRequirementsExtra) where
  -- A part of the domain is the one that the terms name in their extra data or, where they have
  -- none, the one that the token answers.
  abbrev Names :
      (PaymentRequirementsExtra → String)
      → Outcome String Eip155ExactError
      → Option PaymentRequirementsExtra
      → String
      → Type 0
  Names part answer given name =
      ((given ≡ none) × (answer ≡ ok name))
      ⊎ ((e : PaymentRequirementsExtra) × (given ≡ some e) × (name ≡ part e))

  -- The domain that the payer signs in: the asset's, on the provider's chain.
  pub record IsDomain (domain : Domain) : Type 0 where
    pub name : Names (λ e. e.name) (contracts.name asset) extra domain.name
    pub version_text : String
    pub has_version : domain.version ≡ some version_text
    pub version : Names (λ e. e.version) (contracts.version asset) extra version_text
    pub on_chain : domain.chain_id ≡ chain.inner
    pub contract : domain.verifying_contract ≡ asset

  name_of_iff :
      (given : Option PaymentRequirementsExtra) (name : String)
      → (name_of contracts asset given ≡ ok name)
        ↔ Names (λ e. e.name) (contracts.name asset) given name
  name_of_iff none name = (λ h. inl (refl, h), λ n. elim n [ inl (e, h) ↦ h | inr (x, e, h) ↦ cc ])
  name_of_iff (some extra) name =
      (λ h. inr (extra, refl, cc), λ n. elim n [ inl (e, h) ↦ cc | inr (x, e, h) ↦ cc ])

  version_of_iff :
      (given : Option PaymentRequirementsExtra) (version : String)
      → (version_of contracts asset given ≡ ok version)
        ↔ Names (λ e. e.version) (contracts.version asset) given version
  version_of_iff none version =
      (λ h. inl (refl, h), λ n. elim n [ inl (e, h) ↦ h | inr (x, e, h) ↦ cc ])
  version_of_iff (some extra) version =
      (λ h. inr (extra, refl, cc), λ n. elim n [ inl (e, h) ↦ cc | inr (x, e, h) ↦ cc ])

  domain-eq :
      {a b : Domain}
      → a.name ≡ b.name
      → a.version ≡ b.version
      → a.chain_id ≡ b.chain_id
      → a.verifying_contract ≡ b.verifying_contract
      → a ≡ b
  domain-eq n v c k =
      λ i. record { name = n i; version = v i; chain_id = c i; verifying_contract = k i }

  -- The domain is read exactly if it is the asset's.
  pub assert_domain_iff :
      (domain : Domain) → (assert_domain contracts chain asset extra ≡ ok domain) ↔ IsDomain domain
  unfolding assert_domain
  assert_domain_iff domain = (
    λ h.
        let (name, n, h1) = >>=-eq-ok (name_of contracts asset extra) _ h in
        let (version, v, h2) = >>=-eq-ok (version_of contracts asset extra) _ h1 in
        let read : IsDomain (record {
          name = name;
          version = some version;
          chain_id = chain.inner;
          verifying_contract = asset;
        }) =
          record {
            name = (name_of_iff extra name).0 n;
            version_text = version;
            has_version = refl;
            version = (version_of_iff extra version).0 v;
            on_chain = refl;
            contract = refl;
          } in
        subst IsDomain (Base.ok-injective h2) read,
    λ d.
        let n = (name_of_iff extra domain.name).1 d.name in
        let v = (version_of_iff extra d.version_text).1 d.version in
        rw (n, v)
          (ap ok
            (domain-eq {b = domain} refl (sym d.has_version) (sym d.on_chain) (sym d.contract))),
  )
