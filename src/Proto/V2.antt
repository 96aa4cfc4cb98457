-- ===== src/Proto/V2.antt =====
-- r402/src/proto/v2.rs and `SupportedResponse` of r402/src/proto/mod.rs: payment terms, payloads,
-- what a facilitator supports, and price tags.
use Prim.Native.String
use Prim.Native.String.{String}
use r.Base.{
  ℕ, ◌≡◌, ◌↔◌, Bool, true, ◌&&◌, Option, none, some, List, [], ◌++◌, arith, ◌=?◌, string_eq, lookup,
  eq_iff,
}
use r.Chain.Id.{ChainId, chain_id_eq, chain_id_beq, chain_id_beq_iff}
use r.Chain.Id
use r.Proto.Settle.{Extensions}

pub record ResourceInfo : Type 0 where
  pub description : String
  pub mime_type : String
  pub url : String

pub record PaymentRequirements (Scheme Amount Address Extra : Type 0) : Type 0 where
  pub scheme : Scheme
  pub network : ChainId
  pub amount : Amount
  pub pay_to : Address
  pub max_timeout_seconds : ℕ  -- u64
  pub asset : Address
  pub extra : Option Extra

pub record PaymentPayload (Accepted Payload Value : Type 0) : Type 0 where
  pub accepted : Accepted
  pub payload : Payload
  pub resource : Option ResourceInfo
  pub extensions : Option (Extensions Value)

-- `TypedVerifyRequest`; the version marker has one value.
pub record TypedVerifyRequest (Payload Requirements : Type 0) : Type 0 where
  pub payment_payload : Payload
  pub payment_requirements : Requirements

pub record SupportedPaymentKind (Value : Type 0) : Type 0 where
  pub x402_version : ℕ  -- u8
  pub scheme : String
  pub network : String
  pub extra : Option Value

pub record SupportedResponse (Value : Type 0) : Type 0 where
  pub kinds : List (SupportedPaymentKind Value)
  pub extensions : List String
  pub signers : List (String × List String)

-- The addresses under a key, none where it is missing.
abbrev pub list_or_nil : Option (List String) → List String
list_or_nil none = []
list_or_nil (some addrs) = addrs

-- `SupportedResponse::signers_for_chain`
unfoldable pub signers_for_chain :
    {Value : Type 0} → SupportedResponse Value → ChainId → List String
unfolding Id.to_string
signers_for_chain s c =
    list_or_nil (lookup (Id.to_string c) s.signers)
    ++ list_or_nil (lookup (String.◌++◌ c.namespace ":*") s.signers)

-- The terms of a price tag as they go over the wire: `PaymentRequirements` at its default types.
abbrev pub WireRequirements : Type 0 → Type 0
WireRequirements Value = PaymentRequirements String String String Value

-- The terms that a payer must accept as they stand; the timeout and the extra data are not among
-- them.
pub record SameTerms {Value : Type 0} (a b : WireRequirements Value) : Type 0 where
  pub scheme : a.scheme ≡ b.scheme
  pub network : a.network ≡ b.network
  pub amount : a.amount ≡ b.amount
  pub asset : a.asset ≡ b.asset
  pub pay_to : a.pay_to ≡ b.pay_to

-- An enricher is a shared closure: `Handle` is the type of those, and calling one is the section's
-- parameter below.
pub record PriceTag (Handle Value : Type 0) : Type 0 where
  pub requirements : WireRequirements Value
  pub enricher : Option Handle

module _ {Handle Value : Type 0} where
  -- `PriceTag::with_timeout`
  unfoldable pub with_timeout : PriceTag Handle Value → ℕ → PriceTag Handle Value
  with_timeout tag seconds = record tag {
    requirements = record (tag.requirements) { max_timeout_seconds = seconds };
  }

  -- `PartialEq<PaymentRequirements> for PriceTag`
  unfoldable pub tag_eq : PriceTag Handle Value → WireRequirements Value → Bool
  tag_eq tag b =
      let a = tag.requirements in
      a.scheme =? b.scheme
      && a.network =? b.network
      && a.amount =? b.amount
      && a.asset =? b.asset
      && a.pay_to =? b.pay_to

  -- A price tag equals the terms that a payer accepted exactly if the two are the same terms.
  pub tag_eq_iff :
      (tag : PriceTag Handle Value) (b : WireRequirements Value)
      → (tag_eq tag b ≡ true) ↔ SameTerms tag.requirements b
  unfolding tag_eq
  tag_eq_iff tag b =
      let a = tag.requirements in
      ground (
        arith,
        eq_iff a.scheme b.scheme,
        chain_id_beq_iff a.network b.network,
        eq_iff a.amount b.amount,
        eq_iff a.asset b.asset,
        eq_iff a.pay_to b.pay_to,
      )

module _ {Handle Value : Type 0}
    (call : Handle → PriceTag Handle Value → SupportedResponse Value → PriceTag Handle Value) where
  -- `PriceTag::enrich`
  unfoldable pub enrich : PriceTag Handle Value → SupportedResponse Value → PriceTag Handle Value
  enrich tag capabilities = elim (tag.enricher) [
    | none ↦ tag
    | some handle ↦ call handle tag capabilities
  ]

-- `PaymentRequired`, the body of an answer 402
pub record PaymentRequired (Value : Type 0) : Type 0 where
  pub error : Option String
  pub resource : ResourceInfo
  pub accepts : List (WireRequirements Value)
  pub extensions : Option (Extensions Value)
