-- ===== src/Evm/Types.antt =====
-- r402-evm/src/exact/types.rs and the types of r402-evm/src/exact/facilitator. Addresses, hashes and
-- U256 amounts are the numbers that their bytes stand for; signatures are lists of bytes.
use r.Base.{Bool, true, ◌≡◌, refl, ◌↔◌, String, ℕ, Option, List}
use r.Proto.Error.{PaymentVerificationError}
use r.Proto.V2.{PaymentRequirements, PaymentPayload}

abbrev pub Address : Type 0
Address = ℕ

abbrev pub permit2_address : Address
permit2_address = 0x000000000022D473030F116dDEE9F6B43aC78BA3

abbrev pub x402_exact_permit2_proxy : Address
x402_exact_permit2_proxy = 0x4020615294c913F045dc10f0a5cdEbd86c280001

-- `ExactScheme` of r402/src/scheme/mod.rs
pub data ExactScheme : Type 0 where
  exact : ExactScheme

-- its derived `PartialEq`
abbrev pub scheme_beq : ExactScheme → ExactScheme → Bool
scheme_beq exact exact = true

pub scheme_beq_iff : (a b : ExactScheme) → (scheme_beq a b ≡ true) ↔ (a ≡ b)
scheme_beq_iff exact exact = ((λ _. refl), (λ _. refl))

pub data AssetTransferMethod : Type 0 where
  eip3009 permit2 : AssetTransferMethod

pub record PaymentRequirementsExtra : Type 0 where
  pub name : String
  pub version : String
  pub asset_transfer_method : Option AssetTransferMethod

pub record Eip3009Authorization : Type 0 where
  pub from : Address
  pub to : Address
  pub value : ℕ
  pub valid_after : ℕ  -- u64 seconds
  pub valid_before : ℕ  -- u64 seconds
  pub nonce : ℕ

pub record Eip3009Payload : Type 0 where
  pub signature : List ℕ
  pub authorization : Eip3009Authorization

pub record Permit2TokenPermissions : Type 0 where
  pub token : Address
  pub amount : ℕ

pub record Permit2Witness : Type 0 where
  pub to : Address
  pub valid_after : ℕ
  pub extra : List ℕ

pub record Permit2Authorization : Type 0 where
  pub from : Address
  pub permitted : Permit2TokenPermissions
  pub spender : Address
  pub nonce : ℕ
  pub deadline : ℕ
  pub witness : Permit2Witness

pub record Permit2Payload : Type 0 where
  pub signature : List ℕ
  pub permit2_authorization : Permit2Authorization

pub data ExactPayload : Type 0 where
  permit2 : Permit2Payload → ExactPayload
  eip3009 : Eip3009Payload → ExactPayload

-- `types::v2::PaymentRequirements`
abbrev pub Requirements : Type 0
Requirements = PaymentRequirements ExactScheme ℕ Address PaymentRequirementsExtra

-- `types::v2::PaymentPayload`
abbrev pub Payload : Type 0 → Type 0
Payload Value = PaymentPayload Requirements ExactPayload Value

pub record Eip3009Payment : Type 0 where
  pub from : Address
  pub to : Address
  pub value : ℕ
  pub valid_after : ℕ
  pub valid_before : ℕ
  pub nonce : ℕ
  pub signature : List ℕ

pub record Permit2Payment : Type 0 where
  pub from : Address
  pub to : Address
  pub token : Address
  pub amount : ℕ
  pub spender : Address
  pub nonce : ℕ
  pub deadline : ℕ
  pub valid_after : ℕ
  pub extra : List ℕ
  pub signature : List ℕ

-- `Eip712Domain`; Permit2's has no version.
pub record Domain : Type 0 where
  pub name : String
  pub version : Option String
  pub chain_id : ℕ
  pub verifying_contract : Address

-- `Eip155ExactError`; the errors of the libraries count by their texts.
pub data Eip155ExactError : Type 0 where
  transport pending_transaction : String → Eip155ExactError
  transaction_reverted : ℕ → Eip155ExactError
  contract_call : String → Eip155ExactError
  payment_verification : PaymentVerificationError → Eip155ExactError
