-- ===== src/Evm/Signature.antt =====
-- r402-evm/src/exact/facilitator/signature.rs: the kinds of signature.
pub mod Kinds
use r.Base.{
  String, ℕ, ◌-◌, Bool, true, false, ◌&&◌, Option, none, some, List, [], ◌∷◌, ◌++◌, Outcome, ok,
  err, ◌>>=◌, map_err, length, take, drop, replicate, leb, ◌==◌, bytes_beq, if◌then◌else◌,
}
use r.Proto.Error.{invalid_signature}
use r.Evm.Types.{
  Address, Eip3009Payment, Permit2TokenPermissions, Permit2Witness, Domain, Eip155ExactError,
  payment_verification,
}

-- `Sig6492` of r402-evm/src/exact/facilitator/contract.rs
pub record Sig6492 : Type 0 where
  pub factory : Address
  pub factory_calldata : List ℕ
  pub inner_sig : List ℕ

-- `PermitWitnessTransferFrom` of r402-evm/src/exact/types.rs, which a Permit2 payer signs
pub record PermitWitnessTransferFrom : Type 0 where
  pub permitted : Permit2TokenPermissions
  pub spender : Address
  pub nonce : ℕ
  pub deadline : ℕ
  pub witness : Permit2Witness

-- What the code calls of alloy's primitives: signatures, and the decoding and hashing of Solidity data.
pub record Primitives : Type 1 where
  pub Signature : Type 0
  pub from_raw : List ℕ → Option Signature
  pub from_erc2098 : List ℕ → Signature
  pub normalized_s : Signature → Signature
  -- `recover_address_from_prehash`
  pub recover : Signature → ℕ → Option Address
  -- `v()`, `r()` and `s()`
  pub parity : Signature → Bool
  pub part_r : Signature → ℕ
  pub part_s : Signature → ℕ
  -- `Sig6492::abi_decode_params`
  pub decode_6492 : List ℕ → Outcome Sig6492 String
  -- `TransferWithAuthorization::eip712_signing_hash`, at a payment's fields
  pub transfer_hash : Eip3009Payment → Domain → ℕ
  -- `PermitWitnessTransferFrom::eip712_signing_hash`
  pub permit_hash : PermitWitnessTransferFrom → Domain → ℕ

-- `EIP6492_MAGIC_SUFFIX`
abbrev pub magic_suffix : List ℕ
magic_suffix =
    0x64 ∷ 0x92 ∷ 0x64 ∷ 0x92 ∷ 0x64 ∷ 0x92 ∷ 0x64 ∷ 0x92 ∷ 0x64 ∷ 0x92 ∷ 0x64 ∷ 0x92 ∷ 0x64 ∷ 0x92
    ∷ 0x64 ∷ 0x92 ∷ 0x64 ∷ 0x92 ∷ 0x64 ∷ 0x92 ∷ 0x64 ∷ 0x92 ∷ 0x64 ∷ 0x92 ∷ 0x64 ∷ 0x92 ∷ 0x64
    ∷ 0x92 ∷ 0x64 ∷ 0x92 ∷ 0x64 ∷ 0x92 ∷ []

-- `StructuredSignature`
pub data StructuredSignature (Signature : Type 0) : Type 0 where
  eip6492 : Address → List ℕ → List ℕ → List ℕ → StructuredSignature Signature
  eoa : Signature → StructuredSignature Signature
  eip1271 : List ℕ → StructuredSignature Signature

-- `bytes.len() >= 32 && bytes[bytes.len() - 32..] == EIP6492_MAGIC_SUFFIX`
unfoldable pub is_eip6492 : List ℕ → Bool
is_eip6492 bytes = leb 32 (length bytes) && bytes_beq (drop (length bytes - 32) bytes) magic_suffix

module _ (primitives : Primitives) where
  open primitives use {
    Signature, from_raw, from_erc2098, normalized_s, recover, decode_6492, transfer_hash,
  }

  abbrev normalized : Option Signature → Option Signature
  normalized none = none
  normalized (some s) = some (normalized_s s)

  unfoldable pub eoa_signature : List ℕ → Option Signature
  eoa_signature bytes =
      if length bytes == 65
      then normalized (from_raw bytes)
      else if length bytes == 64
      then some (normalized_s (from_erc2098 bytes))
      else none

  abbrev pub is_signer : Address → Option Address → Bool
  is_signer expected none = false
  is_signer expected (some r) = r == expected

  abbrev pub of_eoa : List ℕ → Address → ℕ → Option Signature → StructuredSignature Signature
  of_eoa bytes expected prehash none = eip1271 bytes
  of_eoa bytes expected prehash (some s) =
      if is_signer expected (recover s prehash) then eoa s else eip1271 bytes

  -- `StructuredSignature::try_from_bytes`; the error is that of the wrapper's decoding.
  unfoldable pub try_from_bytes :
      List ℕ → Address → ℕ → Outcome (StructuredSignature Signature) String
  try_from_bytes bytes expected_signer prehash =
      if is_eip6492 bytes
      then (do
        sig ← decode_6492 (take (length bytes - 32) bytes)
        ok (eip6492 sig.factory sig.factory_calldata sig.inner_sig bytes))
      else ok (of_eoa bytes expected_signer prehash (eoa_signature bytes))

  -- `TryFrom<Bytes>`, where no signer is known
  unfoldable pub try_from : List ℕ → Outcome (StructuredSignature Signature) String
  try_from bytes =
      if is_eip6492 bytes
      then (do
        sig ← decode_6492 (take (length bytes - 32) bytes)
        ok (eip6492 sig.factory sig.factory_calldata sig.inner_sig bytes))
      else ok (eip1271 bytes)

  -- `SignedMessage`
  pub record SignedMessage : Type 0 where
    pub address : Address
    pub hash : ℕ
    pub signature : StructuredSignature Signature

  unfoldable pub extract : Eip3009Payment → Domain → Outcome SignedMessage Eip155ExactError
  extract payment domain = do
    let hash = transfer_hash payment domain
    signature ←
        map_err (λ e. payment_verification (invalid_signature e))
          (try_from_bytes payment.signature payment.from hash)
    ok (record { address = payment.from; hash = hash; signature = signature })
