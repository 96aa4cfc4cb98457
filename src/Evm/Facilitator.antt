-- ===== src/Evm/Facilitator.antt =====
-- r402-evm/src/exact/facilitator/mod.rs: the facilitator of EVM chains, an implementation of the
-- trait `Facilitator`.
pub mod Settling
pub mod Verifying
use Prim.Native.String.{◌++◌}
use r.Base.{String, ℕ, Bool, none, List, [], ◌∷◌, Outcome, ok, map_err}
use r.Base.Actions.{Action, ◌>>=◌, lift, with_error}
use r.Chain.Id
use r.Proto.Error.{PaymentVerificationError, invalid_format}
use r.Proto.V2.{
  PaymentPayload, PaymentRequirements, TypedVerifyRequest, SupportedPaymentKind, SupportedResponse,
}
use r.Proto.Verify.{VerifyResponse, valid}
use r.Proto.Settle.{SettleResponse, success}
use r.Facilitator.{Facilitator, FacilitatorError, payment_verification, onchain_failure}
use r.Evm.Types.{
  Address, Requirements, Payload, ExactPayload, eip3009, permit2, Eip3009Payment, Eip155ExactError,
  transport, pending_transaction, transaction_reverted, contract_call,
}
use r.Evm.Types
use r.Evm.Checks.{Chain, Contracts, assert_valid_payment, assert_valid_permit2_payment}
use r.Evm.Signature.{Primitives}
use r.Evm.Calls.{Abi, Provider}
use r.Evm.Simulation.{verify_payment, verify_permit2_payment}
use r.Evm.Settlement.{settle_payment, settle_permit2_payment}

-- `types::v2::VerifyRequest`, which settling reads too
abbrev pub VerifyRequest : Type 0 → Type 0
VerifyRequest Value = TypedVerifyRequest (Payload Value) Requirements

-- What a facilitator stands on: alloy, serde, the texts of addresses and hashes, the provider, its
-- chain and its signers, and, at a state of the world, the contracts, the clock and the order in
-- which concurrent reads fail.
pub record Host (World Value : Type 0) : Type 1 where
  pub primitives : Primitives
  pub abi : Abi
  pub from_value : Value → Outcome (VerifyRequest Value) String
  pub address_text : Address → String
  pub hash_text : ℕ → String
  pub provider : Provider World
  pub chain : Chain
  pub signer_addresses : List String
  pub contracts : World → Contracts
  pub now : World → ℕ
  pub races : World → Bool × Bool

-- `SchemeId::caip_family`
unfoldable pub caip_family : String → String
caip_family namespace = namespace ++ ":*"

-- `Eip155Exact::namespace`
abbrev pub namespace : String
namespace = "eip155"

-- `DEFAULT_CLOCK_SKEW_TOLERANCE`
abbrev pub default_clock_skew_tolerance : ℕ
default_clock_skew_tolerance = 30

-- `Eip155ExactFacilitator`
pub record Eip155ExactFacilitator (World Value : Type 0) : Type 1 where
  pub host : Host World Value
  pub clock_skew_tolerance : ℕ  -- u64

module _ {World Value : Type 0} where
  unfoldable pub new : Host World Value → Eip155ExactFacilitator World Value
  new host = record { host = host; clock_skew_tolerance = default_clock_skew_tolerance }

  unfoldable pub with_clock_skew_tolerance :
      Eip155ExactFacilitator World Value → ℕ → Eip155ExactFacilitator World Value
  with_clock_skew_tolerance facilitator seconds = record facilitator {
    clock_skew_tolerance = seconds;
  }

  -- `TypedVerifyRequest::from_proto` and `from_settle`, with `From<serde_json::Error>`
  unfoldable pub from_proto :
      Host World Value → Value → Outcome (VerifyRequest Value) PaymentVerificationError
  from_proto host request = map_err invalid_format (host.from_value request)

module _ {World Value : Type 0} (host : Host World Value) where
  -- `From<Eip155ExactError> for FacilitatorError`, with `Display`
  unfoldable pub of_exact_error : Eip155ExactError → FacilitatorError
  of_exact_error (transport e) = onchain_failure e
  of_exact_error (pending_transaction e) = onchain_failure e
  of_exact_error (transaction_reverted hash) =
      onchain_failure ("Transaction " ++ (host.hash_text hash ++ " reverted"))
  of_exact_error (contract_call e) = onchain_failure ("Contract call failed: " ++ e)
  of_exact_error (Types.payment_verification e) = payment_verification e

module _ {World Value : Type 0} (facilitator : Eip155ExactFacilitator World Value) where
  abbrev host : Host World Value
  host = facilitator.host

  unfoldable pub verify_exact :
      VerifyRequest Value → ExactPayload → Action World Eip155ExactError VerifyResponse
  verify_exact request (eip3009 exact) w =
      let payload = request.payment_payload in
      let tolerance = facilitator.clock_skew_tolerance in
      (do
        checked ← lift (
            assert_valid_payment (host.contracts w) (host.races w).0 (host.races w).1 (host.now w)
              host.chain exact payload request.payment_requirements tolerance)
        payer ←
            verify_payment host.primitives host.provider host.abi payload.accepted.asset checked.0
              checked.1
        lift (ok (valid (host.address_text payer))))
        w
  verify_exact request (permit2 exact) w =
      let payload = request.payment_payload in
      let tolerance = facilitator.clock_skew_tolerance in
      (do
        checked ← lift (
            assert_valid_permit2_payment (host.contracts w) (host.now w) host.chain exact payload
              request.payment_requirements tolerance)
        payer ← verify_permit2_payment host.primitives host.provider checked.0 checked.1
        lift (ok (valid (host.address_text payer))))
        w

  -- The answer for a payment that a transaction made.
  abbrev pub settled_by : VerifyRequest Value → Address → ℕ → SettleResponse Value
  settled_by request payer tx_hash =
      success (host.address_text payer) (host.hash_text tx_hash)
        (Id.to_string request.payment_payload.accepted.network) none

  unfoldable pub settle_exact :
      VerifyRequest Value → ExactPayload → Action World Eip155ExactError (SettleResponse Value)
  settle_exact request (eip3009 exact) w =
      let payload = request.payment_payload in
      let tolerance = facilitator.clock_skew_tolerance in
      (do
        checked ← lift (
            assert_valid_payment (host.contracts w) (host.races w).0 (host.races w).1 (host.now w)
              host.chain exact payload request.payment_requirements tolerance)
        tx_hash ←
            settle_payment host.abi host.provider host.primitives payload.accepted.asset checked.0
              checked.1
        lift (ok (settled_by request checked.0.from tx_hash)))
        w
  settle_exact request (permit2 exact) w =
      let payload = request.payment_payload in
      let tolerance = facilitator.clock_skew_tolerance in
      (do
        checked ← lift (
            assert_valid_permit2_payment (host.contracts w) (host.now w) host.chain exact payload
              request.payment_requirements tolerance)
        tx_hash ← settle_permit2_payment host.abi host.provider checked.0
        lift (ok (settled_by request checked.0.from tx_hash)))
        w

  unfoldable pub verify : Value → Action World FacilitatorError VerifyResponse
  verify json = do
    request ← with_error payment_verification (lift (from_proto host json))
    with_error (of_exact_error host) (verify_exact request request.payment_payload.payload)

  unfoldable pub settle : Value → Action World FacilitatorError (SettleResponse Value)
  settle json = do
    request ← with_error payment_verification (lift (from_proto host json))
    with_error (of_exact_error host) (settle_exact request request.payment_payload.payload)

  unfoldable pub supported : Action World FacilitatorError (SupportedResponse Value)
  supported = lift (
      ok (record {
        kinds =
            record {
              x402_version = 2;
              scheme = "exact";
              network = Id.to_string host.chain.chain_id;
              extra = none;
            }
            ∷ [];
        extensions = [];
        signers = (caip_family namespace, host.signer_addresses) ∷ [];
      }))

  -- The implementation of the trait.
  unfoldable pub as_facilitator : Facilitator World Value
  as_facilitator = record { verify = verify; settle = settle; supported = supported }
