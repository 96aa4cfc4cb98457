-- ===== src/Evm/Simulation.antt =====
-- r402-evm/src/exact/facilitator/verify.rs: the signature and the transfer of a checked payment are
-- tried against the chain.
pub mod Passing
use r.Base.{String, ℕ, Bool, Outcome, ok, guard, map_err}
use r.Base.Actions.{Action, ◌>>=◌, ◌>>◌, lift, with_error}
use r.Base
use r.Proto.Error.{invalid_signature, transaction_simulation}
use r.Evm.Types.{
  Address, Eip3009Payment, Permit2Payment, Domain, Eip155ExactError, payment_verification,
}
use r.Evm.Signature.{
  Primitives, StructuredSignature, PermitWitnessTransferFrom, eip6492, eoa, eip1271, extract,
}
use r.Evm.Calls.{
  Abi, ContractError, call_failed, transport, pending_transaction, Provider, of_contract_error,
  of_multicall_error, transfer_0, transfer_1,
}

-- `VALIDATOR_ADDRESS`
abbrev pub validator_address : Address
validator_address = 0xdAcD51A54883eb67D95FAEb2BBfdC4a9a6BD2a3B

-- The two results of the multicall, in the order in which they are looked at.
unfoldable pub accept_results :
    Outcome Bool String × Outcome (Unit {0}) String → Outcome (Unit {0}) Eip155ExactError
accept_results results =
    Base.◌>>=◌ (map_err (λ e. payment_verification (invalid_signature e)) results.0) (λ is_valid.
      Base.◌>>◌
        (guard is_valid
          (payment_verification (invalid_signature "Chain reported signature to be invalid")))
        (map_err (λ e. payment_verification (transaction_simulation e)) results.1))

-- The text of an error of alloy's contracts
abbrev pub text_of : ContractError → String
text_of (call_failed e) = e
text_of (transport e) = e
text_of (pending_transaction e) = e

-- `PermitWitnessTransferFrom`, from the payment's fields
abbrev pub permit_witness : Permit2Payment → PermitWitnessTransferFrom
permit_witness payment = record {
  permitted = record { token = payment.token; amount = payment.amount };
  spender = payment.spender;
  nonce = payment.nonce;
  deadline = payment.deadline;
  witness = record { to = payment.to; valid_after = payment.valid_after; extra = payment.extra };
}

module _ (primitives : Primitives) {World : Type 0} (provider : Provider World) where
  -- The transfer is simulated, by the kind of the signature; a wrapped one is also validated.
  unfoldable pub simulate :
      Abi
      → Address
      → Eip3009Payment
      → ℕ
      → StructuredSignature primitives.Signature
      → Action World Eip155ExactError (Unit {0})
  simulate abi contract payment hash (eip6492 factory factory_calldata inner original) = do
    let transfer_call = transfer_0 abi contract payment inner
    results ← with_error of_multicall_error (
        provider.signature_and_call validator_address payment.from hash original
          transfer_call.target transfer_call.calldata)
    lift (accept_results results)
  simulate abi contract payment hash (eip1271 signature) =
      let transfer_call = transfer_0 abi contract payment signature in
      with_error of_contract_error (provider.call transfer_call.target transfer_call.calldata)
  simulate abi contract payment hash (eoa signature) =
      let transfer_call = transfer_1 abi primitives contract payment signature in
      with_error of_contract_error (provider.call transfer_call.target transfer_call.calldata)

  unfoldable pub verify_payment :
      Abi → Address → Eip3009Payment → Domain → Action World Eip155ExactError Address
  verify_payment abi contract payment eip712_domain = do
    signed_message ← lift (extract primitives payment eip712_domain)
    simulate abi contract payment signed_message.hash signed_message.signature
    lift (ok signed_message.address)

  unfoldable pub verify_permit2_payment :
      Permit2Payment → Domain → Action World Eip155ExactError Address
  verify_permit2_payment payment eip712_domain = do
    is_valid ←
        with_error (λ e. payment_verification (invalid_signature (text_of e)))
          (provider.is_valid_signature validator_address payment.from
            (primitives.permit_hash (permit_witness payment) eip712_domain) payment.signature)
    lift (guard is_valid (payment_verification (invalid_signature "invalid Permit2 signature")))
    lift (ok payment.from)
