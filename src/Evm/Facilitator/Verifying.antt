-- ===== src/Evm/Facilitator/Verifying.antt =====
-- When the facilitator of EVM chains calls a payment valid.
use r.Base.{◌≡◌, true, ok}
use r.Proto.Verify.{VerifyResponse, valid}
use r.Evm.Types.{eip3009, permit2, Eip3009Payload, Permit2Payload, Domain}
use r.Evm.Checks.Eip3009.{signed_payment}
use r.Evm.Checks.Permit2.{permit2_domain}
use r.Evm.Signature.{StructuredSignature, try_from_bytes}
use r.Evm.Signature.{PermitWitnessTransferFrom}
use r.Evm.Simulation.{validator_address}
use r.Evm.Simulation.Passing.{Passes}
use r.Evm.Facilitator.{Host, Eip155ExactFacilitator, VerifyRequest}
use r.Evm.Facilitator.Settling.{Payable, Transferable}

module _ {World Value : Type 0} (facilitator : Eip155ExactFacilitator World Value) (w : World) where
  abbrev host : Host World Value
  host = facilitator.host

  -- What a Permit2 payer signs: the authorization as it stands.
  abbrev signed_witness : Permit2Payload → PermitWitnessTransferFrom
  signed_witness exact = record {
    permitted = exact.permit2_authorization.permitted;
    spender = exact.permit2_authorization.spender;
    nonce = exact.permit2_authorization.nonce;
    deadline = exact.permit2_authorization.deadline;
    witness = exact.permit2_authorization.witness;
  }

  -- A request is valid: its payment meets the requirements in the present state of the chain, and its
  -- signature and transfer pass the simulation.
  pub data IsValid (json : Value) (response : VerifyResponse) (v : World) : Type 0 where
    by_authorization :
        (request : VerifyRequest Value)
        → host.from_value json ≡ ok request
        → (exact : Eip3009Payload) → request.payment_payload.payload ≡ eip3009 exact
        → (domain : Domain) → Payable facilitator w request exact domain
        → (read : StructuredSignature host.primitives.Signature)
        → try_from_bytes host.primitives exact.signature exact.authorization.from
            (host.primitives.transfer_hash (signed_payment exact) domain)
          ≡ ok read
        → Passes host.primitives host.provider host.abi request.payment_payload.accepted.asset
            (signed_payment exact)
            (host.primitives.transfer_hash (signed_payment exact) domain)
            w
            read
            v
        → response ≡ valid (host.address_text exact.authorization.from)
        → IsValid json response v
    by_transfer :
        (request : VerifyRequest Value)
        → host.from_value json ≡ ok request
        → (exact : Permit2Payload) → request.payment_payload.payload ≡ permit2 exact
        → Transferable facilitator w request exact
        → host.provider.is_valid_signature validator_address exact.permit2_authorization.from
            (host.primitives.permit_hash (signed_witness exact) (permit2_domain host.chain))
            exact.signature
            w
          ≡ (ok true, v)
        → response ≡ valid (host.address_text exact.permit2_authorization.from)
        → IsValid json response v
