-- ===== src/Evm/Facilitator/Settling.antt =====
-- When the facilitator of EVM chains reports that a payment is settled.
pub mod Steps
use r.Evm.Facilitator.Settling.Steps.{
  Confirms, check, check_transfer, settle_exact-eip3009, settle_exact-permit2,
  settle_exact-eip3009_ok, settle_exact-permit2_ok, settle-ok_iff, settle_permit2_payment-ok_iff,
  settle_payment-ok_iff,
}
use mathlib.Core.Path.{subst}
use r.Base.{
  ℕ, ◌≡◌, refl, sym, ap, ◌∙◌, ◌↔◌, inl, inr, true, Bool-cases, Outcome, ok, err, Outcome-cases,
  ok-injective, ◌+◌, ◌<◌, ◌^◌, map_err-eq-ok,
}
use r.Base.Actions.{proceed-eq-ok, mapped-eq-ok}
use r.Proto.Settle.{SettleResponse, success}
use r.Chain.Id
use r.Base.{none}
use r.Evm.Types.{
  ExactPayload, eip3009, permit2, Eip3009Payload, Permit2Payload, Domain, Address, Requirements,
  Payload, Eip3009Payment, Permit2Payment, x402_exact_permit2_proxy,
}
use r.Evm.Types.{Eip155ExactError}
use r.Facilitator.{payment_verification}
use r.Proto.Error.{invalid_format}
use r.Base.Actions.{mapped}
use r.Evm.Facilitator.{of_exact_error}
use r.Evm.Calls.{of_send_error}
use r.Evm.Types.{transaction_reverted}
use r.Base.Actions.{Action-cases}
use r.Evm.Checks.{assert_valid_payment, assert_valid_permit2_payment}
use r.Evm.Checks.Eip3009.{IsPayable, signed_payment, assert_valid_payment_iff}
use r.Evm.Checks.Permit2.{
  IsTransferable, signed_transfer, permit2_domain, assert_valid_permit2_payment_iff,
}
use r.Evm.Signature.{StructuredSignature}
use r.Evm.Calls.{MetaTransaction, TransactionReceipt}
use r.Evm.Settlement.{
  settle_payment, settle_permit2_payment, proxy_transaction, transaction_of, send,
}
use r.Evm.Settlement.Sends.{Sends, Reads, settle_payment_iff, Settles}
use r.Evm.Facilitator.{
  Host, Eip155ExactFacilitator, VerifyRequest, from_proto, settled_by, settle_exact, settle,
}

module _ {World Value : Type 0} (facilitator : Eip155ExactFacilitator World Value) where
  abbrev host : Host World Value
  host = facilitator.host

  module _ (w : World) where
    -- What a request pays with an authorization, and with a transfer.
    abbrev pub Payable : VerifyRequest Value → Eip3009Payload → Domain → Type 0
    Payable request exact domain =
        IsPayable (host.contracts w) (host.now w) host.chain exact request.payment_payload
          request.payment_requirements facilitator.clock_skew_tolerance domain

    abbrev pub Transferable : VerifyRequest Value → Permit2Payload → Type 0
    Transferable request exact =
        IsTransferable (host.contracts w) (host.now w) host.chain exact request.payment_payload
          request.payment_requirements facilitator.clock_skew_tolerance

    -- The proxy settles the transfer, as the payer authorized it.
    abbrev proxy_call : Permit2Payload → MetaTransaction
    proxy_call exact =
        let auth = exact.permit2_authorization in
        record {
          to = x402_exact_permit2_proxy;
          calldata =
              host.abi.settle
                (record {
                  permitted = auth.permitted;
                  nonce = auth.nonce;
                  deadline = auth.deadline;
                })
                auth.from
                (record {
                  to = auth.witness.to;
                  valid_after = auth.witness.valid_after;
                  extra = auth.witness.extra;
                })
                exact.signature;
          confirmations = 1;
        }

    pub data IsSettled (json : Value) (response : SettleResponse Value) (v : World) : Type 0 where
      by_authorization :
          (request : VerifyRequest Value)
          → host.from_value json ≡ ok request
          → (exact : Eip3009Payload) → request.payment_payload.payload ≡ eip3009 exact
          → (domain : Domain) → Payable request exact domain
          → (read : StructuredSignature host.primitives.Signature)
          → Reads host.abi host.provider host.primitives request.payment_payload.accepted.asset
              (signed_payment exact)
              w
              domain
              read
          → (tx : MetaTransaction) (u : World)
          → Sends host.abi host.provider host.primitives request.payment_payload.accepted.asset
              (signed_payment exact)
              w
              read
              tx
              u
          → (hash : ℕ) → Confirms facilitator tx u hash v
          → response
            ≡ success
                (host.address_text exact.authorization.from)
                (host.hash_text hash)
                (Id.to_string request.payment_payload.accepted.network)
                none
          → IsSettled json response v
      by_transfer :
          (request : VerifyRequest Value)
          → host.from_value json ≡ ok request
          → (exact : Permit2Payload) → request.payment_payload.payload ≡ permit2 exact
          → Transferable request exact
          → (hash : ℕ) → Confirms facilitator (proxy_call exact) w hash v
          → response
            ≡ success
                (host.address_text exact.permit2_authorization.from)
                (host.hash_text hash)
                (Id.to_string request.payment_payload.accepted.network)
                none
          → IsSettled json response v

  module _ (w : World) (fits : host.now w + facilitator.clock_skew_tolerance < 2 ^ 64) where
    pub check_iff :
        (request : VerifyRequest Value) (exact : Eip3009Payload) (payment : Eip3009Payment)
        (domain : Domain)
        → (check facilitator w request exact ≡ ok (payment, domain))
          ↔ (Payable w request exact domain × (payment ≡ signed_payment exact))
    check_iff request exact =
        assert_valid_payment_iff (host.contracts w) (host.races w).0 (host.races w).1 (host.now w)
          host.chain exact request.payment_payload request.payment_requirements
          facilitator.clock_skew_tolerance fits

    pub check_transfer_iff :
        (request : VerifyRequest Value) (exact : Permit2Payload) (answer : Permit2Payment × Domain)
        → (check_transfer facilitator w request exact ≡ ok answer) ↔ (
            Transferable w request exact
            × (answer ≡ (signed_transfer exact, permit2_domain host.chain)))
    check_transfer_iff request exact =
        assert_valid_permit2_payment_iff (host.contracts w) (host.now w) host.chain exact
          request.payment_payload request.payment_requirements facilitator.clock_skew_tolerance fits

    sound :
        (json : Value) (request : VerifyRequest Value)
        → host.from_value json ≡ ok request
        → (response : SettleResponse Value) (v : World) (payload : ExactPayload)
        → request.payment_payload.payload ≡ payload
        → settle_exact facilitator request payload w ≡ (ok response, v)
        → IsSettled w json response v
    sound json request q response v (eip3009 exact) k h =
        let (checked, hash, c, s, e) =
          settle_exact-eip3009 facilitator w request exact response v h in
        let (payable, same) = (check_iff request exact checked.0 checked.1).0 c in
        let asset = request.payment_payload.accepted.asset in
        let paid =
          subst
            (λ p.
              settle_payment host.abi host.provider host.primitives asset p checked.1 w
              ≡ (ok hash, v))
            same s in
        let (read, r, tx, u, sent, confirmed) =
          (settle_payment-ok_iff facilitator asset (signed_payment exact) checked.1 w hash v).0
            paid in
        IsSettled.by_authorization request q exact k checked.1 payable read r tx u sent hash
          confirmed (e ∙ ap (λ p. settled_by facilitator request p.from hash) same)
    sound json request q response v (permit2 exact) k h =
        let (checked, hash, c, s, e) =
          settle_exact-permit2 facilitator w request exact response v h in
        let (transferable, same) = (check_transfer_iff request exact checked).0 c in
        let confirmed = (settle_permit2_payment-ok_iff facilitator checked.0 w hash v).0 s in
        let payment : checked.0 ≡ signed_transfer exact = ap (λ x. x.0) same in
        IsSettled.by_transfer request q exact k transferable hash
          (subst (λ p. Confirms facilitator (proxy_transaction host.abi p) w hash v) payment
            confirmed)
          (e ∙ ap (λ p. settled_by facilitator request p.from hash) payment)

    complete :
        (json : Value) (response : SettleResponse Value) (v : World)
        → IsSettled w json response v
        → settle facilitator json w ≡ (ok response, v)
    complete json response v
          (IsSettled.by_authorization request q exact k domain p read r tx u s hash c e) =
        let checked = (check_iff request exact (signed_payment exact) domain).1 (p, refl) in
        let settled =
          (settle_payment-ok_iff facilitator request.payment_payload.accepted.asset
              (signed_payment exact) domain w hash v).1
            (read, r, tx, u, s, c) in
        (settle-ok_iff facilitator w json response v).1 (
          request,
          q,
          ap (λ p. settle_exact facilitator request p w) k
              ∙ settle_exact-eip3009_ok facilitator w request exact (signed_payment exact, domain)
                  hash v checked settled
              ∙ ap (λ r. (ok r, v)) (sym e),
        )
    complete json response v (IsSettled.by_transfer request q exact k p hash c e) =
        let checked =
          (check_transfer_iff request exact (signed_transfer exact, permit2_domain host.chain)).1
            (p, refl) in
        let settled =
          (settle_permit2_payment-ok_iff facilitator (signed_transfer exact) w hash v).1 c in
        (settle-ok_iff facilitator w json response v).1 (
          request,
          q,
          ap (λ p. settle_exact facilitator request p w) k
              ∙ settle_exact-permit2_ok facilitator w request exact
                  (signed_transfer exact, permit2_domain host.chain) hash v checked settled
              ∙ ap (λ r. (ok r, v)) (sym e),
        )

    -- Where the clock plus the tolerance is a u64, the facilitator reports a payment as settled
    -- exactly if the request parses, its payment meets the requirements in the present state of the
    -- chain, and the one transaction that makes this payment, as it was signed, was confirmed and
    -- not reverted; the report names that transaction, the payer and the network.
    pub settle_iff :
        (json : Value) (response : SettleResponse Value) (v : World)
        → (settle facilitator json w ≡ (ok response, v)) ↔ IsSettled w json response v
    settle_iff json response v = (
      λ h.
          let (request, q, r) = (settle-ok_iff facilitator w json response v).0 h in
          sound json request q response v request.payment_payload.payload refl r,
      complete json response v,
    )
