-- ===== src/Solana/Facilitator/Settling.antt =====
-- When the facilitator reports that a payment on Solana is settled.
use mathlib.Core.Path.{subst}
use r.Base.{
  ℕ, none, ◌≡◌, refl, ◌↔◌, Bool, true, ◌&&◌, ok, map_err, map_err-eq-ok, guard, ◌==◌, ◌=?◌, arith,
  guard-eq-ok,
}
use r.Base.Actions.{with_error, lifted-eq-ok, proceed-eq-ok, mapped-eq-ok, ok-injective}
use r.Chain.Id.{chain_id_eq, chain_id_beq, chain_id_beq_iff}
use r.Chain.Id
use r.Evm.Types.{scheme_beq, scheme_beq_iff}
use r.Facilitator.{payment_verification, onchain_failure}
use r.Proto.Error.{accepted_requirements_mismatch, unsupported_chain, invalid_format}
use r.Proto.Settle.{SettleResponse, success}
use r.Solana.Types.{VersionedTransaction, SolanaExactFacilitatorConfig}
use r.Solana.Facilitator.{
  Host, Requirements, TransferRequirement, VerifyTransferResult, VerifyRequest, to_string,
  verify_transfer, settle_transaction, settle,
}
use r.Solana.Facilitator.Signed.{IsSigned, settle_transaction-ok_iff}
use r.Solana.Facilitator.Verified.{IsVerified, verify_transaction-ok_iff}

-- The terms that were accepted are those that are required.
pub record AreSame (accepted requirements : Requirements) : Type 0 where
  pub scheme : accepted.scheme ≡ requirements.scheme
  pub network : accepted.network ≡ requirements.network
  pub amount : accepted.amount ≡ requirements.amount
  pub asset : accepted.asset ≡ requirements.asset
  pub pay_to : accepted.pay_to ≡ requirements.pay_to

abbrev are_same : Requirements → Requirements → Bool
are_same accepted requirements =
    scheme_beq accepted.scheme requirements.scheme
    && accepted.network =? requirements.network
    && accepted.amount == requirements.amount
    && accepted.asset == requirements.asset
    && accepted.pay_to == requirements.pay_to

are_same_iff :
    (accepted requirements : Requirements)
    → (are_same accepted requirements ≡ true) ↔ AreSame accepted requirements
are_same_iff accepted requirements = ground (
  arith,
  scheme_beq_iff accepted.scheme requirements.scheme,
  chain_id_beq_iff accepted.network requirements.network,
)

-- What a request must transfer.
abbrev pub required : Requirements → TransferRequirement
required requirements = record {
  asset = requirements.asset;
  pay_to = requirements.pay_to;
  amount = requirements.amount;
}

module _ {World Value : Type 0} (host : Host World Value) (config : SolanaExactFacilitatorConfig)
    (w : World) where
  -- A request is settled: its accepted terms are the required ones, on the provider's chain; its
  -- transaction is verified; and signed in full by the provider, it was sent and confirmed.
  pub record IsSettled (json : Value) (response : SettleResponse Value) (v : World) : Type 0 where
    pub request : VerifyRequest Value
    pub parsed : host.from_value json ≡ ok request
    pub same : AreSame request.payment_payload.accepted request.payment_requirements
    pub chain_matches : request.payment_payload.accepted.network ≡ host.chain_id
    pub result : VerifyTransferResult
    pub after : World
    pub verified :
        IsVerified host config request.payment_payload.payload.transaction
          (required request.payment_requirements)
          w
          result
          after
    pub tx : VersionedTransaction
    pub signs : host.sign result.transaction ≡ ok tx
    pub signed : IsSigned tx
    pub signature : ℕ
    pub sent : host.send_and_confirm tx after ≡ (ok signature, v)
    pub reported :
        response
        ≡ success
            (host.key_text result.payer)
            (host.signature_text signature)
            (Id.to_string host.chain_id)
            none

  verify_transfer-ok_iff :
      (request : VerifyRequest Value) (result : VerifyTransferResult) (v : World)
      → (verify_transfer host request config w ≡ (ok result, v)) ↔ (
          AreSame request.payment_payload.accepted request.payment_requirements
          × (request.payment_payload.accepted.network ≡ host.chain_id)
          × IsVerified host config request.payment_payload.payload.transaction
              (required request.payment_requirements)
              w
              result
              v)
  unfolding verify_transfer
  verify_transfer-ok_iff request result v =
      let accepted = request.payment_payload.accepted in
      let requirements = request.payment_requirements in
      let chain = chain_id_beq_iff accepted.network host.chain_id in
      let rest =
        verify_transaction-ok_iff host config request.payment_payload.payload.transaction
          (required requirements) w result v in
      (
        λ h.
            let (u1, a, h1) =
              lifted-eq-ok (guard (are_same accepted requirements) accepted_requirements_mismatch) _
                w h in
            let (u2, c, h2) =
              lifted-eq-ok (guard (accepted.network =? host.chain_id) unsupported_chain) _ w h1 in
            (
              (are_same_iff accepted requirements).0
                  (guard-eq-ok (are_same accepted requirements) _ a),
              chain.0 (guard-eq-ok (accepted.network =? host.chain_id) _ c),
              rest.0 h2,
            ),
        λ (same, on_chain, verified).
            rw ((are_same_iff accepted requirements).1 same, chain.1 on_chain) (rest.1 verified),
      )

  -- The facilitator reports a payment as settled exactly if it is settled in that sense, and the report
  -- names the payer, the signature of the transaction and the chain.
  pub settle-ok_iff :
      (json : Value) (response : SettleResponse Value) (v : World)
      → (settle host config json w ≡ (ok response, v)) ↔ IsSettled json response v
  unfolding settle
  settle-ok_iff json response v = (
    λ h.
        let (request, p, h1) =
          lifted-eq-ok
            (map_err (λ e. payment_verification (invalid_format e)) (host.from_value json)) _ w h in
        let (result, x, q, h2) =
          proceed-eq-ok (with_error payment_verification (verify_transfer host request config) w) _
            h1 in
        let (signature, y, s, h3) =
          proceed-eq-ok
            (with_error (λ e. onchain_failure (to_string e)) (settle_transaction host result) x) _
            h2 in
        let (same, on_chain, verified) =
          (verify_transfer-ok_iff request result x).0 (mapped-eq-ok payment_verification _ q) in
        let (tx, signs, signed, sent) =
          (settle_transaction-ok_iff host result x signature y).0 (mapped-eq-ok _ _ s) in
        let settled : IsSettled json
            (success (host.key_text result.payer) (host.signature_text signature)
              (Id.to_string host.chain_id) none)
            y =
          record {
            request = request;
            parsed = map_err-eq-ok _ _ p;
            same = same;
            chain_matches = on_chain;
            result = result;
            after = x;
            verified = verified;
            tx = tx;
            signs = signs;
            signed = signed;
            signature = signature;
            sent = sent;
            reported = refl;
          } in
        subst (λ z. IsSettled json z.0 z.1) (ok-injective h3) settled,
    λ s.
        let verified =
          (verify_transfer-ok_iff s.request s.result s.after).1
            (s.same, s.chain_matches, s.verified) in
        let sent =
          (settle_transaction-ok_iff host s.result s.after s.signature v).1
            (s.tx, s.signs, s.signed, s.sent) in
        rw (s.parsed, verified, sent, s.reported) refl,
  )
