-- ===== src/Evm/Facilitator/Settling/Steps.antt =====
-- The steps of settling a payment, each inverted where it succeeds.
use r.Base.{
  ℕ, ◌≡◌, refl, sym, ap, ◌∙◌, ◌↔◌, inl, inr, true, Bool-cases, Outcome, ok, err, Outcome-cases,
  ok-injective,
}
use r.Base.Actions.{mapped-eq-ok}
use r.Proto.Settle.{SettleResponse}
use r.Evm.Types.{
  eip3009, permit2, Eip3009Payload, Permit2Payload, Domain, Address, Eip3009Payment, Permit2Payment,
}
use r.Evm.Types.{Eip155ExactError}
use r.Facilitator.{payment_verification}
use r.Proto.Error.{invalid_format}
use r.Base.Actions.{mapped}
use r.Evm.Facilitator.{of_exact_error}
use r.Evm.Calls.{of_send_error}
use r.Evm.Types.{transaction_reverted}
use r.Base.Actions.{Action-cases}
use r.Evm.Checks.{assert_valid_payment, assert_valid_permit2_payment}
use r.Evm.Signature.{StructuredSignature}
use r.Evm.Calls.{MetaTransaction, TransactionReceipt}
use r.Evm.Settlement.{settle_payment, settle_permit2_payment, proxy_transaction, transaction_of}
use r.Evm.Settlement.Sends.{Sends, Reads, settle_payment_iff, Settles}
use r.Evm.Facilitator.{
  Host, Eip155ExactFacilitator, VerifyRequest, from_proto, settled_by, settle_exact, settle,
}

module _ {World Value : Type 0} (facilitator : Eip155ExactFacilitator World Value) where
  abbrev pub host : Host World Value
  host = facilitator.host

  -- The transaction was sent and confirmed, and not reverted.
  pub record Confirms (tx : MetaTransaction) (u : World) (hash : ℕ) (v : World) : Type 0 where
    pub receipt : TransactionReceipt
    pub sent : host.provider.send_transaction tx u ≡ (ok receipt, v)
    pub status : receipt.status ≡ true
    pub named : hash ≡ receipt.transaction_hash

  module _ (w : World) (request : VerifyRequest Value) where
    abbrev pub asset : Address
    asset = request.payment_payload.accepted.asset

    abbrev pub check : Eip3009Payload → Outcome (Eip3009Payment × Domain) Eip155ExactError
    check exact =
        assert_valid_payment (host.contracts w) (host.races w).0 (host.races w).1 (host.now w)
          host.chain exact request.payment_payload request.payment_requirements
          facilitator.clock_skew_tolerance

    abbrev pub check_transfer : Permit2Payload → Outcome (Permit2Payment × Domain) Eip155ExactError
    check_transfer exact =
        assert_valid_permit2_payment (host.contracts w) (host.now w) host.chain exact
          request.payment_payload request.payment_requirements facilitator.clock_skew_tolerance

    -- Inversion of the two ways to settle.
    pub settle_exact-eip3009 :
        (exact : Eip3009Payload) (response : SettleResponse Value) (v : World)
        → settle_exact facilitator request (eip3009 exact) w ≡ (ok response, v)
        → (checked : Eip3009Payment × Domain) × (hash : ℕ) × (check exact ≡ ok checked)
          × (settle_payment host.abi host.provider host.primitives asset checked.0 checked.1 w
              ≡ (ok hash, v))
          × (response ≡ settled_by facilitator request checked.0.from hash)
    unfolding settle_exact
    settle_exact-eip3009 exact response v h = elim (Outcome-cases (check exact)) [
      | inr (e, q) ↦
          let failed : settle_exact facilitator request (eip3009 exact) w ≡ (err e, w) =
            rw q refl in
          cc (ap (λ x. x.0) (sym failed ∙ h))
      | inl (checked, q) ↦
          elim (Action-cases
            (settle_payment host.abi host.provider host.primitives asset checked.0 checked.1 w)) [
              | inr (e, u, r) ↦
                  let failed : settle_exact facilitator request (eip3009 exact) w ≡ (err e, u) =
                    rw (q, r) refl in
                  cc (ap (λ x. x.0) (sym failed ∙ h))
              | inl (hash, u, r) ↦
                  let answered : settle_exact facilitator request (eip3009 exact) w
                      ≡ (ok (settled_by facilitator request checked.0.from hash), u) =
                    rw (q, r) refl in
                  let same = sym h ∙ answered in
                  (
                    checked,
                    hash,
                    q,
                    r ∙ ap (λ x. (ok hash, x)) (sym (ap (λ x. x.1) same)),
                    ok-injective (ap (λ x. x.0) same),
                  )
            ]
    ]

    pub settle_exact-permit2 :
        (exact : Permit2Payload) (response : SettleResponse Value) (v : World)
        → settle_exact facilitator request (permit2 exact) w ≡ (ok response, v)
        → (checked : Permit2Payment × Domain) × (hash : ℕ) × (check_transfer exact ≡ ok checked)
          × (settle_permit2_payment host.abi host.provider checked.0 w ≡ (ok hash, v))
          × (response ≡ settled_by facilitator request checked.0.from hash)
    unfolding settle_exact
    settle_exact-permit2 exact response v h = elim (Outcome-cases (check_transfer exact)) [
      | inr (e, q) ↦
          let failed : settle_exact facilitator request (permit2 exact) w ≡ (err e, w) =
            rw q refl in
          cc (ap (λ x. x.0) (sym failed ∙ h))
      | inl (checked, q) ↦
          elim (Action-cases (settle_permit2_payment host.abi host.provider checked.0 w)) [
            | inr (e, u, r) ↦
                let failed : settle_exact facilitator request (permit2 exact) w ≡ (err e, u) =
                  rw (q, r) refl in
                cc (ap (λ x. x.0) (sym failed ∙ h))
            | inl (hash, u, r) ↦
                let answered : settle_exact facilitator request (permit2 exact) w
                    ≡ (ok (settled_by facilitator request checked.0.from hash), u) =
                  rw (q, r) refl in
                let same = sym h ∙ answered in
                (
                  checked,
                  hash,
                  q,
                  r ∙ ap (λ x. (ok hash, x)) (sym (ap (λ x. x.1) same)),
                  ok-injective (ap (λ x. x.0) same),
                )
          ]
    ]

    pub settle_exact-eip3009_ok :
        (exact : Eip3009Payload) (checked : Eip3009Payment × Domain) (hash : ℕ) (v : World)
        → check exact ≡ ok checked
        → settle_payment host.abi host.provider host.primitives asset checked.0 checked.1 w
          ≡ (ok hash, v)
        → settle_exact facilitator request (eip3009 exact) w
          ≡ (ok (settled_by facilitator request checked.0.from hash), v)
    unfolding settle_exact
    settle_exact-eip3009_ok exact checked hash v q r = rw (q, r) refl

    pub settle_exact-permit2_ok :
        (exact : Permit2Payload) (checked : Permit2Payment × Domain) (hash : ℕ) (v : World)
        → check_transfer exact ≡ ok checked
        → settle_permit2_payment host.abi host.provider checked.0 w ≡ (ok hash, v)
        → settle_exact facilitator request (permit2 exact) w
          ≡ (ok (settled_by facilitator request checked.0.from hash), v)
    unfolding settle_exact
    settle_exact-permit2_ok exact checked hash v q r = rw (q, r) refl

  -- A request that parses is settled by its payload.
  pub settle-ok_iff :
      (w : World) (json : Value) (response : SettleResponse Value) (v : World)
      → (settle facilitator json w ≡ (ok response, v)) ↔ (
          (request : VerifyRequest Value) × (host.from_value json ≡ ok request)
          × (settle_exact facilitator request request.payment_payload.payload w ≡ (ok response, v)))
  unfolding settle from_proto
  settle-ok_iff w json response v = (
    λ h. elim (Outcome-cases (host.from_value json)) [
      | inr (e, q) ↦
          let failed : settle facilitator json w
              ≡ (err (payment_verification (invalid_format e)), w) =
            rw q refl in
          cc (ap (λ x. x.0) (sym failed ∙ h))
      | inl (request, q) ↦
          let parsed : settle facilitator json w
              ≡ mapped (of_exact_error host)
                  (settle_exact facilitator request request.payment_payload.payload w) =
            rw q refl in
          (request, q, mapped-eq-ok _ _ (sym parsed ∙ h))
    ],
    λ (request, q, h). rw (q, h) refl,
  )

  pub settle_permit2_payment-ok_iff :
      (payment : Permit2Payment) (w : World) (hash : ℕ) (v : World)
      → (settle_permit2_payment host.abi host.provider payment w ≡ (ok hash, v))
        ↔ Confirms (proxy_transaction host.abi payment) w hash v
  unfolding settle_permit2_payment transaction_of
  settle_permit2_payment-ok_iff payment w hash v = (
    λ h.
        elim (Action-cases
          (host.provider.send_transaction (proxy_transaction host.abi payment) w)) [
            | inr (e, u, t) ↦
                let failed : settle_permit2_payment host.abi host.provider payment w
                    ≡ (err (of_send_error e), u) =
                  rw t refl in
                cc (ap (λ x. x.0) (sym failed ∙ h))
            | inl (receipt, u, t) ↦ elim (Bool-cases receipt.status) [
              | inr b ↦
                  let failed : settle_permit2_payment host.abi host.provider payment w
                      ≡ (err (transaction_reverted receipt.transaction_hash), u) =
                    rw (t, b) refl in
                  cc (ap (λ x. x.0) (sym failed ∙ h))
              | inl b ↦
                  let paid : settle_permit2_payment host.abi host.provider payment w
                      ≡ (ok receipt.transaction_hash, u) =
                    rw (t, b) refl in
                  let same = sym h ∙ paid in
                  record {
                    receipt = receipt;
                    sent = t ∙ ap (λ x. (ok receipt, x)) (sym (ap (λ x. x.1) same));
                    status = b;
                    named = ok-injective (ap (λ x. x.0) same);
                  }
            ]
          ],
    λ c. rw (c.sent, c.status, c.named) refl,
  )

  pub settle_payment-ok_iff :
      (asset : Address) (payment : Eip3009Payment) (domain : Domain) (w : World) (hash : ℕ)
      (v : World)
      → (settle_payment host.abi host.provider host.primitives asset payment domain w
          ≡ (ok hash, v))
        ↔ ((read : StructuredSignature host.primitives.Signature) × Reads host.abi host.provider
              host.primitives asset payment w domain read
            × (tx : MetaTransaction) × (u : World) × Sends host.abi host.provider host.primitives
                asset payment w read tx u
            × Confirms tx u hash v)
  settle_payment-ok_iff asset payment domain w hash v = (
    λ h. go (
        (settle_payment_iff host.abi host.provider host.primitives asset payment w domain
            (ok hash, v)).0
          h),
    λ (read, r, tx, u, s, c).
        (settle_payment_iff host.abi host.provider host.primitives asset payment w domain
            (ok hash, v)).1
          (Settles.is_settled read tx c.receipt u v r s c.sent c.status
            (ap (λ n. (ok n, v)) c.named)),
  )
    where
      go :
          Settles host.abi host.provider host.primitives asset payment w domain (ok hash, v)
          → (read : StructuredSignature host.primitives.Signature) × Reads host.abi host.provider
              host.primitives asset payment w domain read
            × (tx : MetaTransaction) × (u : World) × Sends host.abi host.provider host.primitives
                asset payment w read tx u
            × Confirms tx u hash v
      go (Settles.is_unreadable e r q) = cc (ap (λ x. x.0) q)
      go (Settles.is_unknown f c i o e u r g q) = cc (ap (λ x. x.0) q)
      go (Settles.is_unsent read tx e u t r s g q) = cc (ap (λ x. x.0) q)
      go (Settles.is_reverted read tx receipt u t r s g b q) = cc (ap (λ x. x.0) q)
      go (Settles.is_settled read tx receipt u t r s g b q) = (
        read,
        r,
        tx,
        u,
        s,
        record {
          receipt = receipt;
          sent = g ∙ ap (λ x. (ok receipt, x)) (sym (ap (λ x. x.1) q));
          status = b;
          named = ok-injective (ap (λ x. x.0) q);
        },
      )
