-- ===== src/Solana/Facilitator/Signed.antt =====
-- The facilitator never sends an undersigned transaction.
use r.Base.{
  ℕ, ◌≤◌, ◌≡◌, ◌≢◌, refl, ◌↔◌, true, List, [], ◌∷◌, All, ok, guard, length, arith, guard-eq-ok,
}
use r.Base.Actions.{lifted-eq-ok}
use r.Solana.Types.{VersionedTransaction, none_missing, is_fully_signed}
use r.Solana.Facilitator.{Host, VerifyTransferResult, invalid_transaction, settle_transaction}

-- Every signature that is required is there, and none is left out: none is the number 0, whose bytes
-- are all zero.
pub record IsSigned (tx : VersionedTransaction) : Type 0 where
  pub enough : tx.num_required_signatures ≤ length tx.signatures
  pub present : All (λ s. s ≢ 0) tx.signatures

none_missing_iff :
    (signatures : List ℕ) → (none_missing signatures ≡ true) ↔ All (λ s. s ≢ 0) signatures
none_missing_iff [] = ground arith
none_missing_iff (s ∷ rest) = ground (arith, none_missing_iff rest)

is_fully_signed_iff : (tx : VersionedTransaction) → (is_fully_signed tx ≡ true) ↔ IsSigned tx
unfolding is_fully_signed
is_fully_signed_iff tx = ground (arith, none_missing_iff tx.signatures)

-- Settling a transfer returns a signature exactly if the provider signs the transaction, the signed
-- transaction has every required signature and no empty one, and that transaction was sent and
-- confirmed.
pub settle_transaction-ok_iff :
    {World Value : Type 0} (host : Host World Value) (verification : VerifyTransferResult)
    (w : World) (signature : ℕ) (v : World)
    → (settle_transaction host verification w ≡ (ok signature, v)) ↔ (
        (tx : VersionedTransaction) × (host.sign verification.transaction ≡ ok tx)
        × IsSigned tx
        × (host.send_and_confirm tx w ≡ (ok signature, v)))
unfolding settle_transaction
settle_transaction-ok_iff host verification w signature v = (
  λ h.
      let (tx, s, rest) = lifted-eq-ok (host.sign verification.transaction) _ w h in
      let (u, g, sent) =
        lifted-eq-ok (guard (is_fully_signed tx) (invalid_transaction host.signature_failure)) _ w
          rest in
      (tx, s, (is_fully_signed_iff tx).0 (guard-eq-ok (is_fully_signed tx) _ g), sent),
  λ (tx, s, signed, sent). rw (s, (is_fully_signed_iff tx).1 signed, sent) refl,
)
