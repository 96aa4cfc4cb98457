-- ===== src/Solana/Facilitator/Verified.antt =====
-- Which payments the facilitator verifies.
use mathlib.Core.Path.{subst}
use r.Base.{
  String, ℕ, List, >>=-eq-ok, take, drop, ◌≤◌, ◌≡◌, refl, sym, ap, ◌∙◌, ◌↔◌, ◌⊎◌, inl, inr, false,
  Bool-cases, All, Outcome, ok, map_err, map_err-eq-ok, refuse, ltb, arith, refuse-eq-ok,
  if◌then◌else◌,
}
use r.Base.Actions.{with_error, lift, lifted-eq-ok, proceed-eq-ok, mapped-eq-ok, ok-injective}
use r.Chain.Id.{chain_id_eq}
use r.Solana.Types.{
  SolanaExactError, VersionedTransaction, CompiledInstruction, SolanaExactFacilitatorConfig,
  of_exact_error, transaction_decoding, max_compute_unit_limit_exceeded,
}
use r.Solana.Checks.{
  from_le_bytes, verify_compute_limit_instruction, verify_compute_price_instruction,
  validate_instructions, check_fee_payer,
}
use r.Solana.Checks.Structure.{IsStructured, validate_instructions_iff}
use r.Solana.Checks.Compute.{
  IsBudget, verify_compute_limit_instruction_iff, verify_compute_price_instruction_iff,
}
use r.Solana.Checks.FeePayer.{IsOther, check_fee_payer_iff}
use r.Solana.Facilitator.{
  Host, TransferRequirement, TransferCheckedInstruction, VerifyTransferResult, of_provider_error,
  decoded, verify_transfer_instruction, verify_transaction,
}
use r.Solana.Facilitator.Transfers.{IsTransfer, verify_transfer_instruction-ok_iff}

module _ {World Value : Type 0} (host : Host World Value)
    (config : SolanaExactFacilitatorConfig) where
  open host use {programs}

  -- The fee payer is no account of any instruction, where that is required.
  abbrev pub IsApart : VersionedTransaction → Type 0
  IsApart tx =
      (config.require_fee_payer_not_in_instructions ≡ false)
      ⊎ All (λ i. All (IsOther tx.static_account_keys host.pubkey) i.accounts) tx.instructions

  -- A transaction that the facilitator verifies: it limits its computation and the price of it, has the
  -- structure of a payment, transfers what is required, keeps the fee payer apart where the
  -- configuration requires it, and, signed by the provider, passes its simulation.
  pub record IsVerified (text : String) (requirement : TransferRequirement) (w : World)
      (result : VerifyTransferResult) (v : World) : Type 0 where
    pub bytes : List ℕ
    pub decodes : host.decode text ≡ ok bytes
    pub transaction : host.deserialize bytes ≡ ok result.transaction
    pub limited : CompiledInstruction
    pub limit : IsBudget programs result.transaction 0 2 5 limited
    pub affordable : from_le_bytes (take 4 (drop 1 limited.bytes)) ≤ host.max_compute_unit_limit
    pub priced : CompiledInstruction
    pub price : IsBudget programs result.transaction 1 3 9 priced
    pub cheap : from_le_bytes (drop 1 priced.bytes) ≤ host.max_compute_unit_price
    pub structured : IsStructured programs result.transaction config
    pub transfer : TransferCheckedInstruction
    pub after : World
    pub transfers : IsTransfer host result.transaction 2 requirement w transfer after
    pub payer : result.payer ≡ transfer.authority
    pub apart : IsApart result.transaction
    pub signed : VersionedTransaction
    pub signs : host.sign result.transaction ≡ ok signed
    pub simulated : host.simulate signed after ≡ (ok tt, v)

  decoded_lem :
      (text : String) (tx : VersionedTransaction)
      → decoded host text ≡ ok tx
      → (bytes : List ℕ) × (host.decode text ≡ ok bytes) × (host.deserialize bytes ≡ ok tx)
  unfolding decoded
  decoded_lem text tx h =
      let (bytes, d, r) = >>=-eq-ok (map_err transaction_decoding (host.decode text)) _ h in
      (bytes, map_err-eq-ok transaction_decoding _ d, map_err-eq-ok transaction_decoding _ r)

  abbrev fee_payer_check : VersionedTransaction → Outcome (Unit {0}) SolanaExactError
  fee_payer_check tx =
      if config.require_fee_payer_not_in_instructions
      then check_fee_payer tx.static_account_keys host.pubkey tx.instructions
      else ok tt

  fee_payer_check_iff : (tx : VersionedTransaction) → (fee_payer_check tx ≡ ok tt) ↔ IsApart tx
  fee_payer_check_iff tx = elim (Bool-cases config.require_fee_payer_not_in_instructions) [
    | inr free ↦ ((λ h. inl free), λ a. rw free refl)
    | inl bound ↦
        let same : fee_payer_check tx
            ≡ check_fee_payer tx.static_account_keys host.pubkey tx.instructions =
          rw bound refl in
        let both = check_fee_payer_iff tx.static_account_keys host.pubkey tx.instructions in
        (
          λ h. inr (both.0 (sym same ∙ h)),
          λ a. elim a [ inl free ↦ cc | inr apart ↦ same ∙ both.1 apart ],
        )
  ]

  module _ (text : String) (requirement : TransferRequirement) (w : World) where
    complete :
        (result : VerifyTransferResult) (v : World)
        → IsVerified text requirement w result v
        → verify_transaction host text requirement config w ≡ (ok result, v)
    unfolding verify_transaction decoded
    complete result v t =
        let tx = result.transaction in
        let affordable = t.affordable in
        let limit =
          (verify_compute_limit_instruction_iff programs tx 0 _).1 (t.limited, t.limit, refl) in
        let within : ltb host.max_compute_unit_limit
              (from_le_bytes (take 4 (drop 1 t.limited.bytes)))
            ≡ false =
          ground arith in
        let price =
          (verify_compute_price_instruction_iff programs tx 1 host.max_compute_unit_price).1
            (t.priced, t.price, t.cheap) in
        let structure = (validate_instructions_iff programs tx config).1 t.structured in
        let transfer =
          (verify_transfer_instruction-ok_iff host tx 2 requirement w t.transfer t.after).1
            t.transfers in
        let apart : fee_payer_check tx ≡ ok tt = (fee_payer_check_iff tx).1 t.apart in
        rw
          (
            t.decodes, t.transaction, limit, within, price, structure, transfer, apart, t.signs,
            t.simulated, t.payer,
          )
          refl

    sound :
        (result : VerifyTransferResult) (v : World)
        → verify_transaction host text requirement config w ≡ (ok result, v)
        → IsVerified text requirement w result v
    unfolding verify_transaction
    sound result v h =
        let exact_error = of_exact_error host.number_text host.key_text in
        let (tx, d, h1) = lifted-eq-ok (map_err exact_error (decoded host text)) _ w h in
        let (units, l, h2) =
          lifted-eq-ok (map_err exact_error (verify_compute_limit_instruction programs tx 0)) _ w
            h1 in
        let (u1, a, h3) =
          lifted-eq-ok
            (map_err exact_error
              (refuse (ltb host.max_compute_unit_limit units) max_compute_unit_limit_exceeded))
            _ w h2 in
        let (u2, p, h4) =
          lifted-eq-ok
            (map_err exact_error
              (verify_compute_price_instruction programs host.max_compute_unit_price tx 1))
            _ w h3 in
        let (u3, s, h5) =
          lifted-eq-ok (map_err exact_error (validate_instructions programs tx config)) _ w h4 in
        let (transfer, x, t, h6) =
          proceed-eq-ok (verify_transfer_instruction host tx 2 requirement w) _ h5 in
        let (u4, f, h7) = lifted-eq-ok (map_err exact_error (fee_payer_check tx)) _ x h6 in
        let (signed, y, g, h8) =
          proceed-eq-ok (with_error of_provider_error (lift (host.sign tx)) x) _ h7 in
        let (u5, z, m, h9) =
          proceed-eq-ok (with_error of_provider_error (host.simulate signed) y) _ h8 in
        let (limited, budget, read) =
          (verify_compute_limit_instruction_iff programs tx 0 units).0
            (map_err-eq-ok exact_error _ l) in
        let (priced, cost, cheap) =
          (verify_compute_price_instruction_iff programs tx 1 host.max_compute_unit_price).0
            (map_err-eq-ok exact_error _ p) in
        let within : ltb host.max_compute_unit_limit units ≡ false =
          refuse-eq-ok (ltb host.max_compute_unit_limit units) _ (map_err-eq-ok exact_error _ a) in
        let signs = mapped-eq-ok of_provider_error _ g in
        let (bytes, decodes, deserializes) = decoded_lem text tx (map_err-eq-ok exact_error _ d) in
        let verified : IsVerified text requirement w
            (record { payer = transfer.authority; transaction = tx }) z =
          record {
            bytes = bytes;
            decodes = decodes;
            transaction = deserializes;
            limited = limited;
            limit = budget;
            affordable = ground (arith, read, within);
            priced = priced;
            price = cost;
            cheap = cheap;
            structured =
                (validate_instructions_iff programs tx config).0 (map_err-eq-ok exact_error _ s);
            transfer = transfer;
            after = x;
            transfers = (verify_transfer_instruction-ok_iff host tx 2 requirement w transfer x).0 t;
            payer = refl;
            apart = (fee_payer_check_iff tx).0 (map_err-eq-ok exact_error _ f);
            signed = signed;
            signs = ap (λ q. q.0) signs;
            simulated =
                ap (host.simulate signed) (ap (λ q. q.1) signs)
                ∙ mapped-eq-ok of_provider_error _ m;
          } in
        subst (λ q. IsVerified text requirement w q.0 q.1) (ok-injective h9) verified

  -- A transaction is verified exactly if it decodes, limits and prices its computation within the
  -- provider's bounds, has the structure of a payment, transfers at least the required amount of the
  -- required token to the recipient's derived account, does not name the fee payer in an
  -- instruction where the configuration forbids it, and passes its simulation once signed; the
  -- result names the authority of the transfer as the payer.
  pub verify_transaction-ok_iff :
      (text : String) (requirement : TransferRequirement) (w : World)
      (result : VerifyTransferResult) (v : World)
      → (verify_transaction host text requirement config w ≡ (ok result, v))
        ↔ IsVerified text requirement w result v
  verify_transaction-ok_iff text requirement w result v =
      (sound text requirement w result v, complete text requirement w result v)
