-- ===== src/Solana/Facilitator.antt =====
-- r402-svm/src/exact/facilitator: the verification and the settlement of transfers on Solana, an
-- implementation of the trait `Facilitator`.
pub mod Signed
pub mod Instructions
pub mod Reading
pub mod Transfers
pub mod Verified
pub mod Settling
use Prim.Native.String.{◌++◌}
use r.Base.{
  String, ℕ, Bool, true, false, ◌&&◌, Option, none, some, List, [], ◌∷◌, Outcome, ok, err, map_err,
  refuse, guard, first, get_elem?, ltb, ◌==◌, ◌=?◌, if◌then◌else◌,
}
use r.Base
use r.Base.Actions.{Action, ◌>>=◌, ◌>>◌, lift, with_error}
use r.Chain.Id.{ChainId, chain_id_eq}
use r.Chain.Id
use r.Proto.Error.{
  PaymentVerificationError, invalid_format, accepted_requirements_mismatch, unsupported_chain,
  asset_mismatch, recipient_mismatch, invalid_payment_amount, transaction_simulation,
}
use r.Proto.V2.{PaymentPayload, PaymentRequirements, TypedVerifyRequest, SupportedResponse}
use r.Proto.Verify.{VerifyResponse, valid}
use r.Proto.Settle.{SettleResponse, success}
use r.Facilitator.{Facilitator, FacilitatorError, payment_verification, onchain_failure}
use r.Evm.Types.{ExactScheme, scheme_beq}
use r.Solana.Types.{
  Pubkey, VersionedTransaction, SolanaExactError, SolanaExactFacilitatorConfig, InstructionInt,
  transaction_decoding, max_compute_unit_limit_exceeded, invalid_token_instruction,
  fee_payer_transferring_funds, missing_sender_account, of_exact_error, instruction_at,
  assert_not_empty, account, is_fully_signed,
}
use r.Solana.Checks.{
  Programs, verify_compute_limit_instruction, verify_compute_price_instruction,
  validate_instructions, check_fee_payer,
}

-- `SolanaChainProviderError`; the errors of the libraries count by their texts.
pub data SolanaChainProviderError : Type 0 where
  signer invalid_transaction transport pubsub_transport custom : String → SolanaChainProviderError

-- `Display`, as derived from the `#[error]` attributes.
unfoldable pub to_string : SolanaChainProviderError → String
to_string (signer e) = e
to_string (invalid_transaction e) = "Invalid transaction: " ++ e
to_string (transport e) = e
to_string (pubsub_transport e) = e
to_string (custom e) = e

-- `TokenInstruction` of spl_token
pub data TokenInstruction : Type 0 where
  -- amount, decimals
  transfer_checked : ℕ → ℕ → TokenInstruction
  other_instruction : TokenInstruction

-- `TransferCheckedInstruction`
pub record TransferCheckedInstruction : Type 0 where
  pub amount : ℕ  -- u64
  pub source : Pubkey
  pub mint : Pubkey
  pub destination : Pubkey
  pub authority : Pubkey
  pub token_program : Pubkey

-- `TransferRequirement`
pub record TransferRequirement : Type 0 where
  pub asset : Pubkey
  pub pay_to : Pubkey
  pub amount : ℕ  -- u64

-- `VerifyTransferResult`
pub record VerifyTransferResult : Type 0 where
  pub payer : Pubkey
  pub transaction : VersionedTransaction

-- `types::v2`: the extra data of the terms is the fee payer
abbrev pub Requirements : Type 0
Requirements = PaymentRequirements ExactScheme ℕ Pubkey Pubkey

-- `ExactSolanaPayload`
pub record ExactSolanaPayload : Type 0 where
  pub transaction : String

abbrev pub VerifyRequest : Type 0 → Type 0
VerifyRequest Value =
    TypedVerifyRequest (PaymentPayload Requirements ExactSolanaPayload Value) Requirements

-- What the facilitator stands on: the provider (`SolanaChainProviderLike`, `ChainProvider`), Solana's
-- crates, serde and base64, and the texts of numbers, keys and signatures.
pub record Host (World Value : Type 0) : Type 1 where
  pub Account : Type 0
  pub programs : Programs
  pub number_text : ℕ → String
  pub key_text : Pubkey → String
  pub signature_text : ℕ → String
  pub from_value : Value → Outcome (VerifyRequest Value) String
  pub decode : String → Outcome (List ℕ) String
  pub deserialize : List ℕ → Outcome VersionedTransaction String
  pub unpack : List ℕ → Option TokenInstruction
  pub find_program_address : List Pubkey → Pubkey → Pubkey
  -- the text of `TransactionError::SignatureFailure`
  pub signature_failure : String
  pub chain_id : ChainId
  pub signer_addresses : List String
  -- `SupportedPaymentKindExtra` as JSON
  pub fee_payer_extra : Option Value
  pub pubkey : Pubkey
  pub max_compute_unit_limit : ℕ
  pub max_compute_unit_price : ℕ
  pub sign : VersionedTransaction → Outcome VersionedTransaction SolanaChainProviderError
  pub simulate : VersionedTransaction → Action World SolanaChainProviderError (Unit {0})
  pub get_multiple_accounts :
      List Pubkey → Action World SolanaChainProviderError (List (Option Account))
  pub send_and_confirm : VersionedTransaction → Action World SolanaChainProviderError ℕ

-- `From<SolanaChainProviderError> for PaymentVerificationError`
abbrev pub of_provider_error : SolanaChainProviderError → PaymentVerificationError
of_provider_error e = transaction_simulation (to_string e)

-- `accounts.get(i).cloned().is_none_or(|a| a.is_none())`
abbrev pub is_missing : {A : Type 0} → Option (Option A) → Bool
is_missing none = true
is_missing (some none) = true
is_missing (some (some a)) = false

abbrev pub amount_of : Option TokenInstruction → Outcome ℕ SolanaExactError
amount_of none = err invalid_token_instruction
amount_of (some other_instruction) = err invalid_token_instruction
amount_of (some (transfer_checked amount decimals)) = ok amount

module _ {World Value : Type 0} (host : Host World Value) where
  open host use {programs}

  -- A check of the transaction alone, by `?`
  abbrev exact : {A : Type 0} → Outcome A SolanaExactError → Action World PaymentVerificationError A
  exact r = lift (map_err (of_exact_error host.number_text host.key_text) r)

  -- The program of the token, one of two
  unfoldable pub token_program : Pubkey → Outcome Pubkey SolanaExactError
  token_program program_id =
      if programs.spl_token == program_id
      then ok programs.spl_token
      else if programs.spl_token_2022 == program_id
      then ok programs.spl_token_2022
      else err invalid_token_instruction

  -- The transfer that an instruction makes
  unfoldable pub transfer_of : InstructionInt → Outcome TransferCheckedInstruction SolanaExactError
  transfer_of i = Base.◌>>◌ (assert_not_empty i) (
      Base.◌>>=◌ (token_program (programs.program_id i.instruction i.account_keys)) (λ token.
        Base.◌>>=◌ (amount_of (host.unpack i.instruction.bytes)) (λ amount.
          Base.◌>>=◌ (account i 0) (λ source. Base.◌>>=◌ (account i 1) (λ mint.
            Base.◌>>=◌ (account i 2) (λ destination. Base.◌>>=◌ (account i 3) (λ authority.
              ok (record {
                amount = amount;
                source = source;
                mint = mint;
                destination = destination;
                authority = authority;
                token_program = token;
              }))))))))

  -- The account of the recipient for the token
  unfoldable pub token_account : TransferRequirement → Pubkey → Pubkey
  token_account requirement token =
      host.find_program_address (requirement.pay_to ∷ token ∷ requirement.asset ∷ [])
        programs.associated_token

  unfoldable pub verify_transfer_instruction :
      VersionedTransaction
      → ℕ
      → TransferRequirement
      → Action World PaymentVerificationError TransferCheckedInstruction
  verify_transfer_instruction transaction instruction_index requirement = do
    instruction ← exact (instruction_at transaction instruction_index)
    transfer ← exact (transfer_of instruction)
    let ata = token_account requirement transfer.token_program
    exact (refuse (transfer.authority == host.pubkey) fee_payer_transferring_funds)
    lift (guard (transfer.mint == requirement.asset) asset_mismatch)
    lift (guard (transfer.destination == ata) recipient_mismatch)
    accounts ←
        with_error of_provider_error (host.get_multiple_accounts (transfer.source ∷ ata ∷ []))
    exact (refuse (is_missing (first accounts)) missing_sender_account)
    lift (refuse (is_missing (get_elem? accounts 1)) recipient_mismatch)
    lift (refuse (ltb transfer.amount requirement.amount) invalid_payment_amount)
    lift (ok transfer)

  unfoldable pub decoded : String → Outcome VersionedTransaction SolanaExactError
  decoded text =
      Base.◌>>=◌ (map_err transaction_decoding (host.decode text))
        (λ bytes. map_err transaction_decoding (host.deserialize bytes))

  unfoldable pub verify_transaction :
      String
      → TransferRequirement
      → SolanaExactFacilitatorConfig
      → Action World PaymentVerificationError VerifyTransferResult
  verify_transaction transaction_b64_string requirement config = do
    transaction ← exact (decoded transaction_b64_string)
    compute_units ← exact (verify_compute_limit_instruction programs transaction 0)
    exact (refuse (ltb host.max_compute_unit_limit compute_units) max_compute_unit_limit_exceeded)
    exact (verify_compute_price_instruction programs host.max_compute_unit_price transaction 1)
    exact (validate_instructions programs transaction config)
    transfer ← verify_transfer_instruction transaction 2 requirement
    exact (
        if config.require_fee_payer_not_in_instructions
        then check_fee_payer transaction.static_account_keys host.pubkey transaction.instructions
        else ok tt)
    tx ← with_error of_provider_error (lift (host.sign transaction))
    with_error of_provider_error (host.simulate tx)
    lift (ok (record { payer = transfer.authority; transaction = transaction }))

  unfoldable pub verify_transfer :
      VerifyRequest Value
      → SolanaExactFacilitatorConfig
      → Action World PaymentVerificationError VerifyTransferResult
  verify_transfer request config = do
    let requirements = request.payment_requirements
    let accepted = request.payment_payload.accepted
    lift (
        guard
          (scheme_beq accepted.scheme requirements.scheme
            && accepted.network =? requirements.network
            && accepted.amount == requirements.amount
            && accepted.asset == requirements.asset
            && accepted.pay_to == requirements.pay_to)
          accepted_requirements_mismatch)
    lift (guard (accepted.network =? host.chain_id) unsupported_chain)
    verify_transaction request.payment_payload.payload.transaction
        (record {
          asset = requirements.asset;
          pay_to = requirements.pay_to;
          amount = requirements.amount;
        })
        config

  unfoldable pub settle_transaction : VerifyTransferResult → Action World SolanaChainProviderError ℕ
  settle_transaction verification = do
    tx ← lift (host.sign verification.transaction)
    lift (guard (is_fully_signed tx) (invalid_transaction host.signature_failure))
    host.send_and_confirm tx

  unfoldable pub verify :
      SolanaExactFacilitatorConfig → Value → Action World FacilitatorError VerifyResponse
  verify config json = do
    request ← lift (map_err (λ e. payment_verification (invalid_format e)) (host.from_value json))
    verification ← with_error payment_verification (verify_transfer request config)
    lift (ok (valid (host.key_text verification.payer)))

  unfoldable pub settle :
      SolanaExactFacilitatorConfig → Value → Action World FacilitatorError (SettleResponse Value)
  settle config json = do
    request ← lift (map_err (λ e. payment_verification (invalid_format e)) (host.from_value json))
    verification ← with_error payment_verification (verify_transfer request config)
    tx_sig ← with_error (λ e. onchain_failure (to_string e)) (settle_transaction verification)
    lift (
        ok (
          success (host.key_text verification.payer) (host.signature_text tx_sig)
            (Id.to_string host.chain_id) none))

  unfoldable pub supported : Action World FacilitatorError (SupportedResponse Value)
  supported = lift (
      ok (record {
        kinds =
            record {
              x402_version = 2;
              scheme = "exact";
              network = Id.to_string host.chain_id;
              extra = host.fee_payer_extra;
            }
            ∷ [];
        extensions = [];
        signers = ("solana:*", host.signer_addresses) ∷ [];
      }))

  -- The implementation of the trait.
  unfoldable pub as_facilitator : SolanaExactFacilitatorConfig → Facilitator World Value
  as_facilitator config = record {
    verify = verify config;
    settle = settle config;
    supported = supported;
  }
