-- ===== src/Tests/Transferring.antt =====
-- The settlement of a payment on Solana at a concrete input.
use r.Base.{String, ℕ, suc, ◌≡◌, ◌↔◌, refl, true, none, some, [], ◌∷◌, ok}
use r.Chain.Id.{ChainId}
use r.Proto.Settle.{SettleResponse, success}
use r.Evm.Types.{ExactScheme}
use r.Solana.Types.{VersionedTransaction, SolanaExactFacilitatorConfig}
use r.Chain.Id.{chain_id_beq}
use r.Chain.Id
use r.Solana.Types.{instruction_at, assert_not_empty, account, is_fully_signed}
use r.Solana.Facilitator.{
  verify_transfer, decoded, verify_transfer_instruction, transfer_of, token_program, token_account,
  settle_transaction,
}
use r.Solana.Checks.{
  Programs, validate_instructions, verify_compute_limit_instruction,
  verify_compute_price_instruction, get_program_id,
}
use r.Solana.Checks.Structure.{IsStructured, validate_instructions_iff}
use r.Solana.Facilitator.{
  Host, Requirements, TransferRequirement, VerifyTransferResult, VerifyRequest, transfer_checked,
  verify_transaction, settle,
}
use r.Solana.Facilitator.Verified.{IsVerified, verify_transaction-ok_iff}
use r.Solana.Facilitator.Settling.{IsSettled, settle-ok_iff}

-- Keys: 1 the fee payer, 2 the compute budget, 3 the token program, 4 to 7 the accounts.
abbrev transaction : VersionedTransaction
transaction = record {
  signatures = 0 ∷ 8 ∷ [];
  num_required_signatures = 2;
  static_account_keys = 1 ∷ 2 ∷ 3 ∷ 4 ∷ 5 ∷ 6 ∷ 7 ∷ [];
  instructions =
      record { program_id_index = 1; accounts = []; bytes = 2 ∷ 64 ∷ 13 ∷ 3 ∷ 0 ∷ [] }
      ∷ record {
        program_id_index = 1;
        accounts = [];
        bytes = 3 ∷ 1 ∷ 0 ∷ 0 ∷ 0 ∷ 0 ∷ 0 ∷ 0 ∷ 0 ∷ [];
      }
      ∷ record { program_id_index = 2; accounts = 3 ∷ 4 ∷ 5 ∷ 6 ∷ []; bytes = 12 ∷ [] }
      ∷ [];
}

abbrev signed : VersionedTransaction
signed = record transaction { signatures = 9 ∷ 8 ∷ [] }

abbrev programs : Programs
programs = record {
  compute_budget = 2;
  associated_token = 90;
  spl_token = 3;
  spl_token_2022 = 91;
  program_id = λ i keys. suc i.program_id_index;
}

abbrev mainnet : ChainId
mainnet = record { namespace = "solana"; reference = "mainnet" }

abbrev requirements : Requirements
requirements = record {
  scheme = ExactScheme.exact;
  network = mainnet;
  amount = 1000;
  pay_to = 60;
  max_timeout_seconds = 300;
  asset = 5;
  extra = some 1;
}

abbrev request : VerifyRequest String
request = record {
  payment_payload = record {
    accepted = requirements;
    payload = record { transaction = "AQ" };
    resource = none;
    extensions = none;
  };
  payment_requirements = requirements;
}

-- The world counts the calls that change it.
abbrev host : Host ℕ String
host = record {
  Account = ℕ;
  programs = programs;
  number_text = λ n. "n";
  key_text = λ k. "key";
  signature_text = λ s. "signature";
  from_value = λ json. ok request;
  decode = λ text. ok [];
  deserialize = λ bytes. ok transaction;
  unpack = λ bytes. some (transfer_checked 1000 6);
  find_program_address = λ seeds program. 6;
  signature_failure = "signature failure";
  chain_id = mainnet;
  signer_addresses = "key" ∷ [];
  fee_payer_extra = none;
  pubkey = 1;
  max_compute_unit_limit = 200000;
  max_compute_unit_price = 10;
  sign = λ tx. ok signed;
  simulate = λ tx w. (ok tt, w);
  get_multiple_accounts = λ keys w. (ok (some 4 ∷ some 6 ∷ []), w);
  send_and_confirm = λ tx w. (ok 9, suc w);
}

abbrev config : SolanaExactFacilitatorConfig
config = record {
  allow_additional_instructions = true;
  max_instruction_count = 10;
  allowed_program_ids = [];
  blocked_program_ids = [];
  require_fee_payer_not_in_instructions = true;
}

abbrev receipt : SettleResponse String
receipt = success "key" "signature" "solana:mainnet" none

settle-ok_iff_example :
    (settle host config "{}" 0 ≡ (ok receipt, 1)) ↔ IsSettled host config 0 "{}" receipt 1
settle-ok_iff_example = settle-ok_iff host config 0 "{}" receipt 1

abbrev requirement : TransferRequirement
requirement = record { asset = 5; pay_to = 60; amount = 1000 }

abbrev result : VerifyTransferResult
result = record { payer = 7; transaction = transaction }

verify_transaction-ok_iff_example :
    (verify_transaction host "AQ" requirement config 0 ≡ (ok result, 0))
    ↔ IsVerified host config "AQ" requirement 0 result 0
verify_transaction-ok_iff_example =
    verify_transaction-ok_iff host config "AQ" requirement 0 result 0

validate_instructions_iff_example :
    (validate_instructions programs transaction config ≡ ok tt)
    ↔ IsStructured programs transaction config
validate_instructions_iff_example = validate_instructions_iff programs transaction config

settles : settle host config "{}" 0 ≡ (ok receipt, 1)
unfolding settle verify_transfer chain_id_beq verify_transaction decoded
    verify_compute_limit_instruction verify_compute_price_instruction validate_instructions
    get_program_id verify_transfer_instruction instruction_at transfer_of assert_not_empty
    token_program account token_account settle_transaction is_fully_signed Id.to_string
settles = refl
