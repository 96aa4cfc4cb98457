-- ===== src/Solana/Types.antt =====
-- r402-svm/src/exact/types.rs, error.rs and facilitator/config.rs: transactions as the facilitator
-- looks at them, its errors and its configuration. A public key is the number that its bytes stand
-- for, and the types of Solana's crates are records of what the code reads of them.
use Prim.Native.String.{◌++◌}
use r.Base.{
  String, ℕ, Bool, true, false, ◌||◌, List, [], ◌∷◌, Outcome, ok, ◌>>=◌, ok_or, refuse, length,
  get_elem?, any, ltb, ◌==◌, if◌then◌else◌,
}
use r.Proto.Error.{PaymentVerificationError, invalid_format, transaction_simulation}

abbrev pub Pubkey : Type 0
Pubkey = ℕ

-- `CompiledInstruction`
pub record CompiledInstruction : Type 0 where
  pub program_id_index : ℕ  -- u8
  pub accounts : List ℕ  -- u8
  pub bytes : List ℕ  -- `data`, of u8

-- `VersionedTransaction`: its signatures, and of its message the number of required signatures, the
-- static keys and the instructions
pub record VersionedTransaction : Type 0 where
  pub signatures : List ℕ
  pub num_required_signatures : ℕ  -- u8
  pub static_account_keys : List Pubkey
  pub instructions : List CompiledInstruction

pub data SolanaExactError : Type 0 where
  transaction_decoding : String → SolanaExactError
  max_compute_unit_limit_exceeded max_compute_unit_price_exceeded : SolanaExactError
  too_few_instructions additional_instructions_not_allowed : SolanaExactError
  instruction_count_exceeds_max : ℕ → SolanaExactError
  blocked_program program_not_allowed : Pubkey → SolanaExactError
  create_ata_not_supported fee_payer_included_in_instruction_accounts : SolanaExactError
  fee_payer_transferring_funds : SolanaExactError
  no_instruction_at_index no_account_at_index empty_instruction_at_index : ℕ → SolanaExactError
  invalid_compute_limit_instruction invalid_compute_price_instruction : SolanaExactError
  invalid_token_instruction missing_sender_account : SolanaExactError

module _ (number_text key_text : ℕ → String) where
  -- `Display`, as derived from the `#[error]` attributes.
  unfoldable pub to_string : SolanaExactError → String
  to_string (transaction_decoding e) = "Can not decode transaction: " ++ e
  to_string max_compute_unit_limit_exceeded = "Compute unit limit exceeds facilitator maximum"
  to_string max_compute_unit_price_exceeded = "Compute unit price exceeds facilitator maximum"
  to_string too_few_instructions = "Too few instructions in transaction"
  to_string additional_instructions_not_allowed = "Additional instructions not allowed"
  to_string (instruction_count_exceeds_max n) =
      "Instruction count exceeds maximum: " ++ number_text n
  to_string (blocked_program p) = "Blocked program in transaction: " ++ key_text p
  to_string (program_not_allowed p) = "Program not in allowed list: " ++ key_text p
  to_string create_ata_not_supported =
      "CreateATA instruction not supported - destination ATA must exist"
  to_string fee_payer_included_in_instruction_accounts =
      "Fee payer included in instruction accounts"
  to_string fee_payer_transferring_funds = "Fee payer found transferring funds"
  to_string (no_instruction_at_index i) = "Instruction at index " ++ (number_text i ++ " not found")
  to_string (no_account_at_index i) = "No account at index " ++ number_text i
  to_string (empty_instruction_at_index i) = "Empty instruction at index " ++ number_text i
  to_string invalid_compute_limit_instruction = "Invalid compute limit instruction"
  to_string invalid_compute_price_instruction = "Invalid compute price instruction"
  to_string invalid_token_instruction = "Invalid token instruction"
  to_string missing_sender_account = "Missing sender account in transaction"

  abbrev is_decoding : SolanaExactError → Bool
  is_decoding (transaction_decoding e) = true
  is_decoding _ = false

  -- `From<SolanaExactError> for PaymentVerificationError`
  unfoldable pub of_exact_error : SolanaExactError → PaymentVerificationError
  of_exact_error e =
      if is_decoding e then invalid_format (to_string e) else transaction_simulation (to_string e)

-- `SolanaExactFacilitatorConfig`
pub record SolanaExactFacilitatorConfig : Type 0 where
  pub allow_additional_instructions : Bool
  pub max_instruction_count : ℕ  -- usize
  pub allowed_program_ids : List Pubkey
  pub blocked_program_ids : List Pubkey
  pub require_fee_payer_not_in_instructions : Bool

-- `Default`, with the program of Phantom's Lighthouse
unfoldable pub default_config : Pubkey → SolanaExactFacilitatorConfig
default_config phantom_lighthouse_program = record {
  allow_additional_instructions = true;
  max_instruction_count = 10;
  allowed_program_ids = phantom_lighthouse_program ∷ [];
  blocked_program_ids = [];
  require_fee_payer_not_in_instructions = true;
}

unfoldable pub is_blocked : SolanaExactFacilitatorConfig → Pubkey → Bool
is_blocked config program_id = any (λ addr. addr == program_id) config.blocked_program_ids

unfoldable pub is_allowed : SolanaExactFacilitatorConfig → Pubkey → Bool
is_allowed config program_id = any (λ addr. addr == program_id) config.allowed_program_ids

-- `InstructionInt`
pub record InstructionInt : Type 0 where
  pub index : ℕ
  pub instruction : CompiledInstruction
  pub account_keys : List Pubkey

-- `TransactionInt::instruction`
unfoldable pub instruction_at : VersionedTransaction → ℕ → Outcome InstructionInt SolanaExactError
instruction_at tx index = do
  instruction ← ok_or (no_instruction_at_index index) (get_elem? tx.instructions index)
  ok (record { index = index; instruction = instruction; account_keys = tx.static_account_keys })

-- `InstructionInt::assert_not_empty`, with `has_data` and `has_accounts`
unfoldable pub assert_not_empty : InstructionInt → Outcome (Unit {0}) SolanaExactError
assert_not_empty i =
    refuse (length i.instruction.bytes == 0 || length i.instruction.accounts == 0)
      (empty_instruction_at_index i.index)

-- `InstructionInt::account`
unfoldable pub account : InstructionInt → ℕ → Outcome Pubkey SolanaExactError
account i index = do
  account_index ← ok_or (no_account_at_index index) (get_elem? i.instruction.accounts index)
  ok_or (no_account_at_index index) (get_elem? i.account_keys account_index)

-- `Signature::default()`: all bytes zero
abbrev pub no_signature : ℕ
no_signature = 0

abbrev pub none_missing : List ℕ → Bool
none_missing [] = true
none_missing (s ∷ rest) = if no_signature == s then false else none_missing rest

-- `TransactionInt::is_fully_signed`
unfoldable pub is_fully_signed : VersionedTransaction → Bool
is_fully_signed tx =
    if ltb (length tx.signatures) tx.num_required_signatures
    then false
    else none_missing tx.signatures
