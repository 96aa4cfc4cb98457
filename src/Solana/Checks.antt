-- ===== src/Solana/Checks.antt =====
-- r402-svm/src/exact/facilitator/verify.rs: the checks of a transaction's instructions.
pub mod Structure
pub mod Compute
pub mod FeePayer
use r.Base.{
  ℕ, zero, suc, ◌+◌, ◌-◌, ◌*◌, Bool, false, ◌||◌, not, Option, none, some, List, [], ◌∷◌, Outcome,
  ok, ◌>>=◌, ◌>>◌, ok_or, refuse, guard, length, get_elem?, take, drop, first, ltb, ◌==◌,
  if◌then◌else◌,
}
use mathlib.Core.Option
use r.Solana.Types.{
  Pubkey, CompiledInstruction, VersionedTransaction, SolanaExactError, SolanaExactFacilitatorConfig,
  no_instruction_at_index, invalid_compute_limit_instruction, invalid_compute_price_instruction,
  max_compute_unit_price_exceeded, too_few_instructions, instruction_count_exceeds_max,
  create_ata_not_supported, additional_instructions_not_allowed, blocked_program,
  program_not_allowed, no_account_at_index, fee_payer_included_in_instruction_accounts, is_blocked,
  is_allowed,
}

-- The programs that the code knows, and `CompiledInstruction::program_id`, which looks a program up
-- among the keys.
pub record Programs : Type 0 where
  pub compute_budget : Pubkey
  pub associated_token : Pubkey
  pub spl_token : Pubkey
  pub spl_token_2022 : Pubkey
  pub program_id : CompiledInstruction → List Pubkey → Pubkey

-- `from_le_bytes`
abbrev pub from_le_bytes : List ℕ → ℕ
from_le_bytes [] = 0
from_le_bytes (b ∷ bytes) = b + 256 * from_le_bytes bytes

module _ (programs : Programs) where
  unfoldable pub verify_compute_limit_instruction :
      VersionedTransaction → ℕ → Outcome ℕ SolanaExactError
  verify_compute_limit_instruction tx index = do
    instruction ← ok_or (no_instruction_at_index index) (get_elem? tx.instructions index)
    let account = programs.program_id instruction tx.static_account_keys
    let bytes = instruction.bytes
    refuse
        (not (programs.compute_budget == account)
          || not (Option.get_or (first bytes) 0 == 2)
          || not (length bytes == 5))
        invalid_compute_limit_instruction
    ok (from_le_bytes (take 4 (drop 1 bytes)))

  unfoldable pub verify_compute_price_instruction :
      ℕ → VersionedTransaction → ℕ → Outcome (Unit {0}) SolanaExactError
  verify_compute_price_instruction max_compute_unit_price tx index = do
    instruction ← ok_or (no_instruction_at_index index) (get_elem? tx.instructions index)
    let account = programs.program_id instruction tx.static_account_keys
    let bytes = instruction.bytes
    refuse
        (not (programs.compute_budget == account)
          || not (Option.get_or (first bytes) 0 == 3)
          || not (length bytes == 9))
        invalid_compute_price_instruction
    refuse (ltb max_compute_unit_price (from_le_bytes (drop 1 bytes)))
        max_compute_unit_price_exceeded

  abbrev program_of : VersionedTransaction → Option CompiledInstruction → Option Pubkey
  program_of tx none = none
  program_of tx (some instruction) = some (programs.program_id instruction tx.static_account_keys)

  unfoldable pub get_program_id : VersionedTransaction → ℕ → Option Pubkey
  get_program_id tx index = program_of tx (get_elem? tx.instructions index)

  abbrev is_program : Pubkey → Option Pubkey → Bool
  is_program program none = false
  is_program program (some p) = p == program

  abbrev check_program :
      SolanaExactFacilitatorConfig → Option Pubkey → Outcome (Unit {0}) SolanaExactError
  check_program config none = ok tt
  check_program config (some program_id) = do
    refuse (is_blocked config program_id) (blocked_program program_id)
    guard (is_allowed config program_id) (program_not_allowed program_id)

  -- The loop over the additional instructions: from an index, as many as are left.
  abbrev pub check_programs :
      SolanaExactFacilitatorConfig
      → VersionedTransaction
      → ℕ
      → ℕ
      → Outcome (Unit {0}) SolanaExactError
  check_programs config tx i zero = ok tt
  check_programs config tx i (suc left) = do
    check_program config (get_program_id tx i)
    check_programs config tx (suc i) left

  unfoldable pub validate_instructions :
      VersionedTransaction → SolanaExactFacilitatorConfig → Outcome (Unit {0}) SolanaExactError
  validate_instructions tx config = do
    let count = length tx.instructions
    refuse (ltb count 3) too_few_instructions
    refuse (ltb config.max_instruction_count count)
        (instruction_count_exceeds_max config.max_instruction_count)
    refuse (is_program programs.associated_token (get_program_id tx 2)) create_ata_not_supported
    if ltb 3 count
        then guard config.allow_additional_instructions additional_instructions_not_allowed
          >> check_programs config tx 3 (count - 3)
        else ok tt

-- The loops over the accounts of all instructions
abbrev pub check_accounts : List Pubkey → Pubkey → List ℕ → Outcome (Unit {0}) SolanaExactError
check_accounts keys fee_payer [] = ok tt
check_accounts keys fee_payer (account_idx ∷ rest) = do
  account ← ok_or (no_account_at_index account_idx) (get_elem? keys account_idx)
  refuse (account == fee_payer) fee_payer_included_in_instruction_accounts
  check_accounts keys fee_payer rest

abbrev pub check_fee_payer :
    List Pubkey → Pubkey → List CompiledInstruction → Outcome (Unit {0}) SolanaExactError
check_fee_payer keys fee_payer [] = ok tt
check_fee_payer keys fee_payer (instruction ∷ rest) = do
  check_accounts keys fee_payer instruction.accounts
  check_fee_payer keys fee_payer rest
