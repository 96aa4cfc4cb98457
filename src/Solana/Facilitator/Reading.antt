-- ===== src/Solana/Facilitator/Reading.antt =====
-- How the facilitator reads a transfer from an instruction.
use r.Base.{
  ℕ, ◌≤◌, ◌⊎◌, inl, inr, some, none, >>=-eq-ok, ◌≡◌, ◌≢◌, refl, ◌↔◌, false, Option, List, [], ◌∷◌,
  ok, map_err, map_err-eq-ok, guard, refuse, first, get_elem?, ltb, ◌==◌, ==_iff, ne_of_==-eq-false,
  arith, guard-eq-ok, refuse-eq-ok,
}
use r.Base
use mathlib.Core.Path.{subst}
use r.Solana.Types.{Pubkey, InstructionInt, assert_not_empty, account}
use r.Solana.Facilitator.Instructions.{HasAccount, account_iff, HasContent, assert_not_empty_iff}
use r.Solana.Facilitator.{
  Host, TokenInstruction, transfer_checked, other_instruction, amount_of, token_program,
  TransferCheckedInstruction, transfer_of,
}

amount_of-eq-ok :
    (o : Option TokenInstruction) (amount : ℕ)
    → amount_of o ≡ ok amount
    → (decimals : ℕ) × (o ≡ some (transfer_checked amount decimals))
amount_of-eq-ok none amount h = cc
amount_of-eq-ok (some other_instruction) amount h = cc
amount_of-eq-ok (some (transfer_checked given decimals)) amount h =
    let same : given ≡ amount = cc in (decimals, rw same refl)

module _ {World Value : Type 0} (host : Host World Value) where
  open host use {programs}

  -- The instruction is a checked transfer, by the program of the token, with these accounts.
  pub record IsRead (i : InstructionInt) (transfer : TransferCheckedInstruction) : Type 0 where
    pub not_empty : HasContent i
    pub program : programs.program_id i.instruction i.account_keys ≡ transfer.token_program
    pub known :
        (transfer.token_program ≡ programs.spl_token)
        ⊎ (transfer.token_program ≡ programs.spl_token_2022)
    pub decimals : ℕ
    pub unpacked :
        host.unpack i.instruction.bytes ≡ some (transfer_checked transfer.amount decimals)
    pub source : HasAccount i 0 transfer.source
    pub mint : HasAccount i 1 transfer.mint
    pub destination : HasAccount i 2 transfer.destination
    pub authority : HasAccount i 3 transfer.authority

  token_program_iff :
      (given program : Pubkey)
      → (token_program host given ≡ ok program) ↔ (
          (given ≡ program)
          × ((program ≡ programs.spl_token) ⊎ (program ≡ programs.spl_token_2022)))
  unfolding token_program
  token_program_iff given program = ground arith

  pub transfer_of-IsRead :
      (i : InstructionInt) (transfer : TransferCheckedInstruction)
      → IsRead i transfer
      → transfer_of host i ≡ ok transfer
  unfolding transfer_of
  transfer_of-IsRead i transfer r =
      let program =
        (token_program_iff (programs.program_id i.instruction i.account_keys)
            transfer.token_program).1
          (r.program, r.known) in
      let content = (assert_not_empty_iff i).1 r.not_empty in
      let source = (account_iff i 0 transfer.source).1 r.source in
      let mint = (account_iff i 1 transfer.mint).1 r.mint in
      let destination = (account_iff i 2 transfer.destination).1 r.destination in
      let authority = (account_iff i 3 transfer.authority).1 r.authority in
      rw (content, program, r.unpacked, source, mint, destination, authority) refl

  pub IsRead-transfer_of :
      (i : InstructionInt) (transfer : TransferCheckedInstruction)
      → transfer_of host i ≡ ok transfer
      → IsRead i transfer
  unfolding transfer_of
  IsRead-transfer_of i transfer h =
      let called = programs.program_id i.instruction i.account_keys in
      let (u, e0, h0) = >>=-eq-ok (assert_not_empty i) _ h in
      let (token, e1, h1) = >>=-eq-ok (token_program host called) _ h0 in
      let (amount, e2, h2) = >>=-eq-ok (amount_of (host.unpack i.instruction.bytes)) _ h1 in
      let (source, e3, h3) = >>=-eq-ok (account i 0) _ h2 in
      let (mint, e4, h4) = >>=-eq-ok (account i 1) _ h3 in
      let (destination, e5, h5) = >>=-eq-ok (account i 2) _ h4 in
      let (authority, e6, h6) = >>=-eq-ok (account i 3) _ h5 in
      let (program, known) = (token_program_iff called token).0 e1 in
      let (decimals, unpacked) = amount_of-eq-ok (host.unpack i.instruction.bytes) amount e2 in
      let read : IsRead i (record {
        amount = amount;
        source = source;
        mint = mint;
        destination = destination;
        authority = authority;
        token_program = token;
      }) =
        record {
          not_empty = (assert_not_empty_iff i).0 e0;
          program = program;
          known = known;
          decimals = decimals;
          unpacked = unpacked;
          source = (account_iff i 0 source).0 e3;
          mint = (account_iff i 1 mint).0 e4;
          destination = (account_iff i 2 destination).0 e5;
          authority = (account_iff i 3 authority).0 e6;
        } in
      subst (IsRead i) (Base.ok-injective h6) read
