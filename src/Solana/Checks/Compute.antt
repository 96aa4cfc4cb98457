-- ===== src/Solana/Checks/Compute.antt =====
-- The limit and the price of a transaction's computation.
use mathlib.Core.Option
use r.Base.{
  ℕ, ◌≤◌, ◌≡◌, refl, ap, ◌↔◌, ◌||◌, not, false, some, ok, ok_or, ok_or-eq-ok, refuse, first,
  get_elem?, length, take, drop, ltb, ◌==◌, arith, >>=-eq-ok, refuse-eq-ok, ok-injective,
}
use r.Solana.Types.{
  CompiledInstruction, VersionedTransaction, no_instruction_at_index,
  invalid_compute_limit_instruction, invalid_compute_price_instruction,
  max_compute_unit_price_exceeded,
}
use r.Solana.Checks.{
  Programs, from_le_bytes, verify_compute_limit_instruction, verify_compute_price_instruction,
}

module _ (programs : Programs) (tx : VersionedTransaction) (index : ℕ) where
  -- An instruction of the compute budget with a tag and an argument of some bytes.
  pub record IsBudget (tag size : ℕ) (instruction : CompiledInstruction) : Type 0 where
    pub found : get_elem? tx.instructions index ≡ some instruction
    pub program : programs.program_id instruction tx.static_account_keys ≡ programs.compute_budget
    pub tagged : Option.get_or (first instruction.bytes) 0 ≡ tag
    pub sized : length instruction.bytes ≡ size

  refused_iff :
      (program account byte tag size wanted : ℕ)
      → ((not (program == account) || not (byte == tag) || not (size == wanted)) ≡ false)
        ↔ ((account ≡ program) × (byte ≡ tag) × (size ≡ wanted))
  refused_iff program account byte tag size wanted = ground arith

  -- The price of a unit is accepted exactly if an instruction sets it, to at most the greatest price.
  pub verify_compute_price_instruction_iff :
      (max : ℕ)
      → (verify_compute_price_instruction programs max tx index ≡ ok tt) ↔ (
          (instruction : CompiledInstruction) × IsBudget 3 9 instruction
          × (from_le_bytes (drop 1 instruction.bytes) ≤ max))
  unfolding verify_compute_price_instruction
  verify_compute_price_instruction_iff max = (
    λ h.
        let (i, f, h1) =
          >>=-eq-ok (ok_or (no_instruction_at_index index) (get_elem? tx.instructions index)) _ h in
        let program = programs.program_id i tx.static_account_keys in
        let wrong =
          not (programs.compute_budget == program)
          || not (Option.get_or (first i.bytes) 0 == 3)
          || not (length i.bytes == 9) in
        let (u, a, h2) = >>=-eq-ok (refuse wrong invalid_compute_price_instruction) _ h1 in
        let dear = ltb max (from_le_bytes (drop 1 i.bytes)) in
        let cheap : dear ≡ false = refuse-eq-ok dear max_compute_unit_price_exceeded h2 in
        let (p, t, s) =
          (refused_iff programs.compute_budget program (Option.get_or (first i.bytes) 0) 3
              (length i.bytes) 9).0
            (refuse-eq-ok wrong _ a) in
        (
          i,
          record { found = ok_or-eq-ok _ _ f; program = p; tagged = t; sized = s },
          ground (arith, cheap),
        ),
    λ (i, b, l).
        let program = programs.program_id i tx.static_account_keys in
        let right =
          (refused_iff programs.compute_budget program (Option.get_or (first i.bytes) 0) 3
              (length i.bytes) 9).1
            (b.program, b.tagged, b.sized) in
        let cheap : ltb max (from_le_bytes (drop 1 i.bytes)) ≡ false = ground arith in
        rw (b.found, right, cheap) refl,
  )

  -- The limit of units is read exactly from an instruction that sets it.
  pub verify_compute_limit_instruction_iff :
      (units : ℕ)
      → (verify_compute_limit_instruction programs tx index ≡ ok units) ↔ (
          (instruction : CompiledInstruction) × IsBudget 2 5 instruction
          × (from_le_bytes (take 4 (drop 1 instruction.bytes)) ≡ units))
  unfolding verify_compute_limit_instruction
  verify_compute_limit_instruction_iff units = (
    λ h.
        let (i, f, h1) =
          >>=-eq-ok (ok_or (no_instruction_at_index index) (get_elem? tx.instructions index)) _ h in
        let program = programs.program_id i tx.static_account_keys in
        let wrong =
          not (programs.compute_budget == program)
          || not (Option.get_or (first i.bytes) 0 == 2)
          || not (length i.bytes == 5) in
        let (u, a, h2) = >>=-eq-ok (refuse wrong invalid_compute_limit_instruction) _ h1 in
        let (p, t, s) =
          (refused_iff programs.compute_budget program (Option.get_or (first i.bytes) 0) 2
              (length i.bytes) 5).0
            (refuse-eq-ok wrong _ a) in
        (
          i,
          record { found = ok_or-eq-ok _ _ f; program = p; tagged = t; sized = s },
          ok-injective h2,
        ),
    λ (i, b, e).
        let program = programs.program_id i tx.static_account_keys in
        let right =
          (refused_iff programs.compute_budget program (Option.get_or (first i.bytes) 0) 2
              (length i.bytes) 5).1
            (b.program, b.tagged, b.sized) in
        rw (b.found, right) (ap ok e),
  )
