-- ===== src/Solana/Checks/FeePayer.antt =====
-- The fee payer is no account of any instruction.
use r.Base.{
  ℕ, ◌≡◌, ◌≢◌, refl, ◌↔◌, false, some, List, [], ◌∷◌, All, ok, ok_or, ok_or-eq-ok, refuse,
  get_elem?, ◌==◌, ne_of_==-eq-false, arith, >>=-eq-ok, refuse-eq-ok,
}
use r.Solana.Types.{
  Pubkey, CompiledInstruction, no_account_at_index, fee_payer_included_in_instruction_accounts,
}
use r.Solana.Checks.{check_accounts, check_fee_payer}

module _ (keys : List Pubkey) (fee_payer : Pubkey) where
  -- An index of an account that is there and is not the fee payer.
  abbrev pub IsOther : ℕ → Type 0
  IsOther index = (k : Pubkey) × (get_elem? keys index ≡ some k) × (k ≢ fee_payer)

  check_accounts_iff :
      (accounts : List ℕ) → (check_accounts keys fee_payer accounts ≡ ok tt) ↔ All IsOther accounts
  check_accounts_iff [] = ((λ h. tt), λ t. refl)
  check_accounts_iff (index ∷ rest) = (
    λ h.
        let (k, found, h1) =
          >>=-eq-ok (ok_or (no_account_at_index index) (get_elem? keys index)) _ h in
        let (u, other, h2) =
          >>=-eq-ok (refuse (k == fee_payer) fee_payer_included_in_instruction_accounts) _ h1 in
        (
          (
            k,
            ok_or-eq-ok _ _ found,
            ne_of_==-eq-false k fee_payer (refuse-eq-ok (k == fee_payer) _ other),
          ),
          (check_accounts_iff rest).0 h2,
        ),
    λ ((k, found, other), more).
        let differs : (k == fee_payer) ≡ false = ground arith in
        rw (found, differs, (check_accounts_iff rest).1 more) refl,
  )

  -- The check passes exactly if each account of each instruction is there and is not the fee payer.
  pub check_fee_payer_iff :
      (instructions : List CompiledInstruction)
      → (check_fee_payer keys fee_payer instructions ≡ ok tt)
        ↔ All (λ i. All IsOther i.accounts) instructions
  check_fee_payer_iff [] = ((λ h. tt), λ t. refl)
  check_fee_payer_iff (instruction ∷ rest) = (
    λ h.
        let (u, here, more) = >>=-eq-ok (check_accounts keys fee_payer instruction.accounts) _ h in
        ((check_accounts_iff instruction.accounts).0 here, (check_fee_payer_iff rest).0 more),
    λ (here, more).
        rw ((check_accounts_iff instruction.accounts).1 here, (check_fee_payer_iff rest).1 more)
          refl,
  )
