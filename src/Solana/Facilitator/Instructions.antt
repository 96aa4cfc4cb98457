-- ===== src/Solana/Facilitator/Instructions.antt =====
-- What an instruction of a transaction gives.
use mathlib.Core.Path.{subst}
use r.Base
use r.Base.{
  ℕ, ◌≡◌, ◌≢◌, refl, ap, sym, ◌∙◌, ◌↔◌, false, ◌||◌, some, List, [], ◌∷◌, length, get_elem?, ok,
  ok_or, ok_or-eq-ok, refuse, refuse-eq-ok, >>=-eq-ok, ◌==◌, arith,
}
use r.Solana.Types.{
  Pubkey, VersionedTransaction, InstructionInt, instruction_at, assert_not_empty, account,
  no_account_at_index, no_instruction_at_index,
}

-- The account at an index of the instruction is this key of the transaction.
abbrev pub HasAccount : InstructionInt → ℕ → Pubkey → Type 0
HasAccount i index key =
    (account_index : ℕ) × (get_elem? i.instruction.accounts index ≡ some account_index)
    × (get_elem? i.account_keys account_index ≡ some key)

pub account_iff :
    (i : InstructionInt) (index : ℕ) (key : Pubkey)
    → (account i index ≡ ok key) ↔ HasAccount i index key
unfolding account
account_iff i index key = (
  λ h.
      let (account_index, e, k) =
        >>=-eq-ok (ok_or (no_account_at_index index) (get_elem? i.instruction.accounts index)) _
          h in
      (account_index, ok_or-eq-ok _ _ e, ok_or-eq-ok _ _ k),
  λ (account_index, e, k). rw (e, k) refl,
)

-- The instruction stands at an index of the transaction.
abbrev pub StandsAt : VersionedTransaction → ℕ → InstructionInt → Type 0
StandsAt tx index i =
    (get_elem? tx.instructions index ≡ some i.instruction)
    × (i.index ≡ index)
    × (i.account_keys ≡ tx.static_account_keys)

instruction-eq :
    {a b : InstructionInt}
    → a.index ≡ b.index
    → a.instruction ≡ b.instruction
    → a.account_keys ≡ b.account_keys
    → a ≡ b
instruction-eq n c k = λ j. record { index = n j; instruction = c j; account_keys = k j }

pub instruction_at_iff :
    (tx : VersionedTransaction) (index : ℕ) (i : InstructionInt)
    → (instruction_at tx index ≡ ok i) ↔ StandsAt tx index i
unfolding instruction_at
instruction_at_iff tx index i = (
  λ h.
      let (c, e, k) =
        >>=-eq-ok (ok_or (no_instruction_at_index index) (get_elem? tx.instructions index)) _ h in
      let found = ok_or-eq-ok _ (get_elem? tx.instructions index) e in
      subst (StandsAt tx index) (Base.ok-injective k) (found, refl, refl),
  λ (e, n, k). rw e (ap ok (instruction-eq {b = i} (sym n) refl (sym k))),
)

-- The instruction has data and accounts.
abbrev pub HasContent : InstructionInt → Type 0
HasContent i = (i.instruction.bytes ≢ []) × (i.instruction.accounts ≢ [])

length-==-zero : {A : Type 0} (xs : List A) → ((length xs == 0) ≡ false) ↔ (xs ≢ [])
length-==-zero [] = (λ h. cc, λ n. absurd (n refl))
length-==-zero (x ∷ xs) = (λ h q. cc, λ n. ground arith)

pub assert_not_empty_iff : (i : InstructionInt) → (assert_not_empty i ≡ ok tt) ↔ HasContent i
unfolding assert_not_empty
assert_not_empty_iff i =
    let bytes = length-==-zero i.instruction.bytes in
    let accounts = length-==-zero i.instruction.accounts in
    let passes : (assert_not_empty i ≡ ok tt) ↔ (
        ((length i.instruction.bytes == 0) ≡ false)
        × ((length i.instruction.accounts == 0) ≡ false)) =
      ground arith in
    (
      λ h. (bytes.0 (passes.0 h).0, accounts.0 (passes.0 h).1),
      λ c. passes.1 (bytes.1 c.0, accounts.1 c.1),
    )
