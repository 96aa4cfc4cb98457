-- ===== src/Solana/Facilitator/Transfers.antt =====
-- Which transfers the facilitator accepts.
use r.Base.{
  ℕ, ◌≤◌, some, none, ◌≡◌, ◌≢◌, refl, ◌↔◌, false, Option, List, [], ◌∷◌, ok, map_err, map_err-eq-ok,
  guard, refuse, first, get_elem?, ltb, ◌==◌, ==_iff, ne_of_==-eq-false, arith, guard-eq-ok,
  refuse-eq-ok,
}
use mathlib.Core.Path.{subst}
use r.Base.Actions.{ok-injective, with_error, lifted-eq-ok, proceed-eq-ok, mapped-eq-ok}
use r.Proto.Error.{asset_mismatch, recipient_mismatch, invalid_payment_amount}
use r.Solana.Types.{
  Pubkey, VersionedTransaction, InstructionInt, of_exact_error, instruction_at,
  fee_payer_transferring_funds, missing_sender_account,
}
use r.Solana.Facilitator.Reading.{IsRead, IsRead-transfer_of, transfer_of-IsRead}
use r.Solana.Facilitator.Instructions.{StandsAt, instruction_at_iff}
use r.Solana.Facilitator.{
  Host, TransferRequirement, TransferCheckedInstruction, of_provider_error, is_missing, transfer_of,
  token_account, verify_transfer_instruction,
}

le_of_ltb-eq-false : (a b : ℕ) → ltb a b ≡ false → b ≤ a
le_of_ltb-eq-false a b h = ground arith

missing-eq-false :
    {A : Type 0} (o : Option (Option A)) → is_missing o ≡ false → (a : A) × (o ≡ some (some a))
missing-eq-false none h = cc
missing-eq-false (some none) h = cc
missing-eq-false (some (some a)) h = (a, refl)

module _ {World Value : Type 0} (host : Host World Value) (transaction : VersionedTransaction)
    (index : ℕ) (requirement : TransferRequirement) (w : World) where
  open host use {Account, programs}

  -- The account of the recipient for the token, derived as Solana derives it
  abbrev recipient_account : Pubkey → Pubkey
  recipient_account token =
      host.find_program_address (requirement.pay_to ∷ token ∷ requirement.asset ∷ [])
        programs.associated_token

  -- The instruction is a checked transfer by another than the fee payer, of the required token, from an
  -- account that exists to the recipient's account for the token, which exists too, of at least
  -- the required amount.
  pub record IsTransfer (transfer : TransferCheckedInstruction) (v : World) : Type 0 where
    pub instruction : InstructionInt
    pub found : StandsAt transaction index instruction
    pub read : IsRead host instruction transfer
    pub paid_by : transfer.authority ≢ host.pubkey
    pub token : transfer.mint ≡ requirement.asset
    pub recipient : transfer.destination ≡ recipient_account transfer.token_program
    pub accounts : List (Option Account)
    pub fetched :
        host.get_multiple_accounts
          (transfer.source ∷ recipient_account transfer.token_program ∷ [])
          w
        ≡ (ok accounts, v)
    pub sender : Account
    pub sender_exists : first accounts ≡ some (some sender)
    pub receiver : Account
    pub receiver_exists : get_elem? accounts 1 ≡ some (some receiver)
    pub enough : requirement.amount ≤ transfer.amount

  complete :
      (transfer : TransferCheckedInstruction) (v : World)
      → IsTransfer transfer v
      → verify_transfer_instruction host transaction index requirement w ≡ (ok transfer, v)
  unfolding verify_transfer_instruction token_account
  complete transfer v t =
      let payer : (transfer.authority == host.pubkey) ≡ false = let d = t.paid_by in ground arith in
      let mint = (==_iff transfer.mint requirement.asset).1 t.token in
      let read = transfer_of-IsRead host t.instruction transfer t.read in
      let destination =
        (==_iff transfer.destination (token_account host requirement transfer.token_program)).1
          t.recipient in
      let covered : ltb transfer.amount requirement.amount ≡ false =
        let e = t.enough in ground arith in
      let found = (instruction_at_iff transaction index t.instruction).1 t.found in
      rw
        (
          found, read, payer, mint, destination, t.fetched, t.sender_exists, t.receiver_exists,
          covered,
        )
        refl

  sound :
      (transfer : TransferCheckedInstruction) (v : World)
      → verify_transfer_instruction host transaction index requirement w ≡ (ok transfer, v)
      → IsTransfer transfer v
  unfolding verify_transfer_instruction token_account
  sound transfer v h =
      let exact_error = of_exact_error host.number_text host.key_text in
      let (i, f, h1) =
        lifted-eq-ok (map_err exact_error (instruction_at transaction index)) _ w h in
      let (t, r, h2) = lifted-eq-ok (map_err exact_error (transfer_of host i)) _ w h1 in
      let ata = token_account host requirement t.token_program in
      let (u1, p, h3) =
        lifted-eq-ok
          (map_err exact_error (refuse (t.authority == host.pubkey) fee_payer_transferring_funds)) _
          w h2 in
      let (u2, m, h4) = lifted-eq-ok (guard (t.mint == requirement.asset) asset_mismatch) _ w h3 in
      let (u3, d, h5) = lifted-eq-ok (guard (t.destination == ata) recipient_mismatch) _ w h4 in
      let (accounts, x, g, h6) =
        proceed-eq-ok
          (with_error of_provider_error (host.get_multiple_accounts (t.source ∷ ata ∷ [])) w) _
          h5 in
      let (u4, s, h7) =
        lifted-eq-ok
          (map_err exact_error (refuse (is_missing (first accounts)) missing_sender_account)) _ x
          h6 in
      let (u5, q, h8) =
        lifted-eq-ok (refuse (is_missing (get_elem? accounts 1)) recipient_mismatch) _ x h7 in
      let (u6, l, h9) =
        lifted-eq-ok (refuse (ltb t.amount requirement.amount) invalid_payment_amount) _ x h8 in
      let differs : (t.authority == host.pubkey) ≡ false =
        refuse-eq-ok (t.authority == host.pubkey) _ (map_err-eq-ok exact_error _ p) in
      let covered : ltb t.amount requirement.amount ≡ false =
        refuse-eq-ok (ltb t.amount requirement.amount) _ l in
      let (sender, sender_exists) =
        missing-eq-false (first accounts)
          (refuse-eq-ok (is_missing (first accounts)) _ (map_err-eq-ok exact_error _ s)) in
      let (receiver, receiver_exists) =
        missing-eq-false (get_elem? accounts 1)
          (refuse-eq-ok (is_missing (get_elem? accounts 1)) _ q) in
      let transfers : IsTransfer t x = record {
        instruction = i;
        found = (instruction_at_iff transaction index i).0 (map_err-eq-ok exact_error _ f);
        read = IsRead-transfer_of host i t (map_err-eq-ok exact_error _ r);
        paid_by = ne_of_==-eq-false t.authority host.pubkey differs;
        token = (==_iff t.mint requirement.asset).0 (guard-eq-ok (t.mint == requirement.asset) _ m);
        recipient = (==_iff t.destination ata).0 (guard-eq-ok (t.destination == ata) _ d);
        accounts = accounts;
        fetched = mapped-eq-ok of_provider_error _ g;
        sender = sender;
        sender_exists = sender_exists;
        receiver = receiver;
        receiver_exists = receiver_exists;
        enough = le_of_ltb-eq-false t.amount requirement.amount covered;
      } in
      subst (λ y. IsTransfer y.0 y.1) (ok-injective h9) transfers

  -- The third instruction passes exactly if it is a transfer that pays what is required.
  pub verify_transfer_instruction-ok_iff :
      (transfer : TransferCheckedInstruction) (v : World)
      → (verify_transfer_instruction host transaction index requirement w ≡ (ok transfer, v))
        ↔ IsTransfer transfer v
  verify_transfer_instruction-ok_iff transfer v = (sound transfer v, complete transfer v)
