-- ===== src/Evm/Checks/Permit2.antt =====
-- Which Permit2 payments pass the checks.
use r.Base.{
  ℕ, ◌+◌, ◌^◌, ◌<◌, ◌≤◌, ◌-◌, ◌⊎◌, ◌≡◌, refl, sym, ap, ◌∙◌, ◌↔◌, false, Outcome, ok, err, guard,
  refuse, map_err, ◌==◌, ==_iff, ◌=?◌, arith, >>=-eq-ok, guard-eq-ok, refuse-eq-ok, map_err-eq-ok,
  ltb,
}
use r.Chain.Id.{chain_id_eq, chain_id_beq_iff}
use r.Proto.Error.{
  chain_id_mismatch, recipient_mismatch, expired, early, asset_mismatch, insufficient_funds,
  invalid_payment_amount, invalid_signature, permit2_allowance_insufficient,
}
use r.Evm.Types.{
  Requirements, Payload, Permit2Payload, Permit2Payment, Domain, Eip155ExactError,
  payment_verification, permit2_address, x402_exact_permit2_proxy,
}
use r.Evm.Time.{add_u64}
use r.Evm.Checks.{
  Chain, Contracts, assert_requirements_match, assert_enough_value, assert_valid_permit2_payment,
  short, to_u64,
}
use r.Evm.Checks.Eip3009.{AreSame, assert_requirements_match_iff}
use r.Base.{none}

-- A read is no obstacle if what it answers, when it answers, is enough.
abbrev pub Allows : Outcome ℕ Eip155ExactError → ℕ → Type 0
Allows read required = (n : ℕ) → read ≡ ok n → required ≤ n

short-eq-false :
    (read : Outcome ℕ Eip155ExactError) (required : ℕ)
    → (short read required ≡ false) ↔ Allows read required
short-eq-false (ok n) required = (
  λ h m e. let same : n ≡ m = cc e in ground (arith, same),
  λ f. let l = f n refl in ground arith,
)
short-eq-false (err e) required = (λ h m q. cc q, λ f. refl)

-- The transfer that is simulated and sent: the authorization as it was signed.
abbrev pub signed_transfer : Permit2Payload → Permit2Payment
signed_transfer permit2 = record {
  from = permit2.permit2_authorization.from;
  to = permit2.permit2_authorization.witness.to;
  token = permit2.permit2_authorization.permitted.token;
  amount = permit2.permit2_authorization.permitted.amount;
  spender = permit2.permit2_authorization.spender;
  nonce = permit2.permit2_authorization.nonce;
  deadline = permit2.permit2_authorization.deadline;
  valid_after = permit2.permit2_authorization.witness.valid_after;
  extra = permit2.permit2_authorization.witness.extra;
  signature = permit2.signature;
}

-- The domain that Permit2 signs in.
abbrev pub permit2_domain : Chain → Domain
permit2_domain chain = record {
  name = "Permit2";
  version = none;
  chain_id = chain.inner;
  verifying_contract = permit2_address;
}

module _ {Value : Type 0} (contracts : Contracts) (now : ℕ) (chain : Chain)
    (permit2 : Permit2Payload) (payload : Payload Value) (requirements : Requirements)
    (tolerance : ℕ) where
  -- A transfer by the payments' proxy that pays what is required, in the required token, to whom it
  -- is required, on this chain, and that no answer of the token speaks against. The clock put
  -- forward by the tolerance is at most the deadline, and not before the start; the greatest u64
  -- counts as no time before any start.
  pub record IsTransferable : Type 0 where
    pub same : AreSame payload.accepted requirements
    pub chain_matches : payload.accepted.network ≡ chain.chain_id
    pub by_proxy : permit2.permit2_authorization.spender ≡ x402_exact_permit2_proxy
    pub recipient : permit2.permit2_authorization.witness.to ≡ payload.accepted.pay_to
    pub running : now + tolerance ≤ permit2.permit2_authorization.deadline
    pub started :
        (permit2.permit2_authorization.witness.valid_after ≤ now + tolerance)
        ⊎ (now + tolerance ≡ 2 ^ 64 - 1)
    pub enough : payload.accepted.amount ≤ permit2.permit2_authorization.permitted.amount
    pub token : permit2.permit2_authorization.permitted.token ≡ payload.accepted.asset
    pub allowed :
        Allows
          (contracts.allowance payload.accepted.asset permit2.permit2_authorization.from
            permit2_address)
          payload.accepted.amount
    pub covered :
        Allows
          (contracts.balance_of payload.accepted.asset permit2.permit2_authorization.from)
          payload.accepted.amount

module _ {Value : Type 0} (contracts : Contracts) (now : ℕ) (chain : Chain)
    (permit2 : Permit2Payload) (payload : Payload Value) (requirements : Requirements)
    (tolerance : ℕ) (fits : now + tolerance < 2 ^ 64) where
  abbrev Transferable : Type 0
  Transferable = IsTransferable contracts now chain permit2 payload requirements tolerance

  late_lem :
      (deadline : ℕ)
      → (ltb (to_u64 deadline) (add_u64 now tolerance) ≡ false) ↔ (now + tolerance ≤ deadline)
  late_lem deadline = ground arith

  soon_lem :
      (valid_after : ℕ)
      → (ltb (add_u64 now tolerance) (to_u64 valid_after) ≡ false)
        ↔ ((valid_after ≤ now + tolerance) ⊎ (now + tolerance ≡ 2 ^ 64 - 1))
  soon_lem valid_after = ground arith

  abbrev allowance_read : Outcome ℕ Eip155ExactError
  allowance_read =
      contracts.allowance payload.accepted.asset permit2.permit2_authorization.from permit2_address

  abbrev balance_read : Outcome ℕ Eip155ExactError
  balance_read = contracts.balance_of payload.accepted.asset permit2.permit2_authorization.from

  sound :
      (answer : Permit2Payment × Domain)
      → assert_valid_permit2_payment contracts now chain permit2 payload requirements tolerance
        ≡ ok answer
      → Transferable × (answer ≡ (signed_transfer permit2, permit2_domain chain))
  unfolding assert_valid_permit2_payment assert_enough_value
  sound answer h =
      let auth = permit2.permit2_authorization in
      let accepted = payload.accepted in
      let clock = add_u64 now tolerance in
      let matched = assert_requirements_match accepted requirements in
      let wrong_spender =
        payment_verification
          (invalid_signature "invalid Permit2 spender: must be x402ExactPermit2Proxy") in
      let late = ltb (to_u64 auth.deadline) clock in
      let soon = ltb clock (to_u64 auth.witness.valid_after) in
      let low = ltb auth.permitted.amount accepted.amount in
      let no_allowance = short allowance_read accepted.amount in
      let no_balance = short balance_read accepted.amount in
      let (_, e1, h1) = >>=-eq-ok (map_err payment_verification matched) _ h in
      let (_, e2, h2) =
        >>=-eq-ok
          (guard (accepted.network =? chain.chain_id) (payment_verification chain_id_mismatch)) _
          h1 in
      let (_, e3, h3) =
        >>=-eq-ok (guard (auth.spender == x402_exact_permit2_proxy) wrong_spender) _ h2 in
      let (_, e4, h4) =
        >>=-eq-ok
          (guard (auth.witness.to == accepted.pay_to) (payment_verification recipient_mismatch)) _
          h3 in
      let (_, e5, h5) = >>=-eq-ok (refuse late (payment_verification expired)) _ h4 in
      let (_, e6, h6) = >>=-eq-ok (refuse soon (payment_verification early)) _ h5 in
      let (_, e7, h7) =
        >>=-eq-ok (map_err payment_verification (refuse low invalid_payment_amount)) _ h6 in
      let (_, e8, h8) =
        >>=-eq-ok
          (guard (auth.permitted.token == accepted.asset) (payment_verification asset_mismatch)) _
          h7 in
      let (_, e9, h9) =
        >>=-eq-ok (refuse no_allowance (payment_verification permit2_allowance_insufficient)) _
          h8 in
      let (_, e10, h10) =
        >>=-eq-ok (refuse no_balance (payment_verification insufficient_funds)) _ h9 in
      (
        record {
          same =
              (assert_requirements_match_iff accepted requirements).0
                (map_err-eq-ok payment_verification matched e1);
          chain_matches =
              (chain_id_beq_iff accepted.network chain.chain_id).0
                (guard-eq-ok _ (payment_verification chain_id_mismatch) e2);
          by_proxy =
              (==_iff auth.spender x402_exact_permit2_proxy).0 (guard-eq-ok _ wrong_spender e3);
          recipient =
              (==_iff auth.witness.to accepted.pay_to).0
                (guard-eq-ok _ (payment_verification recipient_mismatch) e4);
          running =
              (late_lem auth.deadline).0 (refuse-eq-ok late (payment_verification expired) e5);
          started =
              (soon_lem auth.witness.valid_after).0
                (refuse-eq-ok soon (payment_verification early) e6);
          enough = ground (
            arith,
            refuse-eq-ok low invalid_payment_amount (map_err-eq-ok payment_verification _ e7),
          );
          token =
              (==_iff auth.permitted.token accepted.asset).0
                (guard-eq-ok _ (payment_verification asset_mismatch) e8);
          allowed =
              (short-eq-false allowance_read accepted.amount).0 (
                refuse-eq-ok no_allowance (payment_verification permit2_allowance_insufficient) e9);
          covered =
              (short-eq-false balance_read accepted.amount).0
                (refuse-eq-ok no_balance (payment_verification insufficient_funds) e10);
        },
        cc h10,
      )

  complete :
      Transferable
      → assert_valid_permit2_payment contracts now chain permit2 payload requirements tolerance
        ≡ ok (signed_transfer permit2, permit2_domain chain)
  unfolding assert_valid_permit2_payment assert_enough_value
  complete p =
      let auth = permit2.permit2_authorization in
      let accepted = payload.accepted in
      let clock = add_u64 now tolerance in
      let e1 = (assert_requirements_match_iff accepted requirements).1 p.same in
      let e2 = (chain_id_beq_iff accepted.network chain.chain_id).1 p.chain_matches in
      let e3 = (==_iff auth.spender x402_exact_permit2_proxy).1 p.by_proxy in
      let e4 = (==_iff auth.witness.to accepted.pay_to).1 p.recipient in
      let e5 : ltb (to_u64 auth.deadline) clock ≡ false = (late_lem auth.deadline).1 p.running in
      let e6 : ltb clock (to_u64 auth.witness.valid_after) ≡ false =
        (soon_lem auth.witness.valid_after).1 p.started in
      let e7 : ltb auth.permitted.amount accepted.amount ≡ false = ground (arith, p.enough) in
      let e8 = (==_iff auth.permitted.token accepted.asset).1 p.token in
      let e9 = (short-eq-false allowance_read accepted.amount).1 p.allowed in
      let e10 = (short-eq-false balance_read accepted.amount).1 p.covered in
      rw (e1, e2, e3, e4, e5, e6, e7, e8, e9, e10)

  -- While the clock put forward by the tolerance fits a u64, the checks accept exactly the
  -- transfers by the proxy that pay what is required, whose deadline is not before the clock put
  -- forward and whose start is not after it (or it is the greatest u64), in Permit2's own domain,
  -- and pass the transfer on as it was signed. A token that does not answer is passed over.
  pub assert_valid_permit2_payment_iff :
      (answer : Permit2Payment × Domain)
      → (assert_valid_permit2_payment contracts now chain permit2 payload requirements tolerance
          ≡ ok answer)
        ↔ (IsTransferable contracts now chain permit2 payload requirements tolerance
            × (answer ≡ (signed_transfer permit2, permit2_domain chain)))
  assert_valid_permit2_payment_iff answer = (sound answer, λ (p, e). complete p ∙ ap ok (sym e))
