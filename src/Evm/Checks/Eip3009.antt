-- ===== src/Evm/Checks/Eip3009.antt =====
-- Which EIP-3009 payments pass the checks.
use r.Base.{
  ℕ, ◌+◌, ◌^◌, ◌<◌, ◌≤◌, ◌≡◌, ◌↔◌, Bool, false, Outcome, ok, err, ◌==◌, ==_iff, ◌=?◌, arith,
  >>=-eq-ok, guard-eq-ok, refuse-eq-ok, map_err-eq-ok, ltb,
}
use r.Chain.Id.{chain_id_eq, chain_id_beq_iff}
use r.Evm.Types.{
  scheme_beq_iff, Requirements, Payload, Eip3009Payload, Eip3009Payment, Domain, Eip155ExactError,
  payment_verification,
}
use r.Evm.Time.{assert_time, assert_time_iff}
use r.Proto.Error.{
  chain_id_mismatch, recipient_mismatch, nonce_already_used, insufficient_funds,
  invalid_payment_amount,
}
use r.Evm.Checks.{
  Chain, Contracts, assert_requirements_match, assert_enough_value, assert_nonce_unused, try_join,
  assert_enough_balance, assert_domain, assert_valid_payment,
}
use r.Base.{map_err}
use r.Base.{guard}
use r.Evm.Checks.{chain_id_mismatch}
use r.Base.{refuse}
use r.Base.{◌∙◌}
use r.Base.{ap}
use r.Evm.Checks.SigningDomain.{IsDomain, assert_domain_iff}
use r.Base.{sym}

-- The terms that the payer accepted are the terms that the seller requires.
pub record AreSame (accepted requirements : Requirements) : Type 0 where
  pub scheme : accepted.scheme ≡ requirements.scheme
  pub network : accepted.network ≡ requirements.network
  pub amount : accepted.amount ≡ requirements.amount
  pub asset : accepted.asset ≡ requirements.asset
  pub pay_to : accepted.pay_to ≡ requirements.pay_to

-- The check passes exactly if scheme, network, amount, asset and recipient all agree.
pub assert_requirements_match_iff :
    (accepted requirements : Requirements)
    → (assert_requirements_match accepted requirements ≡ ok tt) ↔ AreSame accepted requirements
unfolding assert_requirements_match
assert_requirements_match_iff accepted requirements = ground (
  arith,
  scheme_beq_iff accepted.scheme requirements.scheme,
  chain_id_beq_iff accepted.network requirements.network,
)

try_join-eq-ok :
    {A B E : Type 0} (race : Bool) (m : Outcome A E) (n : Outcome B E) {x : A × B}
    → try_join race m n ≡ ok x
    → (m ≡ ok x.0) × (n ≡ ok x.1)
try_join-eq-ok race (ok a) (ok b) h = ground arith
try_join-eq-ok race (err e) (ok b) h = cc
try_join-eq-ok race (ok a) (err e) h = cc
try_join-eq-ok race (err e) (err f) h = cc

-- The payment that is simulated and sent: the authorization as it was signed.
abbrev pub signed_payment : Eip3009Payload → Eip3009Payment
signed_payment eip3009 = record {
  from = eip3009.authorization.from;
  to = eip3009.authorization.to;
  value = eip3009.authorization.value;
  valid_after = eip3009.authorization.valid_after;
  valid_before = eip3009.authorization.valid_before;
  nonce = eip3009.authorization.nonce;
  signature = eip3009.signature;
}

module _ {Value : Type 0} (contracts : Contracts) (now : ℕ) (chain : Chain)
    (eip3009 : Eip3009Payload) (payload : Payload Value) (requirements : Requirements)
    (tolerance : ℕ) where
  -- An authorization that pays what is required, to whom it is required, on this chain, and
  -- that the payer's balance covers; its window, both ends included, contains the clock put forward
  -- by the tolerance.
  pub record IsPayable (domain : Domain) : Type 0 where
    pub same : AreSame payload.accepted requirements
    pub chain_matches : payload.accepted.network ≡ chain.chain_id
    pub recipient : eip3009.authorization.to ≡ payload.accepted.pay_to
    pub started : eip3009.authorization.valid_after ≤ now + tolerance
    pub running : now + tolerance ≤ eip3009.authorization.valid_before
    pub signed_in : IsDomain contracts chain payload.accepted.asset payload.accepted.extra domain
    pub unused :
        contracts.authorization_state payload.accepted.asset eip3009.authorization.from
          eip3009.authorization.nonce
        ≡ ok false
    pub balance : ℕ
    pub funded : contracts.balance_of payload.accepted.asset eip3009.authorization.from ≡ ok balance
    pub covered : payload.accepted.amount ≤ balance
    pub enough : payload.accepted.amount ≤ eip3009.authorization.value

module _ {Value : Type 0} (contracts : Contracts) (race race' : Bool) (now : ℕ) (chain : Chain)
    (eip3009 : Eip3009Payload) (payload : Payload Value) (requirements : Requirements)
    (tolerance : ℕ) (fits : now + tolerance < 2 ^ 64) where
  abbrev Payable : Domain → Type 0
  Payable = IsPayable contracts now chain eip3009 payload requirements tolerance

  abbrev join_reads : Outcome (Domain × (Unit {0} × Unit {0})) Eip155ExactError
  join_reads =
      try_join race (assert_domain contracts chain payload.accepted.asset payload.accepted.extra) (
        try_join race'
          (assert_nonce_unused contracts payload.accepted.asset eip3009.authorization.from
            eip3009.authorization.nonce)
          (assert_enough_balance contracts payload.accepted.asset eip3009.authorization.from
            payload.accepted.amount))

  sound :
      (payment : Eip3009Payment) (domain : Domain)
      → assert_valid_payment contracts race race' now chain eip3009 payload requirements tolerance
        ≡ ok (payment, domain)
      → Payable domain × (payment ≡ signed_payment eip3009)
  unfolding assert_valid_payment assert_enough_value assert_nonce_unused assert_enough_balance
  sound payment domain h =
      let matched = assert_requirements_match payload.accepted requirements in
      let here = payload.accepted.network =? chain.chain_id in
      let paid_to = eip3009.authorization.to == payload.accepted.pay_to in
      let timed =
        assert_time now eip3009.authorization.valid_after eip3009.authorization.valid_before
          tolerance in
      let (_, e1, h1) = >>=-eq-ok (map_err payment_verification matched) _ h in
      let (_, e2, h2) = >>=-eq-ok (guard here (payment_verification chain_id_mismatch)) _ h1 in
      let (_, e3, h3) = >>=-eq-ok (guard paid_to (payment_verification recipient_mismatch)) _ h2 in
      let (_, e4, h4) = >>=-eq-ok (map_err payment_verification timed) _ h3 in
      let (joined, e5, h5) = >>=-eq-ok join_reads _ h4 in
      let (_, e6, h6) =
        >>=-eq-ok
          (map_err payment_verification (
            refuse (ltb eip3009.authorization.value payload.accepted.amount)
              invalid_payment_amount))
          _ h5 in
      let (j1, j2) = try_join-eq-ok race _ _ e5 in
      let (j3, j4) = try_join-eq-ok race' _ _ j2 in
      let (used, u1, u2) =
        >>=-eq-ok
          (contracts.authorization_state payload.accepted.asset eip3009.authorization.from
            eip3009.authorization.nonce)
          _ j3 in
      let (balance, b1, b2) =
        >>=-eq-ok (contracts.balance_of payload.accepted.asset eip3009.authorization.from) _ j4 in
      let unused = refuse-eq-ok used (payment_verification nonce_already_used) u2 in
      let window =
        (assert_time_iff now eip3009.authorization.valid_after eip3009.authorization.valid_before
            tolerance fits).0
          (map_err-eq-ok payment_verification timed e4) in
      let short =
        refuse-eq-ok (ltb balance payload.accepted.amount) (payment_verification insufficient_funds)
          b2 in
      let low =
        refuse-eq-ok (ltb eip3009.authorization.value payload.accepted.amount)
          invalid_payment_amount (map_err-eq-ok payment_verification _ e6) in
      let answer : ◌≡◌ {A = Outcome (Eip3009Payment × Domain) Eip155ExactError}
          (ok (signed_payment eip3009, joined.0)) (ok (payment, domain)) =
        h6 in
      let same_domain : joined.0 ≡ domain = cc answer in
      (
        record {
          same =
              (assert_requirements_match_iff payload.accepted requirements).0
                (map_err-eq-ok payment_verification matched e1);
          chain_matches =
              (chain_id_beq_iff payload.accepted.network chain.chain_id).0
                (guard-eq-ok here (payment_verification chain_id_mismatch) e2);
          recipient =
              ground (arith, guard-eq-ok paid_to (payment_verification recipient_mismatch) e3);
          started = window.0;
          running = window.1;
          signed_in =
              (assert_domain_iff contracts chain payload.accepted.asset payload.accepted.extra
                  domain).0
                (rw (j1, same_domain));
          unused = rw (u1, unused);
          balance = balance;
          funded = b1;
          covered = ground (arith, short);
          enough = ground (arith, low);
        },
        cc answer,
      )

  complete :
      {domain : Domain}
      → Payable domain
      → assert_valid_payment contracts race race' now chain eip3009 payload requirements tolerance
        ≡ ok (signed_payment eip3009, domain)
  unfolding assert_valid_payment assert_enough_value assert_nonce_unused assert_enough_balance
  complete p =
      let e1 = (assert_requirements_match_iff payload.accepted requirements).1 p.same in
      let e2 = (chain_id_beq_iff payload.accepted.network chain.chain_id).1 p.chain_matches in
      let e3 = (==_iff eip3009.authorization.to payload.accepted.pay_to).1 p.recipient in
      let e4 =
        (assert_time_iff now eip3009.authorization.valid_after eip3009.authorization.valid_before
            tolerance fits).1
          (p.started, p.running) in
      let e5 : ltb p.balance payload.accepted.amount ≡ false = ground (arith, p.covered) in
      let e6 : ltb eip3009.authorization.value payload.accepted.amount ≡ false =
        ground (arith, p.enough) in
      let signed_in =
        (assert_domain_iff contracts chain payload.accepted.asset payload.accepted.extra _).1
          p.signed_in in
      rw (e1, e2, e3, e4, signed_in, p.unused, p.funded, e5, e6)

  -- While the clock put forward by the tolerance fits a u64, the checks accept exactly the
  -- authorizations that pay what is required to whom it is required on this chain, whose window
  -- contains the clock put forward, both ends included, and that are unused and covered by the
  -- balance, in the domain they read; they pass the payment on as it was signed, whichever of the
  -- concurrent reads answers first.
  pub assert_valid_payment_iff :
      (payment : Eip3009Payment) (domain : Domain)
      → (assert_valid_payment contracts race race' now chain eip3009 payload requirements tolerance
          ≡ ok (payment, domain))
        ↔ (IsPayable contracts now chain eip3009 payload requirements tolerance domain
            × (payment ≡ signed_payment eip3009))
  assert_valid_payment_iff payment domain =
      (sound payment domain, λ (p, e). complete p ∙ ap (λ x. ok (x, domain)) (sym e))
