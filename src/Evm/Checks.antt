-- ===== src/Evm/Checks.antt =====
-- The checks of r402-evm/src/exact/facilitator/verify.rs before a payment is simulated or sent.
pub mod SigningDomain
pub mod Eip3009
pub mod Permit2
use r.Base.{
  String, ℕ, ◌+◌, ◌^◌, ◌-◌, Bool, true, false, ◌&&◌, not, Option, none, some, Outcome, ok, err,
  ◌>>=◌, ◌>>◌, guard, refuse, map_err, ltb, ◌==◌, ◌=?◌, if◌then◌else◌,
}
use r.Chain.Id.{ChainId, chain_id_eq}
use r.Proto.Error.{
  PaymentVerificationError, accepted_requirements_mismatch, chain_id_mismatch, recipient_mismatch,
  expired, early, nonce_already_used, insufficient_funds, invalid_payment_amount, invalid_signature,
  asset_mismatch, permit2_allowance_insufficient,
}
use r.Proto.V2.{PaymentPayload, PaymentRequirements}
use r.Evm.Types.{
  Address, Requirements, Payload, PaymentRequirementsExtra, Eip3009Payload, Eip3009Payment,
  Permit2Payload, Permit2Payment, Domain, Eip155ExactError, payment_verification, permit2_address,
  x402_exact_permit2_proxy, scheme_beq,
}
use r.Evm.Time.{assert_time, add_u64}

-- The chain of a provider: its number, and its identifier by `From<Eip155ChainReference>`.
pub record Chain : Type 0 where
  pub inner : ℕ
  pub chain_id : ChainId

-- What the contracts answer while a payment is checked. The calls read the chain, and each may fail.
pub record Contracts : Type 0 where
  pub name : Address → Outcome String Eip155ExactError
  pub version : Address → Outcome String Eip155ExactError
  -- `authorizationState(authorizer, nonce)` of a token
  pub authorization_state : Address → Address → ℕ → Outcome Bool Eip155ExactError
  -- `balanceOf(owner)` and `allowance(owner, spender)` of a token
  pub balance_of : Address → Address → Outcome ℕ Eip155ExactError
  pub allowance : Address → Address → Address → Outcome ℕ Eip155ExactError

unfoldable pub assert_requirements_match :
    Requirements → Requirements → Outcome (Unit {0}) PaymentVerificationError
assert_requirements_match accepted requirements =
    guard
      (scheme_beq accepted.scheme requirements.scheme
        && accepted.network =? requirements.network
        && accepted.amount == requirements.amount
        && accepted.asset == requirements.asset
        && accepted.pay_to == requirements.pay_to)
      accepted_requirements_mismatch

unfoldable pub assert_enough_value : ℕ → ℕ → Outcome (Unit {0}) PaymentVerificationError
assert_enough_value sent max_amount_required =
    refuse (ltb sent max_amount_required) invalid_payment_amount

-- `tokio::try_join!`: where several fail, the race decides whose error is returned.
abbrev pub try_join : {A B E : Type 0} → Bool → Outcome A E → Outcome B E → Outcome (A × B) E
try_join race (ok a) (ok b) = ok (a, b)
try_join race (err e) (ok b) = err e
try_join race (ok a) (err e) = err e
try_join race (err e) (err f) = err (if race then e else f)

-- `U256::to::<u64>` with the greatest u64 in place of an overflow
abbrev pub to_u64 : ℕ → ℕ
to_u64 n = if ltb n (2 ^ 64) then n else 2 ^ 64 - 1

-- A failed read is passed over; an answer below what is required is refused.
abbrev pub short : Outcome ℕ Eip155ExactError → ℕ → Bool
short (ok n) required = ltb n required
short (err e) required = false

module _ (contracts : Contracts) where
  unfoldable pub assert_nonce_unused : Address → Address → ℕ → Outcome (Unit {0}) Eip155ExactError
  assert_nonce_unused token authorizer nonce = do
    used ← contracts.authorization_state token authorizer nonce
    refuse used (payment_verification nonce_already_used)

  unfoldable pub assert_enough_balance : Address → Address → ℕ → Outcome (Unit {0}) Eip155ExactError
  assert_enough_balance token sender max_amount_required = do
    balance ← contracts.balance_of token sender
    refuse (ltb balance max_amount_required) (payment_verification insufficient_funds)

  abbrev pub name_of : Address → Option PaymentRequirementsExtra → Outcome String Eip155ExactError
  name_of token none = contracts.name token
  name_of token (some extra) = ok extra.name

  abbrev pub version_of :
      Address → Option PaymentRequirementsExtra → Outcome String Eip155ExactError
  version_of token none = contracts.version token
  version_of token (some extra) = ok extra.version

  unfoldable pub assert_domain :
      Chain → Address → Option PaymentRequirementsExtra → Outcome Domain Eip155ExactError
  assert_domain chain asset extra = do
    name ← name_of asset extra
    version ← version_of asset extra
    ok (record {
      name = name;
      version = some version;
      chain_id = chain.inner;
      verifying_contract = asset;
    })

  -- The races of the two joins, and the clock, come from outside.
  unfoldable pub assert_valid_payment :
      {Value : Type 0}
      → Bool
      → Bool
      → ℕ
      → Chain
      → Eip3009Payload
      → Payload Value
      → Requirements
      → ℕ
      → Outcome (Eip3009Payment × Domain) Eip155ExactError
  assert_valid_payment race race' now chain eip3009 payload requirements tolerance = do
    let accepted = payload.accepted
    let authorization = eip3009.authorization
    map_err payment_verification (assert_requirements_match accepted requirements)
    guard (accepted.network =? chain.chain_id) (payment_verification chain_id_mismatch)
    guard (authorization.to == accepted.pay_to) (payment_verification recipient_mismatch)
    map_err payment_verification
        (assert_time now authorization.valid_after authorization.valid_before tolerance)
    joined ← try_join race (assert_domain chain accepted.asset accepted.extra) (
        try_join race' (assert_nonce_unused accepted.asset authorization.from authorization.nonce)
          (assert_enough_balance accepted.asset authorization.from accepted.amount))
    map_err payment_verification (assert_enough_value authorization.value accepted.amount)
    ok (
      record {
        from = authorization.from;
        to = authorization.to;
        value = authorization.value;
        valid_after = authorization.valid_after;
        valid_before = authorization.valid_before;
        nonce = authorization.nonce;
        signature = eip3009.signature;
      },
      joined.0,
    )

  unfoldable pub assert_valid_permit2_payment :
      {Value : Type 0}
      → ℕ
      → Chain
      → Permit2Payload
      → Payload Value
      → Requirements
      → ℕ
      → Outcome (Permit2Payment × Domain) Eip155ExactError
  assert_valid_permit2_payment now chain permit2 payload requirements tolerance = do
    let accepted = payload.accepted
    let auth = permit2.permit2_authorization
    map_err payment_verification (assert_requirements_match accepted requirements)
    guard (accepted.network =? chain.chain_id) (payment_verification chain_id_mismatch)
    guard (auth.spender == x402_exact_permit2_proxy) (
        payment_verification
          (invalid_signature "invalid Permit2 spender: must be x402ExactPermit2Proxy"))
    guard (auth.witness.to == accepted.pay_to) (payment_verification recipient_mismatch)
    refuse (ltb (to_u64 auth.deadline) (add_u64 now tolerance)) (payment_verification expired)
    refuse (ltb (add_u64 now tolerance) (to_u64 auth.witness.valid_after))
        (payment_verification early)
    map_err payment_verification (assert_enough_value auth.permitted.amount accepted.amount)
    guard (auth.permitted.token == accepted.asset) (payment_verification asset_mismatch)
    refuse (short (contracts.allowance accepted.asset auth.from permit2_address) accepted.amount)
        (payment_verification permit2_allowance_insufficient)
    refuse (short (contracts.balance_of accepted.asset auth.from) accepted.amount)
        (payment_verification insufficient_funds)
    ok (
      record {
        from = auth.from;
        to = auth.witness.to;
        token = auth.permitted.token;
        amount = auth.permitted.amount;
        spender = auth.spender;
        nonce = auth.nonce;
        deadline = auth.deadline;
        valid_after = auth.witness.valid_after;
        extra = auth.witness.extra;
        signature = permit2.signature;
      },
      record {
        name = "Permit2";
        version = none;
        chain_id = chain.inner;
        verifying_contract = permit2_address;
      },
    )
