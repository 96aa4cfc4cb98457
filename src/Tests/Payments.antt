-- ===== src/Tests/Payments.antt =====
-- The checks of EVM payments at concrete inputs.
use r.Base.{String, ◌≡◌, ◌↔◌, true, false, none, some, [], ok, err, arith}
use r.Proto.Error.{expired}
use r.Evm.Types.{
  Requirements, Payload, Eip3009Payload, Eip3009Authorization, ExactScheme, ExactPayload, Domain,
  contract_call,
}
use r.Evm.Time.{assert_time, tolerance-expired}
use r.Evm.Checks.{
  Chain, Contracts, assert_enough_value, assert_nonce_unused, assert_enough_balance, assert_domain,
  assert_requirements_match, assert_valid_payment,
}
use r.Evm.Checks.Eip3009.{IsPayable, signed_payment, assert_valid_payment_iff}
use r.Chain.Id.{chain_id_beq}
use r.Base.{refl}
use r.Evm.Checks.{assert_valid_permit2_payment}
use r.Evm.Types.{Permit2Payment, Permit2Payload, Permit2Authorization, x402_exact_permit2_proxy}
use r.Evm.Checks.Permit2.{
  IsTransferable, signed_transfer, permit2_domain, assert_valid_permit2_payment_iff,
}
use r.Tests.Chains.{base}

tolerance-expired_example :
    (assert_time 1000 900 1005 30 ≡ err expired) × (assert_time 1000 900 1005 0 ≡ ok tt)
tolerance-expired_example =
    tolerance-expired 1000 900 1005 30 (ground arith) (ground arith) (ground arith) (ground arith)

abbrev pub requirements : Requirements
requirements = record {
  scheme = ExactScheme.exact;
  network = base;
  amount = 1000;
  pay_to = 7;
  max_timeout_seconds = 300;
  asset = 5;
  extra = some (record { name = "USDC"; version = "2"; asset_transfer_method = none });
}

abbrev pub authorization : Eip3009Authorization
authorization = record {
  from = 3;
  to = 7;
  value = 1000;
  valid_after = 900;
  valid_before = 2000;
  nonce = 11;
}

abbrev eip3009 : Eip3009Payload
eip3009 = record { signature = []; authorization = authorization }

abbrev payload : Payload String
payload = record {
  accepted = requirements;
  payload = ExactPayload.eip3009 eip3009;
  resource = none;
  extensions = none;
}

abbrev pub chain : Chain
chain = record { inner = 8453; chain_id = base }

abbrev pub contracts : Contracts
contracts = record {
  name = λ token. err (contract_call "no answer");
  version = λ token. err (contract_call "no answer");
  authorization_state = λ token authorizer nonce. ok false;
  balance_of = λ token owner. ok 5000;
  allowance = λ token owner spender. err (contract_call "no answer");
}

abbrev pub domain : Domain
domain = record { name = "USDC"; version = some "2"; chain_id = 8453; verifying_contract = 5 }

assert_valid_payment_iff_example :
    (assert_valid_payment contracts true false 1000 chain eip3009 payload requirements 6
      ≡ ok (signed_payment eip3009, domain))
    ↔ (IsPayable contracts 1000 chain eip3009 payload requirements 6 domain
        × (signed_payment eip3009 ≡ signed_payment eip3009))
assert_valid_payment_iff_example =
    assert_valid_payment_iff contracts true false 1000 chain eip3009 payload requirements 6
      (ground arith) (signed_payment eip3009) domain

accepts_eip3009 :
    assert_valid_payment contracts true false 1000 chain eip3009 payload requirements 6
    ≡ ok (signed_payment eip3009, domain)
unfolding assert_valid_payment assert_requirements_match assert_enough_value assert_nonce_unused
    assert_enough_balance assert_domain assert_time chain_id_beq
accepts_eip3009 = refl

abbrev permit2_authorization : Permit2Authorization
permit2_authorization = record {
  from = 3;
  permitted = record { token = 5; amount = 1000 };
  spender = x402_exact_permit2_proxy;
  nonce = 11;
  deadline = 2000;
  witness = record { to = 7; valid_after = 900; extra = [] };
}

abbrev permit2 : Permit2Payload
permit2 = record { signature = []; permit2_authorization = permit2_authorization }

abbrev transfer : Permit2Payment × Domain
transfer = (signed_transfer permit2, permit2_domain chain)

assert_valid_permit2_payment_iff_example :
    (assert_valid_permit2_payment contracts 1000 chain permit2 payload requirements 6 ≡ ok transfer)
    ↔ (IsTransferable contracts 1000 chain permit2 payload requirements 6
        × (transfer ≡ (signed_transfer permit2, permit2_domain chain)))
assert_valid_permit2_payment_iff_example =
    assert_valid_permit2_payment_iff contracts 1000 chain permit2 payload requirements 6
      (ground arith) transfer

accepts_permit2 :
    assert_valid_permit2_payment contracts 1000 chain permit2 payload requirements 6 ≡ ok transfer
unfolding assert_valid_permit2_payment assert_requirements_match assert_enough_value chain_id_beq
accepts_permit2 = refl
