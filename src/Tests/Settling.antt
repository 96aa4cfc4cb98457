-- ===== src/Tests/Settling.antt =====
-- The settlement of EVM payments and the signers' turns at concrete inputs.
use r.Base.{
  String, ℕ, suc, ◌≡◌, ◌<◌, ◌↔◌, ◌⊎◌, refl, true, false, none, some, [], ◌∷◌, Outcome, ok, err,
  replicate, arith,
}
use r.Proto.Settle.{SettleResponse}
use r.Evm.Types.{Eip3009Payload, ExactPayload, Address}
use r.Evm.Nonces.{Nonces, reset_nonce, get_next_nonce}
use r.Evm.Checks.Eip3009.{signed_payment}
use r.Evm.Signature.{Primitives, eoa, try_from_bytes}
use r.Evm.Signature.Kinds.{Reads, try_from_bytes_iff}
use r.Evm.Calls.{Abi, Provider, MetaTransaction, pending_transaction}
use r.Evm.Settlement.{settle_payment}
use r.Evm.Settlement.Sends.{Settles, settle_payment_iff}
use r.Evm.Facilitator.{Host, Eip155ExactFacilitator, VerifyRequest, settle, settled_by}
use r.Evm.Facilitator.Settling.{IsSettled, settle_iff}
use r.Evm.Provider.{Eip155ChainProvider, Connection, send_from, prepared, priced, estimated}
use r.Evm.Provider.Turns.{turn, turn_of_each}
use r.Evm.Provider.Sending.{send_from-err-get_next_nonce}
use r.Evm.Facilitator.{from_proto, settle_exact}
use r.Evm.Settlement.{send_payment, transaction_of}
use r.Evm.Signature.{extract, is_eip6492, eoa_signature}
use r.Evm.Calls.{transfer_1}
use r.Evm.Checks.{
  assert_valid_payment, assert_requirements_match, assert_enough_value, assert_nonce_unused,
  assert_enough_balance, assert_domain,
}
use r.Evm.Time.{assert_time}
use r.Chain.Id.{chain_id_beq}
use r.Proto.Verify.{valid}
use r.Evm.Facilitator.{verify, verify_exact}
use r.Evm.Simulation.{verify_payment, simulate}
use r.Tests.Payments.{requirements, authorization, chain, contracts, domain}

-- Signatures are numbers, and each is payer 3's.
abbrev primitives : Primitives
primitives = record {
  Signature = ℕ;
  from_raw = λ bytes. some 9;
  from_erc2098 = λ bytes. 8;
  normalized_s = λ s. s;
  recover = λ s prehash. some 3;
  parity = λ s. true;
  part_r = λ s. s;
  part_s = λ s. s;
  decode_6492 = λ bytes. err "no wrapper";
  transfer_hash = λ payment domain. 1;
  permit_hash = λ permit domain. 2;
}

abbrev abi : Abi
abi = record {
  transfer_with_authorization_0 =
      λ from to value after before nonce signature. from ∷ to ∷ value ∷ signature;
  transfer_with_authorization_1 =
      λ from to value after before nonce v r s. from ∷ to ∷ value ∷ v ∷ r ∷ s ∷ [];
  aggregate3 = λ calls. [];
  settle = λ permit owner witness signature. owner ∷ signature;
}

-- The world is the clock, and a transaction takes a second.
abbrev provider : Provider ℕ
provider = record {
  get_code_at = λ a w. (ok [], w);
  send_transaction = λ tx w. (ok (record { status = true; transaction_hash = 77 }), suc w);
  call = λ target calldata w. (ok tt, w);
  is_valid_signature = λ validator signer hash signature w. (ok true, w);
  signature_and_call =
      λ validator signer hash signature target calldata w. (ok (ok true, ok tt), w);
}

abbrev signed : Eip3009Payload
signed = record { signature = replicate 65 1; authorization = authorization }

abbrev request : VerifyRequest String
request = record {
  payment_payload = record {
    accepted = requirements;
    payload = ExactPayload.eip3009 signed;
    resource = none;
    extensions = none;
  };
  payment_requirements = requirements;
}

abbrev host : Host ℕ String
host = record {
  primitives = primitives;
  abi = abi;
  from_value = λ json. ok request;
  address_text = λ a. "0x3";
  hash_text = λ h. "0x77";
  provider = provider;
  chain = chain;
  signer_addresses = "0x1" ∷ [];
  contracts = λ w. contracts;
  now = λ w. w;
  races = λ w. (true, true);
}

abbrev facilitator : Eip155ExactFacilitator ℕ String
facilitator = record { host = host; clock_skew_tolerance = 30 }

abbrev answer : SettleResponse String
answer = settled_by facilitator request 3 77

settle_iff_example :
    (settle facilitator "{}" 1000 ≡ (ok answer, 1001)) ↔ IsSettled facilitator 1000 "{}" answer 1001
settle_iff_example = settle_iff facilitator 1000 (ground arith) "{}" answer 1001

settles : settle facilitator "{}" 1000 ≡ (ok answer, 1001)
unfolding settle from_proto settle_exact settle_payment send_payment transaction_of extract
    try_from_bytes is_eip6492 eoa_signature transfer_1 assert_valid_payment
    assert_requirements_match assert_enough_value assert_nonce_unused assert_enough_balance
    assert_domain assert_time chain_id_beq
settles = refl

settle_payment_iff_example :
    (settle_payment abi provider primitives 5 (signed_payment signed) domain 1000 ≡ (ok 77, 1001))
    ↔ Settles abi provider primitives 5 (signed_payment signed) 1000 domain (ok 77, 1001)
settle_payment_iff_example =
    settle_payment_iff abi provider primitives 5 (signed_payment signed) 1000 domain (ok 77, 1001)

try_from_bytes_iff_example :
    (try_from_bytes primitives (replicate 65 1) 3 1 ≡ ok (eoa 9))
    ↔ Reads primitives (replicate 65 1) 3 1 (eoa 9)
try_from_bytes_iff_example = try_from_bytes_iff primitives (replicate 65 1) 3 1 (eoa 9)

abbrev pool : Eip155ChainProvider
pool = record {
  eip1559 = true;
  flashblocks = false;
  receipt_timeout_secs = 30;
  signer_addresses = 21 ∷ 22 ∷ 23 ∷ [];
  signer_cursor = 4;
}

turn_of_each_example : (k : ℕ) × (k < 3) × (turn k pool ≡ some 21)
turn_of_each_example = turn_of_each pool 0 (ground arith) (ground arith)

-- A connection on which every transaction is submitted and none is confirmed.
abbrev lossy : Connection ℕ
lossy = record {
  PendingTransaction = ℕ;
  get_gas_price = λ s. (ok 1, s);
  estimate_gas = λ txr block s. (ok 21000, s);
  send_transaction = λ txr s. (ok 5, s);
  get_receipt = λ tx confirmations timeout s. (err "timeout", s);
}

abbrev transaction : MetaTransaction
transaction = record { to = 5; calldata = []; confirmations = 1 }

abbrev table : Nonces
table = (21, 4) ∷ []

lost :
    send_from lossy pool 21 transaction (table, 1000)
    ≡ (err (pending_transaction "timeout"), (reset_nonce table 21, 1000))
unfolding send_from prepared priced estimated
lost = refl

abbrev count : Address → ℕ → Outcome ℕ String × ℕ
count a w = (ok 4, w)

send_from-err-get_next_nonce_example :
    (prepared lossy pool 21 transaction (table, 1000)
      ≡ (err (pending_transaction "timeout"), (reset_nonce table 21, 1000)))
    ⊎ ((get_next_nonce count (reset_nonce table 21) 21 1000).0 ≡ ok 4)
send_from-err-get_next_nonce_example =
    send_from-err-get_next_nonce lossy pool 21 transaction (table, 1000) count
      (pending_transaction "timeout") (reset_nonce table 21) 1000 lost

verifies : verify facilitator "{}" 1000 ≡ (ok (valid "0x3"), 1000)
unfolding verify from_proto verify_exact verify_payment simulate extract try_from_bytes is_eip6492
    eoa_signature transfer_1 assert_valid_payment assert_requirements_match assert_enough_value
    assert_nonce_unused assert_enough_balance assert_domain assert_time chain_id_beq
verifies = refl
