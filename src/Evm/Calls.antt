-- ===== src/Evm/Calls.antt =====
-- The contract calls of r402-evm/src/exact/facilitator/contract.rs and settle.rs, and the provider
-- that answers and sends them (the trait of r402-evm/src/chain/provider.rs).
use r.Base.{String, ℕ, ◌+◌, Bool, List, Outcome, if◌then◌else◌}
use r.Base.Actions.{Action}
use r.Evm.Types.{
  Address, Eip3009Payment, Permit2TokenPermissions, Permit2Witness, Eip155ExactError, contract_call,
  payment_verification,
}
use r.Proto.Error.{transaction_simulation}
use r.Evm.Signature.{Primitives}

-- `IMulticall3::Call3`
pub record Call3 : Type 0 where
  pub allow_failure : Bool
  pub target : Address
  pub call_data : List ℕ

-- `IX402Permit2Proxy::Permit`
pub record Permit : Type 0 where
  pub permitted : Permit2TokenPermissions
  pub nonce : ℕ
  pub deadline : ℕ

-- The calldata of the calls, as alloy's macros encode them.
pub record Abi : Type 0 where
  -- from, to, value, valid after, valid before, nonce, signature
  pub transfer_with_authorization_0 : Address → Address → ℕ → ℕ → ℕ → ℕ → List ℕ → List ℕ
  -- the same, with the signature's v, r and s
  pub transfer_with_authorization_1 : Address → Address → ℕ → ℕ → ℕ → ℕ → ℕ → ℕ → ℕ → List ℕ
  pub aggregate3 : List Call3 → List ℕ
  -- `settle` of the payments' proxy
  pub settle : Permit → Address → Permit2Witness → List ℕ → List ℕ

-- `TransferWithAuthorizationCall`: the call's target and calldata, and what it was made from
pub record TransferWithAuthorizationCall (TSignature : Type 0) : Type 0 where
  pub target : Address
  pub calldata : List ℕ
  pub from : Address
  pub to : Address
  pub value : ℕ
  pub valid_after : ℕ
  pub valid_before : ℕ
  pub nonce : ℕ
  pub signature : TSignature
  pub contract_address : Address

module _ (abi : Abi) where
  -- `TransferWithAuthorization0Call::new`
  unfoldable pub transfer_0 :
      Address → Eip3009Payment → List ℕ → TransferWithAuthorizationCall (List ℕ)
  transfer_0 contract payment signature = record {
    target = contract;
    calldata =
        abi.transfer_with_authorization_0 payment.from payment.to payment.value payment.valid_after
          payment.valid_before payment.nonce signature;
    from = payment.from;
    to = payment.to;
    value = payment.value;
    valid_after = payment.valid_after;
    valid_before = payment.valid_before;
    nonce = payment.nonce;
    signature = signature;
    contract_address = contract;
  }

  -- `TransferWithAuthorization1Call::new`
  unfoldable pub transfer_1 :
      (primitives : Primitives)
      → Address
      → Eip3009Payment
      → primitives.Signature
      → TransferWithAuthorizationCall primitives.Signature
  transfer_1 primitives contract payment signature = record {
    target = contract;
    calldata =
        abi.transfer_with_authorization_1 payment.from payment.to payment.value payment.valid_after
          payment.valid_before payment.nonce (27 + (if primitives.parity signature then 1 else 0))
          (primitives.part_r signature) (primitives.part_s signature);
    from = payment.from;
    to = payment.to;
    value = payment.value;
    valid_after = payment.valid_after;
    valid_before = payment.valid_before;
    nonce = payment.nonce;
    signature = signature;
    contract_address = contract;
  }

-- The errors of alloy count by their texts, here as `Eip155ExactError` takes them over.
pub data MetaTransactionSendError : Type 0 where
  transport pending_transaction custom : String → MetaTransactionSendError

pub data ContractError : Type 0 where
  call_failed transport pending_transaction : String → ContractError

pub data MulticallError : Type 0 where
  call transport : String → MulticallError

-- `From<MetaTransactionSendError> for Eip155ExactError`
abbrev pub of_send_error : MetaTransactionSendError → Eip155ExactError
of_send_error (transport e) = Eip155ExactError.transport e
of_send_error (pending_transaction e) = Eip155ExactError.pending_transaction e
of_send_error (custom e) = contract_call e

-- `From<alloy_contract::Error> for Eip155ExactError`
abbrev pub of_contract_error : ContractError → Eip155ExactError
of_contract_error (call_failed e) = contract_call e
of_contract_error (transport e) = Eip155ExactError.transport e
of_contract_error (pending_transaction e) = Eip155ExactError.pending_transaction e

-- `From<MulticallError> for Eip155ExactError`
abbrev pub of_multicall_error : MulticallError → Eip155ExactError
of_multicall_error (call e) = payment_verification (transaction_simulation e)
of_multicall_error (transport e) = Eip155ExactError.transport e

pub record MetaTransaction : Type 0 where
  pub to : Address
  pub calldata : List ℕ
  pub confirmations : ℕ  -- u64

pub record TransactionReceipt : Type 0 where
  pub status : Bool
  pub transaction_hash : ℕ

-- `Eip155MetaTransactionProvider`, with the calls of its inner provider.
pub record Provider (World : Type 0) : Type 0 where
  pub get_code_at : Address → Action World String (List ℕ)
  pub send_transaction : MetaTransaction → Action World MetaTransactionSendError TransactionReceipt
  -- A call's target and calldata; it is simulated.
  pub call : Address → List ℕ → Action World ContractError (Unit {0})
  -- `isValidSigWithSideEffects(signer, hash, signature)` of a validator
  pub is_valid_signature : Address → Address → ℕ → List ℕ → Action World ContractError Bool
  -- A multicall of that and of a call: each of the two may have failed, for which there is a text.
  pub signature_and_call :
      Address
      → Address
      → ℕ
      → List ℕ
      → Address
      → List ℕ
      → Action World MulticallError (Outcome Bool String × Outcome (Unit {0}) String)
