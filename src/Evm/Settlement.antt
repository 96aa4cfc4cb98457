-- ===== src/Evm/Settlement.antt =====
-- r402-evm/src/exact/facilitator/settle.rs: sending the transaction of a checked payment.
pub mod Sends
use r.Base.{String, ℕ, Bool, true, false, not, List, [], ◌∷◌, Outcome, ok, err, if◌then◌else◌}
use r.Base.Actions.{Action, lift, with_error, ◌>>=◌}
use r.Evm.Types.{
  Address, Eip3009Payment, Permit2Payment, Domain, Eip155ExactError, transport,
  transaction_reverted, x402_exact_permit2_proxy,
}
use r.Evm.Signature.{Primitives, StructuredSignature, eip6492, eoa, eip1271, extract}
use r.Evm.Calls.{
  Abi, Call3, TransferWithAuthorizationCall, transfer_0, transfer_1, MetaTransaction,
  TransactionReceipt, Provider, of_send_error,
}

-- `MULTICALL3_ADDRESS` of alloy
abbrev pub multicall3_address : Address
multicall3_address = 0xcA11bde05977b3631167028862bE2a173976CA11

-- A receipt's transaction, if it was not reverted.
unfoldable pub transaction_of : TransactionReceipt → Outcome ℕ Eip155ExactError
transaction_of receipt =
    if receipt.status
    then ok receipt.transaction_hash
    else err (transaction_reverted receipt.transaction_hash)

-- `Bytes::is_empty`
abbrev pub is_empty : List ℕ → Bool
is_empty [] = true
is_empty (b ∷ bytes) = false

-- The transaction of one call.
abbrev pub transfer_transaction : {S : Type 0} → TransferWithAuthorizationCall S → MetaTransaction
transfer_transaction transfer_call = record {
  to = transfer_call.target;
  calldata = transfer_call.calldata;
  confirmations = 1;
}

module _ (abi : Abi) where
  -- The transaction that deploys a wallet, which may fail, and then makes a call, which may not.
  abbrev pub deploying_transaction :
      {S : Type 0} → Address → List ℕ → TransferWithAuthorizationCall S → MetaTransaction
  deploying_transaction factory factory_calldata transfer_call =
      let deployment_call : Call3 = record {
        allow_failure = true;
        target = factory;
        call_data = factory_calldata;
      } in
      let transfer_with_authorization_call : Call3 = record {
        allow_failure = false;
        target = transfer_call.target;
        call_data = transfer_call.calldata;
      } in
      record {
        to = multicall3_address;
        calldata = abi.aggregate3 (deployment_call ∷ transfer_with_authorization_call ∷ []);
        confirmations = 1;
      }

  -- The transaction that has the payments' proxy settle a payment.
  abbrev pub proxy_transaction : Permit2Payment → MetaTransaction
  proxy_transaction payment = record {
    to = x402_exact_permit2_proxy;
    calldata =
        abi.settle
          (record {
            permitted = record { token = payment.token; amount = payment.amount };
            nonce = payment.nonce;
            deadline = payment.deadline;
          })
          payment.from
          (record { to = payment.to; valid_after = payment.valid_after; extra = payment.extra })
          payment.signature;
    confirmations = 1;
  }

module _ {World : Type 0} (provider : Provider World) where
  unfoldable pub is_contract_deployed : Address → Action World String Bool
  is_contract_deployed address = do
    bytes ← provider.get_code_at address
    lift (ok (not (is_empty bytes)))

  abbrev pub send : MetaTransaction → Action World Eip155ExactError TransactionReceipt
  send tx = with_error of_send_error (provider.send_transaction tx)

module _ (abi : Abi) {World : Type 0} (provider : Provider World) where
  module _ (primitives : Primitives) where
    -- The transaction's receipt, by the kind of the signature.
    unfoldable pub send_payment :
        Address
        → Eip3009Payment
        → StructuredSignature primitives.Signature
        → Action World Eip155ExactError TransactionReceipt
    send_payment contract payment (eip6492 factory factory_calldata inner original) = do
      is_deployed ← with_error transport (is_contract_deployed provider payment.from)
      let transfer_call = transfer_0 abi contract payment inner
      send provider (
          if is_deployed
          then transfer_transaction transfer_call
          else deploying_transaction abi factory factory_calldata transfer_call)
    send_payment contract payment (eip1271 signature) =
        send provider (transfer_transaction (transfer_0 abi contract payment signature))
    send_payment contract payment (eoa signature) =
        send provider (transfer_transaction (transfer_1 abi primitives contract payment signature))

    unfoldable pub settle_payment :
        Address → Eip3009Payment → Domain → Action World Eip155ExactError ℕ
    settle_payment contract payment eip712_domain = do
      signed_message ← lift (extract primitives payment eip712_domain)
      receipt ← send_payment contract payment signed_message.signature
      lift (transaction_of receipt)

  unfoldable pub settle_permit2_payment : Permit2Payment → Action World Eip155ExactError ℕ
  settle_permit2_payment payment = do
    receipt ← send provider (proxy_transaction abi payment)
    lift (transaction_of receipt)
