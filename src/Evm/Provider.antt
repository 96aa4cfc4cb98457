-- ===== src/Evm/Provider.antt =====
-- `Eip155ChainProvider` of r402-evm/src/chain/provider.rs: the signers take turns, and a transaction
-- that fails has its sender's nonce fetched again.
pub mod Turns
pub mod Sending
use r.Base.{
  String, ℕ, ◌+◌, ◌%◌, ◌^◌, Bool, true, false, Option, none, some, List, [], ◌∷◌, Outcome, ok, err,
  length, get_elem?, ◌==◌, if◌then◌else◌,
}
use r.Base.Actions.{Action, ◌>>=◌, lift, with_error}
use r.Evm.Types.{Address}
use r.Evm.Nonces.{Nonces, reset_nonce}
use r.Evm.Calls.{
  MetaTransaction, TransactionReceipt, MetaTransactionSendError, transport, pending_transaction,
}

-- `Eip155ChainProvider`, less its chain and its connection
pub record Eip155ChainProvider : Type 0 where
  pub eip1559 : Bool
  pub flashblocks : Bool
  pub receipt_timeout_secs : ℕ  -- u64
  pub signer_addresses : List Address
  -- an `AtomicUsize`, of 64 bits
  pub signer_cursor : ℕ

-- `Eip155ChainProvider::new`, at the wallet's signers
unfoldable pub new : List Address → Bool → Bool → ℕ → Outcome Eip155ChainProvider String
new [] eip1559 flashblocks receipt_timeout_secs = err "at least one signer must be provided"
new (a ∷ rest) eip1559 flashblocks receipt_timeout_secs = ok (record {
  eip1559 = eip1559;
  flashblocks = flashblocks;
  receipt_timeout_secs = receipt_timeout_secs;
  signer_addresses = a ∷ rest;
  signer_cursor = 0;
})

-- `fetch_add(1)` wraps around.
abbrev pub advanced : ℕ → ℕ
advanced cursor = (cursor + 1) % 2 ^ 64

-- The signer whose turn it is, and the provider after that; an index out of range would panic.
unfoldable pub next_signer_address : Eip155ChainProvider → Option Address × Eip155ChainProvider
next_signer_address provider =
    let signers = provider.signer_addresses in
    if length signers == 1 then (get_elem? signers 0, provider) else (
      get_elem? signers (provider.signer_cursor % length signers),
      record provider { signer_cursor = advanced provider.signer_cursor },
    )

-- `TransactionRequest`, as far as it is filled here
pub record TransactionRequest : Type 0 where
  pub to : Address
  pub from : Address
  pub input : List ℕ
  pub gas_price : Option ℕ
  pub gas : Option ℕ

-- `BlockId`
pub data BlockId : Type 0 where
  latest pending : BlockId

-- The connection of the provider, with the fillers, which use the nonces as well. Errors count by
-- their texts.
pub record Connection (World : Type 0) : Type 1 where
  pub PendingTransaction : Type 0
  pub get_gas_price : Action (Nonces × World) String ℕ
  pub estimate_gas : TransactionRequest → BlockId → Action (Nonces × World) String ℕ
  pub send_transaction : TransactionRequest → Action (Nonces × World) String PendingTransaction
  -- with the confirmations required and the timeout in seconds
  pub get_receipt : PendingTransaction → ℕ → ℕ → Action (Nonces × World) String TransactionReceipt

-- On an error, the nonce of the address is reset before the error is returned.
abbrev pub or_reset :
    {World A E F : Type 0}
    → Address
    → (E → F)
    → Outcome A E × (Nonces × World)
    → Outcome A F × (Nonces × World)
or_reset from f (ok a, s) = (ok a, s)
or_reset from f (err e, (nonces, w)) = (err (f e), (reset_nonce nonces from, w))

module _ {World : Type 0} (connection : Connection World) (provider : Eip155ChainProvider) where
  -- A legacy chain is asked for its price of gas.
  unfoldable pub priced :
      TransactionRequest → Action (Nonces × World) MetaTransactionSendError TransactionRequest
  priced txr = if provider.eip1559 then lift (ok txr) else (do
    gas ← with_error transport connection.get_gas_price
    lift (ok (record txr { gas_price = some gas })))

  unfoldable pub estimated :
      TransactionRequest → Action (Nonces × World) MetaTransactionSendError TransactionRequest
  estimated txr = do
    gas_limit ←
        with_error transport
          (connection.estimate_gas txr (if provider.flashblocks then latest else pending))
    lift (ok (record txr { gas = some gas_limit }))

  -- The request that is submitted, with the price and the limit of its gas.
  unfoldable pub prepared :
      Address
      → MetaTransaction
      → Action (Nonces × World) MetaTransactionSendError TransactionRequest
  prepared from_address tx = do
    txr ← priced (record {
      to = tx.to;
      from = from_address;
      input = tx.calldata;
      gas_price = none;
      gas = none;
    })
    estimated txr

  -- `send_transaction`, once its signer is known
  unfoldable pub send_from :
      Address
      → MetaTransaction
      → Action (Nonces × World) MetaTransactionSendError TransactionReceipt
  send_from from_address tx = do
    txr ← prepared from_address tx
    pending_tx ← λ s. or_reset from_address transport (connection.send_transaction txr s)
    λ s.
        or_reset from_address pending_transaction
          (connection.get_receipt pending_tx tx.confirmations provider.receipt_timeout_secs s)

  abbrev sent_by :
      MetaTransaction
      → Nonces × World
      → Option Address
      → Option (Outcome TransactionReceipt MetaTransactionSendError × (Nonces × World))
  sent_by tx s none = none
  sent_by tx s (some from_address) = some (send_from from_address tx s)

  -- `send_transaction`, with the provider after it; without a signer it panics.
  unfoldable pub send_transaction :
      MetaTransaction
      → Nonces × World
      → Option (Outcome TransactionReceipt MetaTransactionSendError × (Nonces × World))
        × Eip155ChainProvider
  send_transaction tx s =
      let selected = next_signer_address provider in (sent_by tx s selected.0, selected.1)
