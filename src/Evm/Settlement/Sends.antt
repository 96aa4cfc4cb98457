-- ===== src/Evm/Settlement/Sends.antt =====
-- What settling a payment sends.
use mathlib.Core.Path.{subst}
use r.Base.{
  String, ℕ, ◌≡◌, ◌≢◌, refl, sym, ap, ◌∙◌, ◌↔◌, inl, inr, ◌⊎◌, true, false, Bool-cases,
  if◌then◌else◌, ◌+◌, List, [], ◌∷◌, Outcome, ok, err, Outcome-cases,
}
use r.Base.Actions.{Action-cases}
use r.Evm.Types.{
  Address, Eip3009Payment, Domain, Eip155ExactError, transport, transaction_reverted,
  payment_verification,
}
use r.Proto.Error.{invalid_signature}
use r.Evm.Signature.{
  Primitives, StructuredSignature, eip6492, eoa, eip1271, try_from_bytes, extract,
}
use r.Evm.Calls.{
  Abi, MetaTransaction, MetaTransactionSendError, TransactionReceipt, Provider, transfer_0,
  transfer_1, of_send_error,
}
use r.Evm.Settlement.{
  transaction_of, is_contract_deployed, send, send_payment, settle_payment, multicall3_address,
}

module _ (abi : Abi) {World : Type 0} (provider : Provider World) (primitives : Primitives)
    (contract : Address) (payment : Eip3009Payment) (w : World) where
  open primitives use {Signature}

  -- The transfers of the payment: the token is called with the payment's fields, and with the bytes of
  -- a signature or with the parts of one.
  abbrev bytes_calldata : List ℕ → List ℕ
  bytes_calldata signature =
      abi.transfer_with_authorization_0 payment.from payment.to payment.value payment.valid_after
        payment.valid_before payment.nonce signature

  abbrev key_calldata : Signature → List ℕ
  key_calldata s =
      abi.transfer_with_authorization_1 payment.from payment.to payment.value payment.valid_after
        payment.valid_before payment.nonce (27 + (if primitives.parity s then 1 else 0))
        (primitives.part_r s) (primitives.part_s s)

  abbrev token_call : List ℕ → MetaTransaction
  token_call calldata = record { to = contract; calldata = calldata; confirmations = 1 }

  -- A wallet is deployed, which may fail, before the token is called, which may not.
  abbrev batch : Address → List ℕ → List ℕ → MetaTransaction
  batch factory factory_calldata calldata = record {
    to = multicall3_address;
    calldata = abi.aggregate3 (
        record { allow_failure = true; target = factory; call_data = factory_calldata }
        ∷ record { allow_failure = false; target = contract; call_data = calldata }
        ∷ []);
    confirmations = 1;
  }

  -- The transaction that makes a payment with a signature of a kind, sent from a state of the world:
  -- `transferWithAuthorization` of the token, with the key's signature, or with the wallet's bytes,
  -- and after the deployment of a wallet that has no code yet.
  pub data Sends (read : StructuredSignature Signature) (tx : MetaTransaction) (u : World)
      : Type 0 where
    by_key :
        (s : Signature) → read ≡ eoa s → tx ≡ token_call (key_calldata s) → u ≡ w → Sends read tx u
    by_wallet :
        (bytes : List ℕ)
        → read ≡ eip1271 bytes
        → tx ≡ token_call (bytes_calldata bytes)
        → u ≡ w
        → Sends read tx u
    by_deployed :
        (factory : Address) (factory_calldata inner original code : List ℕ)
        → read ≡ eip6492 factory factory_calldata inner original
        → provider.get_code_at payment.from w ≡ (ok code, u)
        → code ≢ []
        → tx ≡ token_call (bytes_calldata inner)
        → Sends read tx u
    by_deploying :
        (factory : Address) (factory_calldata inner original : List ℕ)
        → read ≡ eip6492 factory factory_calldata inner original
        → provider.get_code_at payment.from w ≡ (ok [], u)
        → tx ≡ batch factory factory_calldata (bytes_calldata inner)
        → Sends read tx u

  send_payment-Sends :
      {read : StructuredSignature Signature} {tx : MetaTransaction} {u : World}
      → Sends read tx u
      → send_payment abi provider primitives contract payment read w ≡ send provider tx u
  unfolding send_payment is_contract_deployed transfer_0 transfer_1
  send_payment-Sends (by_key s h e k) = rw (h, e, k) refl
  send_payment-Sends (by_wallet bytes h e k) = rw (h, e, k) refl
  send_payment-Sends (by_deployed f c i o [] h g n e) = elim (n refl) [ ]
  send_payment-Sends (by_deployed f c i o (b ∷ code) h g n e) = rw (h, g, e) refl
  send_payment-Sends (by_deploying f c i o h g e) = rw (h, g, e) refl

  unreadable :
      (factory : Address) (factory_calldata inner original : List ℕ) (e : String) (u : World)
      → provider.get_code_at payment.from w ≡ (err e, u)
      → send_payment abi provider primitives contract payment
          (eip6492 factory factory_calldata inner original)
          w
        ≡ (err (transport e), u)
  unfolding send_payment is_contract_deployed
  unreadable f c i o e u g = rw g refl

  -- Every signature but that of a wallet whose code cannot be read has its transaction.
  sends :
      (read : StructuredSignature Signature)
      → ((tx : MetaTransaction) × (u : World) × Sends read tx u)
        ⊎ ((factory : Address) × (factory_calldata : List ℕ) × (inner : List ℕ) × (original : List
              ℕ)
            × (e : String) × (u : World) × (read ≡ eip6492 factory factory_calldata inner original)
            × (provider.get_code_at payment.from w ≡ (err e, u)))
  sends (eoa s) = inl (_, w, by_key s refl refl refl)
  sends (eip1271 bytes) = inl (_, w, by_wallet bytes refl refl refl)
  sends (eip6492 f c i o) = elim (Action-cases (provider.get_code_at payment.from w)) [
    | inl ([], u, g) ↦ inl (_, u, by_deploying f c i o refl g refl)
    | inl (b ∷ code, u, g) ↦ inl (_, u, by_deployed f c i o (b ∷ code) refl g (λ q. cc) refl)
    | inr (e, u, g) ↦ inr (f, c, i, o, e, u, refl, g)
  ]

  abbrev Result : Type 0
  Result = Outcome ℕ Eip155ExactError × World

  module _ (domain : Domain) where
    abbrev pub Reads : StructuredSignature Signature → Type 0
    Reads read =
        try_from_bytes primitives payment.signature payment.from
          (primitives.transfer_hash payment domain)
        ≡ ok read

    -- How settling a payment ends: its signature cannot be read; the code of its wallet cannot be
    -- read; its transaction is not sent or confirmed; it is reverted; or it pays.
    pub data Settles (result : Result) : Type 0 where
      is_unreadable :
          (e : String)
          → try_from_bytes primitives payment.signature payment.from
              (primitives.transfer_hash payment domain)
            ≡ err e
          → result ≡ (err (payment_verification (invalid_signature e)), w)
          → Settles result
      is_unknown :
          (factory : Address) (factory_calldata inner original : List ℕ) (e : String) (u : World)
          → Reads (eip6492 factory factory_calldata inner original)
          → provider.get_code_at payment.from w ≡ (err e, u)
          → result ≡ (err (transport e), u)
          → Settles result
      is_unsent :
          (read : StructuredSignature Signature) (tx : MetaTransaction)
          (e : MetaTransactionSendError) (u v : World)
          → Reads read
          → Sends read tx u
          → provider.send_transaction tx u ≡ (err e, v)
          → result ≡ (err (of_send_error e), v)
          → Settles result
      is_reverted :
          (read : StructuredSignature Signature) (tx : MetaTransaction)
          (receipt : TransactionReceipt) (u v : World)
          → Reads read
          → Sends read tx u
          → provider.send_transaction tx u ≡ (ok receipt, v)
          → receipt.status ≡ false
          → result ≡ (err (transaction_reverted receipt.transaction_hash), v)
          → Settles result
      is_settled :
          (read : StructuredSignature Signature) (tx : MetaTransaction)
          (receipt : TransactionReceipt) (u v : World)
          → Reads read
          → Sends read tx u
          → provider.send_transaction tx u ≡ (ok receipt, v)
          → receipt.status ≡ true
          → result ≡ (ok receipt.transaction_hash, v)
          → Settles result

    complete :
        {result : Result}
        → Settles result
        → settle_payment abi provider primitives contract payment domain w ≡ result
    unfolding settle_payment extract transaction_of
    complete (is_unreadable e r q) = rw (r, q) refl
    complete (is_unknown f c i o e u r g q) = rw (r, unreadable f c i o e u g, q) refl
    complete (is_unsent read tx e u v r s t q) = rw (r, send_payment-Sends s, t, q) refl
    complete (is_reverted read tx receipt u v r s t b q) =
        rw (r, send_payment-Sends s, t, b, q) refl
    complete (is_settled read tx receipt u v r s t b q) = rw (r, send_payment-Sends s, t, b, q) refl

    Final : Type 0
    Final = Settles (settle_payment abi provider primitives contract payment domain w)

    finally : {result : Result} → Settles result → Final
    unfolding Final
    finally p = subst Settles (sym (complete p)) p

    sent :
        (read : StructuredSignature Signature) (tx : MetaTransaction) (u : World)
        → Reads read
        → Sends read tx u
        → Final
    sent read tx u r s = elim (Action-cases (provider.send_transaction tx u)) [
      | inr (e, v, t) ↦ finally (is_unsent read tx e u v r s t refl)
      | inl (receipt, v, t) ↦ elim (Bool-cases receipt.status) [
        | inl b ↦ finally (is_settled read tx receipt u v r s t b refl)
        | inr b ↦ finally (is_reverted read tx receipt u v r s t b refl)
      ]
    ]

    sound : Final
    sound =
        let hash = primitives.transfer_hash payment domain in
        elim (Outcome-cases (try_from_bytes primitives payment.signature payment.from hash)) [
          | inr (e, r) ↦ finally (is_unreadable e r refl)
          | inl (read, r) ↦ elim (sends read) [
            | inl (tx, u, s) ↦ sent read tx u r s
            | inr (f, c, i, o, e, u, k, g) ↦ finally (is_unknown f c i o e u (r ∙ ap ok k) g refl)
          ]
        ]

    -- Settling a payment ends in one of the ways of the relation, and in no other: it sends at most
    -- one transaction, that of the signature's kind, and returns a hash exactly if that transaction
    -- was confirmed and not reverted.
    pub settle_payment_iff :
        (result : Result)
        → (settle_payment abi provider primitives contract payment domain w ≡ result)
          ↔ Settles result
    unfolding Final
    settle_payment_iff result = ((λ e. subst Settles e sound), complete)
