-- ===== src/Evm/Provider/Sending.antt =====
-- How sending a transaction ends, and what becomes of its sender's nonce.
use mathlib.Core.Path.{subst}
use r.Base.{String, ◌≡◌, refl, sym, ◌↔◌, ◌⊎◌, inl, inr, Outcome, ok, err, ap, ℕ}
use r.Base.Actions.{Action-cases}
use r.Evm.Types.{Address}
use r.Evm.Nonces.{Nonces, reset_nonce, get_next_nonce}
use r.Evm.Nonces.Order.{get_next_nonce-reset_nonce}
use r.Evm.Calls.{
  MetaTransaction, TransactionReceipt, MetaTransactionSendError, transport, pending_transaction,
}
use r.Evm.Provider.{Eip155ChainProvider, Connection, TransactionRequest, prepared, send_from}

module _ {World : Type 0} (connection : Connection World) (provider : Eip155ChainProvider)
    (from_address : Address) (tx : MetaTransaction) (s : Nonces × World) where
  open connection use {PendingTransaction}

  abbrev Result : Type 0
  Result = Outcome TransactionReceipt MetaTransactionSendError × (Nonces × World)

  -- A transaction is not prepared; it is not submitted; its receipt does not arrive in time; or the
  -- receipt arrives.
  data Ends (result : Result) : Type 0 where
    is_unprepared :
        (e : MetaTransactionSendError) (t : Nonces × World)
        → prepared connection provider from_address tx s ≡ (err e, t)
        → result ≡ (err e, t)
        → Ends result
    is_unsubmitted :
        (txr : TransactionRequest) (t : Nonces × World) (e : String) (nonces : Nonces) (v : World)
        → prepared connection provider from_address tx s ≡ (ok txr, t)
        → connection.send_transaction txr t ≡ (err e, (nonces, v))
        → result ≡ (err (transport e), (reset_nonce nonces from_address, v))
        → Ends result
    is_unconfirmed :
        (txr : TransactionRequest) (t u : Nonces × World) (pending_tx : PendingTransaction)
        (e : String) (nonces : Nonces) (v : World)
        → prepared connection provider from_address tx s ≡ (ok txr, t)
        → connection.send_transaction txr t ≡ (ok pending_tx, u)
        → connection.get_receipt pending_tx tx.confirmations provider.receipt_timeout_secs u
          ≡ (err e, (nonces, v))
        → result ≡ (err (pending_transaction e), (reset_nonce nonces from_address, v))
        → Ends result
    is_confirmed :
        (txr : TransactionRequest) (t u v : Nonces × World) (pending_tx : PendingTransaction)
        (receipt : TransactionReceipt)
        → prepared connection provider from_address tx s ≡ (ok txr, t)
        → connection.send_transaction txr t ≡ (ok pending_tx, u)
        → connection.get_receipt pending_tx tx.confirmations provider.receipt_timeout_secs u
          ≡ (ok receipt, v)
        → result ≡ (ok receipt, v)
        → Ends result

  complete :
      {result : Result} → Ends result → send_from connection provider from_address tx s ≡ result
  unfolding send_from
  complete (is_unprepared e t p q) = rw (p, q) refl
  complete (is_unsubmitted txr t e nonces v p a q) = rw (p, a, q) refl
  complete (is_unconfirmed txr t u pending_tx e nonces v p a b q) = rw (p, a, b, q) refl
  complete (is_confirmed txr t u v pending_tx receipt p a b q) = rw (p, a, b, q) refl

  Final : Type 0
  Final = Ends (send_from connection provider from_address tx s)

  finally : {result : Result} → Ends result → Final
  unfolding Final
  finally p = subst Ends (sym (complete p)) p

  sound : Final
  sound = elim (Action-cases (prepared connection provider from_address tx s)) [
    | inr (e, t, p) ↦ finally (is_unprepared e t p refl)
    | inl (txr, t, p) ↦ elim (Action-cases (connection.send_transaction txr t)) [
      | inr (e, (nonces, v), a) ↦ finally (is_unsubmitted txr t e nonces v p a refl)
      | inl (pending_tx, u, a) ↦
          elim (Action-cases
            (connection.get_receipt pending_tx tx.confirmations provider.receipt_timeout_secs u)) [
              | inr (e, (nonces, v), b) ↦
                  finally (is_unconfirmed txr t u pending_tx e nonces v p a b refl)
              | inl (receipt, v, b) ↦ finally (is_confirmed txr t u v pending_tx receipt p a b refl)
            ]
    ]
  ]

  -- Sending a transaction ends in one of the ways of the relation, and in no other.
  send_from_iff :
      (result : Result) → (send_from connection provider from_address tx s ≡ result) ↔ Ends result
  unfolding Final
  send_from_iff result = ((λ e. subst Ends e sound), complete)

  module _ {E : Type 0} (pending : Address → World → Outcome ℕ E × World) where
    fetched :
        (nonces : Nonces) (v : World) (table : Nonces) (u : World)
        → ◌≡◌ {A = Nonces × World} (table, u) (reset_nonce nonces from_address, v)
        → (get_next_nonce pending table from_address u).0 ≡ (pending from_address u).0
    fetched nonces v table u same =
        rw (ap (λ x. x.0) same) ((get_next_nonce-reset_nonce pending nonces from_address u).0)

    -- When sending a transaction fails, either it was not submitted, since its gas could not be
    -- priced or estimated, or its sender's next nonce is fetched from the chain, whatever the
    -- table of nonces held.
    pub send_from-err-get_next_nonce :
        (e : MetaTransactionSendError) (table : Nonces) (u : World)
        → send_from connection provider from_address tx s ≡ (err e, (table, u))
        → (prepared connection provider from_address tx s ≡ (err e, (table, u)))
          ⊎ ((get_next_nonce pending table from_address u).0 ≡ (pending from_address u).0)
    send_from-err-get_next_nonce e table u h = go ((send_from_iff (err e, (table, u))).0 h)
      where
        go :
            Ends (err e, (table, u))
            → (prepared connection provider from_address tx s ≡ (err e, (table, u)))
              ⊎ ((get_next_nonce pending table from_address u).0 ≡ (pending from_address u).0)
        go (is_unprepared f t p q) =
            let same : prepared connection provider from_address tx s ≡ (err e, (table, u)) =
              cc (p, q) in
            inl same
        go (is_unsubmitted txr t f nonces v p a q) =
            inr (fetched nonces v table u (ap (λ x. x.1) q))
        go (is_unconfirmed txr t w p' f nonces v p a b q) =
            inr (fetched nonces v table u (ap (λ x. x.1) q))
        go (is_confirmed txr t w v p' receipt p a b q) = cc (ap (λ x. x.0) q)
