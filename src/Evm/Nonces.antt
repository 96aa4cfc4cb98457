-- ===== src/Evm/Nonces.antt =====
-- r402-evm/src/chain/nonce.rs: the nonces of transactions, kept per sending address. Each address has
-- its own mutex, which is held throughout an operation on it, so an operation is one step of the
-- table.
pub mod Order
use r.Base.{
  ℕ, ◌≡◌, Option, none, some, List, [], ◌∷◌, Outcome, ok, err, ◌==◌, ==_iff, Eq, lookup, insert,
  if◌then◌else◌,
}
use r.Base.Text.{u64_max}
use r.Evm.Types.{Address}
use r.Evm.Time.{add_u64}

instance abbrev pub address_eq : Eq ℕ
address_eq = record { beq = ◌==◌; beq_iff = ==_iff }

-- `PendingNonceManager`: a table of the last nonces.
abbrev pub Nonces : Type 0
Nonces = List (Address × ℕ)

-- `NONE`: no nonce has been fetched.
abbrev pub unfetched : ℕ
unfetched = u64_max

abbrev pub last_nonce : Option ℕ → ℕ
last_nonce none = unfetched
last_nonce (some n) = n

-- `entry(address).or_insert_with(…)`
abbrev pub entered : Address → Option ℕ → Nonces → Nonces
entered address none nonces = insert address unfetched nonces
entered address (some n) nonces = nonces

-- Forgetting a nonce makes the next use fetch one; an unknown address has none to forget.
abbrev forgotten : Address → Option ℕ → Nonces → Nonces
forgotten address none nonces = nonces
forgotten address (some n) nonces = insert address unfetched nonces

unfoldable pub reset_nonce : Nonces → Address → Nonces
reset_nonce nonces address = forgotten address (lookup address nonces) nonces

abbrev pub stored :
    {World E : Type 0} → Address → Nonces → Outcome ℕ E × World → Outcome ℕ E × (Nonces × World)
stored address nonces (ok n, w) = (ok n, (insert address n nonces, w))
stored address nonces (err e, w) = (err e, (nonces, w))

-- The provider's `get_transaction_count(address).pending()` reads the chain and may fail.
module _ {World E : Type 0} (pending : Address → World → Outcome ℕ E × World) where
  unfoldable pub get_next_nonce : Nonces → Address → World → Outcome ℕ E × (Nonces × World)
  get_next_nonce nonces address w =
      let known = lookup address nonces in
      let table = entered address known nonces in
      stored address table (
        if last_nonce known == unfetched
        then pending address w
        else (ok (add_u64 (last_nonce known) 1), w))
