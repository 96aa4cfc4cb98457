-- ===== src/Tests/Sending.antt =====
-- The nonces of transactions at concrete inputs. The world counts the queries to the chain.
use r.Base.{ℕ, suc, ◌≡◌, refl, String, List, [], ◌∷◌, Outcome, ok, insert, arith}
use r.Base.{lookup}
use r.Evm.Types.{Address}
use r.Evm.Nonces.{Nonces, address_eq, get_next_nonce, reset_nonce}
use r.Evm.Nonces.Order.{
  next_of, reset_of, Operation, operate_all, get_next_nonce_consecutive, get_next_nonce-reset_nonce,
}

abbrev pending : Address → ℕ → Outcome ℕ String × ℕ
pending address w = (ok 5, suc w)

abbrev table : Nonces
table = (3, 5) ∷ []

given : get_next_nonce pending [] 3 0 ≡ (ok 5, (table, 1))
unfolding get_next_nonce lookup insert
given = refl

abbrev others : List Operation
others = next_of 4 ∷ reset_of 4 ∷ []

get_next_nonce_consecutive_example :
    let between = (operate_all pending others (table, 1)).0 in
    get_next_nonce pending between 3 7 ≡ (ok 6, (insert 3 6 between, 7))
get_next_nonce_consecutive_example =
    get_next_nonce_consecutive pending [] 3 0 5 table 1 others 7 given (ground arith)
      ((λ e. cc e), ((λ e. cc e), tt))

get_next_nonce-reset_nonce_example :
    let result = get_next_nonce pending (reset_nonce table 3) 3 1 in
    (result.0 ≡ (pending 3 1).0) × (result.1.1 ≡ (pending 3 1).1)
get_next_nonce-reset_nonce_example = get_next_nonce-reset_nonce pending table 3 1
