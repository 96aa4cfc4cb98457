-- ===== src/Evm/Nonces/Order.antt =====
-- The order of an address's nonces, whatever happens to other addresses in between.
use r.Base.{
  ℕ, suc, ◌<◌, ◌≡◌, ◌≢◌, refl, sym, ap, ◌∙◌, inl, inr, Option, none, some, Option-cases, List, [],
  ◌∷◌, All, Outcome, ok, err, ◌==◌, =?_refl, =?-eq-false, lookup, insert, lookup-insert, arith,
}
use r.Base.Text.{u64_max}
use r.Evm.Types.{Address}
use r.Evm.Time.{add_u64}
use r.Evm.Nonces.{
  address_eq, Nonces, unfetched, last_nonce, entered, reset_nonce, stored, get_next_nonce,
}
use r.Base.{false}

-- The operations on the table.
pub data Operation : Type 0 where
  next_of reset_of : Address → Operation

abbrev pub IsAbout : Address → Operation → Type 0
IsAbout a (next_of b) = b ≡ a
IsAbout a (reset_of b) = b ≡ a

lookup-insert_other :
    (b a : Address) (n : ℕ) (nonces : Nonces)
    → b ≢ a
    → lookup a (insert b n nonces) ≡ lookup a nonces
lookup-insert_other b a n nonces ne = rw (lookup-insert b a n nonces, =?-eq-false b a ne)

lookup-entered :
    (b a : Address) (known : Option ℕ) (nonces : Nonces)
    → b ≢ a
    → lookup a (entered b known nonces) ≡ lookup a nonces
lookup-entered b a none nonces ne = lookup-insert_other b a unfetched nonces ne
lookup-entered b a (some n) nonces ne = refl

lookup-stored :
    {World E : Type 0} (b a : Address) (nonces : Nonces) (r : Outcome ℕ E × World)
    → b ≢ a
    → lookup a (stored b nonces r).1.0 ≡ lookup a nonces
lookup-stored b a nonces (ok n, w) ne = lookup-insert_other b a n nonces ne
lookup-stored b a nonces (err e, w) ne = refl

stored-eq-ok :
    {World E : Type 0} (a : Address) (nonces : Nonces) (r : Outcome ℕ E × World) {n : ℕ}
    {m : Nonces} {v : World}
    → stored a nonces r ≡ (ok n, (m, v))
    → lookup a m ≡ some n
stored-eq-ok a nonces (err e, w) h = cc (ap (λ x. x.0) h)
stored-eq-ok a nonces (ok k, w) {n} h =
    let same : k ≡ n = cc (ap (λ x. x.0) h) in
    ap (λ x. lookup a x.1.0) (sym h) ∙ lookup-insert a a k nonces ∙ rw (=?_refl a) (ap some same)

stored_lem :
    {World E : Type 0} (a : Address) (nonces : Nonces) (r : Outcome ℕ E × World)
    → ((stored a nonces r).0 ≡ r.0) × ((stored a nonces r).1.1 ≡ r.1)
stored_lem a nonces (ok n, w) = (refl, refl)
stored_lem a nonces (err e, w) = (refl, refl)

last_nonce-reset_nonce :
    (nonces : Nonces) (a : Address) → last_nonce (lookup a (reset_nonce nonces a)) ≡ unfetched
unfolding reset_nonce
last_nonce-reset_nonce nonces a = elim (Option-cases (lookup a nonces)) [
  | inl missed ↦ rw (missed, missed)
  | inr (n, found) ↦ rw (found, lookup-insert a a unfetched nonces, =?_refl a)
]

module _ {World E : Type 0} (pending : Address → World → Outcome ℕ E × World) where
  abbrev pub operate : Operation → Nonces × World → Nonces × World
  operate (next_of b) (nonces, w) = (get_next_nonce pending nonces b w).1
  operate (reset_of b) (nonces, w) = (reset_nonce nonces b, w)

  -- Operations one after the other.
  unfoldable pub operate_all : List Operation → Nonces × World → Nonces × World
  operate_all [] s = s
  operate_all (op ∷ ops) s = operate_all ops (operate op s)

  lookup-operate :
      (a : Address) (op : Operation) (s : Nonces × World)
      → ¬ IsAbout a op
      → lookup a (operate op s).0 ≡ lookup a s.0
  unfolding get_next_nonce reset_nonce
  lookup-operate a (next_of b) (nonces, w) other =
      lookup-stored b a (entered b (lookup b nonces) nonces) _ other
      ∙ lookup-entered b a (lookup b nonces) nonces other
  lookup-operate a (reset_of b) (nonces, w) other = elim (Option-cases (lookup b nonces)) [
    | inl missed ↦ rw missed
    | inr (n, found) ↦ rw found (lookup-insert_other b a unfetched nonces other)
  ]

  lookup-operate_all :
      (a : Address) (ops : List Operation) (s : Nonces × World)
      → All (λ op. ¬ IsAbout a op) ops
      → lookup a (operate_all ops s).0 ≡ lookup a s.0
  unfolding operate_all
  lookup-operate_all a [] s _ = refl
  lookup-operate_all a (op ∷ ops) s (here, later) =
      lookup-operate_all a ops (operate op s) later ∙ lookup-operate a op s here

  get_next_nonce_known :
      (nonces : Nonces) (a : Address) (n : ℕ) (w : World)
      → lookup a nonces ≡ some n
      → n < u64_max
      → get_next_nonce pending nonces a w ≡ (ok (suc n), (insert a (suc n) nonces, w))
  unfolding get_next_nonce
  get_next_nonce_known nonces a n w found small =
      let known : (n == unfetched) ≡ false = ground (arith, small) in
      let next : add_u64 n 1 ≡ suc n = ground (arith, small) in rw (found, known, next)

  -- After an address was given the nonce `n`, and whatever is done for other addresses meanwhile,
  -- its next nonce is `n + 1`, which is given without asking the chain.
  pub get_next_nonce_consecutive :
      (nonces : Nonces) (a : Address) (w : World) (n : ℕ) (m : Nonces) (v : World)
      (ops : List Operation) (u : World)
      → get_next_nonce pending nonces a w ≡ (ok n, (m, v))
      → n < u64_max
      → All (λ op. ¬ IsAbout a op) ops
      → let others = (operate_all ops (m, v)).0 in
        get_next_nonce pending others a u ≡ (ok (suc n), (insert a (suc n) others, u))
  unfolding get_next_nonce
  get_next_nonce_consecutive nonces a w n m v ops u given small others =
      get_next_nonce_known (operate_all ops (m, v)).0 a n u
        (lookup-operate_all a ops (m, v) others ∙ stored-eq-ok a _ _ given) small

  get_next_nonce-unfetched :
      (nonces : Nonces) (a : Address) (w : World)
      → last_nonce (lookup a nonces) ≡ unfetched
      → let result = get_next_nonce pending nonces a w in
        (result.0 ≡ (pending a w).0) × (result.1.1 ≡ (pending a w).1)
  unfolding get_next_nonce
  get_next_nonce-unfetched nonces a w none_known =
      rw none_known (stored_lem a (entered a (lookup a nonces) nonces) (pending a w))

  -- After a reset the next nonce is the one that the chain gives, or its error, whatever the table
  -- held before.
  pub get_next_nonce-reset_nonce :
      (nonces : Nonces) (a : Address) (w : World)
      → let result = get_next_nonce pending (reset_nonce nonces a) a w in
        (result.0 ≡ (pending a w).0) × (result.1.1 ≡ (pending a w).1)
  get_next_nonce-reset_nonce nonces a w =
      get_next_nonce-unfetched (reset_nonce nonces a) a w (last_nonce-reset_nonce nonces a)
