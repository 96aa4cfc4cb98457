-- ===== src/Evm/Provider/Turns.antt =====
-- The signers take turns.
use native.Mathlib.Nat.{mod-lt, mod-eq_of_lt, mod-add-mod, add-mod_right}
use r.Base.{
  ℕ, zero, suc, ◌+◌, ◌-◌, ◌%◌, ◌^◌, ◌≤◌, ◌<◌, ◌≡◌, refl, sym, ap, ◌∙◌, inl, inr, true, false,
  Bool-cases, Option, some, List, [], ◌∷◌, Memᴰ, length, get_elem?, arith, ltb, ◌==◌, ==_iff,
}
use r.Evm.Types.{Address}
use r.Evm.Provider.{Eip155ChainProvider, advanced, next_signer_address}

-- The signer whose turn it is after a number of others'.
pub turn : ℕ → Eip155ChainProvider → Option Address
turn zero provider = (next_signer_address provider).0
turn (suc k) provider = turn k (next_signer_address provider).1

-- Every index is reached from every position.
cycle : (n c i : ℕ) → 0 < n → i < n → (k : ℕ) × (k < n) × ((c + k) % n ≡ i)
cycle n c i positive below =
    let r : ℕ = c % n in
    let small : r < n = mod-lt c positive in
    let shift : (k : ℕ) → (c + k) % n ≡ (r + k) % n = λ k. sym (mod-add-mod c n k) in
    elim (Bool-cases (ltb i r)) [
      | inl behind ↦
          let less : i < r = ground arith in
          (
            i + n - r,
            omega arith,
            shift (i + n - r)
                ∙ ap (λ x. x % n) (omega arith)
                ∙ add-mod_right i n
                ∙ mod-eq_of_lt below,
          )
      | inr ahead ↦
          let more : r ≤ i = ground arith in
          (i - r, omega arith, shift (i - r) ∙ ap (λ x. x % n) (omega arith) ∙ mod-eq_of_lt below)
    ]

turn_many :
    (k : ℕ) (provider : Eip155ChainProvider)
    → (length provider.signer_addresses == 1) ≡ false
    → provider.signer_cursor + k < 2 ^ 64
    → turn k provider
      ≡ get_elem? provider.signer_addresses
          ((provider.signer_cursor + k) % length provider.signer_addresses)
unfolding turn next_signer_address
turn_many zero provider many small =
    let sum : provider.signer_cursor + 0 ≡ provider.signer_cursor = omega arith in
    rw (turn, many, sum) refl
turn_many (suc k) provider many small =
    let step : advanced provider.signer_cursor ≡ provider.signer_cursor + 1 =
      mod-eq_of_lt (omega arith) in
    let rest =
      turn_many k (record provider { signer_cursor = provider.signer_cursor + 1 }) many
        (omega arith) in
    let sum : provider.signer_cursor + 1 + k ≡ provider.signer_cursor + suc k = omega arith in
    rw (many, step)
      (rest
        ∙ ap (λ x. get_elem? provider.signer_addresses (x % length provider.signer_addresses)) sum)

turn_single :
    (provider : Eip155ChainProvider)
    → (length provider.signer_addresses == 1) ≡ true
    → turn 0 provider ≡ get_elem? provider.signer_addresses 0
unfolding turn next_signer_address
turn_single provider one = rw (turn, one) refl

-- As long as the counter does not wrap around, every signer of a provider has its turn within as many
-- selections as there are signers, from whatever position the provider starts.
pub turn_of_each :
    (provider : Eip155ChainProvider) (i : ℕ)
    → provider.signer_cursor + length provider.signer_addresses ≤ 2 ^ 64
    → i < length provider.signer_addresses
    → (k : ℕ) × (k < length provider.signer_addresses)
      × (turn k provider ≡ get_elem? provider.signer_addresses i)
turn_of_each provider i fits below = elim (Bool-cases (length provider.signer_addresses == 1)) [
  | inl one ↦
      let single : length provider.signer_addresses ≡ 1 =
        (==_iff (length provider.signer_addresses) 1).0 one in
      let only : i ≡ 0 = omega arith in
      (
        0,
        omega arith,
        turn_single provider one ∙ ap (get_elem? provider.signer_addresses) (sym only),
      )
  | inr many ↦
      let (k, near, e) =
        cycle (length provider.signer_addresses) provider.signer_cursor i (omega arith) below in
      (
        k,
        near,
        turn_many k provider many (omega arith) ∙ ap (get_elem? provider.signer_addresses) e,
      )
]

get_elem?-some {ℓ} :
    {A : Type ℓ} (xs : List A) (i : ℕ)
    → i < length xs
    → (a : A) × (get_elem? xs i ≡ some a) × Memᴰ a xs
get_elem?-some [] i h = absurd (omega arith)
get_elem?-some (x ∷ xs) zero h = (x, refl, Memᴰ.head refl)
get_elem?-some (x ∷ xs) (suc i) h =
    let (a, e, m) = get_elem?-some xs i (omega arith) in (a, e, Memᴰ.tail m)

-- A provider with a signer always selects one of its signers, also where its counter wraps around,
-- and keeps its list of signers.
pub next_signer_address-Memᴰ :
    (provider : Eip155ChainProvider)
    → 0 < length provider.signer_addresses
    → let selected = next_signer_address provider in
      ((a : Address) × (selected.0 ≡ some a) × Memᴰ a provider.signer_addresses)
      × (selected.1.signer_addresses ≡ provider.signer_addresses)
unfolding next_signer_address
next_signer_address-Memᴰ provider positive =
    elim (Bool-cases (length provider.signer_addresses == 1)) [
      | inl one ↦ rw one (get_elem?-some provider.signer_addresses 0 positive, refl)
      | inr many ↦ rw many (
        get_elem?-some provider.signer_addresses
            (provider.signer_cursor % length provider.signer_addresses)
            (mod-lt provider.signer_cursor positive),
        refl,
      )
    ]
