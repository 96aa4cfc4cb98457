-- ===== src/Chain/Registry.antt =====
-- `ChainRegistry` of r402/src/chain.rs. The map is a list in the order in which it iterates.
use r.Base.{
  ◌≡◌, ◌≢◌, refl, ap, ◌↔◌, inl, inr, true, if◌then◌else◌, Bool-cases, Option, none, some, List, [],
  ◌∷◌, All, lookup, arith, Memᴰ, Memᴰ-cases,
}
use r.Chain.Id.{ChainId, chain_id_eq, chain_id_beq, chain_id_beq_iff}
use r.Chain.Pattern.{ChainIdPattern, matches, of_chain_id}

module _ {P : Type 0} where
  unfoldable pub by_chain_id : List (ChainId × P) → ChainId → Option P
  by_chain_id registry c = lookup c registry

  unfoldable pub by_chain_id_pattern : List (ChainId × P) → ChainIdPattern → List P
  by_chain_id_pattern [] pattern = []
  by_chain_id_pattern ((c, provider) ∷ rest) pattern =
      let found = by_chain_id_pattern rest pattern in
      if matches pattern c then provider ∷ found else found

-- The exact pattern of a chain is the equality test with it.
matches-of_chain_id : (c d : ChainId) → matches (of_chain_id c) d ≡ chain_id_beq d c
unfolding matches chain_id_beq
matches-of_chain_id c d = refl

module _ {P : Type 0} where
  -- The keys of a hash map are distinct.
  abbrev pub Keyed : List (ChainId × P) → Type 0
  Keyed [] = Unit
  Keyed ((c, provider) ∷ rest) = All (λ e. e.0 ≢ c) rest × Keyed rest

  abbrev pub to_list : Option P → List P
  to_list none = []
  to_list (some p) = p ∷ []

  unlisted :
      (registry : List (ChainId × P)) (c : ChainId)
      → All (λ e. e.0 ≢ c) registry
      → by_chain_id_pattern registry (of_chain_id c) ≡ []
  unfolding by_chain_id_pattern
  unlisted [] c _ = refl
  unlisted ((d, p) ∷ rest) c (ne, h) =
      rw (matches-of_chain_id c d) (ground (arith, chain_id_beq_iff d c, unlisted rest c h))

  -- The lookup by the exact pattern of a chain gives what the lookup by that chain gives.
  pub by_chain_id_pattern-of_chain_id :
      (registry : List (ChainId × P)) (c : ChainId)
      → Keyed registry
      → by_chain_id_pattern registry (of_chain_id c) ≡ to_list (by_chain_id registry c)
  unfolding by_chain_id_pattern by_chain_id lookup
  by_chain_id_pattern-of_chain_id [] c _ = refl
  by_chain_id_pattern-of_chain_id ((d, p) ∷ rest) c (apart, keyed) =
      rw (matches-of_chain_id c d) (elim (Bool-cases (chain_id_beq d c)) [
        | inl same ↦
            let e : d ≡ c = (chain_id_beq_iff d c).0 same in
            rw same (ap (λ l. p ∷ l) (unlisted rest c (rw e at apart)))
        | inr other ↦ rw other (by_chain_id_pattern-of_chain_id rest c keyed)
      ])

  found-registered :
      (registry : List (ChainId × P)) (pattern : ChainIdPattern) (p : P)
      → Memᴰ p (by_chain_id_pattern registry pattern)
      → (c : ChainId) × (matches pattern c ≡ true) × Memᴰ (c, p) registry
  unfolding by_chain_id_pattern
  found-registered [] pattern p m = elim m [ ]
  found-registered ((d, q) ∷ rest) pattern p m =
      let further : Memᴰ p (by_chain_id_pattern rest pattern)
          → (c : ChainId) × (matches pattern c ≡ true) × Memᴰ (c, p) ((d, q) ∷ rest) =
        λ n.
          let (c, hit, listed) = found-registered rest pattern p n in (c, hit, Memᴰ.tail listed) in
      elim (Bool-cases (matches pattern d)) [
        | inl hit ↦ elim (Memᴰ-cases (rw hit at m)) [
          | inl e ↦ (d, hit, Memᴰ.head (ap (λ x. (d, x)) e))
          | inr n ↦ further n
        ]
        | inr missed ↦ further (rw missed at m)
      ]

  registered-found :
      (registry : List (ChainId × P)) (pattern : ChainIdPattern) (c : ChainId) (p : P)
      → matches pattern c ≡ true
      → Memᴰ (c, p) registry
      → Memᴰ p (by_chain_id_pattern registry pattern)
  unfolding by_chain_id_pattern
  registered-found [] pattern c p hit m = elim m [ ]
  registered-found ((d, q) ∷ rest) pattern c p hit (Memᴰ.head e) =
      rw (← ap (λ x. x.0) e, hit) (Memᴰ.head (ap (λ x. x.1) e))
  registered-found ((d, q) ∷ rest) pattern c p hit (Memᴰ.tail m) =
      let n = registered-found rest pattern c p hit m in
      elim (Bool-cases (matches pattern d)) [
        | inl also ↦ rw also (Memᴰ.tail n)
        | inr not_it ↦ rw not_it n
      ]

  -- A pattern finds a provider exactly if the provider is registered for a chain that it matches.
  pub mem-by_chain_id_pattern_iff :
      (registry : List (ChainId × P)) (pattern : ChainIdPattern) (p : P)
      → Memᴰ p (by_chain_id_pattern registry pattern)
        ↔ ((c : ChainId) × (matches pattern c ≡ true) × Memᴰ (c, p) registry)
  mem-by_chain_id_pattern_iff registry pattern p = (
    found-registered registry pattern p,
    (λ found. registered-found registry pattern found.0 p found.1 found.2),
  )
