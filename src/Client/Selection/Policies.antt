-- ===== src/Client/Selection/Policies.antt =====
-- Which candidates the policies keep.
use r.Base.{
  String, ℕ, ◌≤◌, ◌≡◌, ap, sym, ◌∙◌, refl, ◌↔◌, inl, inr, Bool, true, false, none, some,
  Option-cases, leb, List, [], ◌∷◌, Memᴰ, Memᴰ-cases, any, filter, Bool-cases, ◌=?◌, string_eq,
  eq_iff, arith,
}
use mathlib.Core.Path.{subst}
use r.Base.Text.{parse_uint, u128_max}
use r.Chain.Pattern.{ChainIdPattern, matches}
use r.Chain.Pattern.Matching.{Covers, matches_iff}
use r.Client.Selection.{
  PaymentCandidate, is_within, network_policy, scheme_policy, max_amount_policy,
}

module _ {ℓ} {A : Type ℓ} (test : A → Bool) where
  filter_sound : (xs : List A) {x : A} → Memᴰ x (filter test xs) → Memᴰ x xs × (test x ≡ true)
  filter_sound [] m = elim m [ ]
  filter_sound (y ∷ xs) {x} m = elim (Bool-cases (test y)) [
    | inr out ↦
        let n : Memᴰ x (filter test xs) = rw out at m in
        let (k, t) = filter_sound xs n in (Memᴰ.tail k, t)
    | inl kept ↦
        let n : Memᴰ x (y ∷ filter test xs) = rw kept at m in
        elim (Memᴰ-cases n) [
          | inl e ↦ (Memᴰ.head e, ap test e ∙ kept)
          | inr later ↦ let (k, t) = filter_sound xs later in (Memᴰ.tail k, t)
        ]
  ]

  filter_complete : (xs : List A) {x : A} → Memᴰ x xs → test x ≡ true → Memᴰ x (filter test xs)
  filter_complete [] m t = elim m [ ]
  filter_complete (y ∷ xs) m t = elim (Memᴰ-cases m) [
    | inl e ↦ let kept : test y ≡ true = ap test (sym e) ∙ t in rw kept (Memᴰ.head e)
    | inr later ↦ elim (Bool-cases (test y)) [
      | inl kept ↦ rw kept (Memᴰ.tail (filter_complete xs later t))
      | inr out ↦ rw out (filter_complete xs later t)
    ]
  ]

  pub mem-filter_iff :
      (xs : List A) (x : A) → Memᴰ x (filter test xs) ↔ (Memᴰ x xs × (test x ≡ true))
  mem-filter_iff xs x = (filter_sound xs, λ (m, t). filter_complete xs m t)

  any_sound : (xs : List A) → any test xs ≡ true → (x : A) × Memᴰ x xs × (test x ≡ true)
  any_sound [] h = cc
  any_sound (y ∷ xs) h = elim (Bool-cases (test y)) [
    | inl hit ↦ (y, Memᴰ.head refl, hit)
    | inr missed ↦
        let rest : any test xs ≡ true = rw missed at h in
        let (x, m, t) = any_sound xs rest in (x, Memᴰ.tail m, t)
  ]

  any_complete : (xs : List A) (x : A) → Memᴰ x xs → test x ≡ true → any test xs ≡ true
  any_complete [] x m t = elim m [ ]
  any_complete (y ∷ xs) x m t = elim (Memᴰ-cases m) [
    | inl e ↦ let hit : test y ≡ true = ap test (sym e) ∙ t in rw hit
    | inr later ↦ elim (Bool-cases (test y)) [
      | inl hit ↦ rw hit
      | inr missed ↦ rw missed (any_complete xs x later t)
    ]
  ]

module _ {World : Type 0} where
  -- The candidate's amount is a number of at most 128 bits and within the limit.
  pub record IsWithin (limit : ℕ) (c : PaymentCandidate World) : Type 0 where
    pub amount : ℕ
    pub is_amount : parse_uint u128_max c.amount ≡ some amount
    pub within : amount ≤ limit

  is_within_iff :
      (limit : ℕ) (c : PaymentCandidate World) → (is_within limit c ≡ true) ↔ IsWithin limit c
  unfolding is_within
  is_within_iff limit c = elim (Option-cases (parse_uint u128_max c.amount)) [
    | inl missed ↦ (
      (λ h. let clash : false ≡ true = rw missed at h in cc clash),
      (λ w. let clash : none ≡ some w.amount = sym missed ∙ w.is_amount in cc clash),
    )
    | inr (a, found) ↦ (
      (λ h.
          let small : leb a limit ≡ true = rw found at h in
          record { amount = a; is_amount = found; within = ground arith }),
      (λ w.
          let same : some a ≡ some w.amount = sym found ∙ w.is_amount in
          let e : a ≡ w.amount = cc same in
          let small : leb a limit ≡ true = ground (arith, e, w.within) in rw found small),
    )
  ]

  -- The policy of a greatest amount keeps exactly the candidates within it.
  pub max_amount_policy_iff :
      (limit : ℕ) (candidates : List (PaymentCandidate World)) (c : PaymentCandidate World)
      → Memᴰ c (max_amount_policy limit candidates) ↔ (Memᴰ c candidates × IsWithin limit c)
  unfolding max_amount_policy
  max_amount_policy_iff limit candidates c =
      let (to, from) = mem-filter_iff (is_within limit) candidates c in
      let (read, write) = is_within_iff limit c in
      ((λ m. ((to m).0, read (to m).1)), λ (m, w). from (m, write w))

  -- The policy of networks keeps exactly the candidates on a chain that one of its patterns covers.
  pub network_policy_iff :
      (patterns : List ChainIdPattern) (candidates : List (PaymentCandidate World))
      (c : PaymentCandidate World)
      → Memᴰ c (network_policy patterns candidates) ↔ (
          Memᴰ c candidates
          × ((pattern : ChainIdPattern) × Memᴰ pattern patterns × Covers pattern c.chain_id))
  unfolding network_policy
  network_policy_iff patterns candidates c =
      let test =
        λ (d : PaymentCandidate World). any (λ pattern. matches pattern d.chain_id) patterns in
      let (to, from) = mem-filter_iff test candidates c in
      (
        (λ m.
            let (p, own, hit) =
              any_sound (λ pattern. matches pattern c.chain_id) patterns (to m).1 in
            ((to m).0, (p, own, (matches_iff p c.chain_id).0 hit))),
        λ (m, (p, own, covers)). from (
          m,
          any_complete (λ pattern. matches pattern c.chain_id) patterns p own
              ((matches_iff p c.chain_id).1 covers),
        ),
      )

  -- The policy of schemes keeps exactly the candidates of a scheme that it names.
  pub scheme_policy_iff :
      (schemes : List String) (candidates : List (PaymentCandidate World))
      (c : PaymentCandidate World)
      → Memᴰ c (scheme_policy schemes candidates) ↔ (Memᴰ c candidates × Memᴰ c.scheme schemes)
  unfolding scheme_policy
  scheme_policy_iff schemes candidates c =
      let test = λ (d : PaymentCandidate World). any (λ s. s =? d.scheme) schemes in
      let (to, from) = mem-filter_iff test candidates c in
      (
        (λ m.
            let (s, own, hit) = any_sound (λ s. s =? c.scheme) schemes (to m).1 in
            ((to m).0, subst (λ k. Memᴰ k schemes) ((eq_iff s c.scheme).0 hit) own)),
        λ (m, own). from (
          m,
          any_complete (λ s. s =? c.scheme) schemes c.scheme own
              ((eq_iff c.scheme c.scheme).1 refl),
        ),
      )
