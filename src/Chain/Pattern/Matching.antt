-- ===== src/Chain/Pattern/Matching.antt =====
-- What a pattern matches.
use r.Base.{
  eq_refl, sym, ap, inl, inr, Bool-cases, String, ◌≡◌, ◌↔◌, true, arith, List, [], ◌∷◌, Memᴰ,
  contains, ◌=?◌, string_eq, eq_iff,
}
use r.Chain.Id.{ChainId}
use r.Chain.Pattern.{ChainIdPattern, wildcard, exact, set, matches}

-- The chains that a pattern stands for.
pub data Covers (p : ChainIdPattern) (c : ChainId) : Type 0 where
  any_chain : p ≡ wildcard c.namespace → Covers p c
  this_chain : p ≡ exact c.namespace c.reference → Covers p c
  listed_chain :
      (refs : List String) → p ≡ set c.namespace refs → Memᴰ c.reference refs → Covers p c

contains_sound : (refs : List String) (k : String) → contains refs k ≡ true → Memᴰ k refs
unfolding contains
contains_sound [] k h = cc
contains_sound (x ∷ xs) k h = elim (Bool-cases (x =? k)) [
  | inl same ↦ Memᴰ.head (sym ((eq_iff x k).0 same))
  | inr other ↦ Memᴰ.tail (contains_sound xs k (rw other at h))
]

contains_complete : (refs : List String) (k : String) → Memᴰ k refs → contains refs k ≡ true
unfolding contains
contains_complete [] k m = elim m [ ]
contains_complete (x ∷ xs) k (Memᴰ.head e) = rw ((eq_iff x k).1 (sym e))
contains_complete (x ∷ xs) k (Memᴰ.tail m) = ground (arith, contains_complete xs k m)

matches_sound : (p : ChainIdPattern) (c : ChainId) → matches p c ≡ true → Covers p c
unfolding matches
matches_sound (wildcard n) c h = any_chain (ap wildcard (sym ((eq_iff c.namespace n).0 h)))
matches_sound (exact n ref) c h =
    this_chain (ground (arith, eq_iff c.namespace n, eq_iff c.reference ref))
matches_sound (set n refs) c h =
    listed_chain refs (ground (arith, eq_iff c.namespace n))
      (contains_sound refs c.reference (ground arith))

matches_complete : (p : ChainIdPattern) (c : ChainId) → Covers p c → matches p c ≡ true
unfolding matches
matches_complete p c (any_chain e) = rw (e, matches) (eq_refl c.namespace)
matches_complete p c (this_chain e) =
    rw (e, matches) (ground (arith, eq_refl c.namespace, eq_refl c.reference))
matches_complete p c (listed_chain refs e m) =
    rw (e, matches) (ground (arith, eq_refl c.namespace, contains_complete refs c.reference m))

-- A pattern matches exactly the chains that it covers.
pub matches_iff : (p : ChainIdPattern) (c : ChainId) → (matches p c ≡ true) ↔ Covers p c
matches_iff p c = (matches_sound p c, matches_complete p c)
