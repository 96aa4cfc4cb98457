-- ===== src/Client/Selection/Preference.antt =====
-- Which candidate the preference of chains selects.
use r.Base.{
  ◌≡◌, refl, ap, ◌∙◌, ◌↔◌, inl, inr, Bool, Bool-cases, none, some, Option-cases, List, [], ◌∷◌,
  ◌++◌, Memᴰ, Memᴰ-cases, first, find, false,
}
use r.Chain.Pattern.{ChainIdPattern, matches}
use r.Client.Selection.{PaymentCandidate, prefer_chain}

module _ {A : Type 0} (test : A → Bool) where
  find-eq-none : (xs : List A) → find test xs ≡ none → (x : A) → Memᴰ x xs → test x ≡ false
  find-eq-none [] h x m = elim m [ ]
  find-eq-none (y ∷ xs) h x m = elim (Bool-cases (test y)) [
    | inl hit ↦ let clash : some y ≡ none = rw hit at h in cc clash
    | inr missed ↦ elim (Memᴰ-cases m) [
      | inl e ↦ ap test e ∙ missed
      | inr later ↦ find-eq-none xs (rw missed at h) x later
    ]
  ]

  none-find : (xs : List A) → ((x : A) → Memᴰ x xs → test x ≡ false) → find test xs ≡ none
  none-find [] h = refl
  none-find (y ∷ xs) h = rw (h y (Memᴰ.head refl)) (none-find xs (λ x m. h x (Memᴰ.tail m)))

module _ {World : Type 0} (candidates : List (PaymentCandidate World)) where
  -- None of the patterns matches a candidate.
  abbrev pub AreIdle : List ChainIdPattern → Type 0
  AreIdle patterns =
      (q : ChainIdPattern)
      → Memᴰ q patterns
      → (d : PaymentCandidate World) → Memᴰ d candidates
      → matches q d.chain_id ≡ false

  -- The candidate is the first that is matched by the first pattern to match any; or no pattern
  -- matches any, and it is the first.
  pub data Prefers (patterns : List ChainIdPattern) (c : PaymentCandidate World) : Type 0 where
    by_pattern :
        (pre post : List ChainIdPattern) (pattern : ChainIdPattern)
        → patterns ≡ pre ++ pattern ∷ post
        → AreIdle pre
        → find (λ d. matches pattern d.chain_id) candidates ≡ some c
        → Prefers patterns c
    by_default : AreIdle patterns → first candidates ≡ some c → Prefers patterns c

  idle_cons :
      (pattern : ChainIdPattern) (patterns : List ChainIdPattern)
      → find (λ d. matches pattern d.chain_id) candidates ≡ none
      → AreIdle patterns
      → AreIdle (pattern ∷ patterns)
  idle_cons pattern patterns missed idle q m d own = elim (Memᴰ-cases m) [
    | inl e ↦
        ap (λ p. matches p d.chain_id) e
        ∙ find-eq-none (λ k. matches pattern k.chain_id) candidates missed d own
    | inr later ↦ idle q later d own
  ]

  Prefers-cons :
      (pattern : ChainIdPattern) (patterns : List ChainIdPattern) {c : PaymentCandidate World}
      → find (λ d. matches pattern d.chain_id) candidates ≡ none
      → Prefers patterns c
      → Prefers (pattern ∷ patterns) c
  Prefers-cons pattern patterns missed (by_pattern pre post p parts idle found) =
      by_pattern (pattern ∷ pre) post p (ap (λ l. pattern ∷ l) parts)
        (idle_cons pattern pre missed idle) found
  Prefers-cons pattern patterns missed (by_default idle found) =
      by_default (idle_cons pattern patterns missed idle) found

  sound :
      (patterns : List ChainIdPattern) {c : PaymentCandidate World}
      → prefer_chain patterns candidates ≡ some c
      → Prefers patterns c
  unfolding prefer_chain
  sound [] h = by_default (λ q m. elim m [ ]) h
  sound (p ∷ ps) {c} h = elim (Option-cases (find (λ d. matches p d.chain_id) candidates)) [
    | inl missed ↦ Prefers-cons p ps missed (sound ps (rw missed at h))
    | inr (d, found) ↦
        let e : some d ≡ some c = rw found at h in
        by_pattern [] ps p refl (λ q m. elim m [ ]) (found ∙ e)
  ]

  skip :
      (pre rest : List ChainIdPattern)
      → AreIdle pre
      → prefer_chain (pre ++ rest) candidates ≡ prefer_chain rest candidates
  unfolding prefer_chain
  skip [] rest idle = refl
  skip (p ∷ pre) rest idle =
      rw (none-find (λ d. matches p d.chain_id) candidates (idle p (Memᴰ.head refl)))
        (skip pre rest (λ q m. idle q (Memᴰ.tail m)))

  complete :
      (patterns : List ChainIdPattern) {c : PaymentCandidate World}
      → Prefers patterns c
      → prefer_chain patterns candidates ≡ some c
  unfolding prefer_chain
  complete patterns (by_pattern pre post p parts idle found) =
      rw (parts, skip pre (p ∷ post) idle, found)
  complete [] (by_default idle found) = found
  complete (p ∷ ps) (by_default idle found) =
      rw (none-find (λ d. matches p d.chain_id) candidates (idle p (Memᴰ.head refl)))
        (complete ps (by_default (λ q m. idle q (Memᴰ.tail m)) found))

  -- The preference selects a candidate exactly if it is the first candidate of the first pattern
  -- that matches any, or the very first where no pattern matches any.
  pub prefer_chain_iff :
      (patterns : List ChainIdPattern) (c : PaymentCandidate World)
      → (prefer_chain patterns candidates ≡ some c) ↔ Prefers patterns c
  prefer_chain_iff patterns c = (sound patterns, complete patterns)
