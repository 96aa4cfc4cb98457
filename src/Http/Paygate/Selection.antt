-- ===== src/Http/Paygate/Selection.antt =====
-- The request that the payment gate sends to its facilitator.
use r.Base.{
  map_err, map_err-eq-ok, ◌≡◌, ap, ◌∙◌, inl, inr, true, Bool, some, List, [], ◌∷◌, Memᴰ, Outcome,
  ok, err, find, Bool-cases, Option-cases,
}
use r.Proto.V2.{PriceTag, SameTerms, tag_eq, tag_eq_iff}
use r.Http.Platform.{Platform, WirePayload}
use r.Http.Paygate.{make_verify_request, requested, no_payment_matching, verification_failed}
use r.Base.{Memᴰ-cases}
use r.Base.{sym}
use r.Base.{◌≢◌}
use r.Base.{String}

module _ {A : Type 0} (test : A → Bool) where
  find-eq-some : (xs : List A) {x : A} → find test xs ≡ some x → Memᴰ x xs × (test x ≡ true)
  find-eq-some [] h = cc
  find-eq-some (y ∷ xs) {x} h = elim (Bool-cases (test y)) [
    | inl hit ↦
        let e : some y ≡ some x = rw hit at h in
        let same : y ≡ x = cc e in (Memᴰ.head (sym same), ap test (sym same) ∙ hit)
    | inr missed ↦ let (m, t) = find-eq-some xs (rw missed at h) in (Memᴰ.tail m, t)
  ]

  find-of-mem :
      (xs : List A) {x : A} → Memᴰ x xs → test x ≡ true → (y : A) × (find test xs ≡ some y)
  find-of-mem [] m t = elim m [ ]
  find-of-mem (y ∷ xs) m t = elim (Bool-cases (test y)) [
    | inl hit ↦ (y, rw hit)
    | inr missed ↦ elim (Memᴰ-cases m) [
      | inl e ↦ let clash : test y ≡ true = ap test (sym e) ∙ t in cc
      | inr n ↦ let (z, found) = find-of-mem xs n t in (z, rw missed found)
    ]
  ]

map_err-ne :
    {A : Type 0} (r : Outcome A String) → map_err verification_failed r ≢ err no_payment_matching
map_err-ne (ok a) h = cc
map_err-ne (err e) h = cc

module _ (platform : Platform) {Handle : Type 0} where
  open platform use {Value, Request, to_value}

  -- The terms that the facilitator is asked to check a payment against are those of one of the
  -- gate's own price tags, and they are the terms that the payer accepted.
  pub record IsOwnTerms (accepts : List (PriceTag Handle Value)) (payload : WirePayload Value)
      (request : Value) : Type 0 where
    pub tag : PriceTag Handle Value
    pub own : Memᴰ tag accepts
    pub same : SameTerms tag.requirements payload.accepted
    pub sent :
        to_value (record { payment_payload = payload; payment_requirements = tag.requirements })
        ≡ ok request

  -- Whenever a request for the facilitator is made, it asks for the gate's own terms that the payer
  -- accepted.
  pub make_verify_request-IsOwnTerms :
      (payload : WirePayload Value) (accepts : List (PriceTag Handle Value)) (request : Value)
      → make_verify_request platform payload accepts ≡ ok request
      → IsOwnTerms accepts payload request
  unfolding make_verify_request
  make_verify_request-IsOwnTerms payload accepts request h =
      elim (Option-cases (find (λ tag. tag_eq tag payload.accepted) accepts)) [
        | inl missed ↦ let e : err no_payment_matching ≡ ok request = rw missed at h in cc e
        | inr (tag, found) ↦
            let (own, same) = find-eq-some (λ t. tag_eq t payload.accepted) accepts found in
            let e : requested platform payload tag ≡ ok request = rw found at h in
            record {
              tag = tag;
              own = own;
              same = (tag_eq_iff tag payload.accepted).0 same;
              sent = map_err-eq-ok _ _ e;
            }
      ]

  -- A payment that accepts terms which the gate offers is never refused for want of matching terms.
  pub offered_terms-match :
      (payload : WirePayload Value) (accepts : List (PriceTag Handle Value))
      (tag : PriceTag Handle Value)
      → Memᴰ tag accepts
      → SameTerms tag.requirements payload.accepted
      → make_verify_request platform payload accepts ≢ err no_payment_matching
  unfolding make_verify_request
  offered_terms-match payload accepts tag own same h =
      let (chosen, found) =
        find-of-mem (λ t. tag_eq t payload.accepted) accepts own
          ((tag_eq_iff tag payload.accepted).1 same) in
      let e : requested platform payload chosen ≡ err no_payment_matching = rw found at h in
      map_err-ne _ e
