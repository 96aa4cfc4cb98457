-- ===== src/Client/Payment/Limits.antt =====
-- The policies bound what a client signs.
use mathlib.Core.Path.{subst}
use r.Base.{
  String, Outcome-cases, ℕ, ◌≡◌, sym, ap, ◌∙◌, inl, inr, Option, none, some, List, [], ◌∷◌, Memᴰ,
  Memᴰ-cases, Outcome, ok, err, ok_or, All, >>=-eq-ok,
}
use r.Base.Actions.{Action-cases}
use r.Proto.V2.{PaymentRequired}
use r.Http.Platform.{Platform}
use r.Client.Selection.{
  PaymentCandidate, PaymentSelector, PaymentPolicy, ClientError, no_matching_payment_option,
  max_amount_policy, first_match,
}
use r.Client.Selection.Policies.{IsWithin, max_amount_policy_iff}
use r.Client.Payment.{
  X402Client, Headers, candidates, apply_policies, unless_empty, signature_headers, choose,
  create_payment_headers_inner,
}

ok_or-eq-ok : {A E : Type 0} (e : E) (o : Option A) {a : A} → ok_or e o ≡ ok a → o ≡ some a
ok_or-eq-ok e none h = cc
ok_or-eq-ok e (some b) h = let same : b ≡ _ = cc h in ap some same

module _ {World : Type 0} where
  -- The policy adds no candidate.
  abbrev pub IsNarrowing : PaymentPolicy World → Type 0
  IsNarrowing policy =
      (cs : List (PaymentCandidate World)) (c : PaymentCandidate World)
      → Memᴰ c (policy cs)
      → Memᴰ c cs

  -- The selector selects one of the candidates that it is given.
  abbrev pub IsChoice : PaymentSelector World → Type 0
  IsChoice selector =
      (cs : List (PaymentCandidate World)) (c : PaymentCandidate World)
      → selector cs ≡ some c
      → Memᴰ c cs

  pub first_match-IsChoice : IsChoice first_match
  unfolding first_match
  first_match-IsChoice [] c h = cc
  first_match-IsChoice (d ∷ ds) c h = let same : d ≡ c = cc h in Memᴰ.head (sym same)

  not_empty :
      (cs : List (PaymentCandidate World))
      (rest : Outcome (List (PaymentCandidate World)) ClientError)
      {left : List (PaymentCandidate World)}
      → unless_empty cs rest ≡ ok left
      → rest ≡ ok left
  not_empty [] rest h = cc
  not_empty (c ∷ cs) rest h = h

  narrowed :
      (policies : List (PaymentPolicy World)) (cs left : List (PaymentCandidate World))
      → All IsNarrowing policies
      → apply_policies policies cs ≡ ok left
      → (c : PaymentCandidate World) → Memᴰ c left
      → Memᴰ c cs
  unfolding apply_policies
  narrowed [] cs left _ h c m = let same : cs ≡ left = cc h in subst (λ l. Memᴰ c l) (sym same) m
  narrowed (policy ∷ policies) cs left (here, later) h c m =
      here cs c (narrowed policies (policy cs) left later (not_empty (policy cs) _ h) c m)

  limited :
      (limit : ℕ) (policies : List (PaymentPolicy World)) (cs left : List (PaymentCandidate World))
      → All IsNarrowing policies
      → Memᴰ (max_amount_policy limit) policies
      → apply_policies policies cs ≡ ok left
      → (c : PaymentCandidate World) → Memᴰ c left
      → IsWithin limit c
  unfolding apply_policies
  limited limit [] cs left _ own h c m = elim own [ ]
  limited limit (policy ∷ policies) cs left (here, later) own h c m =
      let rest = not_empty (policy cs) _ h in
      elim (Memᴰ-cases own) [
        | inl same ↦
            let kept = narrowed policies (policy cs) left later rest c m in
            ((max_amount_policy_iff limit cs c).0 (subst (λ p. Memᴰ c (p cs)) (sym same) kept)).1
        | inr below ↦ limited limit policies (policy cs) left later below rest c m
      ]

module _ (platform : Platform) {World : Type 0}
    (client : X402Client World platform.Value platform.Bytes)
    (required : PaymentRequired platform.Value) (limit : ℕ) where
  -- One of the candidates of the client's schemes was signed, and its amount is within the limit.
  pub record IsBounded (w v : World) : Type 0 where
    pub candidate : PaymentCandidate World
    pub own : Memᴰ candidate (candidates client.schemes required)
    pub within : IsWithin limit candidate
    pub signed_payload : String
    pub signed : candidate.sign w ≡ (ok signed_payload, v)

  chosen-IsWithin :
      (c : PaymentCandidate World)
      → All IsNarrowing client.policies
      → IsChoice client.selector
      → Memᴰ (max_amount_policy limit) client.policies
      → choose client required ≡ ok c
      → Memᴰ c (candidates client.schemes required) × IsWithin limit c
  unfolding choose
  chosen-IsWithin c narrowing choice own h =
      let all = candidates client.schemes required in
      let (left, applied, selected) = >>=-eq-ok (apply_policies client.policies all) _ h in
      let among =
        choice left c (ok_or-eq-ok no_matching_payment_option (client.selector left) selected) in
      (
        narrowed client.policies all left narrowing applied c among,
        limited limit client.policies all left narrowing own applied c among,
      )

  -- Whatever the client pays for a server's terms is within its policy's limit, if its policies add
  -- no candidates and its selector selects among those it is given; then one candidate was signed,
  -- and nothing else was called.
  pub created-IsBounded :
      (w v : World) (headers : Option (Headers platform.Bytes))
      → All IsNarrowing client.policies
      → IsChoice client.selector
      → Memᴰ (max_amount_policy limit) client.policies
      → create_payment_headers_inner platform client required w ≡ (ok headers, v)
      → IsBounded w v
  unfolding create_payment_headers_inner
  created-IsBounded w v headers narrowing choice own h =
      elim (Outcome-cases (choose client required)) [
        | inr (e, refused) ↦
            let clash : ◌≡◌ {A = Outcome (Option (Headers platform.Bytes)) ClientError × World}
                (err e, w) (ok headers, v) =
              rw refused at h in
            cc (ap (λ x. x.0) clash)
        | inl (c, chosen) ↦ elim (Action-cases (c.sign w)) [
          | inr (e, u, failed) ↦
              let clash : ◌≡◌ {A = Outcome (Option (Headers platform.Bytes)) ClientError × World}
                  (err e, u) (ok headers, v) =
                rw (chosen, failed) at h in
              cc (ap (λ x. x.0) clash)
          | inl (text, u, signed) ↦
              let done : ◌≡◌ {A = Outcome (Option (Headers platform.Bytes)) ClientError × World}
                  (ok (signature_headers platform (platform.parse_header text)), u)
                  (ok headers, v) =
                rw (chosen, signed) at h in
              let (among, within) = chosen-IsWithin c narrowing choice own chosen in
              record {
                candidate = c;
                own = among;
                within = within;
                signed_payload = text;
                signed = signed ∙ ap (λ t. (ok text, t)) (ap (λ x. x.1) done);
              }
        ]
      ]
