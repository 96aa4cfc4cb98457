-- ===== src/Mcp/Server/Steps.antt =====
-- The steps of a paid call, spelled out.
use r.Base.{
  String, ℕ, ◌≡◌, ◌≢◌, refl, sym, ap, ◌∙◌, inl, inr, ◌↔◌, false, Bool-cases, Option, none, some,
  Option-cases, [], ◌∷◌, ok, map_err, map_err-eq-ok, >>=-eq-ok, lookup, insert, string_eq, ◌==◌,
  ne_of_==-eq-false, if◌then◌else◌, arith,
}
use mathlib.Core.Option
use mathlib.Core.Path.{subst}
use mathlib.Core.Option.{some-injective}
use r.Proto.V2.{WireRequirements}
use r.Proto.Settle.{SettleResponse, success, error, Extensions}
use r.Mcp.Types.{Json, Map, CallToolResult, ◌>=◌}
use r.Mcp.Server.{extract_payment_from_meta, build_verify_request, settled, with_settlement}

>=-eq-some :
    {A B : Type 0} (m : Option A) (k : A → Option B) {b : B}
    → (m >= k) ≡ some b
    → (a : A) × (m ≡ some a) × (k a ≡ some b)
>=-eq-some none k h = cc
>=-eq-some (some a) k h = (a, refl, h)

module _ (json : Json) where
  open json use {Value}

  rest_of :
      {A : Type 0} (version : ℕ) (payment : Value) (k : Value → Option A)
      → (version == 0) ≡ false
      → (a : A) → ((if version == 0 then none else some payment) >= k) ≡ some a
      → k payment ≡ some a
  rest_of version payment k p a h =
      subst (λ b. ((if b then none else some payment) >= k) ≡ some a) p h

  -- The metadata carries this payment: an object with a version that is not zero and a payload.
  pub record Carries (meta : Option (Map json)) (payment : Value) : Type 0 where
    pub entries : Map json
    pub has_meta : meta ≡ some entries
    pub has_payment : lookup "x402/payment" entries ≡ some payment
    pub object : Map json
    pub is_object : json.as_object payment ≡ some object
    pub version_value : Value
    pub has_version : lookup "x402Version" object ≡ some version_value
    pub version : ℕ
    pub is_u64 : json.as_u64 version_value ≡ some version
    pub not_zero : version ≢ 0
    pub payload : Value
    pub has_payload : lookup "payload" object ≡ some payload

  module _ (meta : Option (Map json)) (payment : Value) where
    pub Carries-extract :
        Carries meta payment → (meta >= extract_payment_from_meta json) ≡ some payment
    unfolding extract_payment_from_meta
    Carries-extract c =
        let positive : (c.version == 0) ≡ false = let n = c.not_zero in ground arith in
        rw
          (c.has_meta, c.has_payment, c.is_object, c.has_version, c.is_u64, positive, c.has_payload)
          refl

    pub extract-Carries :
        (meta >= extract_payment_from_meta json) ≡ some payment → Carries meta payment
    unfolding extract_payment_from_meta
    extract-Carries h =
        let (entries, m, h1) = >=-eq-some meta _ h in
        let (given, g, h2) = >=-eq-some (lookup "x402/payment" entries) _ h1 in
        let (object, o, h3) = >=-eq-some (json.as_object given) _ h2 in
        let (version, v, h4) = >=-eq-some (lookup "x402Version" object >= json.as_u64) _ h3 in
        let (value, l, u) = >=-eq-some (lookup "x402Version" object) _ v in
        elim (Bool-cases (version == 0)) [
          | inl zero ↦ cc
          | inr positive ↦
              let (payload, found, same) =
                >=-eq-some (lookup "payload" object) _
                  (rest_of version given _ positive payment h4) in
              let given_is : given ≡ payment = some-injective _ _ same in
              record {
                entries = entries;
                has_meta = m;
                has_payment = g ∙ ap some given_is;
                object = object;
                is_object = ap json.as_object (sym given_is) ∙ o;
                version_value = value;
                has_version = l;
                version = version;
                is_u64 = u;
                not_zero = ne_of_==-eq-false version 0 positive;
                payload = payload;
                has_payload = found;
              }
        ]

  module _ (requirements : WireRequirements Value) (payment question : Value) where
    -- The request to verify and to settle is the object of the protocol's version, the payment and
    -- the requirements.
    pub record IsQuestion : Type 0 where
      pub terms : Value
      pub written : json.requirements_to_value requirements ≡ ok terms
      pub fields :
          question
          ≡ json.object (
              ("x402Version", json.number 2)
              ∷ ("paymentPayload", payment)
              ∷ ("paymentRequirements", terms)
              ∷ [])

    pub build_verify_request_iff :
        (build_verify_request json payment requirements ≡ ok question) ↔ IsQuestion
    unfolding build_verify_request
    build_verify_request_iff = (
      λ h.
          let (terms, w, e) = >>=-eq-ok (map_err _ (json.requirements_to_value requirements)) _ h in
          record {
            terms = terms;
            written = map_err-eq-ok _ (json.requirements_to_value requirements) w;
            fields = cc e;
          },
      λ q. rw (q.written, q.fields) refl,
    )

  -- The metadata of a result, with the settlement under its key, where that can be written.
  pub data Attached (base : Map json) (settlement : SettleResponse Value) (meta : Map json)
      : Type 0 where
    is_written :
        (value : Value)
        → json.settlement_to_value settlement ≡ some value
        → meta ≡ insert "x402/payment-response" value base
        → Attached base settlement meta
    is_unwritten :
        json.settlement_to_value settlement ≡ none → meta ≡ base → Attached base settlement meta

  abbrev pub IsSuccess : SettleResponse Value → Type 0
  IsSuccess settlement =
      (payer : String) × (transaction : String) × (network : String) × (extensions : Option
        (Extensions Value))
      × (settlement ≡ success payer transaction network extensions)

  result-eq :
      {a b : CallToolResult json}
      → a.content ≡ b.content
      → a.is_error ≡ b.is_error
      → a.meta ≡ b.meta
      → a.structured_content ≡ b.structured_content
      → a ≡ b
  result-eq c e m s =
      λ i. record { content = c i; is_error = e i; meta = m i; structured_content = s i }

  module _ (result : CallToolResult json) (settlement : SettleResponse Value)
      (r : CallToolResult json) where
    -- The result is the given one, but for its metadata.
    pub record Reports : Type 0 where
      pub content : r.content ≡ result.content
      pub is_error : r.is_error ≡ result.is_error
      pub structured_content : r.structured_content ≡ result.structured_content
      pub meta : Map json
      pub has_meta : r.meta ≡ some meta
      pub attached : Attached (Option.get_or result.meta []) settlement meta

    abbrev base : Map json
    base = Option.get_or result.meta []

    pub with_settlement_iff : (r ≡ with_settlement json result settlement) ↔ Reports
    unfolding with_settlement
    with_settlement_iff = (
      λ h. elim (Option-cases (json.settlement_to_value settlement)) [
        | inl e ↦ record {
          content = ap (λ x. x.content) h;
          is_error = ap (λ x. x.is_error) h;
          structured_content = ap (λ x. x.structured_content) h;
          meta = base;
          has_meta = ap (λ x. x.meta) h ∙ rw e refl;
          attached = Attached.is_unwritten e refl;
        }
        | inr (value, e) ↦ record {
          content = ap (λ x. x.content) h;
          is_error = ap (λ x. x.is_error) h;
          structured_content = ap (λ x. x.structured_content) h;
          meta = insert "x402/payment-response" value base;
          has_meta = ap (λ x. x.meta) h ∙ rw e refl;
          attached = Attached.is_written value e refl;
        }
      ],
      λ p. elim p.attached [
        | is_written value e q ↦
            result-eq p.content p.is_error (p.has_meta ∙ rw (e, q) refl) p.structured_content
        | is_unwritten e q ↦
            result-eq p.content p.is_error (p.has_meta ∙ rw (e, q) refl) p.structured_content
      ],
    )

  -- A settlement counts exactly if it is a success.
  pub settled_iff :
      (settlement : SettleResponse Value) → (settled json settlement ≡ ok tt) ↔ IsSuccess settlement
  settled_iff (success payer transaction network extensions) =
      (λ h. (payer, transaction, network, extensions, refl), λ s. refl)
  settled_iff (error reason message payer network) = (λ h. cc, λ (a, b, c, d, e). cc)
