-- ===== src/Proto/Request.antt =====
-- `VerifyRequest` and `SettleRequest` of r402/src/proto/mod.rs. Both wrap a JSON value, so the
-- types here are the value's, and the conversion between them is the identity.
use mathlib.Core.Option.{some-injective}
use r.Base.{
  ap, ◌∙◌, Outcome, err, ◌≡◌, refl, ◌↔◌, arith, ok, String, ℕ, Bool, true, false, Option, none,
  some, to_option, ltb, ◌==◌, if◌then◌else◌,
}
use mathlib.Core.Option
use r.Chain.Id.{from_str}
use r.Scheme.Slug.{SchemeSlug}

-- What the program calls of `serde_json::Value`.
pub record Json : Type 1 where
  pub Value : Type 0
  -- `get`, with a text as the index
  pub get : String → Value → Option Value
  pub as_u64 : Value → Option ℕ
  pub as_str : Value → Option String

infixl 5 ◌>>=◌
abbrev ◌>>=◌ : {A B : Type 0} → Option A → (A → Option B) → Option B
none >>= k = none
some a >>= k = k a

-- `v2::X402Version2::VALUE`
abbrev pub x402_version : ℕ
x402_version = 2

-- `u8::try_from(u64)`
abbrev to_u8 : ℕ → Option ℕ
to_u8 n = if ltb n 256 then some n else none

-- `if test { return None; }`
abbrev require : Bool → Option (Unit {0})
require true = some tt
require false = none

module _ (json : Json) where
  open json use {Value, get, as_u64, as_str}

  unfoldable pub scheme_slug_from_json : Value → Option SchemeSlug
  scheme_slug_from_json j = do
    field ← get "x402Version" j
    wide ← as_u64 field
    version ← to_u8 wide
    _ ← require (version == x402_version)
    payload ← get "paymentPayload" j
    accepted ← get "accepted" payload
    network ← get "network" accepted
    text ← as_str network
    chain_id ← to_option (from_str text)
    name ← get "scheme" accepted
    scheme ← as_str name
    some (record { chain_id = chain_id; name = scheme })

  -- `SettleRequest::network`
  unfoldable pub network : Value → String
  network j =
      Option.get_or
        (do
          requirements ← get "paymentRequirements" j
          value ← get "network" requirements
          as_str value)
        ""

>>=-eq-some :
    {A B : Type 0} (m : Option A) (k : A → Option B) {b : B}
    → (m >>= k) ≡ some b
    → (a : A) × (m ≡ some a) × (k a ≡ some b)
>>=-eq-some none k h = cc
>>=-eq-some (some a) k h = (a, refl, h)

version_is_2 :
    (wide byte : ℕ) {u : Unit {0}}
    → to_u8 wide ≡ some byte
    → require (byte == x402_version) ≡ some u
    → wide ≡ 2
version_is_2 wide byte h k = ground arith

to_option-eq-some : {A E : Type 0} (r : Outcome A E) {a : A} → to_option r ≡ some a → r ≡ ok a
to_option-eq-some (ok a) h = ap ok (some-injective _ _ h)
to_option-eq-some (err e) h = cc

module _ (json : Json) where
  open json use {Value, get, as_u64, as_str}

  -- A request with this content is handled under the slug: its version is 2, and its payload
  -- accepts terms on the slug's chain and in the slug's scheme.
  pub record IsRouted (j : Value) (slug : SchemeSlug) : Type 0 where
    pub version : Value
    pub payload : Value
    pub accepted : Value
    pub chain : Value
    pub text : String
    pub scheme : Value
    pub has_version : get "x402Version" j ≡ some version
    pub is_2 : as_u64 version ≡ some 2
    pub has_payload : get "paymentPayload" j ≡ some payload
    pub has_accepted : get "accepted" payload ≡ some accepted
    pub has_network : get "network" accepted ≡ some chain
    pub is_text : as_str chain ≡ some text
    pub is_chain : from_str text ≡ ok slug.chain_id
    pub has_scheme : get "scheme" accepted ≡ some scheme
    pub is_name : as_str scheme ≡ some slug.name

  scheme_slug_sound :
      (j : Value) (slug : SchemeSlug) → scheme_slug_from_json json j ≡ some slug → IsRouted j slug
  unfolding scheme_slug_from_json
  scheme_slug_sound j slug h =
      let (version, e1, h1) = >>=-eq-some (get "x402Version" j) _ h in
      let (wide, e2, h2) = >>=-eq-some (as_u64 version) _ h1 in
      let (byte, e3, h3) = >>=-eq-some (to_u8 wide) _ h2 in
      let (_, e4, h4) = >>=-eq-some (require (byte == x402_version)) _ h3 in
      let (payload, e5, h5) = >>=-eq-some (get "paymentPayload" j) _ h4 in
      let (accepted, e6, h6) = >>=-eq-some (get "accepted" payload) _ h5 in
      let (chain, e7, h7) = >>=-eq-some (get "network" accepted) _ h6 in
      let (text, e8, h8) = >>=-eq-some (as_str chain) _ h7 in
      let (chain_id, e9, h9) = >>=-eq-some (to_option (from_str text)) _ h8 in
      let (scheme, e10, h10) = >>=-eq-some (get "scheme" accepted) _ h9 in
      let (name, e11, h11) = >>=-eq-some (as_str scheme) _ h10 in
      record {
        version = version;
        payload = payload;
        accepted = accepted;
        chain = chain;
        text = text;
        scheme = scheme;
        has_version = e1;
        is_2 = rw e2 (ap some (version_is_2 wide byte e3 e4));
        has_payload = e5;
        has_accepted = e6;
        has_network = e7;
        is_text = e8;
        is_chain =
            to_option-eq-some (from_str text) e9 ∙ ap (λ s. ok s.chain_id) (some-injective _ _ h11);
        has_scheme = e10;
        is_name = e11 ∙ ap (λ s. some s.name) (some-injective _ _ h11);
      }

  scheme_slug_complete :
      (j : Value) (slug : SchemeSlug) → IsRouted j slug → scheme_slug_from_json json j ≡ some slug
  unfolding scheme_slug_from_json
  scheme_slug_complete j slug r = rw (
    r.has_version, r.is_2, r.has_payload, r.has_accepted, r.has_network, r.is_text, r.is_chain,
    r.has_scheme, r.is_name,
  )

  -- The slug that a request is routed by is that of the terms which its payload accepts, whatever
  -- name their scheme has; no other request is routed.
  pub scheme_slug_iff :
      (j : Value) (slug : SchemeSlug) → (scheme_slug_from_json json j ≡ some slug) ↔ IsRouted j slug
  scheme_slug_iff j slug = (scheme_slug_sound j slug, scheme_slug_complete j slug)
