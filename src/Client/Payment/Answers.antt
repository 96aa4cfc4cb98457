-- ===== src/Client/Payment/Answers.antt =====
-- What the payment gate refuses with is what the client reads.
use mathlib.Core.Path.{subst}
use r.Base.{String, ◌≡◌, inl, inr, none, some, List, [], ◌∷◌, ok, Outcome-cases, ℕ}
use r.Proto.V2.{PriceTag, ResourceInfo, PaymentRequired}
use r.Http.Platform.{Platform}
use r.Http.Paygate.{VerificationError, verification, error_into_response, refusal}
use r.Client.Payment.{parse_payment_required}

-- What the gate and the client rely on: base64 and the JSON of a refusal are read back, base64 text
-- is taken into a header as it is, and a response has the header that it was built with first.
pub record IsFaithful (platform : Platform) : Type 0 where
  pub decodes : (bytes : platform.Bytes) → platform.decode (platform.encode bytes) ≡ some bytes
  pub reads :
      (required : PaymentRequired platform.Value) (bytes : platform.Bytes)
      → platform.write_payment_required required ≡ ok bytes
      → platform.read_payment_required bytes ≡ some required
  pub keeps :
      (bytes header : platform.Bytes)
      → platform.header_value (platform.encode bytes) ≡ ok header
      → header ≡ platform.encode bytes
  pub has :
      (status : ℕ) (name : String) (value : platform.Bytes) (more : List (String × platform.Bytes))
      (body : platform.Bytes)
      → platform.response_header name (platform.build status ((name, value) ∷ more) body)
        ≡ some value
  pub built :
      (status : ℕ) (headers : List (String × platform.Bytes)) (body : platform.Bytes)
      → platform.status (platform.build status headers body) ≡ status

module _ (platform : Platform) {Handle : Type 0} (laws : IsFaithful platform) where
  -- The client reads a refused request's answer as the gate's own terms, with the reason of the
  -- refusal, and takes it for a 402 answer.
  pub refusal-parse :
      (e : VerificationError) (accepts : List (PriceTag Handle platform.Value))
      (resource : ResourceInfo) (res : platform.Response)
      → error_into_response platform (verification e) accepts resource ≡ some res
      → (parse_payment_required platform res ≡ some (refusal platform accepts resource e))
        × (platform.status res ≡ 402)
  unfolding error_into_response parse_payment_required
  refusal-parse e accepts resource res h =
      elim (Outcome-cases (platform.write_payment_required (refusal platform accepts resource e))) [
        | inr (x, failed) ↦ let clash : none ≡ some res = rw failed at h in cc clash
        | inl (bytes, written) ↦
            elim (Outcome-cases (platform.header_value (platform.encode bytes))) [
              | inr (x, failed) ↦
                  let clash : none ≡ some res = rw (written, failed) at h in cc clash
              | inl (header, taken) ↦
                  let answer =
                    platform.build 402
                      (("Payment-Required", header)
                        ∷ ("Content-Type", platform.ascii "application/json")
                        ∷ [])
                      bytes in
                  let made : some answer ≡ some res = rw (written, taken) at h in
                  let same : answer ≡ res = cc made in
                  let found =
                    laws.has 402 "Payment-Required" header
                      (("Content-Type", platform.ascii "application/json") ∷ []) bytes in
                  let kept = laws.keeps bytes header taken in
                  let read = laws.reads (refusal platform accepts resource e) bytes written in
                  subst
                    (λ r.
                      (parse_payment_required platform r
                        ≡ some (refusal platform accepts resource e))
                      × (platform.status r ≡ 402))
                    same (rw (found, kept, laws.decodes bytes, read), laws.built 402 _ bytes)
            ]
      ]
