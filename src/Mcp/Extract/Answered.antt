-- ===== src/Mcp/Extract/Answered.antt =====
-- What a server asks for is what a client reads: r402-mcp/src/server.rs and extract.rs.
use r.Mcp.Types.{Json, Map, PaymentWrapperConfig, payment_error_key, payment_required_code}
use r.Base.{
  ℕ, ◌<◌, ◌^◌, arith, none, String, ◌≡◌, refl, true, some, List, [], ◌∷◌, ok, lookup, string_eq,
}
use r.Mcp.Server.{required, payment_required_result, wrap_x402_error_envelope}
use r.Mcp.Extract.{
  Reader, either_form, unwrap_x402_error_envelope, try_parse_payment_required_from_value,
  extract_payment_required_from_result,
}

module _ (json : Json) (reader : Reader json) where
  open json use {Value}

  abbrev Distinct : Map json → Type 0
  Distinct [] = Unit {0}
  Distinct ((key, value) ∷ rest) = (lookup key rest ≡ none) × Distinct rest

  -- The library reads back the objects and numbers that it made.
  pub record IsFaithful : Type 0 where
    -- an object of distinct keys has the fields that it was made of
    pub object_read :
        (fields : Map json)
        → Distinct fields
        → (read : Map json) × (json.as_object (json.object fields) ≡ some read)
          × ((key : String) → lookup key read ≡ lookup key fields)
    -- a number is an i64 again
    pub number_read :
        (n : ℕ) → n < 2 ^ 63 → reader.as_i64 (json.number n) ≡ some (reader.i64_from n)
    pub i64_refl : (i : reader.I64) → reader.i64_eq i i ≡ true

  module _ {World : Type 0} (config : PaymentWrapperConfig json World) (error_msg : String) where
    -- The request for a payment is written as an object with its version and its terms, and reads back.
    pub record IsWritten (body : Value) : Type 0 where
      pub written : json.required_to_value (required json config error_msg) ≡ some body
      pub object : Map json
      pub is_object : json.as_object body ≡ some object
      pub version : Value
      pub has_version : lookup "x402Version" object ≡ some version
      pub is_2 : json.as_u64 version ≡ some 2
      pub accepts : Value
      pub has_accepts : lookup "accepts" object ≡ some accepts
      pub first : Value
      pub rest : List Value
      pub is_array : reader.as_array accepts ≡ some (first ∷ rest)
      pub read : reader.required_from_value body ≡ ok (required json config error_msg)

    -- Where the JSON library reads back the objects and numbers that it made, and the request for a
    -- payment as it wrote it, what a client extracts from the refusal of a call is exactly the
    -- request for a payment that the server put into it.
    pub extract_payment_required-payment_required_result :
        IsFaithful
        → (body : Value) → IsWritten body
        → extract_payment_required_from_result json reader
            (payment_required_result json config error_msg)
          ≡ some (required json config error_msg)
    unfolding extract_payment_required_from_result payment_required_result wrap_x402_error_envelope
        either_form unwrap_x402_error_envelope try_parse_payment_required_from_value lookup
    extract_payment_required-payment_required_result f body p =
        let inner : Map json = ("code", json.number payment_required_code) ∷ ("data", body) ∷ [] in
        let (outer, o, outer_at) =
          f.object_read ((payment_error_key, json.object inner) ∷ []) (refl, tt) in
        let (read, e, at) = f.object_read inner (refl, (refl, tt)) in
        let code = f.number_read payment_required_code (omega arith) in
        rw
          (
            p.written,
            o,
            outer_at payment_error_key,
            e,
            at "code",
            code,
            f.i64_refl (reader.i64_from payment_required_code),
            at "data",
            p.is_object,
            p.has_version,
            p.is_2,
            p.has_accepts,
            p.is_array,
            p.read,
          )
          refl
