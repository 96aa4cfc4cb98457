-- ===== src/Mcp/Extract.antt =====
-- r402-mcp/src/extract.rs: what a client reads from the metadata and the errors of a tool's call.
pub mod Answered
use Prim.Native.String.{◌++◌}
use r.Mcp.Types.{
  Json, Map, CallToolResult, payment_meta_key, payment_response_meta_key, ◌>=◌, payment_error_key,
  payment_required_code,
}
use r.Base.{
  String, ℕ, Bool, true, false, Option, none, some, List, [], ◌∷◌, Outcome, ok, lookup, insert,
  to_option, string_eq, ◌<◌, ltb, ◌&&◌, if◌then◌else◌,
}
use r.Base
use r.Proto.V2.{PaymentRequired}
use r.Proto.Settle.{SettleResponse}

-- What the code calls of serde_json to read a value.
pub record Reader (json : Json) : Type 1 where
  pub as_array : json.Value → Option (List json.Value)
  pub F64 : Type 0
  pub as_f64 : json.Value → Option F64
  -- `f >= 1.0 && f <= f64::from(u32::MAX)`, and `f as u64`
  pub is_version : F64 → Bool
  pub to_u64 : F64 → ℕ
  pub I64 : Type 0
  pub as_i64 : json.Value → Option I64
  pub i64_from : ℕ → I64
  pub i64_eq : I64 → I64 → Bool
  pub from_str : String → Outcome json.Value String
  pub required_from_value : json.Value → Outcome (PaymentRequired json.Value) String
  pub settlement_from_value : json.Value → Outcome (SettleResponse json.Value) String

-- `Option::or_else`
infixl 4 ◌or_else◌
abbrev pub ◌or_else◌ : {A : Type 0} → Option A → Option A → Option A
some a or_else other = some a
none or_else other = other

module _ (json : Json) where
  open json use {Value}

  unfoldable pub attach_payment_to_meta : Map json → Value → Map json
  attach_payment_to_meta meta payment = insert payment_meta_key payment meta

  unfoldable pub attach_payment_response_to_meta :
      Map json → SettleResponse Value → Option (Map json)
  attach_payment_response_to_meta meta response = json.settlement_to_value response >= λ value.
      some (insert payment_response_meta_key value meta)

  module _ (reader : Reader json) where
    unfoldable pub extract_payment_response_from_meta : Map json → Option (SettleResponse Value)
    extract_payment_response_from_meta meta = lookup payment_response_meta_key meta >= λ value.
        to_option (reader.settlement_from_value value)

    abbrev float_version : reader.F64 → Option ℕ
    float_version f = if reader.is_version f then some (reader.to_u64 f) else none

    abbrev pub version_num : Value → Option ℕ
    version_num version = json.as_u64 version or_else (reader.as_f64 version >= float_version)

    abbrev not_empty : List Value → Value → Option Value
    not_empty [] value = none
    not_empty (first ∷ rest) value = some value

    unfoldable pub try_parse_payment_required_from_value : Value → Option (PaymentRequired Value)
    try_parse_payment_required_from_value value = json.as_object value >= λ obj.
        (lookup "x402Version" obj >= version_num) >= λ version.
        if ltb version 1
        then none
        else (lookup "accepts" obj >= reader.as_array) >= λ accepts.
            not_empty accepts value >= λ found. to_option (reader.required_from_value found)

    unfoldable pub unwrap_x402_error_envelope : Value → Option (PaymentRequired Value)
    unwrap_x402_error_envelope value = json.as_object value >= λ obj.
        (lookup payment_error_key obj >= json.as_object) >= λ error_envelope.
        (lookup "code" error_envelope >= reader.as_i64) >= λ code.
        if reader.i64_eq code (reader.i64_from payment_required_code)
        then lookup "data" error_envelope >= try_parse_payment_required_from_value
        else none

    -- The two ways to read a value, from `structuredContent` and from a text alike
    unfoldable pub either_form : Value → Option (PaymentRequired Value)
    either_form value =
        unwrap_x402_error_envelope value or_else try_parse_payment_required_from_value value

    unfoldable pub try_parse_payment_required_from_text : String → Option (PaymentRequired Value)
    try_parse_payment_required_from_text text = to_option (reader.from_str text) >= either_form

    -- The loop over the content items
    unfoldable pub first_required : List String → Option (PaymentRequired Value)
    first_required [] = none
    first_required (text ∷ rest) =
        try_parse_payment_required_from_text text or_else first_required rest

    unfoldable pub extract_payment_required_from_result :
        CallToolResult json → Option (PaymentRequired Value)
    extract_payment_required_from_result result =
        if result.is_error
        then (result.structured_content >= either_form) or_else first_required result.content
        else none

-- `create_tool_resource_url`
unfoldable pub create_tool_resource_url : String → Option String → String
create_tool_resource_url tool_name none = "mcp://tool/" ++ tool_name
create_tool_resource_url tool_name (some url) = url
