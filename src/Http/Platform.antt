-- ===== src/Http/Platform.antt =====
-- What the HTTP code calls of its libraries: http and axum for messages, base64, and serde_json.
use r.Base.{Bool, String, ℕ, Option, List, Outcome}
use r.Proto.Settle.{SettleResponse}
use r.Proto.V2.{PaymentPayload, PaymentRequired, TypedVerifyRequest, WireRequirements}

-- `V2PaymentPayload`
abbrev pub WirePayload : Type 0 → Type 0
WirePayload Value = PaymentPayload (WireRequirements Value) Value Value

pub record Platform : Type 1 where
  -- `serde_json::Value`
  pub Value : Type 0
  pub Bytes : Type 0
  pub Request : Type 0
  pub Response : Type 0
  -- `headers().get(name)`, with the value's bytes
  pub request_header : String → Request → Option Bytes
  pub response_header : String → Response → Option Bytes
  pub status : Response → ℕ
  -- `status().is_client_error()` and `status().is_server_error()`
  pub is_client_error : Response → Bool
  pub is_server_error : Response → Bool
  -- `headers_mut().insert(name, value)`
  pub insert_header : String → Bytes → Response → Response
  -- `Response::builder()`, with a status, headers and a body
  pub build : ℕ → List (String × Bytes) → Bytes → Response
  -- the body of a response, where it can be read
  pub body : Response → Option Bytes
  -- `try_clone()` of a request, and `headers_mut().extend(headers)`
  pub try_clone : Request → Option Request
  pub extend_headers : List (String × Bytes) → Request → Request
  -- `parse::<HeaderValue>()` of a text
  pub parse_header : String → Option Bytes
  -- a text of ASCII as bytes
  pub ascii : String → Bytes
  -- `HeaderValue::from_bytes`
  pub header_value : Bytes → Outcome Bytes String
  -- base64, in the standard alphabet
  pub decode : Bytes → Option Bytes
  pub encode : Bytes → Bytes
  -- `serde_json::from_slice` and `to_vec`, at the types that the program reads and writes
  pub read_payload : Bytes → Option (WirePayload Value)
  pub read_payment_required : Bytes → Option (PaymentRequired Value)
  pub write_payment_required : PaymentRequired Value → Outcome Bytes String
  pub write_settlement : SettleResponse Value → Outcome Bytes String
  -- `json!({ "error": "Settlement failed", "details": … })`
  pub write_failure : String → Bytes
  -- `serde_json::to_value`
  pub to_value :
      TypedVerifyRequest (WirePayload Value) (WireRequirements Value) → Outcome Value String
