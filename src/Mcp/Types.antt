-- ===== src/Mcp/Types.antt =====
-- r402-mcp/src/types.rs and the constants of lib.rs: the types of a paid tool's call.
use r.Base.{String, ℕ, Bool, true, Option, none, some, List, Outcome, ok}
use r.Base.Actions.{Action}
use r.Proto.V2.{ResourceInfo, WireRequirements, PaymentRequired}
use r.Proto.Settle.{SettleResponse, Extensions}
use r.Facilitator.{Facilitator}

-- What the code calls of serde_json. A map is listed in its order.
pub record Json : Type 1 where
  pub Value : Type 0
  pub as_object : Value → Option (List (String × Value))
  pub as_u64 : Value → Option ℕ
  pub null : Value
  pub requirements_to_value : WireRequirements Value → Outcome Value String
  pub settlement_to_value : SettleResponse Value → Option Value
  pub required_to_value : PaymentRequired Value → Option Value
  pub to_text : Value → Option String
  -- what `json!` calls: an object from its fields, and a number
  pub object : List (String × Value) → Value
  pub number : ℕ → Value

-- `PAYMENT_META_KEY` and `PAYMENT_RESPONSE_META_KEY`
abbrev pub payment_meta_key : String
payment_meta_key = "x402/payment"

abbrev pub payment_response_meta_key : String
payment_response_meta_key = "x402/payment-response"

-- `?` of options, and `and_then`
infixl 5 ◌>=◌
abbrev pub ◌>=◌ : {A B : Type 0} → Option A → (A → Option B) → Option B
none >= k = none
some a >= k = k a

-- `PAYMENT_ERROR_KEY` and `PAYMENT_REQUIRED_CODE`
abbrev pub payment_error_key : String
payment_error_key = "x402/error"

abbrev pub payment_required_code : ℕ
payment_required_code = 402

module _ (json : Json) where
  open json use {Value}

  abbrev pub Map : Type 0
  Map = List (String × Value)

  pub record CallToolParams : Type 0 where
    pub name : String
    pub arguments : Map
    pub meta : Option Map

  -- A content item is its text.
  pub record CallToolResult : Type 0 where
    pub content : List String
    pub is_error : Bool
    pub meta : Option Map
    pub structured_content : Option Value

  pub record ServerHookContext : Type 0 where
    pub tool_name : String
    pub arguments : Map
    pub payment_requirements : WireRequirements Value
    pub payment_payload : Value

  -- `ServerHooks`; the after-execution and after-settlement contexts are their two parts. An error
  -- counts by its text.
  pub record ServerHooks (World : Type 0) : Type 0 where
    pub on_before_execution : ServerHookContext → Action World String Bool
    pub on_after_execution : ServerHookContext → CallToolResult → Action World String (Unit {0})
    pub on_after_settlement :
        ServerHookContext → SettleResponse Value → Action World String (Unit {0})

  -- `NoServerHooks`
  abbrev pub no_server_hooks : {World : Type 0} → ServerHooks World
  no_server_hooks = record {
    on_before_execution = λ ctx w. (ok true, w);
    on_after_execution = λ ctx result w. (ok tt, w);
    on_after_settlement = λ ctx settlement w. (ok tt, w);
  }

  -- `PaymentWrapperConfig`
  pub record PaymentWrapperConfig (World : Type 0) : Type 0 where
    pub accepts : List (WireRequirements Value)
    pub resource : Option ResourceInfo
    pub hooks : Option (ServerHooks World)
    pub extensions : Option (Extensions Value)

  -- `PaymentWrapper`; `new` sees to it that its configuration has a first requirement.
  pub record PaymentWrapper (World : Type 0) : Type 0 where
    pub facilitator : Facilitator World Value
    pub config : PaymentWrapperConfig World
    pub requirements : WireRequirements Value
