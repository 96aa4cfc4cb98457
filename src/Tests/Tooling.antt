-- ===== src/Tests/Tooling.antt =====
-- A paid call of a tool at a concrete input.
use r.Mcp.Types.{
  CallToolParams, CallToolResult, PaymentWrapperConfig, PaymentWrapper, payment_meta_key,
  payment_response_meta_key,
}
use r.Base.{lookup, insert, String, ℕ, Outcome, suc, ◌≡◌, ◌↔◌, refl, false, none, some, [], ◌∷◌, ok}
use r.Proto.Verify.{valid}
use r.Proto.Settle.{success}
use r.Facilitator.{Facilitator}
use r.Mcp.Server.{
  new, extract_payment_from_meta, build_verify_request, with_settlement, settle_call, paid_call,
  process,
}
use r.Tests.Trees.{json, terms}
use r.Mcp.Server.Paid.{IsPaid, process_iff}

-- The world counts the calls.
abbrev facilitator : Facilitator ℕ json.Value
facilitator = record {
  verify = λ request w. (ok (valid "0x3"), suc w);
  settle = λ request w. (ok (success "0x3" "0x77" "eip155:8453" none), suc w);
  supported = λ w. (ok (record { kinds = []; extensions = []; signers = [] }), w);
}

abbrev config : PaymentWrapperConfig json ℕ
config = record { accepts = terms ∷ []; resource = none; hooks = none; extensions = none }

abbrev wrapper : PaymentWrapper json ℕ
wrapper = record { facilitator = facilitator; config = config; requirements = terms }

built : new json facilitator config ≡ some wrapper
unfolding new
built = refl

abbrev payment : json.Value
payment = json.object (("x402Version", json.number 2) ∷ ("payload", json.number 5) ∷ [])

abbrev request : CallToolParams json
request = record {
  name = "weather";
  arguments = [];
  meta = some ((payment_meta_key, payment) ∷ []);
}

abbrev handler : CallToolParams json → ℕ → Outcome (CallToolResult json) String × ℕ
handler call w = (
  ok (record { content = "sunny" ∷ []; is_error = false; meta = none; structured_content = none }),
  suc w,
)

abbrev answer : CallToolResult json
answer = record {
  content = "sunny" ∷ [];
  is_error = false;
  meta = some ((payment_response_meta_key, json.number 71) ∷ []);
  structured_content = none;
}

pays : process json wrapper handler request 0 ≡ (answer, 3)
unfolding process paid_call settle_call extract_payment_from_meta build_verify_request
    with_settlement lookup insert
pays = refl

process_iff_example :
    ((process json wrapper handler request 0 ≡ (answer, 3)) × (answer.is_error ≡ false))
    ↔ IsPaid json wrapper handler request 0 answer 3
process_iff_example = process_iff json wrapper handler request 0 answer 3
