-- ===== src/Tests/Gate.antt =====
-- The payment gate at concrete inputs. A message body is a text that stands for itself, a request is
-- its payment header, a response is a status with its headers, and the world is the log of what
-- was called.
use r.Base.{String, ℕ, ◌≡◌, ◌⊎◌, refl, ◌↔◌, Option, none, some, List, [], ◌∷◌, ◌++◌, ok, leb, ◌&&◌}
use r.Chain.Id.{chain_id_beq}
use r.Base.Actions.{Action}
use r.Facilitator.{Facilitator}
use r.Proto.Verify.{valid, invalid}
use r.Proto.Settle.{success}
use r.Http.Platform.{Platform, WirePayload}
use r.Http.Paygate.{
  Paygate, handle_request_fallible, prepare, make_verify_request, settlement_to_header,
  extract_payment_payload, settle_after, after_handler, validate_verify_response,
}
use r.Http.Paygate.Lifecycle.{Handles}
use r.Http.Paygate.Handles.{handle_request_iff}
use r.Http.Paygate.Selection.{IsOwnTerms, make_verify_request-IsOwnTerms}
use r.Http.Paygate.Safety.{IsRefused, unpaid-IsRefused, IsSettled, IsUncharged, answered-IsSettled}
use r.Tests.Messages.{terms, tag}
use r.Base.{ap}
use r.Proto.V2.{tag_eq}

abbrev Log : Type 0
Log = List String

abbrev Answer : Type 0
Answer = ℕ × List (String × String)

abbrev pub payload : WirePayload String
payload = record { accepted = terms; payload = "signed"; resource = none; extensions = none }

abbrev texts : Platform
texts = record {
  Value = String;
  Bytes = String;
  Request = Option String;
  Response = Answer;
  request_header = λ name req. req;
  response_header = λ name answer. none;
  status = λ answer. answer.0;
  is_client_error = λ answer. leb 400 answer.0 && leb answer.0 499;
  is_server_error = λ answer. leb 500 answer.0 && leb answer.0 599;
  insert_header = λ name value answer. (answer.0, (name, value) ∷ answer.1);
  build = λ status headers body. (status, headers);
  body = λ answer. none;
  try_clone = λ req. some req;
  extend_headers = λ headers req. some "paid";
  parse_header = λ s. some s;
  ascii = λ s. s;
  header_value = λ bytes. ok bytes;
  decode = λ bytes. some bytes;
  encode = λ bytes. bytes;
  read_payload = λ bytes. some payload;
  read_payment_required = λ bytes. none;
  write_payment_required = λ required. ok "required";
  write_settlement = λ receipt. ok "receipt";
  write_failure = λ detail. detail;
  to_value = λ request. ok "request";
}

abbrev honest : Facilitator Log String
honest = record {
  verify = λ request w. (ok (valid "0xabc"), w ++ "verify" ∷ []);
  settle = λ request w. (ok (success "0xabc" "0x01" "eip155:8453" none), w ++ "settle" ∷ []);
  supported = λ w. (ok (record { kinds = []; extensions = []; signers = [] }), w);
}

abbrev doubtful : Facilitator Log String
doubtful = record honest {
  verify = λ request w. (ok (invalid "expired" none none), w ++ "verify" ∷ []);
}

abbrev gate : Facilitator Log String → Paygate Log ℕ String
gate facilitator = record {
  facilitator = facilitator;
  accepts = tag ∷ [];
  resource = record { description = ""; mime_type = "text/plain"; url = "https://example.org" };
}

abbrev serve : Option String → Action Log Answer Answer
serve req w = (ok (200, []), w ++ "serve" ∷ [])

abbrev request : Option String
request = some "payment"

abbrev paid : Answer
paid = (200, ("Payment-Response", "receipt") ∷ [])

abbrev whole_log : Log
whole_log = "verify" ∷ "serve" ∷ "settle" ∷ []

run : handle_request_fallible texts (gate honest) serve request [] ≡ (ok paid, whole_log)
unfolding handle_request_fallible prepare make_verify_request extract_payment_payload tag_eq
    validate_verify_response after_handler settle_after settlement_to_header chain_id_beq
run = refl

answered-IsSettled_example :
    IsSettled texts (gate honest) serve request [] paid whole_log
    ⊎ IsUncharged texts (gate honest) serve request [] paid whole_log
answered-IsSettled_example =
    answered-IsSettled texts (gate honest) serve request [] paid whole_log run

unpaid-IsRefused_example :
    let result = handle_request_fallible texts (gate doubtful) serve request [] in
    IsRefused texts (gate doubtful) serve request [] result.0 result.1
unpaid-IsRefused_example =
    unpaid-IsRefused texts (gate doubtful) serve request [] (λ j payer v e. cc (ap (λ x. x.0) e))

handle_request_iff_example :
    (handle_request_fallible texts (gate honest) serve request [] ≡ (ok paid, whole_log))
    ↔ Handles texts (gate honest) serve request [] (ok paid, whole_log)
handle_request_iff_example =
    handle_request_iff texts (gate honest) serve request [] (ok paid, whole_log)

requested_terms : make_verify_request texts payload (tag ∷ []) ≡ ok "request"
unfolding make_verify_request tag_eq chain_id_beq
requested_terms = refl

make_verify_request-IsOwnTerms_example : IsOwnTerms texts (tag ∷ []) payload "request"
make_verify_request-IsOwnTerms_example =
    make_verify_request-IsOwnTerms texts payload (tag ∷ []) "request" requested_terms
