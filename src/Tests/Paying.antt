-- ===== src/Tests/Paying.antt =====
-- The client at concrete inputs. A message body is a text or the terms of a refusal.
use r.Base.{
  String, ℕ, ◌≡◌, ◌↔◌, refl, Option, none, some, List, [], ◌∷◌, ◌++◌, Memᴰ, ok, ◌=?◌, =?_refl, ap,
  sym, false, string_eq, if◌then◌else◌,
}
use r.Base.Text.{parse_uint, parse_digits}
use r.Base.Actions.{Action}
use r.Chain.Pattern.{ChainIdPattern, wildcard}
use r.Proto.V2.{PaymentRequired, ResourceInfo}
use r.Http.Platform.{Platform}
use r.Http.Paygate.{error_into_response, verification, no_payment_matching, refusal}
use r.Client.Selection.{PaymentCandidate, first_match, prefer_chain, max_amount_policy, is_within}
use r.Client.Selection.Policies.{max_amount_policy_iff}
use r.Client.Selection.Preference.{Prefers, prefer_chain_iff}
use r.Client.Payment.{
  X402Client, Headers, create_payment_headers_inner, parse_payment_required, handle, choose,
  candidates, apply_policies,
}
use r.Client.Payment.Limits.{IsBounded, first_match-IsChoice, created-IsBounded}
use r.Client.Payment.Handling.{Pays, handle_iff}
use r.Client.Payment.Answers.{IsFaithful, refusal-parse}
use r.Tests.Chains.{base, solana}
use r.Tests.Messages.{tag}
use r.Tests.Gate.{payload}

abbrev Log : Type 0
Log = List String

abbrev cheap : PaymentCandidate Log
cheap = record {
  chain_id = base;
  asset = "0x833";
  amount = "7";
  scheme = "exact";
  pay_to = "0xdef";
  sign = λ w. (ok "signed", w ++ "sign" ∷ []);
}

abbrev dear : PaymentCandidate Log
dear = record cheap { chain_id = solana; amount = "70" }

abbrev offers : List (PaymentCandidate Log)
offers = dear ∷ cheap ∷ []

abbrev evm_only : List ChainIdPattern
evm_only = wildcard "eip155" ∷ []

prefer_chain_iff_example :
    (prefer_chain evm_only offers ≡ some cheap) ↔ Prefers offers evm_only cheap
prefer_chain_iff_example = prefer_chain_iff offers evm_only cheap

data Packet : Type 0 where
  text : String → Packet
  terms_of : PaymentRequired String → Packet

abbrev Answer : Type 0
Answer = ℕ × List (String × Packet)

abbrev read_terms : Packet → Option (PaymentRequired String)
read_terms (text s) = none
read_terms (terms_of required) = some required

abbrev find_header : String → List (String × Packet) → Option Packet
find_header name [] = none
find_header name ((key, value) ∷ more) = if key =? name then some value else find_header name more

abbrev packets : Platform
packets = record {
  Value = String;
  Bytes = Packet;
  Request = List (String × Packet);
  Response = Answer;
  request_header = λ name req. find_header name req;
  response_header = λ name answer. find_header name answer.1;
  status = λ answer. answer.0;
  is_client_error = λ answer. false;
  is_server_error = λ answer. false;
  insert_header = λ name value answer. (answer.0, (name, value) ∷ answer.1);
  build = λ status headers body. (status, headers);
  body = λ answer. none;
  try_clone = λ req. some req;
  extend_headers = λ headers req. headers ++ req;
  parse_header = λ s. some (text s);
  ascii = text;
  header_value = λ bytes. ok bytes;
  decode = λ bytes. some bytes;
  encode = λ bytes. bytes;
  read_payload = λ bytes. some payload;
  read_payment_required = read_terms;
  write_payment_required = λ required. ok (terms_of required);
  write_settlement = λ receipt. ok (text "receipt");
  write_failure = text;
  to_value = λ request. ok "request";
}

packets-IsFaithful : IsFaithful packets
packets-IsFaithful = record {
  decodes = λ bytes. refl;
  reads =
      λ required bytes e. let same : terms_of required ≡ bytes = cc e in ap read_terms (sym same);
  keeps = λ bytes header e. let same : bytes ≡ header = cc e in sym same;
  has = λ status name value more body. rw (=?_refl name);
  built = λ status headers body. refl;
}

abbrev resource : ResourceInfo
resource = record { description = ""; mime_type = "text/plain"; url = "https://example.org" }

abbrev required : PaymentRequired String
required = refusal packets (tag ∷ []) resource no_payment_matching

abbrev answer : Answer
answer =
    (402, ("Payment-Required", terms_of required) ∷ ("Content-Type", text "application/json") ∷ [])

refused :
    error_into_response packets (verification no_payment_matching) (tag ∷ []) resource ≡ some answer
unfolding error_into_response
refused = refl

refusal-parse_example :
    (parse_payment_required packets answer ≡ some required) × (packets.status answer ≡ 402)
refusal-parse_example =
    refusal-parse packets packets-IsFaithful no_payment_matching (tag ∷ []) resource answer refused

abbrev client : X402Client Log String Packet
client = record {
  schemes = (λ r. offers) ∷ [];
  selector = first_match;
  policies = max_amount_policy 10 ∷ [];
  hooks = [];
}

abbrev signature : Headers Packet
signature = ("Payment-Signature", text "signed") ∷ []

pays : create_payment_headers_inner packets client required [] ≡ (ok (some signature), "sign" ∷ [])
unfolding create_payment_headers_inner choose candidates apply_policies max_amount_policy is_within
    parse_uint parse_digits first_match
pays = refl

created-IsBounded_example : IsBounded packets client required 10 [] ("sign" ∷ [])
created-IsBounded_example =
    created-IsBounded packets client required 10 [] ("sign" ∷ []) (some signature)
      ((λ cs c m. ((max_amount_policy_iff 10 cs c).0 m).0), tt) first_match-IsChoice
      (Memᴰ.head refl) pays

-- The server answers a request that has a header, and refuses one that has none.
abbrev serve : List (String × Packet) → Action Log String Answer
serve [] w = (ok answer, w ++ "refuse" ∷ [])
serve (h ∷ hs) w = (ok (200, []), w ++ "serve" ∷ [])

abbrev log : Log
log = "refuse" ∷ "sign" ∷ "serve" ∷ []

handle_iff_example :
    (handle packets serve client [] [] ≡ (ok (some (200, [])), log))
    ↔ Pays packets serve client [] [] (ok (some (200, [])), log)
handle_iff_example = handle_iff packets serve client [] [] (ok (some (200, [])), log)
