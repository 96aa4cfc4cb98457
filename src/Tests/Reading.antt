-- ===== src/Tests/Reading.antt =====
-- What a client of a tool reads, at a concrete input.
use r.Base.{ℕ, none, some, [], ◌∷◌, ◌≡◌, refl, lookup}
use r.Mcp.Types.{PaymentWrapperConfig}
use r.Mcp.Server.{required, payment_required_result}
use r.Mcp.Extract.{extract_payment_required_from_result}
use r.Mcp.Extract.Answered.{IsWritten, extract_payment_required-payment_required_result}
use r.Tests.Trees.{Tree, json, reader, json-IsFaithful, terms, asked, body_fields}

abbrev config : PaymentWrapperConfig json ℕ
config = record {
  accepts = terms ∷ [];
  resource = some asked.resource;
  hooks = none;
  extensions = none;
}

abbrev written : IsWritten json reader config "Payment Required" (json.object body_fields)
unfolding lookup
written = record {
  written = refl;
  object = body_fields;
  is_object = refl;
  version = json.number 2;
  has_version = refl;
  is_2 = refl;
  accepts = Tree.array (json.number 7);
  has_accepts = refl;
  first = json.number 7;
  rest = [];
  is_array = refl;
  read = refl;
}

extract_payment_required-payment_required_result_example :
    extract_payment_required_from_result json reader
      (payment_required_result json config "Payment Required")
    ≡ some (required json config "Payment Required")
extract_payment_required-payment_required_result_example =
    extract_payment_required-payment_required_result json reader config "Payment Required"
      json-IsFaithful (json.object body_fields) written
