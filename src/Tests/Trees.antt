-- ===== src/Tests/Trees.antt =====
-- A concrete JSON library for the calls of tools.
use r.Base.{
  String, ℕ, ◌≡◌, refl, ap, Option, none, some, List, [], ◌∷◌, ◌==◌, ==_iff, ok, err, true,
}
use r.Proto.V2.{WireRequirements, PaymentRequired}
use r.Mcp.Types.{Json}
use r.Mcp.Extract.{Reader}
use r.Mcp.Extract.Answered.{IsFaithful}

mutual
  pub data Tree : Type 0 where
    null : Tree
    number : ℕ → Tree
    object : Fields → Tree
    -- an array of one value
    array : Tree → Tree

  pub data Fields : Type 0 where
    no_fields : Fields
    with_field : String → Tree → Fields → Fields

abbrev fields_of : List (String × Tree) → Fields
fields_of [] = no_fields
fields_of ((key, value) ∷ rest) = with_field key value (fields_of rest)

abbrev listed : Fields → List (String × Tree)
listed no_fields = []
listed (with_field key value rest) = (key, value) ∷ listed rest

listed-fields_of : (fields : List (String × Tree)) → listed (fields_of fields) ≡ fields
listed-fields_of [] = refl
listed-fields_of ((key, value) ∷ rest) = ap (λ l. (key, value) ∷ l) (listed-fields_of rest)

abbrev as_object : Tree → Option (List (String × Tree))
as_object null = none
as_object (number n) = none
as_object (object fields) = some (listed fields)
as_object (array value) = none

abbrev as_number : Tree → Option ℕ
as_number null = none
as_number (number n) = some n
as_number (object _) = none
as_number (array value) = none

abbrev as_array : Tree → Option (List Tree)
as_array null = none
as_array (number n) = none
as_array (object _) = none
as_array (array value) = some (value ∷ [])

abbrev pub terms : WireRequirements Tree
terms = record {
  scheme = "exact";
  network = record { namespace = "eip155"; reference = "8453" };
  amount = "100";
  pay_to = "0x2";
  max_timeout_seconds = 60;
  asset = "0x9";
  extra = none;
}

abbrev pub asked : PaymentRequired Tree
asked = record {
  error = some "Payment Required";
  resource = record {
    url = "mcp://tool/weather";
    description = "Weather";
    mime_type = "text/plain";
  };
  accepts = terms ∷ [];
  extensions = none;
}

-- How `asked` is written
abbrev pub body_fields : List (String × Tree)
body_fields = ("x402Version", number 2) ∷ ("accepts", array (number 7)) ∷ []

abbrev pub json : Json
json = record {
  Value = Tree;
  as_object = as_object;
  as_u64 = as_number;
  null = null;
  requirements_to_value = λ requirements. ok (number 70);
  settlement_to_value = λ settlement. some (number 71);
  required_to_value = λ required. some (object (fields_of body_fields));
  to_text = λ v. some "text";
  object = λ fields. object (fields_of fields);
  number = number;
}

abbrev pub reader : Reader json
reader = record {
  as_array = as_array;
  F64 = ℕ;
  as_f64 = λ v. none;
  is_version = λ f. true;
  to_u64 = λ f. f;
  I64 = ℕ;
  as_i64 = as_number;
  i64_from = λ n. n;
  i64_eq = λ a b. a == b;
  from_str = λ text. err "not read";
  required_from_value = λ v. ok asked;
  settlement_from_value = λ v. err "none";
}

pub json-IsFaithful : IsFaithful json reader
json-IsFaithful = record {
  object_read = λ fields distinct. (fields, ap some (listed-fields_of fields), λ key. refl);
  number_read = λ n small. refl;
  i64_refl = λ i. (==_iff i i).1 refl;
}
