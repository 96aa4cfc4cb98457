-- ===== src/Proto/Verify.antt =====
-- `VerifyResponse` of r402/src/proto/mod.rs and its wire format.
use r.Base.{
  String, ◌≡◌, refl, ◌↔◌, Bool, true, false, Option, none, some, arith, Outcome, ok, ok_or, ◌>>=◌,
}

pub data VerifyResponse : Type 0 where
  valid : String → VerifyResponse
  -- reason, message, payer
  invalid : String → Option String → Option String → VerifyResponse

abbrev pub is_valid : VerifyResponse → Bool
is_valid (valid payer) = true
is_valid (invalid reason message payer) = false

pub record VerifyResponseWire : Type 0 where
  pub is_valid : Bool
  pub payer : Option String
  pub invalid_reason : Option String
  pub invalid_message : Option String

-- `From<VerifyResponse> for VerifyResponseWire`
unfoldable pub to_wire : VerifyResponse → VerifyResponseWire
to_wire (valid payer) = record {
  is_valid = true;
  payer = some payer;
  invalid_reason = none;
  invalid_message = none;
}
to_wire (invalid reason message payer) = record {
  is_valid = false;
  payer = payer;
  invalid_reason = some reason;
  invalid_message = message;
}

abbrev read_wire : Bool → VerifyResponseWire → Outcome VerifyResponse String
read_wire true wire = do payer ← ok_or "missing field: payer" wire.payer; ok (valid payer)
read_wire false wire = do
  reason ← ok_or "missing field: invalidReason" wire.invalid_reason
  ok (invalid reason wire.invalid_message wire.payer)

-- `TryFrom<VerifyResponseWire> for VerifyResponse`
unfoldable pub of_wire : VerifyResponseWire → Outcome VerifyResponse String
of_wire wire = read_wire wire.is_valid wire

-- Every answer survives the way over the wire.
pub of_wire-to_wire : (r : VerifyResponse) → of_wire (to_wire r) ≡ ok r
unfolding of_wire to_wire
of_wire-to_wire (valid payer) = refl
of_wire-to_wire (invalid reason message payer) = refl

-- A wire message is read as a valid payment by `payer` exactly if it says so and names the payer,
-- whatever stands in its reason and message.
pub of_wire-eq-valid_iff :
    (wire : VerifyResponseWire) (payer : String)
    → (of_wire wire ≡ ok (valid payer)) ↔ ((wire.is_valid ≡ true) × (wire.payer ≡ some payer))
unfolding of_wire
of_wire-eq-valid_iff wire payer = ground arith
