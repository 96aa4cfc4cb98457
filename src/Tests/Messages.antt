-- ===== src/Tests/Messages.antt =====
-- Messages and the terms of payments at concrete inputs.
use r.Base.{String, ℕ, ◌≡◌, refl, ◌↔◌, true, none, some, ok}
use r.Proto.Verify.{VerifyResponse, valid, invalid, VerifyResponseWire}
use r.Proto.Verify as Verify
use r.Proto.Settle.{SettleResponse, success, error, SettleResponseWire, NamesTransaction}
use r.Proto.Settle as Settle
use r.Proto.V2.{WireRequirements, PriceTag, SameTerms}
use r.Tests.Chains.{base}

abbrev verdict : VerifyResponseWire
verdict = record {
  is_valid = true;
  payer = some "0xabc";
  invalid_reason = none;
  invalid_message = none;
}

of_wire-eq-valid_iff_example :
    (Verify.of_wire verdict ≡ ok (valid "0xabc"))
    ↔ ((verdict.is_valid ≡ true) × (verdict.payer ≡ some "0xabc"))
of_wire-eq-valid_iff_example = Verify.of_wire-eq-valid_iff verdict "0xabc"

abbrev settlement : SettleResponse String
settlement = success "0xabc" "0x01" "eip155:8453" none

of_wire-to_wire_iff_example :
    (Settle.of_wire (Settle.to_wire settlement) ≡ ok settlement) ↔ NamesTransaction settlement
of_wire-to_wire_iff_example = Settle.of_wire-to_wire_iff settlement

settlement_read : Settle.of_wire (Settle.to_wire settlement) ≡ ok settlement
unfolding Settle.of_wire Settle.to_wire
settlement_read = refl

abbrev pub terms : WireRequirements String
terms = record {
  scheme = "exact";
  network = base;
  amount = "1000";
  pay_to = "0xdef";
  max_timeout_seconds = 300;
  asset = "0x833";
  extra = none;
}

abbrev pub tag : PriceTag ℕ String
tag = record { requirements = terms; enricher = none }

abbrev pub tag-SameTerms : SameTerms tag.requirements terms
tag-SameTerms = record { scheme = refl; network = refl; amount = refl; asset = refl; pay_to = refl }
