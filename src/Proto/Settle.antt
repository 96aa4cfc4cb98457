-- ===== src/Proto/Settle.antt =====
-- `SettleResponse` of r402/src/proto/mod.rs and its wire format.
use r.Base.{
  String, ◌≡◌, ◌≢◌, refl, ◌↔◌, Bool, true, false, Option, none, some, List, arith, Outcome, ok, err,
  ok_or, refuse, ◌>>=◌, ◌>>◌,
}
use r.Base.Text.{is_empty, is_empty-eq-false, ne-nil_of_is_empty}

-- The map of extensions is listed in its order of iteration; `Value` is the type of a JSON value.
abbrev pub Extensions : Type 0 → Type 0
Extensions Value = List (String × Value)

pub data SettleResponse (Value : Type 0) : Type 0 where
  -- payer, transaction, network, extensions
  success : String → String → String → Option (Extensions Value) → SettleResponse Value
  -- reason, message, payer, network
  error : String → Option String → Option String → String → SettleResponse Value

pub record SettleResponseWire (Value : Type 0) : Type 0 where
  pub success : Bool
  pub error_reason : Option String
  pub error_message : Option String
  pub payer : Option String
  pub transaction : String
  pub network : String
  pub extensions : Option (Extensions Value)

module _ {Value : Type 0} where
  abbrev pub is_success : SettleResponse Value → Bool
  is_success (success payer transaction network extensions) = true
  is_success (error reason message payer network) = false

  -- `From<SettleResponse> for SettleResponseWire`
  unfoldable pub to_wire : SettleResponse Value → SettleResponseWire Value
  to_wire (success payer transaction network extensions) = record {
    success = true;
    error_reason = none;
    error_message = none;
    payer = some payer;
    transaction = transaction;
    network = network;
    extensions = extensions;
  }
  to_wire (error reason message payer network) = record {
    success = false;
    error_reason = some reason;
    error_message = message;
    payer = payer;
    transaction = "";
    network = network;
    extensions = none;
  }

  abbrev read_wire : Bool → SettleResponseWire Value → Outcome (SettleResponse Value) String
  read_wire true wire = do
    payer ← ok_or "missing field: payer" wire.payer
    refuse (is_empty wire.transaction) "missing field: transaction"
    ok (success payer wire.transaction wire.network wire.extensions)
  read_wire false wire = do
    reason ← ok_or "missing field: errorReason" wire.error_reason
    ok (error reason wire.error_message wire.payer wire.network)

  -- `TryFrom<SettleResponseWire> for SettleResponse`
  unfoldable pub of_wire : SettleResponseWire Value → Outcome (SettleResponse Value) String
  of_wire wire = read_wire wire.success wire

  -- A settlement names its transaction; a refusal has none to name.
  abbrev pub NamesTransaction : SettleResponse Value → Type 0
  NamesTransaction (success payer transaction network extensions) = transaction ≢ ""
  NamesTransaction (error reason message payer network) = Unit

  -- An answer survives the way over the wire exactly if a settlement names its transaction.
  pub of_wire-to_wire_iff :
      (r : SettleResponse Value) → (of_wire (to_wire r) ≡ ok r) ↔ NamesTransaction r
  unfolding of_wire to_wire
  of_wire-to_wire_iff (success payer transaction network extensions) = (
    (λ h e.
        let clash : err "missing field: transaction" ≡ ok (success payer "" network extensions) =
          rw e at h in
        cc clash),
    (λ named. rw (is_empty-eq-false transaction named)),
  )
  of_wire-to_wire_iff (error reason message payer network) = ((λ _. tt), (λ _. refl))

  -- What is read as a settlement names its transaction.
  pub of_wire-NamesTransaction :
      (wire : SettleResponseWire Value) (r : SettleResponse Value)
      → of_wire wire ≡ ok r
      → NamesTransaction r
  unfolding of_wire
  of_wire-NamesTransaction wire (success payer transaction network extensions) h =
      ground (arith, ne-nil_of_is_empty wire.transaction)
  of_wire-NamesTransaction wire (error reason message payer network) h = tt
