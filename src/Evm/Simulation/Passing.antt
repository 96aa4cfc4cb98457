-- ===== src/Evm/Simulation/Passing.antt =====
-- Which simulations pass.
use r.Base.{
  if◌then◌else◌, ◌+◌, String, ℕ, ◌≡◌, refl, sym, ap, ◌∙◌, ◌↔◌, Bool, true, false, List, Outcome,
  Outcome-cases, inl, inr, ok, err, guard, guard-eq-ok,
}
use r.Base.Actions.{
  with_error, proceed, lift, lifted-eq-ok, proceed-eq-ok, mapped-eq-ok, ok-injective,
}
use r.Proto.Error.{invalid_signature}
use r.Evm.Types.{Address, Eip3009Payment, Permit2Payment, Domain, payment_verification}
use r.Evm.Signature.{
  Primitives, StructuredSignature, eip6492, eoa, eip1271, try_from_bytes, extract,
}
use r.Evm.Calls.{
  Abi, ContractError, Provider, transfer_0, transfer_1, of_contract_error, of_multicall_error,
}
use r.Evm.Simulation.{
  validator_address, accept_results, text_of, permit_witness, simulate, verify_payment,
  verify_permit2_payment,
}

accept_results_iff :
    (results : Outcome Bool String × Outcome (Unit {0}) String)
    → (accept_results results ≡ ok tt) ↔ (results ≡ (ok true, ok tt))
unfolding accept_results
accept_results_iff (ok true, ok u) = ((λ h. refl), (λ h. refl))
accept_results_iff (ok true, err e) = ((λ h. cc h), (λ h. cc (ap (λ x. x.1) h)))
accept_results_iff (ok false, b) = ((λ h. cc h), (λ h. cc (ap (λ x. x.0) h)))
accept_results_iff (err e, b) = ((λ h. cc h), (λ h. cc (ap (λ x. x.0) h)))

module _ (primitives : Primitives) {World : Type 0} (provider : Provider World) (abi : Abi)
    (contract : Address) (payment : Eip3009Payment) (hash : ℕ) (w : World) where
  open primitives use {Signature}

  abbrev bytes_calldata : List ℕ → List ℕ
  bytes_calldata signature =
      abi.transfer_with_authorization_0 payment.from payment.to payment.value payment.valid_after
        payment.valid_before payment.nonce signature

  abbrev key_calldata : Signature → List ℕ
  key_calldata s =
      abi.transfer_with_authorization_1 payment.from payment.to payment.value payment.valid_after
        payment.valid_before payment.nonce (27 + (if primitives.parity s then 1 else 0))
        (primitives.part_r s) (primitives.part_s s)

  -- The payment's transfer is simulated with success, and where its signature is wrapped, the
  -- validator calls that signature valid in the same call.
  pub data Passes (read : StructuredSignature Signature) (v : World) : Type 0 where
    by_key :
        (s : Signature)
        → read ≡ eoa s
        → provider.call contract (key_calldata s) w ≡ (ok tt, v)
        → Passes read v
    by_wallet :
        (bytes : List ℕ)
        → read ≡ eip1271 bytes
        → provider.call contract (bytes_calldata bytes) w ≡ (ok tt, v)
        → Passes read v
    by_validator :
        (factory : Address) (factory_calldata inner original : List ℕ)
        → read ≡ eip6492 factory factory_calldata inner original
        → provider.signature_and_call validator_address payment.from hash original contract
            (bytes_calldata inner)
            w
          ≡ (ok (ok true, ok tt), v)
        → Passes read v

  simulate-Passes :
      (read : StructuredSignature Signature) (v : World)
      → Passes read v
      → simulate primitives provider abi contract payment hash read w ≡ (ok tt, v)
  unfolding simulate accept_results transfer_0 transfer_1
  simulate-Passes read v (Passes.by_key s e c) = rw (e, c) refl
  simulate-Passes read v (Passes.by_wallet bytes e c) = rw (e, c) refl
  simulate-Passes read v (Passes.by_validator f d i o e c) = rw (e, c) refl

  Passes-simulate :
      (read : StructuredSignature Signature) (v : World)
      → simulate primitives provider abi contract payment hash read w ≡ (ok tt, v)
      → Passes read v
  unfolding simulate transfer_0 transfer_1
  Passes-simulate (eoa s) v h = Passes.by_key s refl (mapped-eq-ok of_contract_error _ h)
  Passes-simulate (eip1271 bytes) v h =
      Passes.by_wallet bytes refl (mapped-eq-ok of_contract_error _ h)
  Passes-simulate (eip6492 f d i o) v h =
      let (results, u, c, rest) =
        proceed-eq-ok
          (with_error of_multicall_error
            (provider.signature_and_call validator_address payment.from hash o
              (transfer_0 abi contract payment i).target
              (transfer_0 abi contract payment i).calldata)
            w)
          _ h in
      let accepted : accept_results results ≡ ok tt = ap (λ x. x.0) rest in
      let same : u ≡ v = ap (λ x. x.1) rest in
      let both : results ≡ (ok true, ok tt) = (accept_results_iff results).0 accepted in
      Passes.by_validator f d i o refl (
        mapped-eq-ok of_multicall_error _ c
        ∙ ap (λ x. (ok x, u)) both
        ∙ ap (λ x. (ok (ok true, ok tt), x)) same)

module _ (primitives : Primitives) {World : Type 0} (provider : Provider World) (w : World) where
  -- An EIP-3009 payment is verified exactly if its signature is read as some kind and the simulation
  -- for that kind passes; it is verified as its payer's.
  pub verify_payment-ok_iff :
      (abi : Abi) (contract : Address) (payment : Eip3009Payment) (domain : Domain)
      (payer : Address) (v : World)
      → (verify_payment primitives provider abi contract payment domain w ≡ (ok payer, v)) ↔ (
          (read : StructuredSignature primitives.Signature) × (try_from_bytes primitives
              payment.signature payment.from
              (primitives.transfer_hash payment domain)
            ≡ ok read)
          × Passes primitives provider abi contract payment
              (primitives.transfer_hash payment domain)
              w
              read
              v
          × (payer ≡ payment.from))
  unfolding verify_payment extract
  verify_payment-ok_iff abi contract payment domain payer v =
      let hash = primitives.transfer_hash payment domain in
      (
        λ h. elim (Outcome-cases (try_from_bytes primitives payment.signature payment.from hash)) [
          | inr (e, r) ↦
              let failed : verify_payment primitives provider abi contract payment domain w
                  ≡ (err (payment_verification (invalid_signature e)), w) =
                rw r refl in
              cc (ap (λ x. x.0) (sym failed ∙ h))
          | inl (read, r) ↦
              let read_as : verify_payment primitives provider abi contract payment domain w
                  ≡ proceed (simulate primitives provider abi contract payment hash read w)
                      (λ _. lift (ok payment.from)) =
                rw r refl in
              let (u, y, s, rest) =
                proceed-eq-ok (simulate primitives provider abi contract payment hash read w)
                  (λ _. lift (ok payment.from)) (sym read_as ∙ h) in
              let answer = ok-injective rest in
              (
                read,
                r,
                Passes-simulate primitives provider abi contract payment hash w read v
                    (s ∙ ap (λ x. (ok tt, x.1)) answer),
                sym (ap (λ x. x.0) answer),
              )
        ],
        λ (read, r, p, e).
            rw (r, simulate-Passes primitives provider abi contract payment hash w read v p, e)
              refl,
      )

  -- A Permit2 payment is verified exactly if the validator calls its signature valid.
  pub verify_permit2_payment-ok_iff :
      (payment : Permit2Payment) (domain : Domain) (payer : Address) (v : World)
      → (verify_permit2_payment primitives provider payment domain w ≡ (ok payer, v)) ↔ (
          (provider.is_valid_signature validator_address payment.from
              (primitives.permit_hash (permit_witness payment) domain)
              payment.signature
              w
            ≡ (ok true, v))
          × (payer ≡ payment.from))
  unfolding verify_permit2_payment
  verify_permit2_payment-ok_iff payment domain payer v = (
    λ h.
        let invalid = λ (e : ContractError). payment_verification (invalid_signature (text_of e)) in
        let asked =
          provider.is_valid_signature validator_address payment.from
            (primitives.permit_hash (permit_witness payment) domain) payment.signature in
        let (b, y, c, h1) = proceed-eq-ok (with_error invalid asked w) _ h in
        let (u, g, h2) =
          lifted-eq-ok
            (guard b (payment_verification (invalid_signature "invalid Permit2 signature"))) _ y
            h1 in
        let answer = ok-injective h2 in
        (
          mapped-eq-ok invalid _ c
              ∙ ap (λ x. (ok x, y)) (guard-eq-ok b _ g)
              ∙ ap (λ x. (ok true, x.1)) answer,
          sym (ap (λ x. x.0) answer),
        ),
    λ (p, e). rw (p, e) refl,
  )
