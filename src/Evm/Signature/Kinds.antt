-- ===== src/Evm/Signature/Kinds.antt =====
-- Which kind a signature is read as.
use mathlib.Core.Option.{some-injective}
use r.Base.{
  ℕ, ◌+◌, ◌-◌, ◌≡◌, refl, ap, ◌∙◌, ◌↔◌, inl, inr, ◌⊎◌, true, false, Bool-cases, Option, none, some,
  Option-cases, List, ◌++◌, ok, Outcome-cases, length, take, drop, take-append-drop, drop-append,
  take-append, length-append, bytes_beq, bytes_beq_iff, ◌==◌, ==_iff, ne_of_==-eq-false, arith,
}
use r.Evm.Types.{Address}
use r.Evm.Signature.{
  Primitives, Sig6492, StructuredSignature, eip6492, eoa, eip1271, magic_suffix, is_eip6492,
  eoa_signature, try_from_bytes, of_eoa,
}

-- The bytes are a body with the wrapper's suffix.
abbrev pub IsWrapped : List ℕ → Type 0
IsWrapped bytes = (body : List ℕ) × (bytes ≡ body ++ magic_suffix)

is_eip6492-append : (body : List ℕ) → is_eip6492 (body ++ magic_suffix) ≡ true
unfolding is_eip6492
is_eip6492-append body =
    let long : length (body ++ magic_suffix) ≡ length body + 32 = length-append body magic_suffix in
    let body_long : length body + 32 - 32 ≡ length body = omega arith in
    rw
      (
        long,
        body_long,
        drop-append body magic_suffix,
        (bytes_beq_iff magic_suffix magic_suffix).1 refl,
      )
      (ground arith)

wrapped_of :
    (bytes : List ℕ)
    → is_eip6492 bytes ≡ true
    → bytes ≡ take (length bytes - 32) bytes ++ magic_suffix
unfolding is_eip6492
wrapped_of bytes h =
    let same : bytes_beq (drop (length bytes - 32) bytes) magic_suffix ≡ true = ground arith in
    take-append-drop (length bytes - 32) bytes
    ∙ ap (λ t. take (length bytes - 32) bytes ++ t)
        ((bytes_beq_iff (drop (length bytes - 32) bytes) magic_suffix).0 same)

is_eip6492-IsWrapped :
    (bytes body : List ℕ) → bytes ≡ body ++ magic_suffix → is_eip6492 bytes ≡ true
is_eip6492-IsWrapped bytes body h = ap is_eip6492 h ∙ is_eip6492-append body

take-IsWrapped :
    (bytes body : List ℕ) → bytes ≡ body ++ magic_suffix → take (length bytes - 32) bytes ≡ body
take-IsWrapped bytes body h =
    let body_long : length body + 32 - 32 ≡ length body = omega arith in
    rw (h, length-append body magic_suffix, body_long) (take-append body magic_suffix)

is_eip6492-plain : (bytes : List ℕ) → ¬ IsWrapped bytes → is_eip6492 bytes ≡ false
is_eip6492-plain bytes n = elim (Bool-cases (is_eip6492 bytes)) [
  | inl h ↦ elim (n (take (length bytes - 32) bytes, wrapped_of bytes h)) [ ]
  | inr h ↦ h
]

module _ (primitives : Primitives) where
  open primitives use {Signature, from_raw, from_erc2098, normalized_s, recover, decode_6492}

  -- The bytes are a key's signature, which is read with its s in the lower half: 65 of them by
  -- `from_raw`, where that succeeds, and 64 as the compact form of ERC-2098.
  pub data IsKeySignature (bytes : List ℕ) (s : Signature) : Type 0 where
    is_raw :
        length bytes ≡ 65
        → (raw : Signature) → from_raw bytes ≡ some raw
        → s ≡ normalized_s raw
        → IsKeySignature bytes s
    is_compact : length bytes ≡ 64 → s ≡ normalized_s (from_erc2098 bytes) → IsKeySignature bytes s

  eoa_signature-IsKeySignature :
      (bytes : List ℕ) (s : Signature)
      → IsKeySignature bytes s
      → eoa_signature primitives bytes ≡ some s
  unfolding eoa_signature
  eoa_signature-IsKeySignature bytes s (IsKeySignature.is_raw l raw r e) = rw (l, r, e) refl
  eoa_signature-IsKeySignature bytes s (IsKeySignature.is_compact l e) = rw (l, e) refl

  IsKeySignature-eoa_signature :
      (bytes : List ℕ) (s : Signature)
      → eoa_signature primitives bytes ≡ some s
      → IsKeySignature bytes s
  unfolding eoa_signature
  IsKeySignature-eoa_signature bytes s h = elim (Bool-cases (length bytes == 65)) [
    | inl long ↦ elim (Option-cases (from_raw bytes)) [
      | inl e ↦ cc
      | inr (raw, e) ↦
          IsKeySignature.is_raw ((==_iff (length bytes) 65).0 long) raw e (some-injective _ _ cc)
    ]
    | inr other ↦ elim (Bool-cases (length bytes == 64)) [
      | inl compact ↦
          IsKeySignature.is_compact ((==_iff (length bytes) 64).0 compact) (some-injective _ _ cc)
      | inr neither ↦ cc
    ]
  ]

  -- The bytes are a signature by the key of the expected signer.
  abbrev pub IsRecovered : List ℕ → Address → ℕ → Type 0
  IsRecovered bytes expected prehash =
      (s : Signature) × IsKeySignature bytes s × (recover s prehash ≡ some expected)

  -- How the bytes of a signature are read.
  pub data Reads (bytes : List ℕ) (expected : Address) (prehash : ℕ)
      (read : StructuredSignature Signature) : Type 0 where
    wrapped :
        (body : List ℕ)
        → bytes ≡ body ++ magic_suffix
        → (sig : Sig6492) → decode_6492 body ≡ ok sig
        → read ≡ eip6492 sig.factory sig.factory_calldata sig.inner_sig bytes
        → Reads bytes expected prehash read
    recovered :
        ¬ IsWrapped bytes
        → (s : Signature) → IsKeySignature bytes s
        → recover s prehash ≡ some expected
        → read ≡ eoa s
        → Reads bytes expected prehash read
    contract :
        ¬ IsWrapped bytes
        → ¬ IsRecovered bytes expected prehash
        → read ≡ eip1271 bytes
        → Reads bytes expected prehash read

  module _ (bytes : List ℕ) (expected : Address) (prehash : ℕ) where
    -- The reading of bytes that are not wrapped, at what they decode to.
    of_eoa-Recovered :
        (o : Option Signature) (s : Signature)
        → o ≡ some s
        → recover s prehash ≡ some expected
        → of_eoa primitives bytes expected prehash o ≡ eoa s
    of_eoa-Recovered o s h r = rw (h, r, (==_iff expected expected).1 refl) refl

    of_eoa-contract :
        (o : Option Signature)
        → ¬ ((s : Signature) × (o ≡ some s) × (recover s prehash ≡ some expected))
        → of_eoa primitives bytes expected prehash o ≡ eip1271 bytes
    of_eoa-contract none m = refl
    of_eoa-contract (some s) m = elim (Option-cases (recover s prehash)) [
      | inl h ↦ rw h refl
      | inr (r, h) ↦ elim (Bool-cases (r == expected)) [
        | inl t ↦ elim (m (s, refl, h ∙ ap some ((==_iff r expected).0 t))) [ ]
        | inr f ↦ rw (h, f) refl
      ]
    ]

    recovered? :
        (o : Option Signature)
        → ((s : Signature) × (o ≡ some s) × (recover s prehash ≡ some expected))
          ⊎ ¬ ((s : Signature) × (o ≡ some s) × (recover s prehash ≡ some expected))
    recovered? none = inr (λ (s, e, r). cc)
    recovered? (some s) = elim (Option-cases (recover s prehash)) [
      | inl h ↦ inr (λ (t, e, r). cc)
      | inr (a, h) ↦ elim (Bool-cases (a == expected)) [
        | inl t ↦ inl (s, refl, h ∙ ap some ((==_iff a expected).0 t))
        | inr f ↦
            inr (λ (t, e, r). let same : a ≡ expected = cc in ne_of_==-eq-false a expected f same)
      ]
    ]

    module _ (read : StructuredSignature Signature) where
      complete :
          Reads bytes expected prehash read
          → try_from_bytes primitives bytes expected prehash ≡ ok read
      unfolding try_from_bytes
      complete (Reads.wrapped body h sig d e) =
          rw (is_eip6492-IsWrapped bytes body h, take-IsWrapped bytes body h, d, e) refl
      complete (Reads.recovered n s h r e) =
          let found = eoa_signature-IsKeySignature bytes s h in
          rw
            (
              is_eip6492-plain bytes n,
              of_eoa-Recovered (eoa_signature primitives bytes) s found r,
              e,
            )
            refl
      complete (Reads.contract n m e) =
          let other : ¬ (
              (s : Signature) × (eoa_signature primitives bytes ≡ some s)
              × (recover s prehash ≡ some expected)) =
            λ (s, h, r). m (s, IsKeySignature-eoa_signature bytes s h, r) in
          rw (is_eip6492-plain bytes n, of_eoa-contract (eoa_signature primitives bytes) other, e)
            refl

      sound :
          try_from_bytes primitives bytes expected prehash ≡ ok read
          → Reads bytes expected prehash read
      unfolding try_from_bytes
      sound h = elim (Bool-cases (is_eip6492 bytes)) [
        | inl t ↦ elim (Outcome-cases (decode_6492 (take (length bytes - 32) bytes))) [
          | inl (sig, d) ↦
              Reads.wrapped (take (length bytes - 32) bytes) (wrapped_of bytes t) sig d cc
          | inr (e, d) ↦ cc
        ]
        | inr f ↦
            let n : ¬ IsWrapped bytes =
              λ (body, b). let t = is_eip6492-IsWrapped bytes body b in cc in
            elim (recovered? (eoa_signature primitives bytes)) [
              | inl (s, e, r) ↦
                  Reads.recovered n s (IsKeySignature-eoa_signature bytes s e) r
                    (cc (of_eoa-Recovered (eoa_signature primitives bytes) s e r))
              | inr m ↦
                  Reads.contract n (λ (s, k, r). m (s, eoa_signature-IsKeySignature bytes s k, r))
                    (cc (of_eoa-contract (eoa_signature primitives bytes) m))
            ]
      ]

    -- The bytes of a signature are read as a kind exactly if they are of it: as a wrapped signature
    -- if they end in the suffix of EIP-6492 and the rest decodes; as a signature of the expected
    -- signer's key if they do not end in it, are 65 raw or 64 compact bytes, and their normalised
    -- signature recovers to the signer; and as a contract's signature if neither is so.
    pub try_from_bytes_iff :
        (read : StructuredSignature Signature)
        → (try_from_bytes primitives bytes expected prehash ≡ ok read)
          ↔ Reads bytes expected prehash read
    try_from_bytes_iff read = (sound read, complete read)
