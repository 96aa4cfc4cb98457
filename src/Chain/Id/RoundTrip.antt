-- ===== src/Chain/Id/RoundTrip.antt =====
-- Printing and parsing a `ChainId`.
use mathlib.Core.Path.{subst}
use r.Base.{String, ◌≡◌, sym, ◌↔◌, inl, inr, arith, ok, err, Option-cases}
use r.Base.Text.{split_once, split_once-append, split_once-eq-some, split_once-eq-none_iff, Lacks}
use r.Chain.Id.{ChainId, chain_id_format, to_string, from_str, colon}

-- A chain identifier whose namespace holds no colon is recovered from its text.
pub from_str-to_string : (c : ChainId) → Lacks colon c.namespace → from_str (to_string c) ≡ ok c
unfolding from_str to_string
from_str-to_string c h = rw (split_once-append colon c.namespace c.reference h)

-- Whatever parses is printed back as the same text, and its namespace holds no colon.
pub to_string-from_str :
    (s : String) (c : ChainId) → from_str s ≡ ok c → (to_string c ≡ s) × Lacks colon c.namespace
unfolding from_str to_string
to_string-from_str s c h = elim (Option-cases (split_once colon s)) [
  | inl missed ↦ let e : err (chain_id_format s) ≡ ok c = rw missed at h in cc e
  | inr ((n, ref), found) ↦
      let e : ok (record { namespace = n; reference = ref }) ≡ ok c = rw found at h in
      let same : record { namespace = n; reference = ref } ≡ c = cc e in
      let (whole, lacks) = split_once-eq-some colon s found in
      subst (λ k. (to_string k ≡ s) × Lacks colon k.namespace) same (sym whole, lacks)
]

-- A text is refused exactly when it holds no colon, and the error carries the text.
pub from_str-eq-err_iff : (s : String) → (from_str s ≡ err (chain_id_format s)) ↔ Lacks colon s
unfolding from_str
from_str-eq-err_iff s = ground (arith, split_once-eq-none_iff colon s)
