-- ===== src/Tests/Chains.antt =====
-- Chain identifiers, patterns and registries at concrete inputs.
use r.Base.{ℕ, ◌≡◌, refl, ◌↔◌, true, List, [], ◌∷◌, Memᴰ, ok, err, arith}
use r.Base.Text.{Lacks, split_once}
use r.Chain.Id.{ChainId, chain_id_format, to_string, from_str, colon}
use r.Chain.Id.RoundTrip.{to_string-from_str, from_str-eq-err_iff}
use r.Chain.Pattern.{ChainIdPattern, wildcard, set, matches, to_string as print, from_str as parse}
use r.Chain.Pattern.Matching.{Covers, matches_iff}
use r.Chain.Pattern.RoundTrip.{IsPrintable, from_str-to_string_pattern}
use r.Chain.Registry.{by_chain_id_pattern, Keyed, mem-by_chain_id_pattern_iff}
use r.Base.{ap}
use r.Base.Text.{trim}
use r.Base.Text.{trim_start}
use r.Base.Text.{trim_end}
use r.Base.Text.{is_whitespace}

abbrev pub base : ChainId
base = record { namespace = "eip155"; reference = "8453" }

abbrev pub solana : ChainId
solana = record { namespace = "solana"; reference = "mainnet" }

parses : from_str "eip155:8453" ≡ ok base
unfolding from_str split_once
parses = refl

to_string-from_str_example : (to_string base ≡ "eip155:8453") × Lacks colon base.namespace
to_string-from_str_example = to_string-from_str "eip155:8453" base parses

from_str-eq-err_iff_example :
    (from_str "eip155" ≡ err (chain_id_format "eip155")) ↔ Lacks colon "eip155"
from_str-eq-err_iff_example = from_str-eq-err_iff "eip155"

abbrev two_chains : ChainIdPattern
two_chains = set "eip155" ("1" ∷ "8453" ∷ [])

matches_iff_example : (matches two_chains base ≡ true) ↔ Covers two_chains base
matches_iff_example = matches_iff two_chains base

two_chains-IsPrintable : IsPrintable two_chains
unfolding trim trim_start trim_end is_whitespace
two_chains-IsPrintable = (
  ((λ e. cc e), ground arith),
  (λ e. cc e),
  (((λ e. cc e), refl, ground arith), (((λ e. cc e), refl, ground arith), tt)),
  (((λ e. cc e), tt), (tt, tt)),
)

from_str-to_string_pattern_example : parse (print two_chains) ≡ ok two_chains
from_str-to_string_pattern_example = from_str-to_string_pattern two_chains two_chains-IsPrintable

abbrev providers : List (ChainId × ℕ)
providers = (base, 1) ∷ (solana, 2) ∷ []

providers-Keyed : Keyed providers
providers-Keyed = ((λ e. cc (ap (λ c. c.namespace) e), tt), (tt, tt))

mem-by_chain_id_pattern_iff_example :
    Memᴰ 2 (by_chain_id_pattern providers (wildcard "solana"))
    ↔ ((c : ChainId) × (matches (wildcard "solana") c ≡ true) × Memᴰ (c, 2) providers)
mem-by_chain_id_pattern_iff_example = mem-by_chain_id_pattern_iff providers (wildcard "solana") 2
