-- ===== src/Client/Selection.antt =====
-- r402/src/scheme/client.rs: candidates for a payment, and the policies and selectors that choose one.
pub mod Policies
pub mod Preference
use r.Base.{
  String, ℕ, Bool, Option, none, some, List, [], ◌∷◌, Outcome, ok, err, first, find, any, filter,
  leb, ◌=?◌, string_eq, if◌then◌else◌,
}
use r.Base.Text.{parse_uint, u128_max}
use r.Chain.Id.{ChainId}
use r.Chain.Pattern.{ChainIdPattern, matches}
use r.Base.{false}

-- An error of serde_json counts by its text.
pub data ClientError : Type 0 where
  no_matching_payment_option request_not_cloneable : ClientError
  parse_error signing_error json_error pre_condition_failed : String → ClientError

-- A candidate with its signer, which may read and change the world.
pub record PaymentCandidate (World : Type 0) : Type 0 where
  pub chain_id : ChainId
  pub asset : String
  pub amount : String
  pub scheme : String
  pub pay_to : String
  pub sign : World → Outcome String ClientError × World

-- The traits `PaymentSelector` and `PaymentPolicy`.
abbrev pub PaymentSelector : Type 0 → Type 0
PaymentSelector World = List (PaymentCandidate World) → Option (PaymentCandidate World)

abbrev pub PaymentPolicy : Type 0 → Type 0
PaymentPolicy World = List (PaymentCandidate World) → List (PaymentCandidate World)

abbrev pub at_most : ℕ → Option ℕ → Bool
at_most limit none = false
at_most limit (some a) = leb a limit

module _ {World : Type 0} where
  -- `FirstMatch`
  unfoldable pub first_match : PaymentSelector World
  first_match candidates = first candidates

  abbrev pub or_next :
      Option (PaymentCandidate World)
      → Option (PaymentCandidate World)
      → Option (PaymentCandidate World)
  or_next (some candidate) next = some candidate
  or_next none next = next

  -- `PreferChain`
  unfoldable pub prefer_chain : List ChainIdPattern → PaymentSelector World
  prefer_chain [] candidates = first candidates
  prefer_chain (pattern ∷ patterns) candidates =
      or_next (find (λ c. matches pattern c.chain_id) candidates) (prefer_chain patterns candidates)

  -- `c.amount.parse::<u128>().is_ok_and(|a| a <= limit)`
  unfoldable pub is_within : ℕ → PaymentCandidate World → Bool
  is_within limit c = at_most limit (parse_uint u128_max c.amount)

  -- `MaxAmount`
  unfoldable pub max_amount : ℕ → PaymentSelector World
  max_amount limit candidates = find (is_within limit) candidates

  -- `NetworkPolicy`
  unfoldable pub network_policy : List ChainIdPattern → PaymentPolicy World
  network_policy patterns candidates =
      filter (λ c. any (λ pattern. matches pattern c.chain_id) patterns) candidates

  -- `SchemePolicy`
  unfoldable pub scheme_policy : List String → PaymentPolicy World
  scheme_policy schemes candidates = filter (λ c. any (λ s. s =? c.scheme) schemes) candidates

  -- `MaxAmountPolicy`
  unfoldable pub max_amount_policy : ℕ → PaymentPolicy World
  max_amount_policy limit candidates = filter (is_within limit) candidates
