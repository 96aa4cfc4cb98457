-- ===== src/Chain/Pattern/RoundTrip.antt =====
-- Printing and parsing a pattern.
use mathlib.Core.Option
use Prim.Native.Char.{code}
use text.Mathlib.TextLemmas.{head-eq_of_cons-eq}
use r.Base.{
  ℕ, =?-eq-false, String, ◌≡◌, ◌≢◌, refl, ap, ◌∙◌, inl, inr, false, none, some, arith, ok,
  Option-cases, List, [], ◌∷◌, ◌++◌, string_eq, contains, insert_key, All, eq_iff,
}
use mathlib.Core.List.{append-nil, append_assoc}
use r.Base.Text.{
  split_once-append, Lacks, trim, is_empty-eq-false, join, split-join, strip_prefix, strip_suffix,
  strip_suffix-append, strip_prefix-eq-some, strip_suffix-eq-some,
}
use r.Chain.Id.{colon}
use r.Chain.Pattern.{
  ChainIdPattern, wildcard, exact, set, to_string, from_str, namespace, is_nil, comma, brace_open,
  brace_close, braced, read_items, unbrace,
}

-- A reference that may stand between the braces of a set.
abbrev pub IsItem : String → Type 0
IsItem item = (item ≢ "") × (trim item ≡ item) × Lacks comma item

-- No reference stands twice.
abbrev pub Distinct : List String → Type 0
Distinct [] = Unit
Distinct (x ∷ xs) = All (λ y. y ≢ x) xs × Distinct xs

abbrev IsReference : String → Type 0
IsReference ref = (ref ≢ "") × (ref ≢ "*") × ((inner : String) → ref ≢ braced inner)

-- The patterns whose text form is unambiguous.
abbrev pub IsPrintable : ChainIdPattern → Type 0
IsPrintable (wildcard n) = (n ≢ "") × Lacks colon n
IsPrintable (exact n ref) = ((n ≢ "") × Lacks colon n) × IsReference ref
IsPrintable (set n refs) =
    ((n ≢ "") × Lacks colon n) × (refs ≢ []) × All IsItem refs × Distinct refs

unbrace-braced : (s : String) → unbrace (braced s) ≡ some s
unfolding unbrace strip_prefix Option.bind
unbrace-braced s = strip_suffix-append brace_close s

unbrace-eq-some : (s inner : String) → unbrace s ≡ some inner → s ≡ braced inner
unfolding unbrace Option.bind
unbrace-eq-some s inner h = elim (Option-cases (strip_prefix brace_open s)) [
  | inl missed ↦ let e : none ≡ some inner = rw missed at h in cc e
  | inr (t, found) ↦
      let e : strip_suffix brace_close t ≡ some inner = rw found at h in
      strip_prefix-eq-some brace_open s found
      ∙ ap (String.◌∷◌ brace_open) (strip_suffix-eq-some brace_close t e)
]

contains-concat :
    (seen : List String) (x y : String)
    → contains seen y ≡ false
    → y ≢ x
    → contains (seen ++ x ∷ []) y ≡ false
unfolding contains
contains-concat [] x y h ne = ground (arith, eq_iff x y)
contains-concat (z ∷ seen) x y h ne = ground (arith, contains-concat seen x y)

fresh-concat :
    (seen : List String) (x : String) (ys : List String)
    → All (λ y. contains seen y ≡ false) ys
    → All (λ y. y ≢ x) ys
    → All (λ y. contains (seen ++ x ∷ []) y ≡ false) ys
fresh-concat seen x [] h k = tt
fresh-concat seen x (y ∷ ys) (h, hs) (k, ks) =
    (contains-concat seen x y h k, fresh-concat seen x ys hs ks)

read_items_lem :
    (s : String) (seen refs : List String)
    → All IsItem refs
    → Distinct refs
    → All (λ y. contains seen y ≡ false) refs
    → read_items s seen refs ≡ ok (seen ++ refs)
unfolding read_items
read_items_lem s seen [] _ _ _ = rw append-nil
read_items_lem s seen (x ∷ xs) ((ne, trimmed, _), items) (apart, distinct) (new, fresh) =
    let step : insert_key x seen ≡ seen ++ x ∷ [] = unfold insert_key in rw new in
    let ih =
      read_items_lem s (seen ++ x ∷ []) xs items distinct (fresh-concat seen x xs fresh apart) in
    rw (trimmed, is_empty-eq-false x ne, step) (ih ∙ ap ok (append_assoc seen (x ∷ []) xs))

All-Lacks : (xs : List String) → All IsItem xs → All (Lacks comma) xs
All-Lacks [] _ = tt
All-Lacks (x ∷ xs) ((_, _, h), hs) = (h, All-Lacks xs hs)

no_seen : (xs : List String) → All (λ y. contains {K = String} [] y ≡ false) xs
unfolding contains
no_seen [] = tt
no_seen (x ∷ xs) = (refl, no_seen xs)

braced-ne-star : (s : String) → braced s ≢ "*"
braced-ne-star s e =
    let clash : ◌≡◌ {A = ℕ} b'{' b'*' = ap code (head-eq_of_cons-eq e) in absurd (omega arith)

unbrace-eq-none : (ref : String) → ((inner : String) → ref ≢ braced inner) → unbrace ref ≡ none
unbrace-eq-none ref bare = elim (Option-cases (unbrace ref)) [
  | inl missed ↦ missed
  | inr (inner, found) ↦ absurd (bare inner (unbrace-eq-some ref inner found))
]

is_nil-eq-false : (xs : List String) → xs ≢ [] → is_nil xs ≡ false
is_nil-eq-false [] h = absurd (h refl)
is_nil-eq-false (x ∷ xs) h = refl

-- A pattern whose text form is unambiguous is recovered from it.
pub from_str-to_string_pattern :
    (p : ChainIdPattern) → IsPrintable p → from_str (to_string p) ≡ ok p
unfolding from_str to_string namespace
from_str-to_string_pattern (wildcard n) (ne, h) =
    rw (split_once-append colon n "*" h, is_empty-eq-false n ne)
from_str-to_string_pattern (exact n ref) ((ne, h), (some_ref, star, bare)) = rw (
  split_once-append colon n ref h,
  is_empty-eq-false n ne,
  =?-eq-false ref "*" star,
  unbrace-eq-none ref bare,
  is_empty-eq-false ref some_ref,
)
from_str-to_string_pattern (set n refs) ((ne, h), filled, items, distinct) = rw (
  split_once-append colon n (braced (join comma refs)) h,
  is_empty-eq-false n ne,
  =?-eq-false (braced (join comma refs)) "*" (braced-ne-star _),
  unbrace-braced (join comma refs),
  split-join comma refs filled (All-Lacks refs items),
  read_items_lem (to_string (set n refs)) [] refs items distinct (no_seen refs),
  is_nil-eq-false refs filled,
)
