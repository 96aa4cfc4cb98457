-- ===== src/Base/Text/Strip.antt =====
-- `str::strip_prefix`, `str::strip_suffix` at a character, and `str::is_empty`.
use Prim.Native.Char.{Char, code}
use Prim.Native.String.{String, ◌++◌}
use mathlib.Core.Path.{refl, ◌≡◌, ap, sym, ◌∙◌}
use mathlib.Core.Logic.{◌≢◌, inl, inr}
use native.Mathlib.Omega.{arith}
use text.Mathlib.TextEquality.{Char-path}
use text.Mathlib.TextLemmas.{cons≢nil, nil-append, cons-append}
use mathlib.Core.Bool.{Bool, true, false}
use mathlib.Core.Option
use mathlib.Core.Option.{Option, none, some}
use r.Base.Tests.{◌==◌, if◌then◌else◌, ==_iff, Bool-cases, Option-cases}

-- `str::is_empty`
abbrev pub is_empty : String → Bool
is_empty String.[] = true
is_empty (String.◌∷◌ c s) = false

pub is_empty-eq-false : (s : String) → s ≢ "" → is_empty s ≡ false
is_empty-eq-false String.[] h = absurd (h refl)
is_empty-eq-false (String.◌∷◌ c s) h = refl

pub ne-nil_of_is_empty : (s : String) → is_empty s ≡ false → s ≢ ""
ne-nil_of_is_empty String.[] h = cc
ne-nil_of_is_empty (String.◌∷◌ c s) h = cons≢nil

-- `str::strip_prefix`
unfoldable pub strip_prefix : Char → String → Option String
strip_prefix p String.[] = none
strip_prefix p (String.◌∷◌ c s) = if code c == code p then some s else none

-- `str::strip_suffix`
unfoldable pub strip_suffix : Char → String → Option String
strip_suffix p String.[] = none
strip_suffix p (String.◌∷◌ c String.[]) = if code c == code p then some String.[] else none
strip_suffix p (String.◌∷◌ c (String.◌∷◌ d s)) =
    Option.map (String.◌∷◌ c) (strip_suffix p (String.◌∷◌ d s))

pub strip_suffix-append :
    (p : Char) (s : String) → strip_suffix p (s ++ String.◌∷◌ p String.[]) ≡ some s
unfolding strip_suffix
strip_suffix-append p String.[] = rw nil-append (ground arith)
strip_suffix-append p (String.◌∷◌ c String.[]) = rw (cons-append, nil-append) (ground arith)
strip_suffix-append p (String.◌∷◌ c (String.◌∷◌ d s)) =
    let ih = strip_suffix-append p (String.◌∷◌ d s) in
    rw (cons-append, cons-append)
      (ap (λ t. Option.map (String.◌∷◌ c) (strip_suffix p t))
          (sym (cons-append d s (String.◌∷◌ p String.[])))
        ∙ ap (Option.map (String.◌∷◌ c)) ih)

pub strip_prefix-eq-some :
    (p : Char) (s : String) {rest : String} → strip_prefix p s ≡ some rest → s ≡ String.◌∷◌ p rest
unfolding strip_prefix
strip_prefix-eq-some p String.[] h = cc
strip_prefix-eq-some p (String.◌∷◌ c s) {rest} h = elim (Bool-cases (code c == code p)) [
  | inl same ↦
      let e : some s ≡ some rest = rw same at h in
      let a : s ≡ rest = cc e in
      rw (← a) (ap (λ d. String.◌∷◌ d s) (Char-path c p ((==_iff _ _).0 same)))
  | inr other ↦ let e : none ≡ some rest = rw other at h in cc
]

pub strip_suffix-eq-some :
    (p : Char) (s : String) {rest : String}
    → strip_suffix p s ≡ some rest
    → s ≡ rest ++ String.◌∷◌ p String.[]
unfolding strip_suffix
strip_suffix-eq-some p String.[] h = cc
strip_suffix-eq-some p (String.◌∷◌ c String.[]) {rest} h = elim (Bool-cases (code c == code p)) [
  | inl same ↦
      let e : some String.[] ≡ some rest = rw same at h in
      let a : String.[] ≡ rest = cc e in
      rw (← a, nil-append) (ap (λ d. String.◌∷◌ d String.[]) (Char-path c p ((==_iff _ _).0 same)))
  | inr other ↦ let e : none ≡ some rest = rw other at h in cc
]
strip_suffix-eq-some p (String.◌∷◌ c (String.◌∷◌ d s)) {rest} h =
    elim (Option-cases (strip_suffix p (String.◌∷◌ d s))) [
      | inl missed ↦ let e : none ≡ some rest = rw missed at h in cc e
      | inr (t, found) ↦
          let e : some (String.◌∷◌ c t) ≡ some rest = rw found at h in
          let a : String.◌∷◌ c t ≡ rest = cc e in
          rw (← a, cons-append)
            (ap (λ u. String.◌∷◌ c u) (strip_suffix-eq-some p (String.◌∷◌ d s) found))
    ]
