-- ===== src/Base/Text/Split.antt =====
-- `str::split_once`, `str::split` at a character, and `join`.
use Prim.Native.Char.{Char, code}
use Prim.Native.String.{String, ◌++◌}
use mathlib.Core.Path.{◌≡◌, refl, ap}
use mathlib.Core.Logic.{◌↔◌, inl, inr, ◌≢◌}
use mathlib.Core.List.{List, [], ◌∷◌}
use mathlib.Core.Option.{Option, none, some}
use native.Mathlib.Omega.{arith}
use text.Mathlib.TextEquality.{Char-path}
use text.Mathlib.TextLemmas.{nil-append, cons-append}
use r.Base.Tests.{ne_of_==-eq-false, Bool-cases, Option-cases, ==_iff, ◌==◌, if◌then◌else◌}
use r.Base.Lists.{All}

abbrev pub prepend : Char → Option (String × String) → Option (String × String)
prepend c none = none
prepend c (some (before, after)) = some (String.◌∷◌ c before, after)

-- `str::split_once`
unfoldable pub split_once : Char → String → Option (String × String)
split_once sep String.[] = none
split_once sep (String.◌∷◌ c s) =
    let rest = prepend c (split_once sep s) in
    if code c == code sep then some (String.[], s) else rest

abbrev pub cons_head : Char → List String → List String
cons_head c [] = String.◌∷◌ c String.[] ∷ []
cons_head c (part ∷ parts) = String.◌∷◌ c part ∷ parts

-- `str::split`
unfoldable pub split : Char → String → List String
split sep String.[] = String.[] ∷ []
split sep (String.◌∷◌ c s) =
    let parts = split sep s in if code c == code sep then String.[] ∷ parts else cons_head c parts

-- `[&str]::join`, with a separator of one character
unfoldable pub join : Char → List String → String
join sep [] = String.[]
join sep (x ∷ []) = x
join sep (x ∷ y ∷ xs) = x ++ String.◌∷◌ sep (join sep (y ∷ xs))

-- No character of the text is `sep`.
abbrev pub Lacks : Char → String → Type 0
Lacks sep String.[] = Unit
Lacks sep (String.◌∷◌ c s) = (code c ≢ code sep) × Lacks sep s

-- A text that holds no separator is recovered from in front of it.
pub split_once-append :
    (sep : Char) (before after : String)
    → Lacks sep before
    → split_once sep (before ++ String.◌∷◌ sep after) ≡ some (before, after)
unfolding split_once
split_once-append sep String.[] after _ = rw nil-append (ground arith)
split_once-append sep (String.◌∷◌ d s) after (ne, h) =
    rw (cons-append, split_once) (ground (arith, split_once-append sep s after h))

-- Where the text is split, its parts and the separator make up the text, and the first part
-- holds no separator.
pub split_once-eq-some :
    (sep : Char) (s : String) {before after : String}
    → split_once sep s ≡ some (before, after)
    → (s ≡ before ++ String.◌∷◌ sep after) × Lacks sep before
unfolding split_once
split_once-eq-some sep String.[] h = cc
split_once-eq-some sep (String.◌∷◌ d s) {before} {after} h =
    elim (Bool-cases (code d == code sep)) [
      | inl same ↦
          let e : some (String.[], s) ≡ some (before, after) = rw same at h in
          let b : String.[] ≡ before = cc e in
          let a : s ≡ after = cc e in
          rw (← b, ← a)
            ((rw nil-append (ap (λ c. String.◌∷◌ c s) (Char-path d sep ((==_iff _ _).0 same)))), tt)
      | inr other ↦ elim (Option-cases (split_once sep s)) [
        | inl missed ↦ let e : none ≡ some (before, after) = rw (other, missed) at h in cc e
        | inr ((b, a), found) ↦
            let e : some (String.◌∷◌ d b, a) ≡ some (before, after) = rw (other, found) at h in
            let eb : String.◌∷◌ d b ≡ before = cc e in
            let ea : a ≡ after = cc e in
            let (whole, lacks) = split_once-eq-some sep s found in
            rw (← eb, ← ea)
              (
                (rw cons-append (ap (λ t. String.◌∷◌ d t) whole)),
                (ne_of_==-eq-false _ _ other, lacks),
              )
      ]
    ]

-- The search for a separator fails exactly where there is none.
pub split_once-eq-none_iff : (sep : Char) (s : String) → (split_once sep s ≡ none) ↔ Lacks sep s
unfolding split_once
split_once-eq-none_iff sep String.[] = ((λ _. tt), (λ _. refl))
split_once-eq-none_iff sep (String.◌∷◌ c s) = ground (arith, split_once-eq-none_iff sep s)

split-Lacks : (sep : Char) (x : String) → Lacks sep x → split sep x ≡ x ∷ []
unfolding split
split-Lacks sep String.[] _ = refl
split-Lacks sep (String.◌∷◌ d s) (ne, h) = ground (arith, split-Lacks sep s h)

split-append :
    (sep : Char) (x rest : String)
    → Lacks sep x
    → split sep (x ++ String.◌∷◌ sep rest) ≡ x ∷ split sep rest
unfolding split
split-append sep String.[] rest _ = rw nil-append (ground arith)
split-append sep (String.◌∷◌ d s) rest (ne, h) =
    rw (cons-append, split) (ground (arith, split-append sep s rest h))

-- Texts that hold no separator are recovered from their join.
pub split-join :
    (sep : Char) (xs : List String) → xs ≢ [] → All (Lacks sep) xs → split sep (join sep xs) ≡ xs
unfolding join
split-join sep [] ne _ = absurd (ne refl)
split-join sep (x ∷ []) ne (h, _) = split-Lacks sep x h
split-join sep (x ∷ y ∷ xs) ne (h, hs) =
    rw (split-append sep x (join sep (y ∷ xs)) h)
      (ap (λ l. x ∷ l) (split-join sep (y ∷ xs) (λ q. cc) hs))
