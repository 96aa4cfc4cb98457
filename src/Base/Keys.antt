-- ===== src/Base/Keys.antt =====
-- Equality tests as instances, and `HashMap` and `HashSet` as lists in their order of iteration.
use Prim.Native.String.{String}
use mathlib.Core.Path.{◌≡◌, refl}
use mathlib.Core.Logic.{◌≢◌, ◌↔◌}
use mathlib.Core.Bool.{Bool, true, false, ◌||◌}
use mathlib.Core.List.{List, [], ◌∷◌, ◌++◌}
use mathlib.Core.Option.{Option, none, some}
use native.Mathlib.Omega.{arith}
use text.Mathlib.Text.{◌==◌ as str_eq}
use text.Mathlib.TextEquality.{eq_iff}
use r.Base.Tests.{if◌then◌else◌}

-- `PartialEq`, whose answer is equality.
pub record Eq {ℓ} (A : Type ℓ) : Type ℓ where
  pub beq : A → A → Bool
  pub beq_iff : (x y : A) → (beq x y ≡ true) ↔ (x ≡ y)

infix 50 ◌=?◌
abbrev pub ◌=?◌ {ℓ} : {A : Type ℓ} ⦃e : Eq A⦄ → A → A → Bool
◌=?◌ ⦃e⦄ = e.beq

instance abbrev pub string_eq : Eq String
string_eq = record { beq = str_eq; beq_iff = eq_iff }

module _ {ℓ} {K : Type ℓ} ⦃e : Eq K⦄ where
  pub =?_refl : (k : K) → (k =? k) ≡ true
  =?_refl k = (e.beq_iff k k).1 refl

  pub =?-eq-false : (j k : K) → j ≢ k → (j =? k) ≡ false
  =?-eq-false j k h = ground (arith, e.beq_iff j k)

  -- `contains`, of a set or a slice
  unfoldable pub contains : List K → K → Bool
  contains [] k = false
  contains (x ∷ xs) k = (x =? k) || contains xs k

  -- `HashSet::insert`
  unfoldable pub insert_key : K → List K → List K
  unfolding contains
  insert_key k xs = if contains xs k then xs else xs ++ k ∷ []

  module _ {κ} {V : Type κ} where
    -- `HashMap::get`
    unfoldable pub lookup : K → List (K × V) → Option V
    lookup k [] = none
    lookup k ((j, v) ∷ m) = if j =? k then some v else lookup k m

    -- `HashMap::insert`
    unfoldable pub insert : K → V → List (K × V) → List (K × V)
    insert key value [] = (key, value) ∷ []
    insert key value ((other, old) ∷ rest) =
        if other =? key then (key, value) ∷ rest else (other, old) ∷ insert key value rest

    pub lookup-insert :
        (key asked : K) (value : V) (entries : List (K × V))
        → lookup asked (insert key value entries)
          ≡ (if key =? asked then some value else lookup asked entries)
    unfolding lookup insert
    lookup-insert key asked value [] = refl
    lookup-insert key asked value ((other, old) ∷ rest) = ground (
      arith,
      e.beq_iff key asked,
      e.beq_iff other key,
      e.beq_iff other asked,
      lookup-insert key asked value rest,
    )
