-- ===== src/Base/Results.antt =====
-- `Result<T, E>`, and computations that read and change a world before they return one.
use mathlib.Core.Path.{◌≡◌, refl}
use mathlib.Core.Logic.{◌⊎◌, inl, inr}
use mathlib.Core.Bool.{Bool, true, false}
use native.Mathlib.Omega.{arith}
use mathlib.Core.Option.{Option, none, some}

pub data Outcome {ℓ κ} (A : Type ℓ) (E : Type κ) : Type (ℓ ⊔ κ) where
  ok : A → Outcome A E
  err : E → Outcome A E

module _ {ℓ κ} {A : Type ℓ} {E : Type κ} where
  pub Outcome-cases : (r : Outcome A E) → ((a : A) × (r ≡ ok a)) ⊎ ((e : E) × (r ≡ err e))
  Outcome-cases (ok a) = inl (a, refl)
  Outcome-cases (err e) = inr (e, refl)

  pub ok-injective : {a b : A} → ◌≡◌ {A = Outcome A E} (ok a) (ok b) → a ≡ b
  ok-injective h = cc h

  -- `Option::ok_or`
  abbrev pub ok_or : E → Option A → Outcome A E
  ok_or e none = err e
  ok_or e (some a) = ok a

  pub ok_or-eq-ok : (e : E) (o : Option A) {a : A} → ok_or e o ≡ ok a → o ≡ some a
  ok_or-eq-ok e none h = cc
  ok_or-eq-ok e (some b) h = cc

  -- `Result::ok`
  abbrev pub to_option : Outcome A E → Option A
  to_option (ok a) = some a
  to_option (err e) = none

-- `Result::map_err`
abbrev pub map_err {ℓ κ μ} :
    {A : Type ℓ} {E : Type κ} {F : Type μ} → (E → F) → Outcome A E → Outcome A F
map_err f (ok a) = ok a
map_err f (err e) = err (f e)

-- The `?` operator.
infixl 5 ◌>>=◌ ◌>>◌
abbrev pub ◌>>=◌ {ℓ κ μ} :
    {A : Type ℓ} {B : Type μ} {E : Type κ} → Outcome A E → (A → Outcome B E) → Outcome B E
ok a >>= f = f a
err e >>= f = err e

abbrev pub ◌>>◌ {ℓ κ} : {B : Type ℓ} {E : Type κ} → Outcome (Unit {0}) E → Outcome B E → Outcome B E
m >> k = m >>= λ _. k

-- `if !test { return Err(e) }`
abbrev pub guard {ℓ} : {E : Type ℓ} → Bool → E → Outcome (Unit {0}) E
guard true e = ok tt
guard false e = err e

-- `if test { return Err(e) }`
abbrev pub refuse {ℓ} : {E : Type ℓ} → Bool → E → Outcome (Unit {0}) E
refuse true e = err e
refuse false e = ok tt

-- Inversion of a successful bind.
pub >>=-eq-ok {ℓ κ μ} :
    {A : Type ℓ} {B : Type μ} {E : Type κ} (step : Outcome A E) (next : A → Outcome B E) {z : B}
    → (step >>= next) ≡ ok z
    → (value : A) × (step ≡ ok value) × (next value ≡ ok z)
>>=-eq-ok (err failure) next passed = cc
>>=-eq-ok (ok value) next passed = (value, refl, passed)

pub guard-eq-ok {ℓ} : {E : Type ℓ} (b : Bool) (e : E) {u : Unit {0}} → guard b e ≡ ok u → b ≡ true
guard-eq-ok true e h = refl
guard-eq-ok false e h = cc

pub refuse-eq-ok {ℓ} :
    {E : Type ℓ} (b : Bool) (e : E) {u : Unit {0}} → refuse b e ≡ ok u → b ≡ false
refuse-eq-ok true e h = cc
refuse-eq-ok false e h = refl

pub map_err-eq-ok {ℓ κ μ} :
    {A : Type ℓ} {E : Type κ} {F : Type μ} (f : E → F) (r : Outcome A E) {a : A}
    → map_err f r ≡ ok a
    → r ≡ ok a
map_err-eq-ok f (ok b) h = ground arith
map_err-eq-ok f (err e) h = cc
