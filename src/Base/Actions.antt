-- ===== src/Base/Actions.antt =====
-- Asynchronous operations: each reads and changes a world, and ends in a result or an error.
use mathlib.Core.Path.{◌≡◌, refl}
use mathlib.Core.Logic.{◌⊎◌, inl, inr}
use r.Base.Results.{Outcome, ok, err}
use mathlib.Core.Path.{ap}

abbrev pub Action : Type 0 → Type 0 → Type 0 → Type 0
Action World E A = World → Outcome A E × World

module _ {World E A B : Type 0} where
  abbrev pub proceed : Outcome A E × World → (A → Action World E B) → Outcome B E × World
  proceed (ok a, w) f = f a w
  proceed (err e, w) f = (err e, w)

-- `.await?`
infixl 5 ◌>>=◌ ◌>>◌
abbrev pub ◌>>=◌ :
    {World E A B : Type 0} → Action World E A → (A → Action World E B) → Action World E B
◌>>=◌ m f w = proceed (m w) f

abbrev pub ◌>>◌ :
    {World E B : Type 0} → Action World E (Unit {0}) → Action World E B → Action World E B
◌>>◌ m k w = proceed (m w) (λ _. k)

-- A computation that leaves the world alone.
abbrev pub lift : {World E A : Type 0} → Outcome A E → Action World E A
lift r w = (r, w)

abbrev pub mapped : {World E F A : Type 0} → (E → F) → Outcome A E × World → Outcome A F × World
mapped f (ok a, w) = (ok a, w)
mapped f (err e, w) = (err (f e), w)

-- `.await.map_err(f)?`
abbrev pub with_error : {World E F A : Type 0} → (E → F) → Action World E A → Action World F A
with_error f m w = mapped f (m w)

-- `.await`, with the result as a value
abbrev pub attempt : {World E F A : Type 0} → Action World E A → Action World F (Outcome A E)
attempt m w = (ok (m w).0, (m w).1)

pub Action-cases :
    {World E A : Type 0} (d : Outcome A E × World)
    → ((a : A) × (v : World) × (d ≡ (ok a, v))) ⊎ ((e : E) × (v : World) × (d ≡ (err e, v)))
Action-cases (ok a, v) = inl (a, v, refl)
Action-cases (err e, v) = inr (e, v, refl)

-- Inversion of steps that succeed.
module _ {World E A : Type 0} where
  pub proceed-eq-ok :
      {B : Type 0} (d : Outcome A E × World) (f : A → Action World E B) {b : B} {v : World}
      → proceed d f ≡ (ok b, v)
      → (a : A) × (u : World) × (d ≡ (ok a, u)) × (f a u ≡ (ok b, v))
  proceed-eq-ok (ok a, u) f h = (a, u, refl, h)
  proceed-eq-ok (err e, u) f h = cc (ap (λ x. x.0) h)

  outcome-eq-ok :
      {F : Type 0} {a b : A} {u v : World}
      → ◌≡◌ {A = Outcome A F × World} (ok a, u) (ok b, v)
      → ◌≡◌ {A = Outcome A E × World} (ok a, u) (ok b, v)
  outcome-eq-ok h = cc h

  pub mapped-eq-ok :
      {F : Type 0} (f : E → F) (d : Outcome A E × World) {a : A} {v : World}
      → mapped f d ≡ (ok a, v)
      → d ≡ (ok a, v)
  mapped-eq-ok {F = F} f (ok a, u) h = outcome-eq-ok {F = F} h
  mapped-eq-ok f (err e, u) h = cc (ap (λ x. x.0) h)

  pub lifted-eq-ok :
      {B : Type 0} (r : Outcome A E) (f : A → Action World E B) (w : World) {b : B} {v : World}
      → proceed (lift r w) f ≡ (ok b, v)
      → (a : A) × (r ≡ ok a) × (f a w ≡ (ok b, v))
  lifted-eq-ok (ok a) f w h = (a, refl, h)
  lifted-eq-ok (err e) f w h = cc (ap (λ x. x.0) h)

  pub ok-injective :
      {a b : A} {u v : World}
      → ◌≡◌ {A = Outcome A E × World} (ok a, u) (ok b, v)
      → ◌≡◌ {A = A × World} (a, u) (b, v)
  ok-injective h = cc h

  -- The same of steps whose errors are converted.
  module _ {F B : Type 0} (g : E → F) (f : A → Action World F B) where
    pub with_error-eq-ok :
        (d : Outcome A E × World) {b : B} {v : World}
        → proceed (mapped g d) f ≡ (ok b, v)
        → (a : A) × (u : World) × (d ≡ (ok a, u)) × (f a u ≡ (ok b, v))
    with_error-eq-ok (ok a, u) h = (a, u, refl, h)
    with_error-eq-ok (err e, u) h = cc (ap (λ x. x.0) h)

    pub with_error-lift-eq-ok :
        (r : Outcome A E) (w : World) {b : B} {v : World}
        → proceed (mapped g (lift r w)) f ≡ (ok b, v)
        → (a : A) × (r ≡ ok a) × (f a w ≡ (ok b, v))
    with_error-lift-eq-ok (ok a) w h = (a, refl, h)
    with_error-lift-eq-ok (err e) w h = cc (ap (λ x. x.0) h)
