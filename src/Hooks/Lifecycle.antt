-- ===== src/Hooks/Lifecycle.antt =====
-- The three phases of `HookedFacilitator::verify` and `::settle` in r402/src/hooks.rs, for any
-- operation, its context and its result.
use r.Base.{String, List, [], ◌∷◌, Outcome, ok, err}

pub data HookDecision : Type 0 where
  continue : HookDecision
  abort : String → String → HookDecision

pub data FailureRecovery (R : Type 0) : Type 0 where
  propagate : FailureRecovery R
  recovered : R → FailureRecovery R

-- The part of a hook that concerns one operation; `E` is the type of that operation's errors.
pub record Phases (World Ctx R E : Type 0) : Type 0 where
  pub before : Ctx → World → HookDecision × World
  pub after : Ctx → R → World → World
  pub on_failure : Ctx → E → World → FailureRecovery R × World

module _ {World E : Type 0} where
  abbrev decided :
      (String → String → E)
      → HookDecision × World
      → (World → Outcome (Unit {0}) E × World)
      → Outcome (Unit {0}) E × World
  decided abort_error (continue, w) rest = rest w
  decided abort_error (abort reason message, w) rest = (err (abort_error reason message), w)

module _ {World R E : Type 0} where
  abbrev settled : FailureRecovery R × World → (World → Outcome R E × World) → Outcome R E × World
  settled (propagate, w) rest = rest w
  settled (recovered r, w) rest = (ok r, w)

module _ {World Ctx R E : Type 0} where
  -- The loop of the first phase: the first abort wins.
  unfoldable pub before_all :
      (String → String → E)
      → List (Phases World Ctx R E)
      → Ctx
      → World
      → Outcome (Unit {0}) E × World
  before_all abort_error [] ctx w = (ok tt, w)
  before_all abort_error (hook ∷ hooks) ctx w =
      decided abort_error (hook.before ctx w) (before_all abort_error hooks ctx)

  -- The loop after a success: every hook observes the result.
  unfoldable pub after_all : List (Phases World Ctx R E) → Ctx → R → World → World
  after_all [] ctx r w = w
  after_all (hook ∷ hooks) ctx r w = after_all hooks ctx r (hook.after ctx r w)

  -- The loop after a failure: the first recovery wins, and else the error is returned.
  unfoldable pub recover_first : List (Phases World Ctx R E) → Ctx → E → World → Outcome R E × World
  recover_first [] ctx e w = (err e, w)
  recover_first (hook ∷ hooks) ctx e w =
      settled (hook.on_failure ctx e w) (recover_first hooks ctx e)

  abbrev finish : List (Phases World Ctx R E) → Ctx → Outcome R E × World → Outcome R E × World
  finish hooks ctx (ok r, w) = (ok r, after_all hooks ctx r w)
  finish hooks ctx (err e, w) = recover_first hooks ctx e w

  abbrev operate :
      List (Phases World Ctx R E)
      → (Ctx → World → Outcome R E × World)
      → Ctx
      → Outcome (Unit {0}) E × World
      → Outcome R E × World
  operate hooks inner ctx (err e, w) = (err e, w)
  operate hooks inner ctx (ok _, w) = finish hooks ctx (inner ctx w)

  -- An operation with its hooks.
  unfoldable pub hooked :
      (String → String → E)
      → List (Phases World Ctx R E)
      → (Ctx → World → Outcome R E × World)
      → Ctx
      → World
      → Outcome R E × World
  hooked abort_error hooks inner ctx w =
      operate hooks inner ctx (before_all abort_error hooks ctx w)
