-- ===== src/Hooks/Runs.antt =====
-- What an operation with hooks does, as a relation.
use r.Base.{String, ◌≡◌, refl, List, [], ◌∷◌, ◌++◌, Outcome, ok, err}
use r.Hooks.Lifecycle.{
  continue, abort, propagate, recovered, Phases, before_all, after_all, recover_first,
}

module _ {World Ctx R E : Type 0} (ctx : Ctx) where
  -- Each of the hooks, called in turn, lets the operation go on.
  pub data Continue : List (Phases World Ctx R E) → World → World → Type 0 where
    all_continue : {w : World} → Continue [] w w
    continues :
        {hook : Phases World Ctx R E} {hooks : List (Phases World Ctx R E)} {w v u : World}
        → hook.before ctx w ≡ (continue, v)
        → Continue hooks v u
        → Continue (hook ∷ hooks) w u

  -- Each of the hooks, called in turn with the error, lets it stand.
  pub data Propagate (e : E) : List (Phases World Ctx R E) → World → World → Type 0 where
    all_propagate : {w : World} → Propagate e [] w w
    propagates :
        {hook : Phases World Ctx R E} {hooks : List (Phases World Ctx R E)} {w v u : World}
        → hook.on_failure ctx e w ≡ (propagate, v)
        → Propagate e hooks v u
        → Propagate e (hook ∷ hooks) w u

  -- Each of the hooks, called in turn with the result, observes it.
  pub data Observe (r : R) : List (Phases World Ctx R E) → World → World → Type 0 where
    all_observe : {w : World} → Observe r [] w w
    observes :
        {hook : Phases World Ctx R E} {hooks : List (Phases World Ctx R E)} {w v u : World}
        → hook.after ctx r w ≡ v
        → Observe r hooks v u
        → Observe r (hook ∷ hooks) w u

module _ {World Ctx R E : Type 0} (abort_error : String → String → E)
    (inner : Ctx → World → Outcome R E × World) (ctx : Ctx) where
  -- The ways in which the operation may end: a hook aborts it, and neither a later hook nor the
  -- operation itself is called; it succeeds, and every hook sees the result; it fails and the first
  -- hook to recover gives the result; or it fails and no hook recovers.
  pub data Runs (hooks : List (Phases World Ctx R E)) (w : World) (result : Outcome R E × World)
      : Type 0 where
    is_aborted :
        (pre post : List (Phases World Ctx R E)) (hook : Phases World Ctx R E)
        (reason message : String) (v u : World)
        → hooks ≡ pre ++ hook ∷ post
        → Continue ctx pre w v
        → hook.before ctx v ≡ (abort reason message, u)
        → result ≡ (err (abort_error reason message), u)
        → Runs hooks w result
    succeeds :
        (r : R) (v u t : World)
        → Continue ctx hooks w v
        → inner ctx v ≡ (ok r, u)
        → Observe ctx r hooks u t
        → result ≡ (ok r, t)
        → Runs hooks w result
    is_recovered :
        (pre post : List (Phases World Ctx R E)) (hook : Phases World Ctx R E) (e : E) (r : R)
        (v u t s : World)
        → hooks ≡ pre ++ hook ∷ post
        → Continue ctx hooks w v
        → inner ctx v ≡ (err e, u)
        → Propagate ctx e pre u t
        → hook.on_failure ctx e t ≡ (recovered r, s)
        → result ≡ (ok r, s)
        → Runs hooks w result
    fails :
        (e : E) (v u t : World)
        → Continue ctx hooks w v
        → inner ctx v ≡ (err e, u)
        → Propagate ctx e hooks u t
        → result ≡ (err e, t)
        → Runs hooks w result

module _ {World Ctx R E : Type 0} {ctx : Ctx} where
  pub before_all-append :
      (abort_error : String → String → E) {pre : List (Phases World Ctx R E)}
      (rest : List (Phases World Ctx R E)) {w v : World}
      → Continue ctx pre w v
      → before_all abort_error (pre ++ rest) ctx w ≡ before_all abort_error rest ctx v
  unfolding before_all
  before_all-append abort_error rest all_continue = refl
  before_all-append abort_error rest (continues e c) =
      rw (e, before_all) (before_all-append abort_error rest c)

  pub recover_first-append :
      {e : E} {pre : List (Phases World Ctx R E)} (rest : List (Phases World Ctx R E)) {u t : World}
      → Propagate ctx e pre u t
      → recover_first (pre ++ rest) ctx e u ≡ recover_first rest ctx e t
  unfolding recover_first
  recover_first-append rest all_propagate = refl
  recover_first-append rest (propagates q p) = rw (q, recover_first) (recover_first-append rest p)

  pub before_all-Continue :
      (abort_error : String → String → E) {hooks : List (Phases World Ctx R E)} {w v : World}
      → Continue ctx hooks w v
      → before_all abort_error hooks ctx w ≡ (ok tt, v)
  unfolding before_all
  before_all-Continue abort_error all_continue = refl
  before_all-Continue abort_error (continues e c) =
      rw (e, before_all) (before_all-Continue abort_error c)

  pub recover_first-Propagate :
      {e : E} {hooks : List (Phases World Ctx R E)} {u t : World}
      → Propagate ctx e hooks u t
      → recover_first hooks ctx e u ≡ (err e, t)
  unfolding recover_first
  recover_first-Propagate all_propagate = refl
  recover_first-Propagate (propagates q p) = rw (q, recover_first) (recover_first-Propagate p)

  pub after_all-Observe :
      {r : R} {hooks : List (Phases World Ctx R E)} {u t : World}
      → Observe ctx r hooks u t
      → after_all hooks ctx r u ≡ t
  unfolding after_all
  after_all-Observe all_observe = refl
  after_all-Observe (observes e o) = rw (e, after_all) (after_all-Observe o)

  pub after_all_lem :
      (r : R) (hooks : List (Phases World Ctx R E)) (u : World)
      → Observe ctx r hooks u (after_all hooks ctx r u)
  unfolding after_all
  after_all_lem r [] u = all_observe
  after_all_lem r (hook ∷ hooks) u = observes refl (after_all_lem r hooks (hook.after ctx r u))
