-- ===== src/Hooks/Laws.antt =====
-- An operation with hooks runs as the relation says.
use mathlib.Core.Path.{subst}
use r.Base.{String, ◌≡◌, sym, ap, ◌∙◌, ◌↔◌, inl, inr, List, ◌∷◌, ◌++◌, Outcome, ok, err}
use r.Hooks.Lifecycle.{abort, recovered, Phases, before_all, after_all, recover_first, hooked}
use r.Hooks.Runs.{
  Continue, Propagate, Runs, is_aborted, succeeds, is_recovered, fails, before_all-append,
  recover_first-append, before_all-Continue, recover_first-Propagate, after_all-Observe,
  after_all_lem,
}
use r.Hooks.Cases.{before_all_cases, recover_first_cases, effect_cases}

module _ {World Ctx R E : Type 0} (abort_error : String → String → E)
    (inner : Ctx → World → Outcome R E × World) (ctx : Ctx) where
  stop_lem :
      (pre post : List (Phases World Ctx R E)) (hook : Phases World Ctx R E)
      (reason message : String) {w v u : World}
      → Continue ctx pre w v
      → hook.before ctx v ≡ (abort reason message, u)
      → hooked abort_error (pre ++ hook ∷ post) inner ctx w ≡ (err (abort_error reason message), u)
  unfolding hooked
  stop_lem pre post hook reason message c e =
      rw (before_all-append abort_error (hook ∷ post) c) (unfold before_all in rw e)

  success_lem :
      (hooks : List (Phases World Ctx R E)) {w v u : World} {r : R}
      → Continue ctx hooks w v
      → inner ctx v ≡ (ok r, u)
      → hooked abort_error hooks inner ctx w ≡ (ok r, after_all hooks ctx r u)
  unfolding hooked
  success_lem hooks c e = rw (before_all-Continue abort_error c, e)

  failure_lem :
      (hooks : List (Phases World Ctx R E)) {w v u : World} {e : E}
      → Continue ctx hooks w v
      → inner ctx v ≡ (err e, u)
      → hooked abort_error hooks inner ctx w ≡ recover_first hooks ctx e u
  unfolding hooked
  failure_lem hooks c q = rw (before_all-Continue abort_error c, q)

  rescue_lem :
      (pre post : List (Phases World Ctx R E)) (hook : Phases World Ctx R E) {u t s : World} {e : E}
      {r : R}
      → Propagate ctx e pre u t
      → hook.on_failure ctx e t ≡ (recovered r, s)
      → recover_first (pre ++ hook ∷ post) ctx e u ≡ (ok r, s)
  unfolding recover_first
  rescue_lem pre post hook p q = rw (recover_first-append (hook ∷ post) p) (rw q)

  -- The code does what the relation says, and nothing else.
  complete :
      {hooks : List (Phases World Ctx R E)} {w : World} {result : Outcome R E × World}
      → Runs abort_error inner ctx hooks w result
      → hooked abort_error hooks inner ctx w ≡ result
  complete (is_aborted pre post hook reason message v u parts c e q) =
      rw parts (stop_lem pre post hook reason message c e) ∙ sym q
  complete {hooks} (succeeds r v u t c e o q) =
      success_lem hooks c e ∙ ap (λ x. (ok r, x)) (after_all-Observe o) ∙ sym q
  complete {hooks} (is_recovered pre post hook e r v u t s parts c i p q o) =
      failure_lem hooks c i ∙ rw parts (rescue_lem pre post hook p q) ∙ sym o
  complete {hooks} (fails e v u t c i p q) =
      failure_lem hooks c i ∙ recover_first-Propagate p ∙ sym q

  sound :
      (hooks : List (Phases World Ctx R E)) (w : World)
      → Runs abort_error inner ctx hooks w (hooked abort_error hooks inner ctx w)
  sound hooks w = elim (before_all_cases ctx hooks w) [
    | inr stop ↦
        is_aborted stop.pre stop.post stop.hook stop.reason stop.message stop.v stop.u stop.parts
          stop.passed stop.aborts
          (rw stop.parts (
            stop_lem stop.pre stop.post stop.hook stop.reason stop.message stop.passed stop.aborts))
    | inl (v, c) ↦ elim (effect_cases (inner ctx v)) [
      | inl (r, u, i) ↦
          succeeds r v u (after_all hooks ctx r u) c i (after_all_lem r hooks u)
            (success_lem hooks c i)
      | inr (e, u, i) ↦ elim (recover_first_cases ctx e hooks u) [
        | inl (t, p) ↦ fails e v u t c i p (failure_lem hooks c i ∙ recover_first-Propagate p)
        | inr rescue ↦
            is_recovered rescue.pre rescue.post rescue.hook e rescue.r v u rescue.t rescue.s
              rescue.parts c i rescue.passed rescue.recovers
              (failure_lem hooks c i
                ∙ ap (λ l. recover_first l ctx e u) rescue.parts
                ∙ rescue_lem rescue.pre rescue.post rescue.hook rescue.passed rescue.recovers)
      ]
    ]
  ]

  -- An operation with hooks runs as the relation says, and in no other way.
  pub hooked_iff :
      (hooks : List (Phases World Ctx R E)) (w : World) (result : Outcome R E × World)
      → (hooked abort_error hooks inner ctx w ≡ result) ↔ Runs abort_error inner ctx hooks w result
  hooked_iff hooks w result =
      ((λ e. subst (Runs abort_error inner ctx hooks w) e (sound hooks w)), complete)
