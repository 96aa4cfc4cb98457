-- ===== src/Hooks/Cases.antt =====
-- Which of the hooks decides, for each list of hooks.
use r.Base.{String, ◌≡◌, refl, ap, ◌⊎◌, inl, inr, List, [], ◌∷◌, ◌++◌, Outcome, ok, err}
use r.Hooks.Lifecycle.{HookDecision, continue, abort, FailureRecovery, propagate, recovered, Phases}
use r.Hooks.Runs.{Continue, all_continue, continues, Propagate, all_propagate, propagates}

module _ {World : Type 0} where
  pub HookDecision-cases :
      (d : HookDecision × World)
      → ((v : World) × (d ≡ (continue, v)))
        ⊎ ((reason : String) × (message : String) × (v : World) × (d ≡ (abort reason message, v)))
  HookDecision-cases (continue, v) = inl (v, refl)
  HookDecision-cases (abort reason message, v) = inr (reason, message, v, refl)

  pub FailureRecovery-cases :
      {R : Type 0} (d : FailureRecovery R × World)
      → ((v : World) × (d ≡ (propagate, v))) ⊎ ((r : R) × (v : World) × (d ≡ (recovered r, v)))
  FailureRecovery-cases (propagate, v) = inl (v, refl)
  FailureRecovery-cases (recovered r, v) = inr (r, v, refl)

  pub effect_cases :
      {R E : Type 0} (d : Outcome R E × World)
      → ((r : R) × (v : World) × (d ≡ (ok r, v))) ⊎ ((e : E) × (v : World) × (d ≡ (err e, v)))
  effect_cases (ok r, v) = inl (r, v, refl)
  effect_cases (err e, v) = inr (e, v, refl)

module _ {World Ctx R E : Type 0} (ctx : Ctx) where
  -- The hooks before some hook let the operation go on, and that one aborts it.
  pub record Stop (hooks : List (Phases World Ctx R E)) (w : World) : Type 0 where
    pub pre : List (Phases World Ctx R E)
    pub post : List (Phases World Ctx R E)
    pub hook : Phases World Ctx R E
    pub reason : String
    pub message : String
    pub v : World
    pub u : World
    pub parts : hooks ≡ pre ++ hook ∷ post
    pub passed : Continue ctx pre w v
    pub aborts : hook.before ctx v ≡ (abort reason message, u)

  -- The hooks before some hook let the error stand, and that one recovers.
  pub record Rescue (e : E) (hooks : List (Phases World Ctx R E)) (u : World) : Type 0 where
    pub pre : List (Phases World Ctx R E)
    pub post : List (Phases World Ctx R E)
    pub hook : Phases World Ctx R E
    pub r : R
    pub t : World
    pub s : World
    pub parts : hooks ≡ pre ++ hook ∷ post
    pub passed : Propagate ctx e pre u t
    pub recovers : hook.on_failure ctx e t ≡ (recovered r, s)

  Stop-later :
      {hook : Phases World Ctx R E} {hooks : List (Phases World Ctx R E)} {w v : World}
      → hook.before ctx w ≡ (continue, v)
      → Stop hooks v
      → Stop (hook ∷ hooks) w
  Stop-later {hook} e stop = record {
    pre = hook ∷ stop.pre;
    post = stop.post;
    hook = stop.hook;
    reason = stop.reason;
    message = stop.message;
    v = stop.v;
    u = stop.u;
    parts = ap (λ l. hook ∷ l) stop.parts;
    passed = continues e stop.passed;
    aborts = stop.aborts;
  }

  Rescue-later :
      {e : E} {hook : Phases World Ctx R E} {hooks : List (Phases World Ctx R E)} {w v : World}
      → hook.on_failure ctx e w ≡ (propagate, v)
      → Rescue e hooks v
      → Rescue e (hook ∷ hooks) w
  Rescue-later {hook} q rescue = record {
    pre = hook ∷ rescue.pre;
    post = rescue.post;
    hook = rescue.hook;
    r = rescue.r;
    t = rescue.t;
    s = rescue.s;
    parts = ap (λ l. hook ∷ l) rescue.parts;
    passed = propagates q rescue.passed;
    recovers = rescue.recovers;
  }

  pub before_all_cases :
      (hooks : List (Phases World Ctx R E)) (w : World)
      → ((v : World) × Continue ctx hooks w v) ⊎ Stop hooks w
  before_all_cases [] w = inl (w, all_continue)
  before_all_cases (hook ∷ hooks) w = elim (HookDecision-cases (hook.before ctx w)) [
    | inl (v, e) ↦ elim (before_all_cases hooks v) [
      | inl (u, c) ↦ inl (u, continues e c)
      | inr stop ↦ inr (Stop-later e stop)
    ]
    | inr (reason, message, u, e) ↦ inr (record {
      pre = [];
      post = hooks;
      hook = hook;
      reason = reason;
      message = message;
      v = w;
      u = u;
      parts = refl;
      passed = all_continue;
      aborts = e;
    })
  ]

  pub recover_first_cases :
      (e : E) (hooks : List (Phases World Ctx R E)) (u : World)
      → ((t : World) × Propagate ctx e hooks u t) ⊎ Rescue e hooks u
  recover_first_cases e [] u = inl (u, all_propagate)
  recover_first_cases e (hook ∷ hooks) u = elim (FailureRecovery-cases (hook.on_failure ctx e u)) [
    | inl (v, q) ↦ elim (recover_first_cases e hooks v) [
      | inl (t, p) ↦ inl (t, propagates q p)
      | inr rescue ↦ inr (Rescue-later q rescue)
    ]
    | inr (r, s, q) ↦ inr (record {
      pre = [];
      post = hooks;
      hook = hook;
      r = r;
      t = u;
      s = s;
      parts = refl;
      passed = all_propagate;
      recovers = q;
    })
  ]
