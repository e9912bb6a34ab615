-- ===== src/Planner/Progress.antt =====
-- planner/planner.go and orchestration/dag.go together: scheduling over a validated plan.
use sp4rk.Base.{
  Text, [], Bool, true, false, not, none, some, is_some, ◌≡◌, ◌≢◌, refl, subst, arith, Memᴰ, inl,
  inr, Bool-cases, Option-cases, false≢true,
}
use sp4rk.Base.Map.{Map, Keys, lookup, member}
use sp4rk.Orchestration.Plan.{PlanStep, Plan, CompletedStep}
use sp4rk.Orchestration.Ready.{dep_complete, all_deps_complete, find_ready_steps}
use sp4rk.Orchestration.Ready.Exact.{find_ready_steps-complete, all_deps_complete-fails}
use sp4rk.Planner.Validate.{ok, validate_plan_dag, ids_of}
use sp4rk.Planner.Validate.Graph.{mem-ids_of_inv}
use sp4rk.Planner.Validate.Sound.{IsValid, validate_plan_dag-IsValid}

module _ {P : Type 0} (plan : Plan P) (prior : Keys) (c : Map CompletedStep) where
  -- Every step that has completed did so without an error.
  abbrev pub NoFailure : Type 0
  NoFailure =
      (s : PlanStep P)
      → Memᴰ s plan.steps
      → (cs : CompletedStep) → lookup s.id c ≡ some cs
      → cs.error ≡ none

  -- The steps of the prior plan are there, completed.
  abbrev pub PriorComplete : Type 0
  PriorComplete = (k : Text) → member k prior ≡ true → dep_complete c k ≡ true

  abbrev waiting : Text → Bool
  waiting x = not (is_some (lookup x c))

  module _ (clean : NoFailure) (carried : PriorComplete) (valid : IsValid plan prior) where
    waiting-dep :
        (dep : Text)
        → Memᴰ dep (ids_of plan.steps)
        → dep_complete c dep ≡ false
        → waiting dep ≡ true
    waiting-dep dep m f = elim (Option-cases (lookup dep c)) [
      | inl e ↦ rw e
      | inr (cs, e) ↦
          let (s, ms, q) = mem-ids_of_inv dep plan.steps m in
          let fine : cs.error ≡ none = clean s ms cs (rw (q, e) refl) in
          absurd (unfold dep_complete in ground arith)
    ]

    -- Where no step is ready, a waiting step waits on a waiting step.
    blocked :
        find_ready_steps (some plan) c ≡ []
        → (s : PlanStep P) → Memᴰ s plan.steps
        → waiting s.id ≡ true
        → (dep : Text) × Memᴰ dep s.depends_on × Memᴰ dep (ids_of plan.steps) × (waiting dep ≡ true)
    blocked stuck s m w = elim (Bool-cases (all_deps_complete c s.depends_on)) [
      | inl e ↦
          let here = find_ready_steps-complete plan c s m (ground arith) e in
          elim (subst (λ l. Memᴰ s l) stuck here) [ ]
      | inr e ↦
          let (dep, md, f) = all_deps_complete-fails c s.depends_on e in
          elim (valid.known s m dep md) [
            | inl k ↦ (dep, md, k, waiting-dep dep k f)
            | inr k ↦ absurd (false≢true (cc (carried dep k)))
          ]
    ]

-- Over a plan that validatePlanDAG accepted, with every completed step free of errors and the prior
-- plan's steps completed, FindReadySteps offers a step as long as some step has not completed: the
-- scheduler is never stuck.
pub find_ready_steps_progress :
    {P : Type 0} (plan : Plan P) (prior : Keys) (c : Map CompletedStep) (s : PlanStep P)
    → validate_plan_dag plan prior ≡ ok tt
    → NoFailure plan prior c
    → PriorComplete plan prior c
    → Memᴰ s plan.steps
    → lookup s.id c ≡ none
    → find_ready_steps (some plan) c ≢ []
find_ready_steps_progress plan prior c s accepted clean carried m e stuck =
    let valid = validate_plan_dag-IsValid plan prior accepted in
    let never : waiting plan prior c s.id ≡ false =
      valid.no_trap (waiting plan prior c) (blocked plan prior c clean carried valid stuck) s m in
    absurd (false≢true (cc (never, e)))
