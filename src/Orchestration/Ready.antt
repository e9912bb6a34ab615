-- ===== src/Orchestration/Ready.antt =====
-- orchestration/dag.go: FindReadySteps, the scheduler's choice of the steps to run next.
pub mod Exact
use sp4rk.Base.{
  Text, List, [], ◌∷◌, Bool, true, false, ◌&&◌, not, Option, none, some, is_some, if◌then◌else◌,
  ◌≡◌, Memᴰ,
}
use sp4rk.Base.Map.{Map, lookup}
use sp4rk.Orchestration.Plan.{PlanStep, Plan, CompletedStep}

-- A dependency counts when it completed and carries no error.
unfoldable pub dep_complete : Map CompletedStep → Text → Bool
dep_complete completed dep = elim (lookup dep completed) [
  | none ↦ false
  | some cs ↦ not (is_some cs.error)
]

-- The inner loop, with its `break`.
unfoldable pub all_deps_complete : Map CompletedStep → List Text → Bool
all_deps_complete completed [] = true
all_deps_complete completed (dep ∷ deps) =
    dep_complete completed dep && all_deps_complete completed deps

-- A dependency that has completed and has no error.
abbrev pub Succeeded : Map CompletedStep → Text → Type 0
Succeeded completed dep =
    (cs : CompletedStep) × (lookup dep completed ≡ some cs) × (cs.error ≡ none)

module _ {P : Type 0} where
  unfoldable pub ready_from : Map CompletedStep → List (PlanStep P) → List (PlanStep P)
  ready_from completed [] = []
  ready_from completed (step ∷ steps) =
      let rest = ready_from completed steps in
      if is_some (lookup step.id completed)
      then rest
      else if all_deps_complete completed step.depends_on
      then step ∷ rest
      else rest

  -- `none` is the nil plan.
  unfoldable pub find_ready_steps : Option (Plan P) → Map CompletedStep → List (PlanStep P)
  unfolding ready_from
  find_ready_steps none completed = []
  find_ready_steps (some plan) completed = ready_from completed plan.steps

  -- What makes a step ready.
  abbrev pub IsReady : Map CompletedStep → PlanStep P → Type 0
  IsReady completed step =
      (lookup step.id completed ≡ none)
      × ((dep : Text) → Memᴰ dep step.depends_on → Succeeded completed dep)
