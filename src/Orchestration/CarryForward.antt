-- ===== src/Orchestration/CarryForward.antt =====
-- orchestration/dag.go: BuildCarryForward, which completed steps survive a replan. The loop
-- `for changed` runs on fuel.
pub mod Passes
pub mod Candidates
pub mod Greatest
use sp4rk.Base.{
  Text, List, [], ◌∷◌, ℕ, zero, suc, ◌+◌, Bool, true, false, ◌&&◌, ◌||◌, not, Option, none, some,
  is_some, is_empty, if◌then◌else◌, length,
}
use sp4rk.Base.Map.{Map, Keys, lookup, insert, delete, member}
use sp4rk.Orchestration.Plan.{PlanStep, Plan, CompletedStep}

-- newStepIDs
abbrev pub step_ids : {P : Type 0} → List (PlanStep P) → Keys
step_ids [] = []
step_ids (s ∷ ss) = s.id ∷ step_ids ss

-- Phase 1.
unfoldable pub candidates : Keys → List CompletedStep → Map CompletedStep → Map CompletedStep
candidates ids [] carried = carried
candidates ids (cs ∷ rest) carried = candidates ids rest (
    if member cs.step_id ids && not (is_some cs.error)
    then insert cs.step_id cs carried
    else carried)

-- Some dependency is a step of the new plan that is not carried.
unfoldable pub stale : Keys → Map CompletedStep → List Text → Bool
stale ids carried [] = false
stale ids carried (dep ∷ deps) =
    (member dep ids && not (is_some (lookup dep carried))) || stale ids carried deps

-- `if len(carried) == 0 { return nil }`
abbrev pub nil_if_empty : Map CompletedStep → Option (Map CompletedStep)
nil_if_empty [] = none
nil_if_empty (x ∷ xs) = some (x ∷ xs)

module _ {P : Type 0} where
  -- One pass over the plan, with the flag `changed`.
  unfoldable pub sweep :
      Keys → List (PlanStep P) → Map CompletedStep × Bool → Map CompletedStep × Bool
  sweep ids [] (carried, changed) = (carried, changed)
  sweep ids (s ∷ ss) (carried, changed) = sweep ids ss (
      if is_some (lookup s.id carried) && stale ids carried s.depends_on
      then (delete s.id carried, true)
      else (carried, changed))

  -- Phase 2; `none` is the end of the fuel.
  unfoldable pub settle :
      ℕ → Keys → List (PlanStep P) → Map CompletedStep → Option (Map CompletedStep)
  settle zero ids steps carried = none
  settle (suc fuel) ids steps carried =
      let pass = sweep ids steps (carried, false) in
      elim pass.1 [ true ↦ settle fuel ids steps pass.0 | false ↦ some pass.0 ]

  unfoldable pub build_carry_forward :
      List CompletedStep → Option (Plan P) → Option (Option (Map CompletedStep))
  unfolding candidates settle sweep stale
  build_carry_forward completed none = some none
  build_carry_forward completed (some plan) =
      let ids = step_ids plan.steps in
      let found = candidates ids completed [] in
      elim (settle (length found + 1) ids plan.steps found) [
        | none ↦ none
        | some carried ↦ some (nil_if_empty carried)
      ]
