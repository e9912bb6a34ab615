-- ===== src/Orchestration/Plan.antt =====
-- orchestration/types.go: plans and completed steps. `P` is the opaque type of a step's profile
-- (Go's `any`); an `error` is the text that its `Error()` returns, or none.
use sp4rk.Base.{Text, List, Bool, Option}
use sp4rk.Agent.Step.{Step}

pub record PlanStep (P : Type 0) : Type 0 where
  pub id : Text
  pub summary : Text
  pub description : Text
  pub depends_on : List Text
  pub parallelizable : Bool
  pub estimated_tools : List Text
  pub agent : Text
  pub profile : Option P

pub record Plan (P : Type 0) : Type 0 where
  pub steps : List (PlanStep P)
  pub exploration_context : Text

pub record CompletedStep : Type 0 where
  pub step_id : Text
  pub output : Text
  pub error : Option Text
  pub steps : List Step
