-- ===== src/Orchestration/Aggregate.antt =====
-- orchestration/dag.go: AggregateOutput and BuildPlanExecutionSteps.
pub mod Sources
use sp4rk.Base.{
  Text, List, [], ◌∷◌, ◌++◌, Bool, true, false, ◌&&◌, not, Option, none, some, is_some, is_empty,
  if◌then◌else◌, codes, ◌≡◌, refl, subst, arith, Memᴰ, inl, inr, ◌⊎◌, ◌↔◌, Bool-cases, Option-cases,
  mem-if, mem-if_head, mem-if_tail, join, map,
}
use sp4rk.Base.Map.{Map, Keys, lookup, insert, member}
use sp4rk.Agent.Step.{Step, empty_step}
use sp4rk.Orchestration.Plan.{PlanStep, Plan, CompletedStep}

module _ {P : Type 0} where
  -- dependedUpon
  unfoldable pub depended_upon : List (PlanStep P) → Keys
  depended_upon [] = []
  depended_upon (s ∷ ss) = s.depends_on ++ depended_upon ss

  -- The output of a step that was not completed before and has completed without an error.
  unfoldable pub fresh_output : Map CompletedStep → Keys → PlanStep P → List Text
  fresh_output completed pre s = if member s.id pre then [] else elim (lookup s.id completed) [
    | none ↦ []
    | some cs ↦ if is_some cs.error then [] else cs.output ∷ []
  ]

  -- The first loop; `used` is the set dependedUpon.
  unfoldable pub terminal_outputs : Map CompletedStep → Keys → Keys → List (PlanStep P) → List Text
  unfolding fresh_output
  terminal_outputs completed pre used [] = []
  terminal_outputs completed pre used (s ∷ ss) =
      (if member s.id used then [] else fresh_output completed pre s)
      ++ terminal_outputs completed pre used ss

  -- The second loop.
  unfoldable pub all_outputs : Map CompletedStep → Keys → List (PlanStep P) → List Text
  unfolding fresh_output
  all_outputs completed pre [] = []
  all_outputs completed pre (s ∷ ss) = fresh_output completed pre s ++ all_outputs completed pre ss

  unfoldable pub outputs : Map CompletedStep → Plan P → Keys → List Text
  unfolding terminal_outputs all_outputs depended_upon
  outputs completed plan pre =
      let first = terminal_outputs completed pre (depended_upon plan.steps) plan.steps in
      if is_empty first then all_outputs completed pre plan.steps else first

  unfoldable pub aggregate_output : Map CompletedStep → Option (Plan P) → Keys → Text
  unfolding outputs
  aggregate_output completed none pre = []
  aggregate_output completed (some plan) pre = join (codes "\n\n") (outputs completed plan pre)

  -- stepDescriptions: a later step with the same id wins.
  unfoldable pub descriptions : List (PlanStep P) → Map Text → Map Text
  descriptions [] m = m
  descriptions (s ∷ ss) m = descriptions ss (insert s.id s.description m)

abbrev pub text_or_empty : Option Text → Text
text_or_empty none = []
text_or_empty (some t) = t

abbrev pub observation_of : CompletedStep → Text
observation_of cs = elim cs.error [
  | none ↦ cs.output
  | some e ↦ codes "STEP FAILED: " ++ (e ++ (codes "\nOutput: " ++ cs.output))
]

unfoldable pub execution_steps : Map Text → CompletedStep → List Step
execution_steps names cs =
    if is_empty cs.steps
    then record empty_step {
      thought =
          codes "Executing plan step "
          ++ (cs.step_id ++ (codes ": " ++ text_or_empty (lookup cs.step_id names)));
      observation = observation_of cs;
    }
      ∷ []
    else cs.steps

unfoldable pub concat_steps : Map Text → List CompletedStep → List Step
unfolding execution_steps
concat_steps names [] = []
concat_steps names (cs ∷ rest) = execution_steps names cs ++ concat_steps names rest

unfoldable pub build_plan_execution_steps :
    {P : Type 0} → List CompletedStep → Option (Plan P) → List Step
unfolding concat_steps descriptions
build_plan_execution_steps completed none = []
build_plan_execution_steps completed (some plan) =
    concat_steps (descriptions plan.steps []) completed
