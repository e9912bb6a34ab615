-- ===== src/Orchestration/Blackboard/Stored.antt =====
-- orchestration/blackboard.go: what is read back of a plan and of the results of steps.
use sp4rk.Base.{
  ◌∙◌, Text, List, [], ◌∷◌, Option, none, some, if◌then◌else◌, map, text_eq, ◌≡◌, refl, ap,
}
use sp4rk.Base.Map.{lookup-insert}
use sp4rk.Agent.Step.{Step}
use sp4rk.Orchestration.Plan.{Plan, PlanStep}
use sp4rk.Orchestration.Summary.{generate_summary, summary_limit}
use sp4rk.Orchestration.Blackboard.{
  MapBlackboard, copy_plan, copy_step, get_plan, set_plan, get_step_result, set_step_result,
}

module _ {P : Type 0} where
  map-copy_step : (steps : List (PlanStep P)) → map copy_step steps ≡ steps
  map-copy_step [] = refl
  map-copy_step (s ∷ steps) = ap (λ l. s ∷ l) (map-copy_step steps)

  copy_plan-same : (p : Plan P) → copy_plan p ≡ p
  unfolding copy_plan
  copy_plan-same p = ap (λ l. record p { steps = l }) (map-copy_step p.steps)

  -- The plan that is read is the plan that was stored, every field of its steps included: the two
  -- copies on the way lose nothing.
  pub get_plan-set_plan :
      (plan : Option (Plan P)) (b : MapBlackboard P) → get_plan (set_plan plan b) ≡ plan
  unfolding get_plan set_plan
  get_plan-set_plan none b = refl
  get_plan-set_plan (some p) b = ap some (ap copy_plan (copy_plan-same p) ∙ copy_plan-same p)

  -- The stored result of a step keeps its output, its error and its trajectory, and leaves the
  -- results of the other steps as they were. Its summary is that of the output.
  pub get_step_result-set_step_result :
      (id j output : Text) (error : Option Text) (steps : List Step) (b : MapBlackboard P)
      → get_step_result j (set_step_result id output error steps b) ≡ (
          if text_eq id j
          then some (record {
            step_id = id;
            summary = generate_summary output (summary_limit b.max_summary_len);
            full_output = output;
            error = error;
            steps = steps;
          })
          else get_step_result j b)
  unfolding get_step_result set_step_result
  get_step_result-set_step_result id j output error steps b = lookup-insert id j _ b.step_results
