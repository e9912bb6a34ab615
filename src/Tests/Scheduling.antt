-- ===== src/Tests/Scheduling.antt =====
-- Runs of orchestration/dag.go and of validatePlanDAG (planner/planner.go) on plans of two steps.
use sp4rk.Base.{
  Text, List, [], ◌∷◌, ℕ, ◌<◌, true, Option, none, some, if◌then◌else◌, ◌≡◌, ◌≢◌, refl, sym, subst,
  arith, Memᴰ, inl, ◌⊎◌, ◌↔◌, codes, join, map, ◌∙◌, text_eq, ap,
}
use sp4rk.Base.Map.{Map, lookup, insert, member}
use sp4rk.Orchestration.Plan.{PlanStep, Plan, CompletedStep}
use sp4rk.Orchestration.Ready.{find_ready_steps, dep_complete, all_deps_complete, IsReady}
use sp4rk.Orchestration.Ready.Exact.{find_ready_steps_iff}
use sp4rk.Orchestration.CarryForward.{build_carry_forward}
use sp4rk.Orchestration.CarryForward.Greatest.{IsGreatest, entries, build_carry_forward-IsGreatest}
use sp4rk.Orchestration.Aggregate.{outputs, aggregate_output, build_plan_execution_steps}
use sp4rk.Orchestration.Aggregate.Sources.{outputs_iff, Terminal, ContributesIn}
use sp4rk.Planner.Validate.{
  validate_plan_dag, ok, err, cycle, unknown_dependency, out_of_fuel, ids_of,
}
use sp4rk.Planner.Validate.Graph.{Distinct}
use sp4rk.Planner.Validate.Sound.{IsValid, validate_plan_dag-IsValid}
use sp4rk.Planner.Validate.Accepts.{validate_plan_dag_ends, validate_plan_dag_accepts}
use sp4rk.Planner.Progress.{find_ready_steps_progress, NoFailure, PriorComplete}

abbrev step_named : Text → List Text → PlanStep (Unit {0})
step_named id deps = record {
  id = id;
  summary = [];
  description = codes "do it";
  depends_on = deps;
  parallelizable = true;
  estimated_tools = [];
  agent = [];
  profile = none;
}

abbrev fetch : PlanStep (Unit {0})
fetch = step_named (codes "fetch") []

abbrev report : PlanStep (Unit {0})
report = step_named (codes "report") (codes "fetch" ∷ [])

abbrev two_steps : Plan (Unit {0})
two_steps = record { steps = fetch ∷ report ∷ []; exploration_context = [] }

abbrev looped : Plan (Unit {0})
looped = record {
  steps = step_named (codes "a") (codes "b" ∷ []) ∷ step_named (codes "b") (codes "a" ∷ []) ∷ [];
  exploration_context = [];
}

abbrev fetched : CompletedStep
fetched = record { step_id = codes "fetch"; output = codes "page"; error = none; steps = [] }

abbrev reported : CompletedStep
reported = record { step_id = codes "report"; output = codes "text"; error = none; steps = [] }

abbrev fetch_failed : CompletedStep
fetch_failed = record {
  step_id = codes "fetch";
  output = [];
  error = some (codes "boom");
  steps = [];
}

abbrev after_fetch : Map CompletedStep
after_fetch = (codes "fetch", fetched) ∷ []

accepts_two_steps : validate_plan_dag two_steps [] ≡ ok tt
unfolding validate_plan_dag insert member lookup text_eq
accepts_two_steps = refl

rejects_loop : validate_plan_dag looped [] ≡ err (cycle (codes "a"))
unfolding validate_plan_dag insert member lookup text_eq
rejects_loop = refl

rejects_unknown :
    validate_plan_dag (record { steps = report ∷ []; exploration_context = [] }) []
    ≡ err (unknown_dependency (codes "report") (codes "fetch"))
unfolding validate_plan_dag insert member lookup text_eq
rejects_unknown = refl

accepts_prior :
    validate_plan_dag
      (record { steps = report ∷ []; exploration_context = [] })
      (codes "fetch" ∷ [])
    ≡ ok tt
unfolding validate_plan_dag insert member lookup text_eq
accepts_prior = refl

ready_first : find_ready_steps (some two_steps) [] ≡ fetch ∷ []
unfolding find_ready_steps dep_complete all_deps_complete lookup text_eq
ready_first = refl

ready_then : find_ready_steps (some two_steps) after_fetch ≡ report ∷ []
unfolding find_ready_steps dep_complete all_deps_complete lookup text_eq
ready_then = refl

-- A step that is not redone is carried, unless something below it is redone.
carries_both :
    build_carry_forward (fetched ∷ reported ∷ []) (some two_steps)
    ≡ some (some ((codes "report", reported) ∷ (codes "fetch", fetched) ∷ []))
unfolding build_carry_forward insert member lookup text_eq
carries_both = refl

carries_nothing : build_carry_forward (fetch_failed ∷ reported ∷ []) (some two_steps) ≡ some none
unfolding build_carry_forward insert member lookup text_eq
carries_nothing = refl

joins_terminal :
    aggregate_output ((codes "report", reported) ∷ after_fetch) (some two_steps) [] ≡ codes "text"
unfolding aggregate_output member lookup text_eq join
joins_terminal = refl

joins_all : aggregate_output after_fetch (some two_steps) [] ≡ codes "page"
unfolding aggregate_output member lookup text_eq join
joins_all = refl

explains_failure :
    map (λ s. s.observation) (build_plan_execution_steps (fetch_failed ∷ []) (some two_steps))
    ≡ codes "STEP FAILED: boom\nOutput: " ∷ []
unfolding build_plan_execution_steps insert lookup text_eq
explains_failure = refl

-- The theorems at these inputs.
find_ready_steps_iff_example :
    Memᴰ report (find_ready_steps (some two_steps) after_fetch)
    ↔ (Memᴰ report two_steps.steps × IsReady after_fetch report)
find_ready_steps_iff_example = find_ready_steps_iff two_steps after_fetch report

validate_plan_dag-IsValid_example : IsValid two_steps []
validate_plan_dag-IsValid_example = validate_plan_dag-IsValid two_steps [] accepts_two_steps

validate_plan_dag_ends_example : validate_plan_dag looped [] ≢ err out_of_fuel
validate_plan_dag_ends_example = validate_plan_dag_ends looped []

abbrev rank : Text → ℕ
rank id = if text_eq id (codes "report") then 1 else 0

-- The one dependency of the two steps.
only_dep :
    (s : PlanStep (Unit {0}))
    → Memᴰ s two_steps.steps
    → (dep : Text) → Memᴰ dep s.depends_on
    → (s ≡ report) × (dep ≡ codes "fetch")
only_dep s (Memᴰ.head e) dep m =
    elim (subst (λ (t : PlanStep (Unit {0})). Memᴰ dep t.depends_on) e m) [ ]
only_dep s (Memᴰ.tail (Memᴰ.head e)) dep m =
    (e, single (subst (λ (t : PlanStep (Unit {0})). Memᴰ dep t.depends_on) e m))
  where
    single : Memᴰ dep (codes "fetch" ∷ []) → dep ≡ codes "fetch"
    single (Memᴰ.head p) = p
    single (Memᴰ.tail q) = elim q [ ]
only_dep s (Memᴰ.tail (Memᴰ.tail n)) dep m = elim n [ ]

two-Distinct : Distinct (ids_of two_steps.steps)
two-Distinct = (apart, (λ m. elim m [ ], tt))
  where
    apart : Memᴰ (codes "fetch") (codes "report" ∷ []) → ⊥
    apart (Memᴰ.head e) = ground arith
    apart (Memᴰ.tail m) = elim m [ ]

two_known :
    (s : PlanStep (Unit {0}))
    → Memᴰ s two_steps.steps
    → (dep : Text) → Memᴰ dep s.depends_on
    → Memᴰ dep (ids_of two_steps.steps) ⊎ (member dep [] ≡ true)
two_known s m dep k = inl (Memᴰ.head (only_dep s m dep k).1)

two_ranked :
    (s : PlanStep (Unit {0}))
    → Memᴰ s two_steps.steps
    → (dep : Text) → Memᴰ dep s.depends_on
    → Memᴰ dep (ids_of two_steps.steps)
    → rank dep < rank s.id
unfolding text_eq
two_ranked s m dep k _ = let (e, d) = only_dep s m dep k in rw (e, d) (omega arith)

validate_plan_dag_accepts_example : validate_plan_dag two_steps [] ≡ ok tt
validate_plan_dag_accepts_example =
    validate_plan_dag_accepts two_steps [] rank two-Distinct two_known two_ranked

no_failure : NoFailure two_steps [] after_fetch
unfolding lookup text_eq
no_failure s (Memᴰ.head e) cs p =
    let q : lookup fetch.id after_fetch ≡ some cs =
      ap (λ (t : PlanStep (Unit {0})). lookup t.id after_fetch) (sym e) ∙ p in
    cc
no_failure s (Memᴰ.tail (Memᴰ.head e)) cs p =
    let q : lookup report.id after_fetch ≡ some cs =
      ap (λ (t : PlanStep (Unit {0})). lookup t.id after_fetch) (sym e) ∙ p in
    cc
no_failure s (Memᴰ.tail (Memᴰ.tail m)) cs p = elim m [ ]

no_prior : PriorComplete two_steps [] after_fetch
no_prior k h = unfold member in cc h

find_ready_steps_progress_example : find_ready_steps (some two_steps) after_fetch ≢ []
unfolding lookup text_eq
find_ready_steps_progress_example =
    find_ready_steps_progress two_steps [] after_fetch report accepts_two_steps no_failure no_prior
      (Memᴰ.tail (Memᴰ.head refl)) refl

build_carry_forward-IsGreatest_example :
    (r : Option (Map CompletedStep)) × (build_carry_forward
        (fetched ∷ reported ∷ [])
        (some two_steps)
      ≡ some r)
    × (r ≢ some [])
    × IsGreatest (fetched ∷ reported ∷ []) two_steps (entries r)
build_carry_forward-IsGreatest_example =
    build_carry_forward-IsGreatest (fetched ∷ reported ∷ []) two_steps

outputs_iff_example : Memᴰ (codes "page") (outputs after_fetch two_steps []) ↔ (
    Terminal after_fetch [] two_steps (codes "page")
    ⊎ (((t : Text) → ¬ Terminal after_fetch [] two_steps t)
        × ContributesIn after_fetch [] two_steps.steps (codes "page")))
outputs_iff_example = outputs_iff after_fetch two_steps [] (codes "page")
