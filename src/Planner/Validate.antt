-- ===== src/Planner/Validate.antt =====
-- planner/planner.go: validatePlanDAG, the structural validation of a parsed plan, with its
-- depth-first search in three colours. The recursion of `visit` runs on fuel.
pub mod Search
pub mod Graph
pub mod Deps
pub mod Sound
pub mod Fuel
pub mod Accepts
use sp4rk.Base.{
  Text, List, [], ◌∷◌, ℕ, zero, suc, ◌+◌, ◌||◌, none, some, if◌then◌else◌, ◌≡◌, refl, length,
}
use sp4rk.Base.Map.{Map, Keys, lookup, insert, member}
use sp4rk.Orchestration.Plan.{PlanStep, Plan}

-- The three errors of the source; `out_of_fuel` belongs to the model only.
pub data PlanError : Type 0 where
  duplicate_id : Text → PlanError
  unknown_dependency : Text → Text → PlanError
  cycle : Text → PlanError
  out_of_fuel : PlanError

pub data Result {ℓ} (T : Type ℓ) : Type ℓ where
  ok : T → Result T
  err : PlanError → Result T

infixl 5 ◌>>=◌
abbrev pub ◌>>=◌ {ℓ κ} : {S : Type ℓ} {T : Type κ} → Result S → (S → Result T) → Result T
err e >>= next = err e
ok x >>= next = next x

pub >>=-eq_ok {ℓ κ} :
    {S : Type ℓ} {T : Type κ} (first : Result S) (next : S → Result T) {last : T}
    → (first >>= next) ≡ ok last
    → (mid : S) × (first ≡ ok mid) × (next mid ≡ ok last)
>>=-eq_ok (err e) next h = cc
>>=-eq_ok (ok x) next h = (x, refl, h)

-- white = 0, the colour of an absent key
pub data Color : Type 0 where
  white gray black : Color

unfoldable pub color_of : Map Color → Text → Color
color_of colors id = elim (lookup id colors) [ none ↦ white | some c ↦ c ]

unfoldable pub deps_of : Map (List Text) → Text → List Text
deps_of deps id = elim (lookup id deps) [ none ↦ [] | some ds ↦ ds ]

-- `if !ids[dep] && !knownPriorIDs[dep]`, over one step's dependencies
unfoldable pub check_deps : Keys → Keys → Text → List Text → Result (Unit {0})
check_deps ids prior id [] = ok tt
check_deps ids prior id (dep ∷ deps) =
    if member dep ids || member dep prior
    then check_deps ids prior id deps
    else err (unknown_dependency id dep)

-- the dependencies that are nodes of this plan
unfoldable pub in_plan : Keys → List Text → List Text
in_plan ids [] = []
in_plan ids (dep ∷ deps) =
    let rest = in_plan ids deps in if member dep ids then dep ∷ rest else rest

module _ {P : Type 0} where
  unfoldable pub check_ids : Keys → List (PlanStep P) → Result Keys
  check_ids ids [] = ok ids
  check_ids ids (step ∷ steps) =
      if member step.id ids then err (duplicate_id step.id) else check_ids (step.id ∷ ids) steps

  unfoldable pub check_known : Keys → Keys → List (PlanStep P) → Result (Unit {0})
  check_known ids prior [] = ok tt
  check_known ids prior (step ∷ steps) =
      check_deps ids prior step.id step.depends_on >>= λ _. check_known ids prior steps

  unfoldable pub dep_map : Keys → List (PlanStep P) → Map (List Text) → Map (List Text)
  dep_map ids [] deps = deps
  dep_map ids (step ∷ steps) deps =
      dep_map ids steps (insert step.id (in_plan ids step.depends_on) deps)

-- A loop over nodes that stops at the first error.
unfoldable pub each :
    (Text → Map Color → Result (Map Color)) → List Text → Map Color → Result (Map Color)
each v [] colors = ok colors
each v (id ∷ ids) colors = v id colors >>= each v ids

unfoldable pub visit : ℕ → Map (List Text) → Text → Map Color → Result (Map Color)
visit zero deps id colors = err out_of_fuel
visit (suc fuel) deps id colors = elim (color_of colors id) [
  | gray ↦ err (cycle id)
  | black ↦ ok colors
  | white ↦ each (visit fuel deps) (deps_of deps id) (insert id gray colors) >>= λ colors'.
      ok (insert id black colors')
]

abbrev pub ids_of : {P : Type 0} → List (PlanStep P) → List Text
ids_of [] = []
ids_of (step ∷ steps) = step.id ∷ ids_of steps

module _ {P : Type 0} where
  unfoldable pub validate_plan_dag : Plan P → Keys → Result (Unit {0})
  unfolding check_ids check_known check_deps dep_map in_plan each visit color_of deps_of
  validate_plan_dag plan prior = check_ids [] plan.steps >>= λ ids.
      check_known ids prior plan.steps >>= λ _.
      each (visit (length plan.steps + 1) (dep_map ids plan.steps [])) (ids_of plan.steps) []
      >>= λ _. ok tt
