-- ===== src/Planner/Validate/Accepts.antt =====
-- planner/planner.go: which plans validatePlanDAG accepts.
use sp4rk.Base.{
  Text, List, [], ◌∷◌, ℕ, zero, suc, ◌+◌, ◌<◌, true, ◌||◌, ◌≡◌, ◌≢◌, refl, subst, arith, length,
  Memᴰ, inl, inr, ◌⊎◌, text_eq_iff, text-eq_cases,
}
use sp4rk.Base.Map.{Map, Keys, lookup, insert, member}
use sp4rk.Orchestration.Plan.{PlanStep, Plan}
use sp4rk.Planner.Validate.{
  Result, ok, err, ◌>>=◌, duplicate_id, unknown_dependency, cycle, out_of_fuel, Color, gray,
  color_of, deps_of, each, visit, ids_of, check_ids, check_known, check_deps, validate_plan_dag,
}
use sp4rk.Planner.Validate.Search.{
  Search, Finishes, visit-Finishes, visit_white, visit_black, Color-cases, color_of-insert,
}
use sp4rk.Planner.Validate.Graph.{Distinct, Checked, check_ids-Checked, check_ids_total}
use sp4rk.Planner.Validate.Deps.{check_known_complete, deps_of_sound, built}
use sp4rk.Planner.Validate.Fuel.{Settles, search-Settles}

module _ (deps : Map (List Text)) (rank : Text → ℕ)
    (falls : (x d : Text) → Memᴰ d (deps_of deps x) → rank d < rank x) where
  -- Every node in progress ranks above `n`.
  abbrev Above : ℕ → Map Color → Type 0
  Above n c = (x : Text) → color_of c x ≡ gray → n < rank x

  abbrev Acyclic : Result (Map Color) → Type 0
  Acyclic r = (x : Text) → r ≢ err (cycle x)

  Acyclic-bind :
      (r : Result (Map Color)) (f : Map Color → Result (Map Color))
      → Acyclic r
      → ((a : Map Color) → r ≡ ok a → Acyclic (f a))
      → Acyclic (r >>= f)
  Acyclic-bind (ok a) f h k = k a refl
  Acyclic-bind (err e) f h k = λ x p. h x (cc p)

  each-Acyclic :
      (v : Search)
      → Finishes v
      → (ids : List Text) (c : Map Color) → ((id : Text) → Memᴰ id ids → Above (rank id) c)
      → ((id : Text) (c : Map Color) → Memᴰ id ids → Above (rank id) c → Acyclic (v id c))
      → Acyclic (each v ids c)
  unfolding each
  each-Acyclic v fin [] c a h = λ x p. cc p
  each-Acyclic v fin (i ∷ is) c a h =
      Acyclic-bind (v i c) (each v is) (h i c (Memᴰ.head refl) (a i (Memᴰ.head refl))) λ e p.
        each-Acyclic v fin is e (λ id m x g. a id (Memᴰ.tail m) x ((fin i c e p).0.gray_was x g))
          (λ id d m. h id d (Memᴰ.tail m))

  Above-gray :
      (id d : Text) (c : Map Color)
      → rank d < rank id
      → Above (rank id) c
      → Above (rank d) (insert id gray c)
  Above-gray id d c lt a x g = elim (text-eq_cases id x) [
    | inl e ↦ subst (λ y. rank d < rank y) e lt
    | inr n ↦
        let above : rank id < rank x =
          a x (ground (arith, color_of-insert id x gray c, text_eq_iff id x)) in
        omega arith
  ]

  visit-Acyclic :
      (f : ℕ) (id : Text) (c : Map Color) → Above (rank id) c → Acyclic (visit f deps id c)
  visit-Acyclic zero id c a = unfold visit in λ x p. cc p
  visit-Acyclic (suc f) id c a = elim (Color-cases (color_of c id)) [
    | inl e ↦ rw (visit_white f deps id c e) (
        Acyclic-bind _ _
          (each-Acyclic (visit f deps) (visit-Finishes f deps) (deps_of deps id) (insert id gray c)
            (λ d m. Above-gray id d c (falls id d m) a) (λ d c' m. visit-Acyclic f d c'))
          (λ c' p x q. cc q))
    | inr (inl e) ↦ absurd (omega (arith, a id e))
    | inr (inr e) ↦ rw (visit_black f deps id c e) (λ x p. cc p)
  ]

  search-Acyclic : (f : ℕ) (ids : List Text) → Acyclic (each (visit f deps) ids [])
  search-Acyclic f ids =
      each-Acyclic (visit f deps) (visit-Finishes f deps) ids [] (λ id m x g. absurd (no_gray x g))
        (λ id c m. visit-Acyclic f id c)
    where
      no_gray : (x : Text) → color_of [] x ≢ gray
      no_gray x = unfold color_of lookup in λ e. cc e

Settles-ok :
    (r : Result (Map Color))
    → Settles r
    → ((x : Text) → r ≢ err (cycle x))
    → (d : Map Color) × (r ≡ ok d)
Settles-ok (ok a) h n = (a, refl)
Settles-ok (err (cycle x)) h n = absurd (n x refl)
Settles-ok (err (duplicate_id x)) h n = absurd h
Settles-ok (err (unknown_dependency x y)) h n = absurd h
Settles-ok (err out_of_fuel) h n = absurd h

module _ {P : Type 0} where
  length-ids_of : (steps : List (PlanStep P)) → length (ids_of steps) ≡ length steps
  length-ids_of [] = refl
  length-ids_of (s ∷ ss) = omega (arith, length-ids_of ss)

  -- The search over the map of a checked plan ends.
  built-Settles :
      (ids : Keys) (steps : List (PlanStep P))
      → Checked [] steps ids
      → Settles (each (visit (length steps + 1) (built ids steps)) (ids_of steps) [])
  built-Settles ids steps checked =
      search-Settles (built ids steps) (ids_of steps) closed (length steps + 1) (ids_of steps)
        (λ id m. m) (omega (arith, length-ids_of steps))
    where
      closed : (x d : Text) → Memᴰ d (deps_of (built ids steps) x) → Memᴰ d (ids_of steps)
      closed x d m = elim (checked.only d (deps_of_sound ids steps x d m).4) [
        | inl e ↦ absurd (unfold member in cc e)
        | inr k ↦ k
      ]

check_ids-ne_fuel :
    {P : Type 0} (ids : Keys) (steps : List (PlanStep P)) → check_ids ids steps ≢ err out_of_fuel
unfolding check_ids
check_ids-ne_fuel ids [] = λ p. cc p
check_ids-ne_fuel ids (s ∷ ss) = λ p. ground (arith, check_ids-ne_fuel (s.id ∷ ids) ss)

check_deps-ne_fuel :
    (ids prior : Keys) (id : Text) (deps : List Text)
    → check_deps ids prior id deps ≢ err out_of_fuel
unfolding check_deps
check_deps-ne_fuel ids prior id [] = λ p. cc p
check_deps-ne_fuel ids prior id (d ∷ ds) = λ p. ground (arith, check_deps-ne_fuel ids prior id ds)

>>=-ne_fuel {ℓ κ} :
    {A : Type ℓ} {B : Type κ} (r : Result A) (f : A → Result B)
    → r ≢ err out_of_fuel
    → ((a : A) → r ≡ ok a → f a ≢ err out_of_fuel)
    → (r >>= f) ≢ err out_of_fuel
>>=-ne_fuel (ok a) f h k = k a refl
>>=-ne_fuel (err e) f h k = λ p. h (cc p)

check_known-ne_fuel :
    {P : Type 0} (ids prior : Keys) (steps : List (PlanStep P))
    → check_known ids prior steps ≢ err out_of_fuel
unfolding check_known
check_known-ne_fuel ids prior [] = λ p. cc p
check_known-ne_fuel ids prior (s ∷ ss) =
    >>=-ne_fuel _ _ (check_deps-ne_fuel ids prior s.id s.depends_on)
      (λ _ _. check_known-ne_fuel ids prior ss)

Settles-ne_fuel {ℓ} : {A : Type ℓ} (r : Result A) → Settles r → r ≢ err out_of_fuel
Settles-ne_fuel (ok a) h = λ p. cc p
Settles-ne_fuel (err out_of_fuel) h = absurd h
Settles-ne_fuel (err e) h = λ p. cc p

-- The fuel of the model, one more than the number of steps, is enough for every plan: the search
-- always ends with a verdict.
pub validate_plan_dag_ends :
    {P : Type 0} (plan : Plan P) (prior : Keys) → validate_plan_dag plan prior ≢ err out_of_fuel
unfolding validate_plan_dag
validate_plan_dag_ends plan prior = >>=-ne_fuel _ _ (check_ids-ne_fuel [] plan.steps) λ ids p.
    >>=-ne_fuel _ _ (check_known-ne_fuel ids prior plan.steps) λ u q.
      >>=-ne_fuel _ _
        (Settles-ne_fuel _ (built-Settles ids plan.steps (check_ids-Checked [] plan.steps ids p)))
        λ d r e. cc e

-- A plan is accepted when its step ids are distinct, every dependency names a step of the plan or a
-- prior id, and some rank gives every step a higher number than each of its dependencies within
-- the plan.
pub validate_plan_dag_accepts :
    {P : Type 0} (plan : Plan P) (prior : Keys) (rank : Text → ℕ)
    → Distinct (ids_of plan.steps)
    → ((s : PlanStep P)
        → Memᴰ s plan.steps
        → (dep : Text) → Memᴰ dep s.depends_on
        → Memᴰ dep (ids_of plan.steps) ⊎ (member dep prior ≡ true))
    → ((s : PlanStep P)
        → Memᴰ s plan.steps
        → (dep : Text) → Memᴰ dep s.depends_on
        → Memᴰ dep (ids_of plan.steps)
        → rank dep < rank s.id)
    → validate_plan_dag plan prior ≡ ok tt
unfolding validate_plan_dag
validate_plan_dag_accepts {P} plan prior rank distinct known falls =
    let (ids, p) = check_ids_total [] plan.steps distinct (λ x m. unfold member in refl) in
    let checked = check_ids-Checked [] plan.steps ids p in
    let (d, e) = Settles-ok _ (built-Settles ids plan.steps checked) (
      search-Acyclic (built ids plan.steps) rank (lower ids checked) (length plan.steps + 1)
        (ids_of plan.steps)) in
    rw p (rw (check_known_complete ids prior plan.steps (all_known ids checked)) (rw e refl))
  where
    lower :
        (ids : Keys)
        → Checked [] plan.steps ids
        → (x d : Text) → Memᴰ d (deps_of (built ids plan.steps) x)
        → rank d < rank x
    lower ids checked x d m =
        let (s, ms, e, md, b) = deps_of_sound ids plan.steps x d m in
        subst (λ y. rank d < rank y) e
          (falls s ms d md
            (elim (checked.only d b) [ inl f ↦ absurd (unfold member in cc f) | inr k ↦ k ]))

    all_known :
        (ids : Keys)
        → Checked [] plan.steps ids
        → (s : PlanStep P) → Memᴰ s plan.steps
        → (dep : Text) → Memᴰ dep s.depends_on
        → (member dep ids || member dep prior) ≡ true
    all_known ids checked s m dep k = elim (known s m dep k) [
      | inl i ↦ rw (checked.all dep i)
      | inr j ↦ ground arith
    ]
