-- ===== src/Planner/Validate/Deps.antt =====
-- planner/planner.go: the dependency check and the dependency map that validatePlanDAG builds before
-- its search.
use sp4rk.Base.{
  Text, List, [], ◌∷◌, true, some, ◌||◌, is_some, ◌≡◌, refl, subst, arith, Memᴰ, text_eq_iff,
  mem-if, mem-if_head, mem-if_tail, text-eq_cases, inl, inr, Option-cases,
}
use sp4rk.Base.Map.{Map, Keys, member, lookup, insert, lookup-insert}
use sp4rk.Orchestration.Plan.{PlanStep}
use sp4rk.Planner.Validate.{
  ok, >>=-eq_ok, check_deps, check_known, in_plan, dep_map, deps_of, ids_of,
}

-- Every dependency is an identifier of the plan or of the prior plan.
module _ (ids prior : Keys) where
  abbrev pub IsKnown : Text → Type 0
  IsKnown dep = (member dep ids || member dep prior) ≡ true

  check_deps_sound :
      (id : Text) (deps : List Text)
      → check_deps ids prior id deps ≡ ok tt
      → (dep : Text) → Memᴰ dep deps
      → IsKnown dep
  unfolding check_deps
  check_deps_sound id [] h dep m = elim m [ ]
  check_deps_sound id (d ∷ ds) h dep (Memᴰ.head e) = rw e (ground arith)
  check_deps_sound id (d ∷ ds) h dep (Memᴰ.tail m) = check_deps_sound id ds (ground arith) dep m

  check_deps_complete :
      (id : Text) (deps : List Text)
      → ((dep : Text) → Memᴰ dep deps → IsKnown dep)
      → check_deps ids prior id deps ≡ ok tt
  unfolding check_deps
  check_deps_complete id [] h = refl
  check_deps_complete id (d ∷ ds) h =
      rw (h d (Memᴰ.head refl)) (check_deps_complete id ds (λ dep m. h dep (Memᴰ.tail m)))

  module _ {P : Type 0} where
    abbrev pub AllKnown : List (PlanStep P) → Type 0
    AllKnown steps =
        (s : PlanStep P) → Memᴰ s steps → (dep : Text) → Memᴰ dep s.depends_on → IsKnown dep

    pub check_known_sound :
        (steps : List (PlanStep P)) → check_known ids prior steps ≡ ok tt → AllKnown steps
    unfolding check_known
    check_known_sound [] h s m dep k = elim m [ ]
    check_known_sound (x ∷ xs) h s (Memᴰ.head e) dep k =
        let (u, p, q) = >>=-eq_ok (check_deps ids prior x.id x.depends_on) _ h in
        check_deps_sound x.id x.depends_on p dep
          (subst (λ (t : PlanStep P). Memᴰ dep t.depends_on) e k)
    check_known_sound (x ∷ xs) h s (Memᴰ.tail m) dep k =
        let (u, p, q) = >>=-eq_ok (check_deps ids prior x.id x.depends_on) _ h in
        check_known_sound xs q s m dep k

    pub check_known_complete :
        (steps : List (PlanStep P)) → AllKnown steps → check_known ids prior steps ≡ ok tt
    unfolding check_known
    check_known_complete [] h = refl
    check_known_complete (x ∷ xs) h =
        rw (check_deps_complete x.id x.depends_on (h x (Memᴰ.head refl)))
          (check_known_complete xs (λ s m. h s (Memᴰ.tail m)))

-- The dependencies within the plan, and the map from steps to them.
module _ (ids : Keys) where
  pub in_plan_sound :
      (deps : List Text) (d : Text)
      → Memᴰ d (in_plan ids deps)
      → Memᴰ d deps × (member d ids ≡ true)
  unfolding in_plan
  in_plan_sound [] d m = elim m [ ]
  in_plan_sound (x ∷ xs) d m = elim (mem-if (member x ids) x (in_plan ids xs) m) [
    | inl r ↦ let (m', b) = in_plan_sound xs d r in (Memᴰ.tail m', b)
    | inr (e, b) ↦ (Memᴰ.head e, rw e b)
  ]

  pub in_plan-complete :
      (deps : List Text) (d : Text) → Memᴰ d deps → member d ids ≡ true → Memᴰ d (in_plan ids deps)
  unfolding in_plan
  in_plan-complete [] d m b = elim m [ ]
  in_plan-complete (x ∷ xs) d (Memᴰ.head e) b =
      mem-if_head (member x ids) x (in_plan ids xs) (rw (← e) b) e
  in_plan-complete (x ∷ xs) d (Memᴰ.tail m) b =
      mem-if_tail (member x ids) x (in_plan ids xs) (in_plan-complete xs d m b)

  module _ {P : Type 0} (plan : List (PlanStep P)) where
    -- `ds` is what the map should hold for `x`.
    abbrev DepsFor : Text → List Text → Type 0
    DepsFor x ds = (s : PlanStep P) × Memᴰ s plan × (s.id ≡ x) × (in_plan ids s.depends_on ≡ ds)

    abbrev Holds : Map (List Text) → Type 0
    Holds deps = (x : Text) (ds : List Text) → lookup x deps ≡ some ds → DepsFor x ds

    Holds-insert :
        (deps : Map (List Text)) (s : PlanStep P)
        → Memᴰ s plan
        → Holds deps
        → Holds (insert s.id (in_plan ids s.depends_on) deps)
    Holds-insert deps s m h x ds e = elim (text-eq_cases s.id x) [
      | inl p ↦ (
        s,
        m,
        p,
        ground (arith, lookup-insert s.id x (in_plan ids s.depends_on) deps, text_eq_iff s.id x),
      )
      | inr n ↦
          h x ds (
            ground
              (arith, lookup-insert s.id x (in_plan ids s.depends_on) deps, text_eq_iff s.id x))
    ]

    dep_map-Holds :
        (steps : List (PlanStep P)) (deps : Map (List Text))
        → ((s : PlanStep P) → Memᴰ s steps → Memᴰ s plan)
        → Holds deps
        → Holds (dep_map ids steps deps)
    unfolding dep_map
    dep_map-Holds [] deps sub h = h
    dep_map-Holds (s ∷ ss) deps sub h =
        dep_map-Holds ss (insert s.id (in_plan ids s.depends_on) deps) (λ t m. sub t (Memᴰ.tail m))
          (Holds-insert deps s (sub s (Memᴰ.head refl)) h)

    dep_map-keeps :
        (steps : List (PlanStep P)) (deps : Map (List Text)) (x : Text)
        → is_some (lookup x deps) ≡ true
        → is_some (lookup x (dep_map ids steps deps)) ≡ true
    unfolding dep_map
    dep_map-keeps [] deps x h = h
    dep_map-keeps (s ∷ ss) deps x h =
        dep_map-keeps ss (insert s.id (in_plan ids s.depends_on) deps) x
          (ground (arith, lookup-insert s.id x (in_plan ids s.depends_on) deps))

    dep_map-covers :
        (steps : List (PlanStep P)) (deps : Map (List Text)) (x : Text)
        → Memᴰ x (ids_of steps)
        → is_some (lookup x (dep_map ids steps deps)) ≡ true
    unfolding dep_map
    dep_map-covers [] deps x m = elim m [ ]
    dep_map-covers (s ∷ ss) deps x (Memᴰ.head e) =
        dep_map-keeps ss (insert s.id (in_plan ids s.depends_on) deps) x
          (ground (arith, lookup-insert s.id x (in_plan ids s.depends_on) deps, text_eq_iff s.id x))
    dep_map-covers (s ∷ ss) deps x (Memᴰ.tail m) =
        dep_map-covers ss (insert s.id (in_plan ids s.depends_on) deps) x m

    abbrev pub built : Map (List Text)
    built = dep_map ids plan []

    built-Holds : Holds built
    built-Holds = dep_map-Holds plan [] (λ s m. m) (λ x ds e. unfold lookup in cc)

    -- The map gives each step of the plan its dependencies within the plan.
    pub deps_of-step : (x : Text) → Memᴰ x (ids_of plan) → DepsFor x (deps_of built x)
    deps_of-step x m = elim (Option-cases (lookup x built)) [
      | inl e ↦ absurd (ground (arith, dep_map-covers plan [] x m))
      | inr (ds, e) ↦
          let same : deps_of built x ≡ ds = unfold deps_of in ground arith in
          rw same (built-Holds x ds e)
    ]

    -- What the map holds comes from a step of the plan.
    pub deps_of_sound :
        (x d : Text)
        → Memᴰ d (deps_of built x)
        → (s : PlanStep P) × Memᴰ s plan × (s.id ≡ x) × Memᴰ d s.depends_on × (member d ids ≡ true)
    deps_of_sound x d m = elim (Option-cases (lookup x built)) [
      | inl e ↦
          let none_there : deps_of built x ≡ [] = unfold deps_of in ground arith in
          elim (subst (λ l. Memᴰ d l) none_there m) [ ]
      | inr (ds, e) ↦
          let same : deps_of built x ≡ ds = unfold deps_of in ground arith in
          let (s, ms, p, q) = built-Holds x ds e in
          let (md, b) = in_plan_sound s.depends_on d (rw q (subst (λ l. Memᴰ d l) same m)) in
          (s, ms, p, md, b)
    ]
