-- ===== src/Planner/Validate/Sound.antt =====
-- planner/planner.go: what validatePlanDAG has established when it returns no error.
use sp4rk.Base.{
  Text, List, [], ◌∷◌, ℕ, zero, suc, ◌+◌, Bool, true, false, ◌&&◌, ◌≡◌, ◌≢◌, refl, subst, arith,
  length, Memᴰ, inl, inr, ◌⊎◌, Bool-cases, text_eq_iff, text-eq_cases,
}
use sp4rk.Base.Map.{Map, Keys, lookup, insert, member, member_iff}
use sp4rk.Orchestration.Plan.{PlanStep, Plan}
use sp4rk.Planner.Validate.{
  ok, >>=-eq_ok, Color, gray, black, color_of, deps_of, each, visit, ids_of, check_ids, check_known,
  dep_map, validate_plan_dag,
}
use sp4rk.Planner.Validate.Search.{
  Search, each-Finishes, visit-Finishes, visit_white-eq_ok, visit_gray, visit_black, Color-cases,
  color_of-insert,
}
use sp4rk.Planner.Validate.Graph.{Distinct, Checked, check_ids-Checked, mem-ids_of}
use sp4rk.Planner.Validate.Deps.{check_known_sound, deps_of-step, in_plan-complete, built}

-- A set of nodes that each depend on a node of the set is never reached: no node of it turns black.
module _ (deps : Map (List Text)) (S : Text → Bool) where
  abbrev Trap : Type 0
  Trap = (x : Text) → S x ≡ true → (d : Text) × Memᴰ d (deps_of deps x) × (S d ≡ true)

  abbrev Clean : Map Color → Type 0
  Clean c = (x : Text) → S x ≡ true → color_of c x ≢ black

  each-Clean :
      (v : Search)
      → ((id : Text) (c d : Map Color) → Clean c → v id c ≡ ok d → Clean d)
      → (ids : List Text) (c d : Map Color) → Clean c
      → each v ids c ≡ ok d
      → Clean d
  unfolding each
  each-Clean v keep [] c d k h = subst Clean (ground arith) k
  each-Clean v keep (i ∷ is) c d k h =
      let (e, p, q) = >>=-eq_ok (v i c) (each v is) h in each-Clean v keep is e d (keep i c e k p) q

  Clean-insert :
      (id : Text) (k : Color) (c : Map Color)
      → (S id ≡ true → k ≢ black)
      → Clean c
      → Clean (insert id k c)
  Clean-insert id k c h cl x s p = elim (text-eq_cases id x) [
    | inl e ↦ h (rw e s) (ground (arith, color_of-insert id x k c, text_eq_iff id x))
    | inr n ↦ cl x s (ground (arith, color_of-insert id x k c, text_eq_iff id x))
  ]

  visit-Clean :
      Trap → (f : ℕ) (id : Text) (c d : Map Color) → Clean c → visit f deps id c ≡ ok d → Clean d
  visit-Clean trap zero id c d k h = unfold visit in cc
  visit-Clean trap (suc f) id c d k h = elim (Color-cases (color_of c id)) [
    | inl e ↦
        let (c', p, q) = visit_white-eq_ok f deps id c d e h in
        let start = Clean-insert id gray c (λ _ g. cc g) k in
        let below =
          each-Clean (visit f deps) (visit-Clean trap f) (deps_of deps id) (insert id gray c) c'
            start p in
        let (_, all_black) =
          each-Finishes (visit f deps) (visit-Finishes f deps) (deps_of deps id) (insert id gray c)
            c' p in
        subst Clean q (
          Clean-insert id black c' (λ s _. let (x, m, t) = trap id s in below x t (all_black x m))
            below)
    | inr (inl e) ↦ absurd (cc (visit_gray f deps id c e))
    | inr (inr e) ↦ subst Clean (cc (visit_black f deps id c e)) k
  ]

module _ {P : Type 0} (plan : Plan P) (prior : Keys) where
  -- No set of steps of the plan is such that each of its steps depends on a step of the set.
  abbrev pub NoTrap : Type 0
  NoTrap =
      (S : Text → Bool)
      → ((s : PlanStep P)
          → Memᴰ s plan.steps
          → S s.id ≡ true
          → (dep : Text) × Memᴰ dep s.depends_on × Memᴰ dep (ids_of plan.steps) × (S dep ≡ true))
      → (s : PlanStep P) → Memᴰ s plan.steps
      → S s.id ≡ false

  pub record IsValid : Type 0 where
    pub distinct : Distinct (ids_of plan.steps)
    pub known :
        (s : PlanStep P)
        → Memᴰ s plan.steps
        → (dep : Text) → Memᴰ dep s.depends_on
        → Memᴰ dep (ids_of plan.steps) ⊎ (member dep prior ≡ true)
    pub no_trap : NoTrap

  module _ (ids : Keys) (checked : Checked [] plan.steps ids) where
    member-ids : (x : Text) → member x ids ≡ true → Memᴰ x (ids_of plan.steps)
    member-ids x h = elim (checked.only x h) [ inl e ↦ absurd (unfold member in cc) | inr m ↦ m ]

    NoTrap_of_search :
        (f : ℕ) (d : Map Color)
        → each (visit f (built ids plan.steps)) (ids_of plan.steps) [] ≡ ok d
        → NoTrap
    NoTrap_of_search f d h S closed s m = elim (Bool-cases (S s.id)) [
      | inl e ↦ absurd (clean s.id (rw (e, here) refl) (all_black s.id (mem-ids_of s plan.steps m)))
      | inr e ↦ e
    ]
      where
        here : member s.id (ids_of plan.steps) ≡ true
        here = (member_iff s.id (ids_of plan.steps)).1 (mem-ids_of s plan.steps m)

        T : Text → Bool
        T x = S x && member x (ids_of plan.steps)

        all_black : (id : Text) → Memᴰ id (ids_of plan.steps) → color_of d id ≡ black
        all_black =
            (each-Finishes (visit f (built ids plan.steps))
              (visit-Finishes f (built ids plan.steps)) (ids_of plan.steps) [] d h).1

        trap : Trap (built ids plan.steps) T
        trap x t =
            let mx = (member_iff x (ids_of plan.steps)).0 (ground arith) in
            let (s', ms, e, q) = deps_of-step ids plan.steps x mx in
            let (dep, md, mi, sd) = closed s' ms (rw e (ground arith)) in
            (
              dep,
              subst (λ l. Memᴰ dep l) q
                  (in_plan-complete ids s'.depends_on dep md (checked.all dep mi)),
              rw (sd, (member_iff dep (ids_of plan.steps)).1 mi),
            )

        no_black : (x : Text) → color_of [] x ≢ black
        no_black x = unfold color_of lookup in λ e. cc e

        clean : Clean (built ids plan.steps) T d
        clean =
            each-Clean (built ids plan.steps) T (visit f (built ids plan.steps))
              (visit-Clean (built ids plan.steps) T trap f) (ids_of plan.steps) [] d
              (λ x s. no_black x) h

-- A plan that validatePlanDAG accepts has distinct step ids, every dependency of it names a step of
-- the plan or a prior id, and no set of its steps is such that each step of the set depends on a
-- step of the set: the dependencies have no cycle.
pub validate_plan_dag-IsValid :
    {P : Type 0} (plan : Plan P) (prior : Keys)
    → validate_plan_dag plan prior ≡ ok tt
    → IsValid plan prior
unfolding validate_plan_dag
validate_plan_dag-IsValid plan prior h =
    let (ids, p, q) = >>=-eq_ok (check_ids [] plan.steps) _ h in
    let (u, p', q') = >>=-eq_ok (check_known ids prior plan.steps) _ q in
    let (d, p'', _) =
      >>=-eq_ok
        (each (visit (length plan.steps + 1) (dep_map ids plan.steps [])) (ids_of plan.steps) []) _
        q' in
    let checked = check_ids-Checked [] plan.steps ids p in
    record {
      distinct = checked.distinct;
      known = λ s m dep k. elim (Bool-cases (member dep ids)) [
        | inl e ↦ inl (member-ids plan prior ids checked dep e)
        | inr e ↦ inr (ground (arith, check_known_sound ids prior plan.steps p' s m dep k))
      ];
      no_trap = NoTrap_of_search plan prior ids checked (length plan.steps + 1) d p'';
    }
