-- ===== src/Orchestration/Ready/Exact.antt =====
-- orchestration/dag.go: which steps FindReadySteps returns.
use sp4rk.Base.{
  Text, List, [], ◌∷◌, Bool, true, false, false≢true, Option, Option-cases, none, some, is_some,
  if◌then◌else◌, ◌≡◌, Memᴰ, arith, Bool-cases, inl, inr, ◌⊎◌, ◌↔◌, refl,
}
use sp4rk.Base.Map.{Map, lookup}
use sp4rk.Orchestration.Plan.{PlanStep, Plan, CompletedStep}
use sp4rk.Orchestration.Ready.{
  dep_complete, all_deps_complete, ready_from, find_ready_steps, Succeeded, IsReady,
}

module _ (c : Map CompletedStep) where
  all_deps_complete_sound :
      (deps : List Text)
      → all_deps_complete c deps ≡ true
      → (dep : Text) → Memᴰ dep deps
      → dep_complete c dep ≡ true
  unfolding all_deps_complete
  all_deps_complete_sound [] h dep m = elim m [ ]
  all_deps_complete_sound (d ∷ ds) h dep (Memᴰ.head e) = rw e (ground arith)
  all_deps_complete_sound (d ∷ ds) h dep (Memᴰ.tail m) =
      all_deps_complete_sound ds (ground arith) dep m

  all_deps_complete_lem :
      (deps : List Text)
      → ((dep : Text) → Memᴰ dep deps → dep_complete c dep ≡ true)
      → all_deps_complete c deps ≡ true
  unfolding all_deps_complete
  all_deps_complete_lem [] h = refl
  all_deps_complete_lem (d ∷ ds) h =
      rw (h d (Memᴰ.head refl)) (all_deps_complete_lem ds (λ dep m. h dep (Memᴰ.tail m)))

  -- The first dependency that is not complete, when the test fails.
  pub all_deps_complete-fails :
      (deps : List Text)
      → all_deps_complete c deps ≡ false
      → (dep : Text) × Memᴰ dep deps × (dep_complete c dep ≡ false)
  unfolding all_deps_complete
  all_deps_complete-fails [] h = cc
  all_deps_complete-fails (d ∷ ds) h = elim (Bool-cases (dep_complete c d)) [
    | inl e ↦ let (dep, m, f) = all_deps_complete-fails ds (ground arith) in (dep, Memᴰ.tail m, f)
    | inr e ↦ (d, Memᴰ.head refl, e)
  ]

is_some-none {ℓ} : {A : Type ℓ} (o : Option A) → is_some o ≡ false → o ≡ none
is_some-none none h = refl
is_some-none (some x) h = cc

dep_complete-Succeeded :
    (c : Map CompletedStep) (dep : Text) → (dep_complete c dep ≡ true) ↔ Succeeded c dep
unfolding dep_complete
dep_complete-Succeeded c dep = (
  λ h. elim (Option-cases (lookup dep c)) [
    | inl p ↦ absurd (false≢true (rw (p, dep_complete) at h))
    | inr (cs, p) ↦
        (cs, p, is_some-none cs.error (let q = rw (p, dep_complete) at h in ground arith))
  ],
  λ k. rw (k.1, k.2, dep_complete) refl,
)

-- The two `continue`s of the loop, at any tests `b` and `d`.
module _ {A : Type 0} {s : A} where
  pick :
      (b d : Bool) (x : A) (rest : List A)
      → Memᴰ s (if b then rest else if d then x ∷ rest else rest)
      → Memᴰ s rest ⊎ ((s ≡ x) × (b ≡ false) × (d ≡ true))
  pick true d x rest m = inl m
  pick false true x rest (Memᴰ.head e) = inr (e, refl, refl)
  pick false true x rest (Memᴰ.tail m) = inl m
  pick false false x rest m = inl m

  keep :
      (b d : Bool) (x : A) (rest : List A)
      → Memᴰ s rest
      → Memᴰ s (if b then rest else if d then x ∷ rest else rest)
  keep true d x rest m = m
  keep false true x rest m = Memᴰ.tail m
  keep false false x rest m = m

  first :
      (b d : Bool) (x : A) (rest : List A)
      → b ≡ false
      → d ≡ true
      → s ≡ x
      → Memᴰ s (if b then rest else if d then x ∷ rest else rest)
  first b d x rest p q e = rw (p, q) (Memᴰ.head e)

module _ {P : Type 0} (c : Map CompletedStep) where
  abbrev Passes : PlanStep P → Type 0
  Passes s = (is_some (lookup s.id c) ≡ false) × (all_deps_complete c s.depends_on ≡ true)

  ready_from_sound :
      (steps : List (PlanStep P)) (s : PlanStep P)
      → Memᴰ s (ready_from c steps)
      → Memᴰ s steps × Passes s
  unfolding ready_from
  ready_from_sound [] s m = elim m [ ]
  ready_from_sound (x ∷ xs) s m =
      elim (pick (is_some (lookup x.id c)) (all_deps_complete c x.depends_on) x (ready_from c xs)
        m) [
          | inl r ↦ let (m', p) = ready_from_sound xs s r in (Memᴰ.tail m', p)
          | inr (e, b, d) ↦ (Memᴰ.head e, (rw e b, rw e d))
        ]

  ready_from-complete :
      (steps : List (PlanStep P)) (s : PlanStep P)
      → Memᴰ s steps
      → Passes s
      → Memᴰ s (ready_from c steps)
  unfolding ready_from
  ready_from-complete [] s m h = elim m [ ]
  ready_from-complete (x ∷ xs) s (Memᴰ.head e) h =
      first _ _ x (ready_from c xs) (rw (← e) h.0) (rw (← e) h.1) e
  ready_from-complete (x ∷ xs) s (Memᴰ.tail m) h =
      keep (is_some (lookup x.id c)) (all_deps_complete c x.depends_on) x (ready_from c xs)
        (ready_from-complete xs s m h)

pub find_ready_steps-complete :
    {P : Type 0} (plan : Plan P) (c : Map CompletedStep) (s : PlanStep P)
    → Memᴰ s plan.steps
    → is_some (lookup s.id c) ≡ false
    → all_deps_complete c s.depends_on ≡ true
    → Memᴰ s (find_ready_steps (some plan) c)
unfolding find_ready_steps
find_ready_steps-complete plan c s m h d = ready_from-complete c plan.steps s m (h, d)

-- The steps that FindReadySteps returns are exactly the steps of the plan that have not completed
-- and whose every dependency has completed with no error.
pub find_ready_steps_iff :
    {P : Type 0} (plan : Plan P) (c : Map CompletedStep) (s : PlanStep P)
    → Memᴰ s (find_ready_steps (some plan) c) ↔ (Memᴰ s plan.steps × IsReady c s)
unfolding find_ready_steps
find_ready_steps_iff plan c s = (
  λ m.
      let (m', p) = ready_from_sound c plan.steps s m in
      (
        m',
        (
          is_some-none (lookup s.id c) p.0,
          λ dep d. (dep_complete-Succeeded c dep).0 (all_deps_complete_sound c _ p.1 dep d),
        ),
      ),
  λ h. ready_from-complete c plan.steps s h.0 (
    rw h.1.0 refl,
    all_deps_complete_lem c _ (λ dep d. (dep_complete-Succeeded c dep).1 (h.1.1 dep d)),
  ),
)
