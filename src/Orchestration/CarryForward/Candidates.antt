-- ===== src/Orchestration/CarryForward/Candidates.antt =====
-- orchestration/dag.go: the first phase of BuildCarryForward, against the records that it is to find.
use sp4rk.Base.{
  Text, List, [], ◌∷◌, Bool, true, false, ◌&&◌, not, Option, none, some, is_some, if◌then◌else◌,
  ◌≡◌, ◌≢◌, refl, sym, ap, subst, ◌∙◌, arith, Memᴰ, inl, inr, ◌⊎◌, ◌↔◌, Bool-cases, text-eq_cases,
}
use sp4rk.Base.Map.{Map, lookup, insert, member, member_iff, lookup-insert_own, lookup-insert_other}
use sp4rk.Orchestration.Plan.{PlanStep, CompletedStep}
use sp4rk.Orchestration.CarryForward.{candidates, step_ids}

module _ {P : Type 0} where
  -- The id of a step of the plan.
  abbrev pub InPlan : List (PlanStep P) → Text → Type 0
  InPlan steps k = (s : PlanStep P) × Memᴰ s steps × (s.id ≡ k)

  step_ids-mem : (steps : List (PlanStep P)) (k : Text) → Memᴰ k (step_ids steps) → InPlan steps k
  step_ids-mem [] k m = elim m [ ]
  step_ids-mem (s ∷ ss) k (Memᴰ.head e) = (s, Memᴰ.head refl, sym e)
  step_ids-mem (s ∷ ss) k (Memᴰ.tail m) =
      let (t, mt, e) = step_ids-mem ss k m in (t, Memᴰ.tail mt, e)

  mem-step_ids :
      (steps : List (PlanStep P)) (s : PlanStep P) → Memᴰ s steps → Memᴰ s.id (step_ids steps)
  mem-step_ids [] s m = elim m [ ]
  mem-step_ids (t ∷ ss) s (Memᴰ.head e) = Memᴰ.head (ap (λ (u : PlanStep P). u.id) e)
  mem-step_ids (t ∷ ss) s (Memᴰ.tail m) = Memᴰ.tail (mem-step_ids ss s m)

  pub step_ids-InPlan :
      (steps : List (PlanStep P)) (k : Text) → (member k (step_ids steps) ≡ true) ↔ InPlan steps k
  step_ids-InPlan steps k = (
    λ h. step_ids-mem steps k ((member_iff k (step_ids steps)).0 h),
    λ (s, m, e).
        (member_iff k (step_ids steps)).1
          (subst (λ t. Memᴰ t (step_ids steps)) e (mem-step_ids steps s m)),
  )

  -- The step of this id has completed without an error, and is a step of the plan.
  abbrev pub Qualifies : List (PlanStep P) → Text → CompletedStep → Type 0
  Qualifies steps k cs = (cs.step_id ≡ k) × (cs.error ≡ none) × InPlan steps k

  -- The last of the records that qualify for an id.
  pub data Latest (steps : List (PlanStep P)) (k : Text) (cs : CompletedStep)
      : List CompletedStep → Type 0 where
    now :
        {rest : List CompletedStep}
        → Qualifies steps k cs
        → ((d : CompletedStep) → Memᴰ d rest → ¬ Qualifies steps k d)
        → Latest steps k cs (cs ∷ rest)
    later :
        {d : CompletedStep} {rest : List CompletedStep}
        → Latest steps k cs rest
        → Latest steps k cs (d ∷ rest)

  module _ (steps : List (PlanStep P)) where
    abbrev adds : CompletedStep → Bool
    adds cs = member cs.step_id (step_ids steps) && not (is_some cs.error)

    abbrev grown : CompletedStep → Map CompletedStep → Map CompletedStep
    grown x c = if adds x then insert x.step_id x c else c

    error-none : (o : Option Text) → is_some o ≡ false → o ≡ none
    error-none none h = refl
    error-none (some e) h = cc

    adds-Qualifies : (x : CompletedStep) → adds x ≡ true → Qualifies steps x.step_id x
    adds-Qualifies x h = (
      refl,
      error-none x.error (ground arith),
      (step_ids-InPlan steps x.step_id).0 (ground arith),
    )

    Qualifies-adds : (k : Text) (x : CompletedStep) → Qualifies steps k x → adds x ≡ true
    Qualifies-adds k x (e, n, p) =
        let m : member x.step_id (step_ids steps) ≡ true =
          (step_ids-InPlan steps x.step_id).1 (subst (InPlan steps) (sym e) p) in
        rw (m, n) refl

    -- A record that does not qualify leaves the binding of an id.
    lookup-grown_other :
        (k : Text) (x : CompletedStep) (c : Map CompletedStep)
        → ¬ Qualifies steps k x
        → lookup k (grown x c) ≡ lookup k c
    lookup-grown_other k x c n = elim (Bool-cases (adds x)) [
      | inl t ↦
          let other : x.step_id ≢ k =
            λ e. n (subst (λ i. Qualifies steps i x) e (adds-Qualifies x t)) in
          rw t (lookup-insert_other x.step_id k x c other)
      | inr f ↦ rw f refl
    ]

    lookup-grown_own :
        (k : Text) (x : CompletedStep) (c : Map CompletedStep)
        → Qualifies steps k x
        → lookup k (grown x c) ≡ some x
    lookup-grown_own k x c q = rw (Qualifies-adds k x q) (
        subst (λ i. lookup i (insert x.step_id x c) ≡ some x) q.0 (lookup-insert_own x.step_id x c))

    candidates-other :
        (k : Text) (rest : List CompletedStep) (c : Map CompletedStep)
        → ((d : CompletedStep) → Memᴰ d rest → ¬ Qualifies steps k d)
        → lookup k (candidates (step_ids steps) rest c) ≡ lookup k c
    unfolding candidates
    candidates-other k [] c n = refl
    candidates-other k (x ∷ xs) c n =
        candidates-other k xs (grown x c) (λ d m. n d (Memᴰ.tail m))
        ∙ lookup-grown_other k x c (n x (Memᴰ.head refl))

    pub candidates-Latest :
        (k : Text) (cs : CompletedStep) {rest : List CompletedStep} (c : Map CompletedStep)
        → Latest steps k cs rest
        → lookup k (candidates (step_ids steps) rest c) ≡ some cs
    unfolding candidates
    candidates-Latest k cs c (now {rest} q n) =
        candidates-other k rest (grown cs c) n ∙ lookup-grown_own k cs c q
    candidates-Latest k cs c (later {d} {rest} l) = candidates-Latest k cs (grown d c) l

    -- A record qualifies for an id, or none does.
    Latest-cases :
        (k : Text) (rest : List CompletedStep)
        → ((cs : CompletedStep) × Latest steps k cs rest)
          ⊎ ((d : CompletedStep) → Memᴰ d rest → ¬ Qualifies steps k d)
    Latest-cases k [] = inr (λ d m. elim m [ ])
    Latest-cases k (x ∷ xs) = elim (Latest-cases k xs) [
      | inl (cs, l) ↦ inl (cs, later l)
      | inr n ↦ elim (text-eq_cases x.step_id k) [
        | inl e ↦ elim (Bool-cases (adds x)) [
          | inl t ↦ inl (x, now (subst (λ i. Qualifies steps i x) e (adds-Qualifies x t)) n)
          | inr f ↦ inr (none_in x xs n (λ q. cc (f, Qualifies-adds k x q)))
        ]
        | inr e ↦ inr (none_in x xs n (λ q. e q.0))
      ]
    ]
      where
        none_in :
            (x : CompletedStep) (xs : List CompletedStep)
            → ((d : CompletedStep) → Memᴰ d xs → ¬ Qualifies steps k d)
            → ¬ Qualifies steps k x
            → (d : CompletedStep) → Memᴰ d (x ∷ xs)
            → ¬ Qualifies steps k d
        none_in x xs n h d (Memᴰ.head e) q = h (subst (Qualifies steps k) e q)
        none_in x xs n h d (Memᴰ.tail m) q = n d m q

    pub found-Latest :
        (k : Text) (cs : CompletedStep) (completed : List CompletedStep)
        → lookup k (candidates (step_ids steps) completed []) ≡ some cs
        → Latest steps k cs completed
    unfolding lookup
    found-Latest k cs completed h = elim (Latest-cases k completed) [
      | inl (d, l) ↦
          let same : d ≡ cs = cc (candidates-Latest k d [] l, h) in
          subst (λ (x : CompletedStep). Latest steps k x completed) same l
      | inr n ↦ absurd (cc (candidates-other k completed [] n, h))
    ]
