-- ===== src/Orchestration/CarryForward/Greatest.antt =====
-- orchestration/dag.go: the set of steps that BuildCarryForward keeps.
use sp4rk.Base.{
  Text, List, [], ◌∷◌, ℕ, ◌+◌, Bool, true, false, ◌&&◌, not, Option, none, some, is_some, length,
  ◌≡◌, ◌≢◌, refl, ◌∙◌, arith, Memᴰ, inl, inr, Bool-cases, text_eq_iff, text-eq_cases,
}
use sp4rk.Base.Map.{Map, Keys, lookup, delete, member, lookup-delete}
use sp4rk.Orchestration.Plan.{PlanStep, Plan, CompletedStep}
use sp4rk.Orchestration.CarryForward.{
  candidates, stale, settle, step_ids, nil_if_empty, build_carry_forward,
}
use sp4rk.Orchestration.CarryForward.Candidates.{
  InPlan, Latest, step_ids-InPlan, candidates-Latest, found-Latest,
}
use sp4rk.Orchestration.CarryForward.Passes.{drops, settle_total, settle_inv}

module _ (ids : Keys) where
  stale-false :
      (c : Map CompletedStep) (deps : List Text)
      → stale ids c deps ≡ false
      → (dep : Text) → Memᴰ dep deps
      → member dep ids ≡ true
      → is_some (lookup dep c) ≡ true
  unfolding stale
  stale-false c [] h dep m k = elim m [ ]
  stale-false c (d ∷ ds) h dep (Memᴰ.head e) k =
      let k' : member d ids ≡ true = rw (← e) k in rw e (ground arith)
  stale-false c (d ∷ ds) h dep (Memᴰ.tail m) k = stale-false c ds (ground arith) dep m k

  stale-true :
      (c : Map CompletedStep) (deps : List Text)
      → stale ids c deps ≡ true
      → (dep : Text) × Memᴰ dep deps × (member dep ids ≡ true) × (is_some (lookup dep c) ≡ false)
  unfolding stale
  stale-true c [] h = cc
  stale-true c (d ∷ ds) h = elim (Bool-cases (member d ids && not (is_some (lookup d c)))) [
    | inl e ↦ (d, Memᴰ.head refl, ground arith, ground arith)
    | inr e ↦ let (dep, m, k, n) = stale-true c ds (ground arith) in (dep, Memᴰ.tail m, k, n)
  ]

module _ {P : Type 0} (completed : List CompletedStep) (plan : Plan P) where
  abbrev pub ids : Keys
  ids = step_ids plan.steps

  abbrev pub found : Map CompletedStep
  found = candidates ids completed []

  -- Where a step is carried, so is each of its dependencies that is a step of the new plan.
  abbrev pub IsClosed : (Text → Bool) → Type 0
  IsClosed S =
      (s : PlanStep P)
      → Memᴰ s plan.steps
      → S s.id ≡ true
      → (dep : Text) → Memᴰ dep s.depends_on
      → InPlan plan.steps dep
      → S dep ≡ true

  -- What BuildCarryForward promises of its map.
  pub record IsGreatest (r : Map CompletedStep) : Type 0 where
    pub sound :
        (k : Text) (cs : CompletedStep) → lookup k r ≡ some cs → Latest plan.steps k cs completed
    pub closed : IsClosed (λ k. is_some (lookup k r))
    pub greatest :
        (S : Text → Bool)
        → ((k : Text) → S k ≡ true → (cs : CompletedStep) × Latest plan.steps k cs completed)
        → IsClosed S
        → (k : Text) (cs : CompletedStep) → S k ≡ true
        → Latest plan.steps k cs completed
        → lookup k r ≡ some cs

  module _ (f : ℕ) (r : Map CompletedStep) (done : settle f ids plan.steps found ≡ some r) where
    settle_sound :
        (k : Text) (cs : CompletedStep) → lookup k r ≡ some cs → Latest plan.steps k cs completed
    settle_sound =
        (settle_inv ids
          (λ c.
            (k : Text) (cs : CompletedStep)
            → lookup k c ≡ some cs
            → Latest plan.steps k cs completed)
          plan.steps (λ s c m e h k cs p. h k cs (ground (arith, lookup-delete s.id k c))) f found r
          (λ k cs. found-Latest plan.steps k cs completed) done).0

    settle-IsClosed : IsClosed (λ k. is_some (lookup k r))
    settle-IsClosed s m here dep md k =
        let quiet =
          (settle_inv ids (λ _. Unit {0}) plan.steps (λ _ _ _ _ _. tt) f found r tt done).1 s m in
        stale-false ids r s.depends_on (ground arith) dep md ((step_ids-InPlan plan.steps dep).1 k)

    settle-greatest :
        (S : Text → Bool)
        → ((k : Text) → S k ≡ true → (cs : CompletedStep) × Latest plan.steps k cs completed)
        → IsClosed S
        → (k : Text) (cs : CompletedStep) → S k ≡ true
        → Latest plan.steps k cs completed
        → lookup k r ≡ some cs
    settle-greatest S sub closed k cs t l =
        (settle_inv ids (λ c. (k : Text) → S k ≡ true → lookup k c ≡ lookup k found) plan.steps keep
            f found r (λ k e. refl) done).0
          k t
        ∙ candidates-Latest plan.steps k cs [] l
      where
        in_found : (k : Text) → S k ≡ true → is_some (lookup k found) ≡ true
        in_found k t = let (cs, l) = sub k t in rw (candidates-Latest plan.steps k cs [] l) refl

        keep :
            (s : PlanStep P) (c : Map CompletedStep)
            → Memᴰ s plan.steps
            → drops ids c s ≡ true
            → ((k : Text) → S k ≡ true → lookup k c ≡ lookup k found)
            → (k : Text) → S k ≡ true
            → lookup k (delete s.id c) ≡ lookup k found
        keep s c m e h k t = elim (text-eq_cases s.id k) [
          | inl p ↦
              let (dep, md, kd, gone) = stale-true ids c s.depends_on (ground arith) in
              let sd = closed s m (rw p t) dep md ((step_ids-InPlan plan.steps dep).0 kd) in
              absurd (ground (arith, h dep sd, in_found dep sd))
          | inr n ↦ ground (arith, lookup-delete s.id k c, text_eq_iff s.id k, h k t)
        ]

abbrev pub entries : Option (Map CompletedStep) → Map CompletedStep
entries none = []
entries (some m) = m

entries-nil_if_empty : (m : Map CompletedStep) → entries (nil_if_empty m) ≡ m
entries-nil_if_empty [] = refl
entries-nil_if_empty (x ∷ xs) = refl

-- BuildCarryForward ends on every input. Of the steps of the new plan under whose id a step completed
-- without an error, it keeps the greatest set in which every dependency that is a step of the new
-- plan is kept as well, each with the last such record of its id. It returns nil for the empty map.
pub build_carry_forward-IsGreatest :
    {P : Type 0} (completed : List CompletedStep) (plan : Plan P)
    → (r : Option (Map CompletedStep)) × (build_carry_forward completed (some plan) ≡ some r)
      × (r ≢ some [])
      × IsGreatest completed plan (entries r)
unfolding build_carry_forward
build_carry_forward-IsGreatest completed plan =
    let (m, e) =
      settle_total (ids completed plan) (length (found completed plan) + 1) plan.steps
        (found completed plan) (omega arith) in
    (
      nil_if_empty m,
      rw (e, build_carry_forward) refl,
      not_empty m,
      rw (entries-nil_if_empty m) (record {
        sound = settle_sound completed plan _ m e;
        closed = settle-IsClosed completed plan _ m e;
        greatest = settle-greatest completed plan _ m e;
      }),
    )
  where
    not_empty : (m : Map CompletedStep) → nil_if_empty m ≢ some []
    not_empty [] = λ p. cc p
    not_empty (x ∷ xs) = λ p. cc p
