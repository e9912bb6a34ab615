-- ===== src/Orchestration/CarryForward/Passes.antt =====
-- orchestration/dag.go: the passes of BuildCarryForward, one at a time.
use sp4rk.Base.{
  List, [], ◌∷◌, ℕ, zero, suc, ◌≤◌, ◌<◌, Bool, true, false, ◌&&◌, some, is_some, length, ◌≡◌, refl,
  sym, subst, arith, Memᴰ, inl, inr, Bool-cases, ap, false≢true, ◌∙◌,
}
use sp4rk.Base.Map.{Map, Keys, lookup, delete, length-delete_lt}
use sp4rk.Orchestration.Plan.{PlanStep, CompletedStep}
use sp4rk.Orchestration.CarryForward.{stale, sweep, settle}

module _ {P : Type 0} (ids : Keys) where
  -- The test of the pass at one step.
  abbrev pub drops : Map CompletedStep → PlanStep P → Bool
  drops carried s = is_some (lookup s.id carried) && stale ids carried s.depends_on

  sweep-drop :
      (s : PlanStep P) (ss : List (PlanStep P)) (c : Map CompletedStep) (b : Bool)
      → drops c s ≡ true
      → sweep ids (s ∷ ss) (c, b) ≡ sweep ids ss (delete s.id c, true)
  unfolding sweep
  sweep-drop s ss c b e = rw e

  sweep-skip :
      (s : PlanStep P) (ss : List (PlanStep P)) (c : Map CompletedStep) (b : Bool)
      → drops c s ≡ false
      → sweep ids (s ∷ ss) (c, b) ≡ sweep ids ss (c, b)
  unfolding sweep
  sweep-skip s ss c b e = rw e

  -- The rule for a pass: what holds at the start and survives each removal holds at the end.
  pub sweep_inv {κ} :
      (Q : Map CompletedStep → Bool → Type κ) (ss : List (PlanStep P))
      → ((s : PlanStep P) (c : Map CompletedStep) (b : Bool)
          → Memᴰ s ss
          → drops c s ≡ true
          → Q c b
          → Q (delete s.id c) true)
      → (c : Map CompletedStep) (b : Bool) → Q c b
      → Q (sweep ids ss (c, b)).0 (sweep ids ss (c, b)).1
  sweep_inv Q [] keep c b q = unfold sweep in q
  sweep_inv Q (s ∷ ss) keep c b q = elim (Bool-cases (drops c s)) [
    | inl e ↦ rw (sweep-drop s ss c b e) (
        sweep_inv Q ss (λ t d k m. keep t d k (Memᴰ.tail m)) (delete s.id c) true
          (keep s c b (Memᴰ.head refl) e q))
    | inr e ↦
        rw (sweep-skip s ss c b e) (sweep_inv Q ss (λ t d k m. keep t d k (Memᴰ.tail m)) c b q)
  ]

  -- A pass never enlarges the map, and shrinks it when it reports a change.
  pub sweep_shrinks :
      (ss : List (PlanStep P)) (c : Map CompletedStep)
      → (sweep ids ss (c, false)).1 ≡ true
      → length (sweep ids ss (c, false)).0 < length c
  sweep_shrinks ss c =
      (sweep_inv (λ d b. (length d ≤ length c) × (b ≡ true → length d < length c)) ss step c false
        (omega arith, λ e. cc e)).1
    where
      step :
          (s : PlanStep P) (d : Map CompletedStep) (b : Bool)
          → Memᴰ s ss
          → drops d s ≡ true
          → (length d ≤ length c) × (b ≡ true → length d < length c)
          → (length (delete s.id d) ≤ length c) × (true ≡ true → length (delete s.id d) < length c)
      step s d b m e h =
          let there : is_some (lookup s.id d) ≡ true = ground arith in
          let less = length-delete_lt s.id d there in (omega (arith, h.0), λ _. omega (arith, h.0))

  -- A pass that reports no change changed nothing, and met no stale step.
  pub sweep_quiet :
      (ss : List (PlanStep P)) (c : Map CompletedStep) (b : Bool)
      → (sweep ids ss (c, b)).1 ≡ false
      → ((sweep ids ss (c, b)).0 ≡ c)
        × (b ≡ false)
        × ((s : PlanStep P) → Memᴰ s ss → drops c s ≡ false)
  sweep_quiet [] c b h = unfold sweep in (refl, h, λ s m. elim m [ ])
  sweep_quiet (s ∷ ss) c b h = elim (Bool-cases (drops c s)) [
    | inl e ↦
        let (p, q, r) = sweep_quiet ss (delete s.id c) true (rw (sweep-drop s ss c b e) at h) in
        absurd (false≢true (sym q))
    | inr e ↦
        let (p, q, r) = sweep_quiet ss c b (rw (sweep-skip s ss c b e) at h) in
        (rw (sweep-skip s ss c b e) p, q, quiet r e)
  ]
    where
      quiet :
          ((t : PlanStep P) → Memᴰ t ss → drops c t ≡ false)
          → drops c s ≡ false
          → (t : PlanStep P) → Memᴰ t (s ∷ ss)
          → drops c t ≡ false
      quiet r e t (Memᴰ.head q) = rw q e
      quiet r e t (Memᴰ.tail m) = r t m

  settle-step :
      (f : ℕ) (steps : List (PlanStep P)) (c : Map CompletedStep)
      → (sweep ids steps (c, false)).1 ≡ true
      → settle (suc f) ids steps c ≡ settle f ids steps (sweep ids steps (c, false)).0
  unfolding settle
  settle-step f steps c e = rw (e, settle)

  settle-stop :
      (f : ℕ) (steps : List (PlanStep P)) (c : Map CompletedStep)
      → (sweep ids steps (c, false)).1 ≡ false
      → settle (suc f) ids steps c ≡ some c
  unfolding settle
  settle-stop f steps c e = rw (e, settle) (ap some (sweep_quiet steps c false e).0)

  -- More fuel than entries is enough.
  pub settle_total :
      (f : ℕ) (steps : List (PlanStep P)) (c : Map CompletedStep)
      → length c < f
      → (r : Map CompletedStep) × (settle f ids steps c ≡ some r)
  settle_total zero steps c h = absurd (omega arith)
  settle_total (suc f) steps c h = elim (Bool-cases (sweep ids steps (c, false)).1) [
    | inl e ↦
        let (r, p) =
          settle_total f steps (sweep ids steps (c, false)).0
            (omega (arith, sweep_shrinks steps c e)) in
        (r, settle-step f steps c e ∙ p)
    | inr e ↦ (c, settle-stop f steps c e)
  ]

  -- The rule for the loop: at its end the invariant holds and no step is stale.
  pub settle_inv {κ} :
      (Q : Map CompletedStep → Type κ) (steps : List (PlanStep P))
      → ((s : PlanStep P) (c : Map CompletedStep)
          → Memᴰ s steps
          → drops c s ≡ true
          → Q c
          → Q (delete s.id c))
      → (f : ℕ) (c r : Map CompletedStep) → Q c
      → settle f ids steps c ≡ some r
      → Q r × ((s : PlanStep P) → Memᴰ s steps → drops r s ≡ false)
  settle_inv Q steps keep zero c r q h = unfold settle in cc
  settle_inv Q steps keep (suc f) c r q h = elim (Bool-cases (sweep ids steps (c, false)).1) [
    | inl e ↦
        settle_inv Q steps keep f (sweep ids steps (c, false)).0 r
          (sweep_inv (λ d _. Q d) steps (λ s d b m. keep s d m) c false q)
          (sym (settle-step f steps c e) ∙ h)
    | inr e ↦
        let same : c ≡ r = cc (settle-stop f steps c e) in
        (
          subst Q same q,
          subst (λ d. (s : PlanStep P) → Memᴰ s steps → drops d s ≡ false) same
              (sweep_quiet steps c false e).2,
        )
  ]
