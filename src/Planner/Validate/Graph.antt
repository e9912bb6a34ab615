-- ===== src/Planner/Validate/Graph.antt =====
-- planner/planner.go: the identifiers of a plan's steps, and the first check of validatePlanDAG.
use sp4rk.Base.{
  Text, List, [], ◌∷◌, true, false, ◌≡◌, refl, sym, subst, arith, Memᴰ, text_eq_iff, text-eq_cases,
  inl, inr, ◌⊎◌, text_eq_refl, Bool-cases, ap,
}
use sp4rk.Base.Map.{Keys, member, member-cons}
use sp4rk.Orchestration.Plan.{PlanStep}
use sp4rk.Planner.Validate.{ok, check_ids, ids_of}
use sp4rk.Planner.Validate.Search.{ok-injective}

abbrev pub Distinct : List Text → Type 0
Distinct [] = Unit
Distinct (x ∷ xs) = ¬ Memᴰ x xs × Distinct xs

module _ {P : Type 0} where
  pub mem-ids_of :
      (s : PlanStep P) (steps : List (PlanStep P)) → Memᴰ s steps → Memᴰ s.id (ids_of steps)
  mem-ids_of s [] m = elim m [ ]
  mem-ids_of s (x ∷ xs) (Memᴰ.head e) = Memᴰ.head (ap (λ (t : PlanStep P). t.id) e)
  mem-ids_of s (x ∷ xs) (Memᴰ.tail m) = Memᴰ.tail (mem-ids_of s xs m)

  pub mem-ids_of_inv :
      (x : Text) (steps : List (PlanStep P))
      → Memᴰ x (ids_of steps)
      → (s : PlanStep P) × Memᴰ s steps × (s.id ≡ x)
  mem-ids_of_inv x [] m = elim m [ ]
  mem-ids_of_inv x (s ∷ ss) (Memᴰ.head e) = (s, Memᴰ.head refl, sym e)
  mem-ids_of_inv x (s ∷ ss) (Memᴰ.tail m) =
      let (t, mt, e) = mem-ids_of_inv x ss m in (t, Memᴰ.tail mt, e)

  -- What the loop over the step ids established.
  pub record Checked (ids₀ : Keys) (steps : List (PlanStep P)) (ids : Keys) : Type 0 where
    pub distinct : Distinct (ids_of steps)
    pub fresh : (x : Text) → Memᴰ x (ids_of steps) → member x ids₀ ≡ false
    pub only : (x : Text) → member x ids ≡ true → (member x ids₀ ≡ true) ⊎ Memᴰ x (ids_of steps)
    pub old : (x : Text) → member x ids₀ ≡ true → member x ids ≡ true
    pub all : (x : Text) → Memᴰ x (ids_of steps) → member x ids ≡ true

  -- One round of the loop.
  module _ (ids₀ : Keys) (s : PlanStep P) (ss : List (PlanStep P)) where
    fresh-cons :
        member s.id ids₀ ≡ false
        → ((x : Text) → Memᴰ x (ids_of ss) → member x (s.id ∷ ids₀) ≡ false)
        → (x : Text) → Memᴰ x (s.id ∷ ids_of ss)
        → member x ids₀ ≡ false
    fresh-cons e f x (Memᴰ.head p) = rw p e
    fresh-cons e f x (Memᴰ.tail m) = ground (arith, f x m, member-cons x s.id ids₀)

    only-cons :
        (x : Text)
        → (member x (s.id ∷ ids₀) ≡ true) ⊎ Memᴰ x (ids_of ss)
        → (member x ids₀ ≡ true) ⊎ Memᴰ x (s.id ∷ ids_of ss)
    only-cons x (inr m) = inr (Memᴰ.tail m)
    only-cons x (inl p) = elim (text-eq_cases x s.id) [
      | inl e ↦ inr (Memᴰ.head e)
      | inr n ↦ inl (ground (arith, member-cons x s.id ids₀, text_eq_iff s.id x))
    ]

    all-cons :
        (ids : Keys)
        → Checked (s.id ∷ ids₀) ss ids
        → (x : Text) → Memᴰ x (s.id ∷ ids_of ss)
        → member x ids ≡ true
    all-cons ids c x (Memᴰ.head e) =
        c.old x (ground (arith, member-cons x s.id ids₀, text_eq_iff s.id x))
    all-cons ids c x (Memᴰ.tail m) = c.all x m

    Checked-cons :
        (ids : Keys)
        → member s.id ids₀ ≡ false
        → Checked (s.id ∷ ids₀) ss ids
        → Checked ids₀ (s ∷ ss) ids
    Checked-cons ids e c = record {
      distinct = (
        λ m. ground (arith, c.fresh s.id m, member-cons s.id s.id ids₀, text_eq_refl s.id),
        c.distinct,
      );
      fresh = fresh-cons e c.fresh;
      only = λ x p. only-cons x (c.only x p);
      old = λ x p. c.old x (ground (arith, member-cons x s.id ids₀));
      all = all-cons ids c;
    }

  pub check_ids-Checked :
      (ids₀ : Keys) (steps : List (PlanStep P)) (ids : Keys)
      → check_ids ids₀ steps ≡ ok ids
      → Checked ids₀ steps ids
  unfolding check_ids
  check_ids-Checked ids₀ [] ids h =
      let same : ids₀ ≡ ids = ok-injective h in
      record {
        distinct = tt;
        fresh = λ x m. elim m [ ];
        only = λ x p. inl (rw same p);
        old = λ x p. rw (← same) p;
        all = λ x m. elim m [ ];
      }
  check_ids-Checked ids₀ (s ∷ ss) ids h = elim (Bool-cases (member s.id ids₀)) [
    | inl e ↦ absurd (ground arith)
    | inr e ↦ Checked-cons ids₀ s ss ids e (check_ids-Checked (s.id ∷ ids₀) ss ids (ground arith))
  ]

  pub check_ids_total :
      (ids₀ : Keys) (steps : List (PlanStep P))
      → Distinct (ids_of steps)
      → ((x : Text) → Memᴰ x (ids_of steps) → member x ids₀ ≡ false)
      → (ids : Keys) × (check_ids ids₀ steps ≡ ok ids)
  unfolding check_ids
  check_ids_total ids₀ [] d f = (ids₀, refl)
  check_ids_total ids₀ (s ∷ ss) d f =
      let (ids, e) = check_ids_total (s.id ∷ ids₀) ss d.1 fresh in
      (ids, rw (f s.id (Memᴰ.head refl)) e)
    where
      fresh : (x : Text) → Memᴰ x (ids_of ss) → member x (s.id ∷ ids₀) ≡ false
      fresh x m = elim (text-eq_cases x s.id) [
        | inl e ↦ absurd (d.0 (subst (λ y. Memᴰ y (ids_of ss)) e m))
        | inr n ↦ ground (arith, member-cons x s.id ids₀, f x (Memᴰ.tail m), text_eq_iff s.id x)
      ]
