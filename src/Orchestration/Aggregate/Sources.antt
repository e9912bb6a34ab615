-- ===== src/Orchestration/Aggregate/Sources.antt =====
-- orchestration/dag.go: which outputs AggregateOutput joins.
use sp4rk.Base.{
  Text, List, [], ◌∷◌, Bool, true, false, Option, none, some, is_some, is_empty, if◌then◌else◌, ◌≡◌,
  refl, sym, ◌∙◌, false≢true, subst, Memᴰ, inl, inr, ◌⊎◌, ◌↔◌, Bool-cases, Option-cases, mem-append,
  mem-append_left, mem-append_right,
}
use sp4rk.Base.Map.{Map, Keys, lookup, member, member_iff}
use sp4rk.Orchestration.Plan.{PlanStep, Plan, CompletedStep}
use sp4rk.Orchestration.Aggregate.{
  depended_upon, fresh_output, terminal_outputs, all_outputs, outputs,
}

module _ {P : Type 0} (completed : Map CompletedStep) (pre : Keys) where
  -- The step was not completed before, and has completed with this output and no error.
  abbrev pub Contributes : PlanStep P → Text → Type 0
  Contributes s o =
      (member s.id pre ≡ false)
      × ((cs : CompletedStep) × (lookup s.id completed ≡ some cs)
          × (cs.error ≡ none)
          × (cs.output ≡ o))

  -- The tests of `fresh_output`, at any outcome of them.
  fresh_sound :
      (s : PlanStep P) (o : Text) (b : Bool) (l : Option CompletedStep)
      → member s.id pre ≡ b
      → lookup s.id completed ≡ l
      → Memᴰ o (
          if b
          then []
          else elim l [ none ↦ [] | some cs ↦ if is_some cs.error then [] else cs.output ∷ [] ])
      → Contributes s o
  fresh_sound s o true l p q m = elim m [ ]
  fresh_sound s o false none p q m = elim m [ ]
  fresh_sound s o false (some cs) p q m = elim (Option-cases cs.error) [
    | inl e ↦ (p, (cs, q, e, single (rw e at m)))
    | inr (x, e) ↦ elim (rw e at m) [ ]
  ]
    where
      single : Memᴰ o (cs.output ∷ []) → cs.output ≡ o
      single (Memᴰ.head e) = sym e
      single (Memᴰ.tail m) = elim m [ ]

  fresh_output_sound :
      (s : PlanStep P) (o : Text) → Memᴰ o (fresh_output completed pre s) → Contributes s o
  unfolding fresh_output
  fresh_output_sound s o m = fresh_sound s o (member s.id pre) (lookup s.id completed) refl refl m

  fresh_output-complete :
      (s : PlanStep P) (o : Text) → Contributes s o → Memᴰ o (fresh_output completed pre s)
  unfolding fresh_output
  fresh_output-complete s o (p, (cs, q, e, r)) = rw (p, q, e, r) (Memᴰ.head refl)

  abbrev pub ContributesIn : List (PlanStep P) → Text → Type 0
  ContributesIn steps o = (s : PlanStep P) × Memᴰ s steps × Contributes s o

  all_outputs_sound :
      (steps : List (PlanStep P)) (o : Text)
      → Memᴰ o (all_outputs completed pre steps)
      → ContributesIn steps o
  unfolding all_outputs
  all_outputs_sound [] o m = elim m [ ]
  all_outputs_sound (s ∷ ss) o m = elim (mem-append (fresh_output completed pre s) _ m) [
    | inl l ↦ (s, Memᴰ.head refl, fresh_output_sound s o l)
    | inr r ↦ let (t, mt, k) = all_outputs_sound ss o r in (t, Memᴰ.tail mt, k)
  ]

  all_outputs-complete :
      (steps : List (PlanStep P)) (o : Text)
      → ContributesIn steps o
      → Memᴰ o (all_outputs completed pre steps)
  unfolding all_outputs
  all_outputs-complete [] o (t, m, k) = elim m [ ]
  all_outputs-complete (s ∷ ss) o (t, Memᴰ.head e, k) =
      mem-append_left _ _
        (fresh_output-complete s o (subst (λ (u : PlanStep P). Contributes u o) e k))
  all_outputs-complete (s ∷ ss) o (t, Memᴰ.tail m, k) =
      mem-append_right _ _ (all_outputs-complete ss o (t, m, k))

  module _ (used : Keys) where
    abbrev TerminalIn : List (PlanStep P) → Text → Type 0
    TerminalIn steps o =
        (s : PlanStep P) × Memᴰ s steps × (member s.id used ≡ false) × Contributes s o

    terminal_outputs_sound :
        (steps : List (PlanStep P)) (o : Text)
        → Memᴰ o (terminal_outputs completed pre used steps)
        → TerminalIn steps o
    unfolding terminal_outputs
    terminal_outputs_sound [] o m = elim m [ ]
    terminal_outputs_sound (s ∷ ss) o m =
        elim (mem-append (if member s.id used then [] else fresh_output completed pre s) _ m) [
          | inl l ↦ elim (Bool-cases (member s.id used)) [
            | inl e ↦ elim (rw e at l) [ ]
            | inr e ↦ (s, Memᴰ.head refl, e, fresh_output_sound s o (rw e at l))
          ]
          | inr r ↦ let (t, mt, u, k) = terminal_outputs_sound ss o r in (t, Memᴰ.tail mt, u, k)
        ]

    terminal_outputs-complete :
        (steps : List (PlanStep P)) (o : Text)
        → TerminalIn steps o
        → Memᴰ o (terminal_outputs completed pre used steps)
    unfolding terminal_outputs
    terminal_outputs-complete [] o (t, m, u, k) = elim m [ ]
    terminal_outputs-complete (s ∷ ss) o (t, Memᴰ.head e, u, k) =
        mem-append_left (if member s.id used then [] else fresh_output completed pre s)
          (terminal_outputs completed pre used ss) (rw (← e) (rw u (fresh_output-complete t o k)))
    terminal_outputs-complete (s ∷ ss) o (t, Memᴰ.tail m, u, k) =
        mem-append_right _ _ (terminal_outputs-complete ss o (t, m, u, k))

module _ {P : Type 0} where
  -- No step of the list depends on the step of this id.
  abbrev pub Unused : List (PlanStep P) → Text → Type 0
  Unused steps k = (t : PlanStep P) → Memᴰ t steps → ¬ Memᴰ k t.depends_on

  depended_upon-mem :
      (steps : List (PlanStep P)) (k : Text)
      → Memᴰ k (depended_upon steps)
      → (t : PlanStep P) × Memᴰ t steps × Memᴰ k t.depends_on
  unfolding depended_upon
  depended_upon-mem [] k m = elim m [ ]
  depended_upon-mem (s ∷ ss) k m = elim (mem-append s.depends_on (depended_upon ss) m) [
    | inl l ↦ (s, Memᴰ.head refl, l)
    | inr r ↦ let (t, mt, d) = depended_upon-mem ss k r in (t, Memᴰ.tail mt, d)
  ]

  mem-depended_upon :
      (steps : List (PlanStep P)) (k : Text) (t : PlanStep P)
      → Memᴰ t steps
      → Memᴰ k t.depends_on
      → Memᴰ k (depended_upon steps)
  unfolding depended_upon
  mem-depended_upon [] k t m d = elim m [ ]
  mem-depended_upon (s ∷ ss) k t (Memᴰ.head e) d =
      mem-append_left s.depends_on (depended_upon ss)
        (subst (λ (u : PlanStep P). Memᴰ k u.depends_on) e d)
  mem-depended_upon (s ∷ ss) k t (Memᴰ.tail m) d =
      mem-append_right s.depends_on (depended_upon ss) (mem-depended_upon ss k t m d)

  depended_upon-Unused :
      (steps : List (PlanStep P)) (k : Text)
      → (member k (depended_upon steps) ≡ false) ↔ Unused steps k
  depended_upon-Unused steps k = (
    λ h t m d. absurd (
        false≢true
          (sym h ∙ (member_iff k (depended_upon steps)).1 (mem-depended_upon steps k t m d))),
    λ h. elim (Bool-cases (member k (depended_upon steps))) [
      | inl y ↦
          let (t, m, d) = depended_upon-mem steps k ((member_iff k (depended_upon steps)).0 y) in
          absurd (h t m d)
      | inr n ↦ n
    ],
  )

  -- A step that no step of the plan depends on contributes an output.
  abbrev pub Terminal : Map CompletedStep → Keys → Plan P → Text → Type 0
  Terminal completed pre plan o =
      (s : PlanStep P) × Memᴰ s plan.steps × Unused plan.steps s.id × Contributes completed pre s o

  TerminalIn-Terminal :
      (completed : Map CompletedStep) (pre : Keys) (plan : Plan P) (o : Text)
      → TerminalIn completed pre (depended_upon plan.steps) plan.steps o
        ↔ Terminal completed pre plan o
  TerminalIn-Terminal completed pre plan o = (
    λ k. (k.0, k.1, (depended_upon-Unused plan.steps k.0.id).0 k.2, k.3),
    λ k. (k.0, k.1, (depended_upon-Unused plan.steps k.0.id).1 k.2, k.3),
  )

empty-cases :
    (xs : List Text)
    → ((is_empty xs ≡ true) × ((o : Text) → ¬ Memᴰ o xs))
      ⊎ ((is_empty xs ≡ false) × ((o : Text) × Memᴰ o xs))
empty-cases [] = inl (refl, λ o m. elim m [ ])
empty-cases (x ∷ xs) = inr (refl, (x, Memᴰ.head refl))

-- An output is joined exactly when a terminal step (one that no step of the plan depends on)
-- contributes it, or when no terminal step contributes anything and some step of the plan
-- contributes it. A step contributes its output when it was not completed before and has completed
-- without an error.
pub outputs_iff :
    {P : Type 0} (completed : Map CompletedStep) (plan : Plan P) (pre : Keys) (o : Text)
    → Memᴰ o (outputs completed plan pre) ↔ (
        Terminal completed pre plan o
        ⊎ (((t : Text) → ¬ Terminal completed pre plan t)
            × ContributesIn completed pre plan.steps o))
unfolding outputs
outputs_iff completed plan pre o =
    let used = depended_upon plan.steps in
    let first = terminal_outputs completed pre used plan.steps in
    let found = λ (t : Text) (k : Terminal completed pre plan t).
      terminal_outputs-complete completed pre used plan.steps t
        ((TerminalIn-Terminal completed pre plan t).1 k) in
    let terminal = λ (t : Text) (m : Memᴰ t first).
      (TerminalIn-Terminal completed pre plan t).0
        (terminal_outputs_sound completed pre used plan.steps t m) in
    elim (empty-cases first) [
      | inl (e, nothing) ↦ (
        λ m. inr (
          λ t k. nothing t (found t k),
          all_outputs_sound completed pre plan.steps o (rw e at m),
        ),
        λ k. elim k [
          | inl t ↦ absurd (nothing o (found o t))
          | inr (_, c) ↦ rw e (all_outputs-complete completed pre plan.steps o c)
        ],
      )
      | inr (e, (t, mt)) ↦ (
        λ m. inl (terminal o (rw e at m)),
        λ k. elim k [ inl x ↦ rw e (found o x) | inr (n, _) ↦ absurd (n t (terminal t mt)) ],
      )
    ]
