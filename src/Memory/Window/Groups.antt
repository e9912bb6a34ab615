-- ===== src/Memory/Window/Groups.antt =====
-- memory/context.go: the protection of the outputs of one response.
use sp4rk.Base.{
  List, [], ◌∷◌, ◌++◌, ℕ, suc, ◌≤◌, ◌<◌, Bool, true, false, ◌||◌, ltb, ◌==◌, false≢true, ◌≡◌, refl,
  ◌∙◌, arith, inl, inr, Bool-cases,
}
use sp4rk.Agent.Step.{Step}
use sp4rk.Memory.Window.{Floats, ContextWindow}
use sp4rk.Memory.Window.Protect.{
  contains_index, indices_where, has_tool_result, protected_groups, in_groups, with_groups,
  below_threshold, kept_indices, compute_protected_indices,
}

-- The step stands at the index `j` of a list that is numbered from `i` on.
pub data At (s : Step) (j : ℕ) : ℕ → List Step → Type 0 where
  here : {ss : List Step} → At s j j (s ∷ ss)
  there : {i : ℕ} {t : Step} {ss : List Step} → At s j (suc i) ss → At s j i (t ∷ ss)

pub contains_index-append :
    (j : ℕ) (xs ys : List ℕ)
    → contains_index j (xs ++ ys) ≡ (contains_index j xs || contains_index j ys)
unfolding contains_index
contains_index-append j [] ys = refl
contains_index-append j (x ∷ xs) ys = ground (arith, contains_index-append j xs ys)

At-le : {s : Step} {j i : ℕ} {ss : List Step} → At s j i ss → i ≤ j
At-le here = omega arith
At-le (there a) = omega (arith, At-le a)

-- The indices from `i` on are not below it.
indices_where-below :
    (test : Step → Bool) (i j : ℕ) (ss : List Step)
    → j < i
    → contains_index j (indices_where test i ss) ≡ false
unfolding contains_index indices_where
indices_where-below test i j [] h = refl
indices_where-below test i j (s ∷ ss) h =
    ground (arith, indices_where-below test (suc i) j ss (omega arith))

pub indices_where-At :
    (test : Step → Bool) {s : Step} {j i : ℕ} {ss : List Step}
    → At s j i ss
    → contains_index j (indices_where test i ss) ≡ test s
unfolding contains_index indices_where
indices_where-At test {s} {j} (here {ss}) =
    ground (arith, indices_where-below test (suc j) j ss (omega arith))
indices_where-At test {s} {j} (there {i} {t} {ss} a) =
    ground (arith, indices_where-At test a, At-le a)

protected_groups-At :
    (protected : List ℕ) {s : Step} {j i : ℕ} {ss : List Step}
    → At s j i ss
    → ltb 0 s.response_group ≡ true
    → contains_index j protected ≡ true
    → contains_index s.response_group (protected_groups protected i ss) ≡ true
unfolding contains_index protected_groups
protected_groups-At protected here g h = ground arith
protected_groups-At protected (there a) g h = ground (arith, protected_groups-At protected a g h)

with_groups-At :
    (kept : List ℕ) (steps : List Step) {s t : Step} {j k : ℕ}
    → At s j 0 steps
    → At t k 0 steps
    → ltb 0 s.response_group ≡ true
    → s.response_group ≡ t.response_group
    → contains_index j (with_groups kept steps) ≡ true
    → contains_index k (with_groups kept steps) ≡ true
with_groups-At kept steps {s} {t} {j} {k} a b g e h =
    let groups = protected_groups kept 0 steps in
    let from = indices_where-At (in_groups groups) a in
    let to = indices_where-At (in_groups groups) b in
    let left = contains_index-append j (indices_where (in_groups groups) 0 steps) kept in
    let right = contains_index-append k (indices_where (in_groups groups) 0 steps) kept in
    elim (Bool-cases (contains_index j kept)) [
      | inl p ↦ ground (arith, protected_groups-At kept a g p)
      | inr n ↦ ground arith
    ]

-- If the output of one step of a response is protected, then so is the output of every call of the
-- same response.
pub compute_protected_indices-group :
    {F : Type 0} (floats : Floats F) (w : ContextWindow F) {s t : Step} {j k : ℕ}
    → At s j 0 w.steps
    → At t k 0 w.steps
    → 0 < s.response_group
    → s.response_group ≡ t.response_group
    → has_tool_result t ≡ true
    → contains_index j (compute_protected_indices floats w) ≡ true
    → contains_index k (compute_protected_indices floats w) ≡ true
unfolding compute_protected_indices contains_index
compute_protected_indices-group floats w {s} {t} {j} {k} a b g e r h =
    elim (Bool-cases (w.pruning.keep_last_n == 0)) [
      | inl z ↦ absurd (false≢true (rw (z, contains_index) at h))
      | inr z ↦ elim (Bool-cases (below_threshold floats w)) [
        | inl l ↦ rw (z, l) (indices_where-At has_tool_result b ∙ r)
        | inr l ↦
            rw (z, l)
              (with_groups-At (kept_indices w) w.steps a b (ground arith) e (rw (z, l) at h))
      ]
    ]
