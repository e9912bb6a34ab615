-- ===== src/Memory/Window/Protect.antt =====
-- memory/context.go: which tool outputs are kept, computeProtectedIndices, and which the next
-- pruning takes, VulnerableOutputs. The map of indices is the list of its keys. The hint that is
-- read from the JSON of a call's input is a parameter.
use sp4rk.Base.{
  Text, List, [], ◌∷◌, ◌++◌, ℕ, suc, ◌-◌, Bool, false, ◌&&◌, ◌||◌, not, is_empty, ltb, ◌==◌,
  if◌then◌else◌, length, drop,
}
use sp4rk.Base.Map.{member}
use sp4rk.Agent.Step.{Step}
use sp4rk.Memory.Window.{Floats, ContextWindow, fill_percent}

-- _, ok := set[i]
unfoldable pub contains_index : ℕ → List ℕ → Bool
contains_index i [] = false
contains_index i (j ∷ js) = j == i || contains_index i js

-- The indices, from `i` on, of the steps that pass the test.
unfoldable pub indices_where : (Step → Bool) → ℕ → List Step → List ℕ
indices_where test i [] = []
indices_where test i (s ∷ ss) =
    let rest = indices_where test (suc i) ss in if test s then i ∷ rest else rest

abbrev pub has_tool_result : Step → Bool
has_tool_result s = not (is_empty s.action.id)

abbrev pub is_protected_step : List Text → Step → Bool
is_protected_step tools s = has_tool_result s && member s.action.name tools

-- The response groups of the steps, from index `i` on, that are protected (groupProtection).
unfoldable pub protected_groups : List ℕ → ℕ → List Step → List ℕ
unfolding contains_index
protected_groups protected i [] = []
protected_groups protected i (s ∷ ss) =
    let rest = protected_groups protected (suc i) ss in
    if ltb 0 s.response_group && contains_index i protected then s.response_group ∷ rest else rest

abbrev pub in_groups : List ℕ → Step → Bool
in_groups groups s = ltb 0 s.response_group && contains_index s.response_group groups

abbrev pub with_groups : List ℕ → List Step → List ℕ
with_groups protected steps =
    indices_where (in_groups (protected_groups protected 0 steps)) 0 steps ++ protected

pub record VulnerableOutput : Type 0 where
  pub tool_name : Text
  pub input_hint : Text

unfoldable pub unprotected : (Text → Text) → List ℕ → ℕ → List Step → List VulnerableOutput
unfolding contains_index
unprotected hint protected i [] = []
unprotected hint protected i (s ∷ ss) =
    let rest = unprotected hint protected (suc i) ss in
    if is_empty s.action.id
    then rest
    else if contains_index i protected
    then rest
    else record { tool_name = s.action.name; input_hint = hint s.action.input } ∷ rest

-- The last tool results, and those of the protected tools.
unfoldable pub kept_indices : {F : Type 0} → ContextWindow F → List ℕ
unfolding indices_where
kept_indices w =
    let results = indices_where has_tool_result 0 w.steps in
    indices_where (is_protected_step w.pruning.protected_tools) 0 w.steps
    ++ drop (length results - w.pruning.keep_last_n) results

module _ {F : Type 0} (floats : Floats F) where
  -- ThresholdPercent > 0 && FillPercent() < ThresholdPercent
  unfoldable pub below_threshold : ContextWindow F → Bool
  unfolding fill_percent
  below_threshold w =
      not (floats.at_least (floats.float 0) w.pruning.threshold_percent)
      && not (floats.at_least (fill_percent floats w) w.pruning.threshold_percent)

  unfoldable pub compute_protected_indices : ContextWindow F → List ℕ
  unfolding below_threshold kept_indices indices_where protected_groups contains_index
  compute_protected_indices w =
      if w.pruning.keep_last_n == 0
      then []
      else if below_threshold w
      then indices_where has_tool_result 0 w.steps
      else with_groups (kept_indices w) w.steps

  unfoldable pub vulnerable_outputs : (Text → Text) → ContextWindow F → List VulnerableOutput
  unfolding below_threshold compute_protected_indices unprotected
  vulnerable_outputs hint w =
      if w.pruning.keep_last_n == 0 || is_empty w.steps
      then []
      else if below_threshold w
      then []
      else unprotected hint (compute_protected_indices w) 0 w.steps
