-- ===== src/Memory/Window/Responses.antt =====
-- memory/context.go: the outputs of one response in a prompt.
use sp4rk.Base.{List, [], ◌∷◌, ◌++◌, ℕ, suc, ◌<◌, is_empty, if◌then◌else◌, length, ◌≡◌, Memᴰ, ◌⊎◌}
use sp4rk.Agent.Step.{Step}
use sp4rk.Memory.Window.{ContextWindow}

-- The number of steps that called a tool.
abbrev pub results_in : List Step → ℕ
results_in [] = 0
results_in (s ∷ ss) = if is_empty s.action.id then results_in ss else suc (results_in ss)

-- The step stands at the index `j` of a list that is numbered from `i` on, with `after` behind it.
pub data Stands (s : Step) (j : ℕ) (after : List Step) : ℕ → List Step → Type 0 where
  head : Stands s j after j (s ∷ after)
  tail :
      {i : ℕ} {t : Step} {ss : List Step}
      → Stands s j after (suc i) ss
      → Stands s j after i (t ∷ ss)

-- The indices of the tool results, parted at one of them.
record Parted (j : ℕ) (after : List Step) (is : List ℕ) : Type 0 where
  front : List ℕ
  back : List ℕ
  parts : is ≡ front ++ (j ∷ back)
  count : length back ≡ results_in after

module _ {F : Type 0} (w : ContextWindow F) where
  -- The output of the step is one of the last ones, or of a tool that is protected.
  abbrev pub IsSpared : Step → List Step → Type 0
  IsSpared s after =
      (results_in after < w.pruning.keep_last_n) ⊎ Memᴰ s.action.name w.pruning.protected_tools
