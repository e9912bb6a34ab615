-- ===== src/Memory/Window/Runs.antt =====
-- memory/context.go: sequences of operations on a window, and the prompts after them.
use sp4rk.Base.{
  Text, List, [], ◌∷◌, ℕ, ◌||◌, not, Option, none, some, is_empty, map, ℤ, pos, negsuc, ◌≡◌, refl,
  sym, ◌∙◌, subst, arith, inl, inr, Bool-cases, Option-cases, All,
}
use sp4rk.Base.Map.{Map}
use sp4rk.Llm.Message.{Message, ContentBlock}
use sp4rk.Agent.Step.{Step}
use sp4rk.Memory.Steps.Paired.{IsPaired, done, SameShape, map-IsPaired}
use sp4rk.Memory.Window.{
  Floats, ContextWindow, ContextWindowConfig, HistoryMutation, Strategy, new_context_window,
  set_tool_overhead, effective_max,
}
use sp4rk.Memory.Window.Render.{build_prompt}
use sp4rk.Memory.Window.Ops.{
  set_history_mutation, correct_token_count, set_task, set_task_with_blocks, set_plan,
  set_prior_conversation, set_pending_user_interjection, consume_pending_user_interjection,
  set_strategy, add_step, add_deltas, seed_steps, wrap_message, untrusted_calls,
  wrap_untrusted_in_frozen_prefix, freeze, with_prefix, compact,
}
use sp4rk.Memory.Window.Paired.{Keeps, build_prompt-IsPaired}

-- The calls of a window's methods that change it.
pub data Op : Type 0 where
  add : Step → Op
  seed : List Step → Op
  task : Text → Op
  task_with_blocks : Text → List ContentBlock → Op
  plan : Text → Op
  prior : List Message → Op
  interject : Text → Op
  consume : Op
  strategy : Option Strategy → Op
  mutate : HistoryMutation → Op
  overhead : ℤ → Op
  counted : ℕ → Op
  compaction : Op

-- What a compaction returns is paired.
abbrev pub StrategyPairs : Option Strategy → Type 0
StrategyPairs none = Unit
StrategyPairs (some st) =
    (ss : List Step) (budget : ℤ) (ms : List Message) → st ss budget ≡ some ms → IsPaired ms

-- The messages that a caller hands over, and those of the strategies it sets, are paired.
abbrev pub OpPairs : Op → Type 0
OpPairs (prior ms) = IsPaired ms
OpPairs (strategy st) = StrategyPairs st
OpPairs _ = Unit

wrap_message-SameShape : (untrusted : Map Text) → SameShape (wrap_message untrusted)
unfolding wrap_message
wrap_message-SameShape untrusted = record {
  roles = λ m. ground arith;
  calls = λ m. ground arith;
  call_ids = λ m. ground arith;
}

module _ {F : Type 0} (floats : Floats F) where
  unfoldable pub apply : Op → ContextWindow F → ContextWindow F
  unfolding add_step seed_steps compact
  apply (add s) w = add_step s w
  apply (seed ss) w = seed_steps ss w
  apply (task t) w = set_task t w
  apply (task_with_blocks t bs) w = set_task_with_blocks t bs w
  apply (plan t) w = set_plan t w
  apply (prior ms) w = set_prior_conversation ms w
  apply (interject t) w = set_pending_user_interjection t w
  apply consume w = consume_pending_user_interjection w
  apply (strategy st) w = set_strategy st w
  apply (mutate m) w = set_history_mutation m w
  apply (overhead t) w = set_tool_overhead t w
  apply (counted n) w = correct_token_count n w
  apply compaction w = (compact floats w).0

  unfoldable pub run : List Op → ContextWindow F → ContextWindow F
  unfolding apply
  run [] w = w
  run (op ∷ ops) w = run ops (apply op w)

strategies-Pairs :
    (o : Option Strategy)
    → StrategyPairs o
    → (st : Strategy) (ss : List Step) (budget : ℤ) (ms : List Message) → o ≡ some st
    → st ss budget ≡ some ms
    → IsPaired ms
strategies-Pairs none p st ss budget ms e h = absurd cc
strategies-Pairs (some own) p st ss budget ms e h =
    let same : own ≡ st = cc in p ss budget ms (rw same h)

-- The three fields that Keeps reads are the same.
module _ {F : Type 0} where
  Keeps-same :
      {w v : ContextWindow F}
      → v.prior_conversation ≡ w.prior_conversation
      → v.compacted_messages ≡ w.compacted_messages
      → v.strategy ≡ w.strategy
      → Keeps w
      → Keeps v
  Keeps-same p c s k = record {
    prior = subst IsPaired (sym p) k.prior;
    frozen = λ ms e. k.frozen ms (sym c ∙ e);
    strategies = λ st ss b ms e. k.strategies st ss b ms (sym s ∙ e);
  }

  add_deltas-Keeps : (ss : List Step) (w : ContextWindow F) → Keeps w → Keeps (add_deltas ss w)
  unfolding add_deltas
  add_deltas-Keeps [] w k = k
  add_deltas-Keeps (s ∷ ss) w k = add_deltas-Keeps ss _ (Keeps-same refl refl refl k)

  seed_steps-Keeps : (ss : List Step) (w : ContextWindow F) → Keeps w → Keeps (seed_steps ss w)
  unfolding seed_steps
  seed_steps-Keeps ss w k =
      add_deltas-Keeps ss _
        (record { prior = k.prior; frozen = λ ms e. cc; strategies = k.strategies })

  wrap-Keeps : (w : ContextWindow F) → Keeps w → Keeps (wrap_untrusted_in_frozen_prefix w)
  unfolding wrap_untrusted_in_frozen_prefix
  wrap-Keeps w k =
      let untrusted = untrusted_calls [] w.steps in
      elim (Bool-cases (not w.injection_defense_enabled || is_empty untrusted)) [
        | inl e ↦ rw (e, wrap_untrusted_in_frozen_prefix) k
        | inr n ↦ elim (Option-cases w.compacted_messages) [
          | inl z ↦ rw (n, z, wrap_untrusted_in_frozen_prefix) k
          | inr (prefix, e) ↦
              rw (n, e, wrap_untrusted_in_frozen_prefix)
                (record {
                  prior = k.prior;
                  frozen = λ ms h.
                      let same : map (wrap_message untrusted) prefix ≡ ms = cc in
                      subst IsPaired same
                        (map-IsPaired (wrap_message-SameShape untrusted) (k.frozen prefix e));
                  strategies = k.strategies;
                })
        ]
      ]

  freeze-Keeps :
      (st : Strategy) (w : ContextWindow F) → w.strategy ≡ some st → Keeps w → Keeps (freeze st w)
  unfolding freeze
  freeze-Keeps st w e k = wrap-Keeps (with_prefix st w) (record {
    prior = k.prior;
    frozen = λ ms h. k.strategies st w.steps (effective_max w) ms e h;
    strategies = k.strategies;
  })

  compact-Keeps : (floats : Floats F) (w : ContextWindow F) → Keeps w → Keeps (compact floats w).0
  unfolding compact
  compact-Keeps floats w k = elim (Option-cases w.strategy) [
    | inl n ↦ rw (n, compact) k
    | inr (st, e) ↦ elim (Bool-cases (is_empty w.steps)) [
      | inl z ↦ rw (e, z, compact) k
      | inr z ↦ rw (e, z, compact) (Keeps-same refl refl refl (freeze-Keeps st w e k))
    ]
  ]

  set_tool_overhead-Keeps : (t : ℤ) (w : ContextWindow F) → Keeps w → Keeps (set_tool_overhead t w)
  unfolding set_tool_overhead
  set_tool_overhead-Keeps (pos n) w k = Keeps-same refl refl refl k
  set_tool_overhead-Keeps (negsuc n) w k = Keeps-same refl refl refl k

  -- Every operation keeps what makes a prompt paired.
  apply-Keeps :
      (floats : Floats F) (op : Op) (w : ContextWindow F)
      → OpPairs op
      → Keeps w
      → Keeps (apply floats op w)
  unfolding apply
  apply-Keeps floats (add s) w p k = unfold add_step in Keeps-same refl refl refl k
  apply-Keeps floats (seed ss) w p k = seed_steps-Keeps ss w k
  apply-Keeps floats (task t) w p k = unfold set_task in Keeps-same refl refl refl k
  apply-Keeps floats (task_with_blocks t bs) w p k =
      unfold set_task_with_blocks in Keeps-same refl refl refl k
  apply-Keeps floats (plan t) w p k = unfold set_plan in Keeps-same refl refl refl k
  apply-Keeps floats (prior ms) w p k =
      unfold set_prior_conversation in
      record { prior = p; frozen = k.frozen; strategies = k.strategies }
  apply-Keeps floats (interject t) w p k =
      unfold set_pending_user_interjection in Keeps-same refl refl refl k
  apply-Keeps floats consume w p k =
      unfold consume_pending_user_interjection in Keeps-same refl refl refl k
  apply-Keeps floats (strategy st) w p k =
      unfold set_strategy in
      record { prior = k.prior; frozen = k.frozen; strategies = strategies-Pairs st p }
  apply-Keeps floats (mutate m) w p k = unfold set_history_mutation in Keeps-same refl refl refl k
  apply-Keeps floats (overhead t) w p k = set_tool_overhead-Keeps t w k
  apply-Keeps floats (counted n) w p k = unfold correct_token_count in Keeps-same refl refl refl k
  apply-Keeps floats compaction w p k = compact-Keeps floats w k

  run-Keeps :
      (floats : Floats F) (ops : List Op) (w : ContextWindow F)
      → All OpPairs ops
      → Keeps w
      → Keeps (run floats ops w)
  unfolding run
  run-Keeps floats [] w p k = k
  run-Keeps floats (op ∷ ops) w (p, ps) k =
      run-Keeps floats ops (apply floats op w) ps (apply-Keeps floats op w p k)

  new_context_window-Keeps :
      (cfg : ContextWindowConfig F) → StrategyPairs cfg.strategy → Keeps (new_context_window cfg)
  unfolding new_context_window
  new_context_window-Keeps cfg p = record {
    prior = done;
    frozen = λ ms e. cc;
    strategies = strategies-Pairs cfg.strategy p;
  }

  -- After any sequence of operations on a new window, in which the prior conversations that are set
  -- and the messages of the compaction strategies have each tool call answered right after it, the
  -- prompt has so too: one result for each call, in their order, and no other tool message.
  pub build_prompt-run_IsPaired :
      (quote : Text → Text) (floats : Floats F) (cfg : ContextWindowConfig F) (ops : List Op)
      → StrategyPairs cfg.strategy
      → All OpPairs ops
      → IsPaired (build_prompt quote floats (run floats ops (new_context_window cfg)))
  build_prompt-run_IsPaired quote floats cfg ops s p =
      build_prompt-IsPaired quote floats _
        (run-Keeps floats ops (new_context_window cfg) p (new_context_window-Keeps cfg s))
