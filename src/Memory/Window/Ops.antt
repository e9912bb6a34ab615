-- ===== src/Memory/Window/Ops.antt =====
-- memory/context.go: the operations that change the steps of a window, its setters, and Compact with
-- wrapUntrustedInFrozenPrefix.
use sp4rk.Base.{
  Text, List, [], ◌∷◌, ◌++◌, ℕ, ◌+◌, Bool, true, false, ◌&&◌, ◌||◌, not, Option, none, some,
  is_empty, ◌==◌, if◌then◌else◌, length, map, pos, negsuc,
}
use sp4rk.Base.Map.{Map, lookup, insert}
use sp4rk.Llm.Message.{ContentBlock, Message, Role, system, user, assistant, tool}
use sp4rk.Llm.Tracker.{add_delta, correct, reset, estimate_messages}
use sp4rk.Agent.Step.{Step}
use sp4rk.Memory.Steps.{plain_message}
use sp4rk.Security.Wrap.{wrap_untrusted_content}
use sp4rk.Memory.Window.{
  Floats, ContextWindow, HistoryMutation, Strategy, effective_max, check_fill,
}

-- The text of a step that the tracker counts.
unfoldable pub step_text : Step → Text
step_text s = s.thought ++ (32 ∷ (s.action.name ++ (32 ∷ (s.action.input ++ (32 ∷ s.observation)))))

-- The ids of the calls that gave untrusted output, with the names of their tools. A later step
-- replaces an earlier one.
unfoldable pub untrusted_calls : Map Text → List Step → Map Text
unfolding insert
untrusted_calls found [] = found
untrusted_calls found (s ∷ ss) =
    if s.is_untrusted && not (is_empty s.action.id)
    then untrusted_calls (insert s.action.id s.action.name found) ss
    else untrusted_calls found ss

abbrev pub is_tool_role : Role → Bool
is_tool_role tool = true
is_tool_role system = false
is_tool_role user = false
is_tool_role assistant = false

unfoldable pub wrap_message : Map Text → Message → Message
unfolding lookup
wrap_message untrusted m =
    if is_tool_role m.role && not (is_empty m.tool_call_id)
    then elim (lookup m.tool_call_id untrusted) [
      | none ↦ m
      | some source ↦ record m { content = wrap_untrusted_content m.content source [] }
    ]
    else m

pub record CompactionResult (F : Type 0) : Type 0 where
  pub before_percent : F
  pub after_percent : F

module _ {F : Type 0} where
  unfoldable pub set_history_mutation : HistoryMutation → ContextWindow F → ContextWindow F
  set_history_mutation mutation w = record w { mutation = mutation }

  unfoldable pub correct_token_count : ℕ → ContextWindow F → ContextWindow F
  unfolding correct
  correct_token_count api_input_tokens w = record w { tracker = correct api_input_tokens w.tracker }

  unfoldable pub set_task : Text → ContextWindow F → ContextWindow F
  set_task task w = record w { task_content = task; task_content_blocks = [] }

  unfoldable pub set_task_with_blocks : Text → List ContentBlock → ContextWindow F → ContextWindow F
  set_task_with_blocks task blocks w = record w {
    task_content = task;
    task_content_blocks = blocks;
  }

  unfoldable pub set_plan : Text → ContextWindow F → ContextWindow F
  set_plan plan_text w = record w { plan_content = plan_text }

  unfoldable pub set_prior_conversation : List Message → ContextWindow F → ContextWindow F
  set_prior_conversation msgs w = record w { prior_conversation = msgs }

  unfoldable pub set_pending_user_interjection : Text → ContextWindow F → ContextWindow F
  set_pending_user_interjection msg w = record w { pending_user_interjection = msg }

  unfoldable pub consume_pending_user_interjection : ContextWindow F → ContextWindow F
  consume_pending_user_interjection w = record w { pending_user_interjection = [] }

  unfoldable pub set_strategy : Option Strategy → ContextWindow F → ContextWindow F
  set_strategy strategy w = record w { strategy = strategy }

  unfoldable pub add_step : Step → ContextWindow F → ContextWindow F
  unfolding add_delta step_text
  add_step s w = record w {
    steps = w.steps ++ (s ∷ []);
    tracker = add_delta (step_text s) w.tracker;
  }

  unfoldable pub add_deltas : List Step → ContextWindow F → ContextWindow F
  unfolding add_delta step_text
  add_deltas [] w = w
  add_deltas (s ∷ ss) w = add_deltas ss (record w { tracker = add_delta (step_text s) w.tracker })

  unfoldable pub seed_steps : List Step → ContextWindow F → ContextWindow F
  unfolding reset add_deltas
  seed_steps steps w = add_deltas steps (record w {
    steps = steps;
    compacted_messages = none;
    compacted_through_index = 0;
    tracker = reset w.tracker;
  })

  unfoldable pub wrap_untrusted_in_frozen_prefix : ContextWindow F → ContextWindow F
  unfolding untrusted_calls wrap_message
  wrap_untrusted_in_frozen_prefix w =
      let untrusted = untrusted_calls [] w.steps in
      if not w.injection_defense_enabled || is_empty untrusted
      then w
      else elim w.compacted_messages [
        | none ↦ w
        | some prefix ↦ record w { compacted_messages = some (map (wrap_message untrusted) prefix) }
      ]

  abbrev pub frozen_messages : ContextWindow F → List Message
  frozen_messages w = elim w.compacted_messages [ none ↦ [] | some prefix ↦ prefix ]

  -- The estimate of the prompt after a compaction.
  unfoldable pub estimated_total : ContextWindow F → ℕ
  unfolding estimate_messages
  estimated_total w =
      let base =
        estimate_messages
          (plain_message system w.system_prompt
            ∷ record (plain_message user w.task_content) { content_blocks = w.task_content_blocks }
            ∷ [])
          w.tracker in
      let plan =
        if is_empty w.plan_content
        then 0
        else estimate_messages (plain_message system w.plan_content ∷ []) w.tracker in
      let prior =
        if is_empty w.prior_conversation
        then 0
        else estimate_messages w.prior_conversation w.tracker in
      base + plan + prior + estimate_messages (frozen_messages w) w.tracker

  unfoldable pub after_percent_of : Floats F → ContextWindow F → ℕ → F
  unfolding effective_max
  after_percent_of floats w total = elim (effective_max w) [
    | negsuc _ ↦ floats.float 0
    | pos max ↦ if max == 0 then floats.float 0 else floats.percent_of total max
  ]

  -- The window with the strategy's messages as its prefix.
  abbrev pub with_prefix : Strategy → ContextWindow F → ContextWindow F
  with_prefix strategy w = record w {
    compacted_messages = strategy w.steps (effective_max w);
    compacted_through_index = length w.steps;
  }

  unfoldable pub freeze : Strategy → ContextWindow F → ContextWindow F
  unfolding effective_max wrap_untrusted_in_frozen_prefix
  freeze strategy w = wrap_untrusted_in_frozen_prefix (with_prefix strategy w)

  -- Compact with a strategy.
  unfoldable pub compact_with :
      Floats F → Strategy → ContextWindow F → ContextWindow F × Option (CompactionResult F)
  unfolding freeze check_fill estimated_total after_percent_of correct
  compact_with floats strategy w =
      let frozen = freeze strategy w in
      let total = estimated_total frozen in
      if is_empty w.steps then (w, none) else (
        record frozen { tracker = correct total frozen.tracker },
        some (record {
          before_percent = (check_fill floats w).percent;
          after_percent = after_percent_of floats frozen total;
        }),
      )

  unfoldable pub compact :
      Floats F → ContextWindow F → ContextWindow F × Option (CompactionResult F)
  unfolding compact_with
  compact floats w = elim w.strategy [
    | none ↦ (w, none)
    | some strategy ↦ compact_with floats strategy w
  ]
