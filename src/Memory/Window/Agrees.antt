-- ===== src/Memory/Window/Agrees.antt =====
-- memory/context.go and memory/steps.go: the two renderings of a trajectory beside each other.
use sp4rk.Base.{
  Text, List, [], ◌∷◌, ◌++◌, ℕ, zero, suc, ◌+◌, Bool, true, false, ◌&&◌, ◌||◌, not, none, is_empty,
  ltb, if◌then◌else◌, length, ◌≡◌, refl, arith, inl, inr, Bool-cases,
}
use sp4rk.Strutil.{trim_right, has_visible_content}
use sp4rk.Llm.Message.{tool, ToolCall, Message}
use sp4rk.Agent.Step.{Step}
use sp4rk.Memory.Steps.{
  plain_message, assistant_msg_from_step, is_nudge_only_step, shown_observation, tool_calls_of,
  tool_results, nudge_message, last_step, render_group, render_standalone, group_of, after_group,
  render_from, steps_to_messages,
}
use sp4rk.Memory.Window.{Floats, ContextWindow}
use sp4rk.Memory.Window.Render.{
  build_nudge_msg, appended, build_assistant_msg, apply_history_mutation, kept_observation,
  build_tool_msg, build_tool_msgs, build_grouped_messages, build_standalone_messages, build_from,
  build_step_messages,
}

append-equal : {xs ys us vs : List Message} → xs ≡ ys → us ≡ vs → xs ++ us ≡ ys ++ vs
append-equal p q = rw (p, q) refl

appended-build_nudge_msg :
    (nudge : Text) → appended (build_nudge_msg nudge) ≡ nudge_message (trim_right nudge)
unfolding build_nudge_msg has_visible_content
appended-build_nudge_msg nudge = ground arith

build_assistant_msg-assistant_msg_from_step :
    (s : Step) (calls : List ToolCall)
    → build_assistant_msg s.thought s.reasoning_content s.reasoning_items calls
      ≡ assistant_msg_from_step s.thought s.reasoning_content s.reasoning_items calls
unfolding build_assistant_msg assistant_msg_from_step
build_assistant_msg-assistant_msg_from_step s calls = refl

-- A response whose first step is a tool call is not silent.
is_nudge_only_step-acts :
    (s : Step) (ss : List Step) (nudge : Text)
    → is_empty s.action.id ≡ false
    → is_nudge_only_step s.thought s.reasoning_content s.reasoning_items
        (tool_calls_of (s ∷ ss))
        nudge
      ≡ false
unfolding is_nudge_only_step tool_calls_of
is_nudge_only_step-acts s ss nudge h = rw h (ground arith)

-- The settings of a window leave observations as they are.
pub record IsPlain {F : Type 0} (w : ContextWindow F) : Type 0 where
  pub no_pruning : w.pruning.keep_last_n ≡ 0
  pub no_eviction : w.mutation.tool_result_eviction_step ≡ 0
  pub no_status_eviction : w.mutation.evict_step_status ≡ false
  pub no_dedup : w.mutation.dedup_repeated_reads ≡ false
  pub no_fence : w.injection_defense_enabled ≡ false

-- Every step of a response is a tool call.
unfoldable pub grouped_steps_act : List Step → Bool
grouped_steps_act [] = true
grouped_steps_act (s ∷ ss) =
    (not (ltb 0 s.response_group) || not (is_empty s.action.id)) && grouped_steps_act ss

module _ {F : Type 0} (quote : Text → Text) (w : ContextWindow F) (plain : IsPlain w) where
  apply_history_mutation-plain :
      (s : Step) (idx : ℕ) (observation : Text)
      → apply_history_mutation quote w s idx observation ≡ observation
  unfolding apply_history_mutation
  apply_history_mutation-plain s idx observation =
      rw (plain.no_status_eviction, plain.no_eviction, plain.no_dedup) (ground arith)

  kept_observation-plain :
      (s : Step) (idx : ℕ) (protected : List ℕ)
      → kept_observation quote w s idx protected ≡ shown_observation s
  unfolding kept_observation shown_observation
  kept_observation-plain s idx protected =
      rw (plain.no_pruning, apply_history_mutation-plain) (ground arith)

  build_tool_msg-plain :
      (s : Step) (idx : ℕ) (protected : List ℕ)
      → build_tool_msg quote w s idx protected
        ≡ record (plain_message tool (shown_observation s)) { tool_call_id = s.action.id }
  unfolding build_tool_msg
  build_tool_msg-plain s idx protected =
      rw (plain.no_fence, kept_observation-plain s idx protected) refl

  build_tool_msgs-plain :
      (protected : List ℕ) (idx : ℕ) (ss : List Step)
      → build_tool_msgs quote w protected idx ss ≡ tool_results ss
  unfolding build_tool_msgs tool_results
  build_tool_msgs-plain protected idx [] = refl
  build_tool_msgs-plain protected idx (s ∷ ss) =
      rw (build_tool_msgs-plain protected (suc idx) ss, build_tool_msg-plain s idx protected) refl

  -- A response whose first step is a tool call.
  build_grouped_messages-plain :
      (protected : List ℕ) (idx : ℕ) (s : Step) (ss : List Step)
      → is_empty s.action.id ≡ false
      → build_grouped_messages quote w protected idx s ss ≡ render_group s ss
  unfolding build_grouped_messages render_group
  build_grouped_messages-plain protected idx s ss h =
      let calls = tool_calls_of (s ∷ ss) in
      rw
        (
          build_tool_msgs-plain protected idx (s ∷ ss),
          appended-build_nudge_msg (last_step s ss).user_nudge,
          build_assistant_msg-assistant_msg_from_step s calls,
          is_nudge_only_step-acts s ss (trim_right (last_step s ss).user_nudge) h,
        )
        refl

  build_standalone_messages-plain :
      (protected : List ℕ) (idx : ℕ) (s : Step)
      → build_standalone_messages quote w protected idx s ≡ render_standalone s
  unfolding build_standalone_messages render_standalone
  build_standalone_messages-plain protected idx s =
      let calls = if is_empty s.action.id then [] else s.action ∷ [] in
      rw
        (
          build_tool_msg-plain s idx protected,
          appended-build_nudge_msg s.user_nudge,
          build_assistant_msg-assistant_msg_from_step s calls,
        )
        refl

  after_group-acts :
      (g : ℕ) (ss : List Step)
      → grouped_steps_act ss ≡ true
      → grouped_steps_act (after_group g ss) ≡ true
  unfolding grouped_steps_act after_group
  after_group-acts g [] h = refl
  after_group-acts g (s ∷ ss) h = ground (arith, after_group-acts g ss)

  build_from-plain :
      (protected : List ℕ) (fuel idx : ℕ) (ss : List Step)
      → grouped_steps_act ss ≡ true
      → build_from quote w protected fuel idx ss ≡ render_from fuel ss
  unfolding build_from render_from grouped_steps_act
  build_from-plain protected zero idx ss h = refl
  build_from-plain protected (suc fuel) idx [] h = refl
  build_from-plain protected (suc fuel) idx (s ∷ ss) h =
      elim (Bool-cases (ltb 0 s.response_group)) [
        | inl g ↦
            let group = group_of s.response_group ss in
            let rest = after_group s.response_group ss in
            rw (g, build_from, render_from)
              (append-equal (build_grouped_messages-plain protected idx s group (ground arith)) (
                build_from-plain protected fuel (suc (idx + length group)) rest
                  (after_group-acts s.response_group ss (ground arith))))
        | inr g ↦
            rw (g, build_from, render_from)
              (append-equal (build_standalone_messages-plain protected idx s)
                (build_from-plain protected fuel (suc idx) ss (ground arith)))
      ]

  -- Where a window leaves observations as they are, has no frozen prefix, and every step of a
  -- response is a tool call, the messages of its steps are those that the compaction strategies
  -- render.
  pub build_step_messages-steps_to_messages :
      (floats : Floats F)
      → w.compacted_messages ≡ none
      → grouped_steps_act w.steps ≡ true
      → build_step_messages quote floats w ≡ steps_to_messages w.steps
  unfolding build_step_messages steps_to_messages
  build_step_messages-steps_to_messages floats n h =
      rw (n, build_step_messages) (build_from-plain _ (length w.steps) 0 w.steps h)
