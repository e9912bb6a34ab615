-- ===== src/Memory/Window/Render.antt =====
-- memory/context.go: BuildPrompt and the messages of the steps. The loop over the steps runs on fuel.
-- The verb %q is a parameter.
use sp4rk.Base.{
  Text, List, [], ◌∷◌, ◌++◌, ℕ, zero, suc, ◌+◌, ◌-◌, Bool, true, false, ◌&&◌, ◌||◌, not, Option,
  none, some, is_empty, ltb, if◌then◌else◌, codes, length, take, drop, text_eq, map,
}
use sp4rk.Base.Map.{member}
use sp4rk.Strutil.{trim_right, has_visible_content}
use sp4rk.Llm.Message.{system, user, assistant, tool, ReasoningItem, ToolCall, Message}
use sp4rk.Agent.Step.{Step}
use sp4rk.Memory.Steps.{
  plain_message, is_nudge_only_step, tool_calls_of, last_step, group_of, after_group,
}
use sp4rk.Security.Wrap.{wrap_untrusted_content}
use sp4rk.Prompt.{split_cache_break}
use sp4rk.Memory.Window.{Floats, ContextWindow}
use sp4rk.Memory.Window.Protect.{contains_index, compute_protected_indices}

unfoldable pub build_nudge_msg : Text → Option Message
unfolding has_visible_content trim_right
build_nudge_msg nudge =
    if has_visible_content nudge then some (plain_message user (trim_right nudge)) else none

-- if msg, ok := ...; ok { append }
abbrev pub appended : Option Message → List Message
appended none = []
appended (some m) = m ∷ []

unfoldable pub build_assistant_msg : Text → Text → List ReasoningItem → List ToolCall → Message
unfolding trim_right
build_assistant_msg thought reasoning_content reasoning_items tool_calls =
    let content = trim_right thought in
    record (plain_message assistant
      (if is_empty content && is_empty tool_calls then codes "(proceeding)" else content)) {
        reasoning_content = reasoning_content;
        reasoning_items = reasoning_items;
        tool_calls = tool_calls;
      }

-- The cache hash of a step before `idx` is `hash`.
unfoldable pub is_earlier_duplicate_hash : List Step → ℕ → Text → Bool
is_earlier_duplicate_hash steps idx hash =
    not (is_empty hash) && member hash (map (λ (s : Step). s.cache_hash) (take idx steps))

unfoldable pub eviction_reference_text : (Text → Text) → Text → Text
eviction_reference_text quote hash =
    codes "[Result evicted to cache. Use tool_result_read(hash="
    ++ (quote hash ++ codes ", start_line=1, num_lines=N) to retrieve the full content.]")

module _ {F : Type 0} where
  -- The messages in front of the steps.
  unfoldable pub opening_messages : ContextWindow F → List Message
  opening_messages w =
      map (plain_message system) (split_cache_break w.system_prompt)
      ++ (w.prior_conversation
          ++ ((if not (is_empty w.task_content_blocks)
                then record (plain_message user w.task_content) {
                  content_blocks = w.task_content_blocks;
                }
                  ∷ []
                else if not (is_empty w.task_content)
                then plain_message user w.task_content ∷ []
                else [])
              ++ (if is_empty w.plan_content
                  then []
                  else plain_message system w.plan_content ∷ [])))

module _ {F : Type 0} (quote : Text → Text) where
  unfoldable pub apply_history_mutation : ContextWindow F → Step → ℕ → Text → Text
  unfolding eviction_reference_text is_earlier_duplicate_hash
  apply_history_mutation w s idx observation =
      let name = s.action.name in
      let has_hash = not (is_empty s.cache_hash) in
      if member name w.pruning.protected_tools
      then observation
      else if w.mutation.evict_step_status
          && (text_eq name (codes "update_checklist") || text_eq name (codes "set_step_status"))
      then codes "[checklist update — evicted]"
      else if (ltb 0 w.mutation.tool_result_eviction_step && has_hash)
          && ltb w.mutation.tool_result_eviction_step (length w.steps - idx)
      then eviction_reference_text quote s.cache_hash
      else if (w.mutation.dedup_repeated_reads && has_hash)
          && is_earlier_duplicate_hash w.steps idx s.cache_hash
      then eviction_reference_text quote s.cache_hash
      else observation

  -- The observation after the history mutation and the pruning.
  unfoldable pub kept_observation : ContextWindow F → Step → ℕ → List ℕ → Text
  unfolding trim_right contains_index apply_history_mutation
  kept_observation w s idx protected =
      let trimmed = trim_right s.observation in
      let original = if is_empty trimmed then codes "(no output)" else trimmed in
      let mutated = apply_history_mutation w s idx original in
      if contains_index idx protected
      then original
      else if ltb 0 w.pruning.keep_last_n && text_eq mutated original
      then w.pruning.placeholder_text
      else mutated

  unfoldable pub build_tool_msg : ContextWindow F → Step → ℕ → List ℕ → Message
  unfolding kept_observation
  build_tool_msg w s idx protected =
      let observation = kept_observation w s idx protected in
      record (plain_message tool (
        if w.injection_defense_enabled && s.is_untrusted
        then wrap_untrusted_content observation s.action.name []
        else observation)) { tool_call_id = s.action.id }

  -- The tool messages of steps that start at the index `idx`.
  unfoldable pub build_tool_msgs : ContextWindow F → List ℕ → ℕ → List Step → List Message
  unfolding build_tool_msg
  build_tool_msgs w protected idx [] = []
  build_tool_msgs w protected idx (s ∷ ss) =
      let rest = build_tool_msgs w protected (suc idx) ss in
      if is_empty s.action.id then rest else build_tool_msg w s idx protected ∷ rest

  -- The group that starts at the index `idx`: `s`, and `ss` after it.
  unfoldable pub build_grouped_messages :
      ContextWindow F → List ℕ → ℕ → Step → List Step → List Message
  unfolding build_assistant_msg build_tool_msgs build_nudge_msg tool_calls_of
  build_grouped_messages w protected idx s ss =
      build_assistant_msg s.thought s.reasoning_content s.reasoning_items (tool_calls_of (s ∷ ss))
      ∷ (build_tool_msgs w protected idx (s ∷ ss)
          ++ appended (build_nudge_msg (last_step s ss).user_nudge))

  unfoldable pub build_standalone_messages : ContextWindow F → List ℕ → ℕ → Step → List Message
  unfolding build_assistant_msg build_tool_msg build_nudge_msg is_nudge_only_step trim_right
  build_standalone_messages w protected idx s =
      let calls = if is_empty s.action.id then [] else s.action ∷ [] in
      (if is_nudge_only_step s.thought s.reasoning_content s.reasoning_items calls
          (trim_right s.user_nudge)
        then []
        else build_assistant_msg s.thought s.reasoning_content s.reasoning_items calls ∷ [])
      ++ ((if is_empty s.action.id then [] else build_tool_msg w s idx protected ∷ [])
          ++ appended (build_nudge_msg s.user_nudge))

  -- The loop of buildStepMessages from the index `idx` on.
  unfoldable pub build_from : ContextWindow F → List ℕ → ℕ → ℕ → List Step → List Message
  unfolding build_grouped_messages build_standalone_messages group_of after_group
  build_from w protected zero idx steps = []
  build_from w protected (suc fuel) idx [] = []
  build_from w protected (suc fuel) idx (s ∷ ss) = elim (ltb 0 s.response_group) [
    | true ↦
        build_grouped_messages w protected idx s (group_of s.response_group ss)
        ++ build_from w protected fuel (suc (idx + length (group_of s.response_group ss)))
            (after_group s.response_group ss)
    | false ↦
        build_standalone_messages w protected idx s ++ build_from w protected fuel (suc idx) ss
  ]

  unfoldable pub build_step_messages : Floats F → ContextWindow F → List Message
  unfolding build_from compute_protected_indices
  build_step_messages floats w =
      let protected = compute_protected_indices floats w in
      elim w.compacted_messages [
        | none ↦ build_from w protected (length w.steps) 0 w.steps
        | some prefix ↦
            let start = w.compacted_through_index in
            prefix ++ build_from w protected (length w.steps) start (drop start w.steps)
      ]

  unfoldable pub build_prompt : Floats F → ContextWindow F → List Message
  unfolding opening_messages build_step_messages build_nudge_msg
  build_prompt floats w =
      opening_messages w
      ++ (build_step_messages floats w ++ appended (build_nudge_msg w.pending_user_interjection))
