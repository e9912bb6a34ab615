-- ===== src/Memory/Steps.antt =====
-- memory/steps.go: stepsToMessages, which renders steps as the messages of a prompt. Its loop runs on
-- fuel.
pub mod Paired
pub mod Results
pub mod Trace
use sp4rk.Base.{
  Text, List, [], ◌∷◌, ◌++◌, ℕ, zero, suc, Bool, true, false, ◌&&◌, ◌||◌, not, is_empty, codes, ltb,
  ◌==◌, if◌then◌else◌, length,
}
use sp4rk.Strutil.{trim_right}
use sp4rk.Strutil.{trim_right}
use sp4rk.Llm.Message.{Role, system, user, assistant, tool, ToolCall, ReasoningItem, Message}
use sp4rk.Agent.Step.{Step}

-- llm.Message{Role: ..., Content: ...}
abbrev pub plain_message : Role → Text → Message
plain_message role content = record {
  role = role;
  content = content;
  content_blocks = [];
  reasoning_content = [];
  tool_calls = [];
  tool_call_id = [];
  reasoning_items = [];
}

unfoldable pub assistant_msg_from_step : Text → Text → List ReasoningItem → List ToolCall → Message
assistant_msg_from_step thought reasoning_content reasoning_items tool_calls =
    let content = trim_right thought in
    record (plain_message assistant
      (if is_empty content && is_empty tool_calls then codes "(proceeding)" else content)) {
        reasoning_content = reasoning_content;
        reasoning_items = reasoning_items;
        tool_calls = tool_calls;
      }

unfoldable pub is_nudge_only_step : Text → Text → List ReasoningItem → List ToolCall → Text → Bool
is_nudge_only_step thought reasoning_content reasoning_items tool_calls nudge =
    is_empty (trim_right thought)
    && (is_empty reasoning_content
        && (is_empty reasoning_items && (is_empty tool_calls && not (is_empty nudge))))

-- The actions that are tool calls: those with an id.
unfoldable pub tool_calls_of : List Step → List ToolCall
tool_calls_of [] = []
tool_calls_of (s ∷ ss) =
    let rest = tool_calls_of ss in if is_empty s.action.id then rest else s.action ∷ rest

unfoldable pub shown_observation : Step → Text
shown_observation s =
    let observation = trim_right s.observation in
    if is_empty observation then codes "(no output)" else observation

unfoldable pub tool_results : List Step → List Message
unfolding shown_observation
tool_results [] = []
tool_results (s ∷ ss) =
    let rest = tool_results ss in
    if is_empty s.action.id
    then rest
    else record (plain_message tool (shown_observation s)) { tool_call_id = s.action.id } ∷ rest

abbrev pub nudge_message : Text → List Message
nudge_message nudge = if is_empty nudge then [] else plain_message user nudge ∷ []

abbrev pub last_step : Step → List Step → Step
last_step s [] = s
last_step s (t ∷ ts) = last_step t ts

-- The messages of the steps `s ∷ ss` of one response.
unfoldable pub render_group : Step → List Step → List Message
unfolding assistant_msg_from_step is_nudge_only_step tool_calls_of tool_results
render_group s ss =
    let calls = tool_calls_of (s ∷ ss) in
    let nudge = trim_right (last_step s ss).user_nudge in
    (if is_nudge_only_step s.thought s.reasoning_content s.reasoning_items calls nudge
      then []
      else assistant_msg_from_step s.thought s.reasoning_content s.reasoning_items calls ∷ [])
    ++ (tool_results (s ∷ ss) ++ nudge_message nudge)

unfoldable pub render_standalone : Step → List Message
unfolding assistant_msg_from_step is_nudge_only_step shown_observation
render_standalone s =
    let calls = if is_empty s.action.id then [] else s.action ∷ [] in
    let nudge = trim_right s.user_nudge in
    (if is_nudge_only_step s.thought s.reasoning_content s.reasoning_items calls nudge
      then []
      else assistant_msg_from_step s.thought s.reasoning_content s.reasoning_items calls ∷ [])
    ++ ((if is_empty s.action.id
          then []
          else record (plain_message tool (shown_observation s)) { tool_call_id = s.action.id }
            ∷ [])
        ++ nudge_message nudge)

-- The steps in front that belong to the response `g`, and what comes after them.
unfoldable pub group_of : ℕ → List Step → List Step
group_of g [] = []
group_of g (s ∷ ss) = let rest = group_of g ss in if s.response_group == g then s ∷ rest else []

unfoldable pub after_group : ℕ → List Step → List Step
after_group g [] = []
after_group g (s ∷ ss) =
    let rest = after_group g ss in if s.response_group == g then rest else s ∷ ss

unfoldable pub render_from : ℕ → List Step → List Message
unfolding render_group render_standalone group_of after_group
render_from zero steps = []
render_from (suc fuel) [] = []
render_from (suc fuel) (s ∷ ss) = elim (ltb 0 s.response_group) [
  | true ↦
      render_group s (group_of s.response_group ss)
      ++ render_from fuel (after_group s.response_group ss)
  | false ↦ render_standalone s ++ render_from fuel ss
]

unfoldable pub steps_to_messages : List Step → List Message
unfolding render_from
steps_to_messages steps = render_from (length steps) steps
