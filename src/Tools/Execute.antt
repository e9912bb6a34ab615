-- ===== src/Tools/Execute.antt =====
-- tools/registry.go and tools/tool_not_found.go: Execute and confirmAndExecute, with a trace of what
-- they do outside the registry, and no other operation on the registry in between. `quote` is the
-- verb %q of the package fmt; `validate` is validateToolInput of tools/inputvalidate.go, by the
-- tool's name, its schema, the input and the flag closedByDefault; it returns the error's text.
pub mod Policy
pub mod Permit
use sp4rk.Base.{
  Text, List, [], ◌∷◌, ◌++◌, Bool, true, false, ◌&&◌, not, Option, none, some, is_some, is_empty,
  codes, decimal, text_eq, if◌then◌else◌, cut_prefix,
}
use sp4rk.Base.Map.{Keys, lookup, member}
use sp4rk.Tools.Tool.{
  Tool, ToolPolicy, always_allow, always_deny, user_confirm, unlisted, ToolResult, Reply, returned,
  failed, JudgeOutcome, hard, ConfirmationRequest, ConfirmationResponse, allow_once, deny,
  deny_and_stop, unknown, Confirmation, answered, unavailable,
}
use sp4rk.Tools.Registry.{ToolRegistry, get, category_for, source_category_mcp}

-- What a call does: it asks for confirmation, or it runs the tool.
pub data Event : Type 0 where
  asked : ConfirmationRequest → Event
  ran : Tool → Text → Event

pub record Run : Type 0 where
  pub events : List Event
  pub reply : Reply

abbrev pub refused : Text → Run
refused content = record {
  events = [];
  reply = returned (record { content = content; is_error = true });
}

-- catalogContains; the scope of the context is none where there is none.
unfoldable pub catalog_contains : Option Keys → Text → Bool
catalog_contains scope name = elim scope [ none ↦ true | some names ↦ member name names ]

unfoldable pub suggests : Option Keys → ToolRegistry → Text → Bool
unfolding get catalog_contains
suggests scope r candidate =
    not (is_empty candidate) && (catalog_contains scope candidate && is_some (get r candidate))

unfoldable pub tool_not_found_text : (Text → Text) → Option Keys → ToolRegistry → Text → Text
unfolding suggests cut_prefix
tool_not_found_text quote scope r name =
    let plain = codes "tool not found: " ++ name in
    elim (cut_prefix name (codes "functions.")) [
      | none ↦ plain
      | some candidate ↦
          if suggests scope r candidate
          then plain
            ++ (codes "; use the exact catalog name "
                ++ (quote candidate
                    ++ codes
                        " in batch.calls[].tool or as the direct tool call name, without adding the functions. namespace"))
          else plain
    ]

-- A call that the tool itself answers.
abbrev pub run_tool : List Event → Tool → Text → Run
run_tool before tool input = record {
  events = before ++ (ran tool input ∷ []);
  reply = tool.execute input;
}

abbrev pub request_for : Text → Text → JudgeOutcome → ConfirmationRequest
request_for name input outcome = record {
  tool_name = name;
  input = input;
  judge_reasoning = outcome.reason;
  judge_severity = outcome.severity;
  judge_reason_code = outcome.reason_code;
}

abbrev pub no_confirm_func_text : (Text → Text) → Text → Text
no_confirm_func_text quote name =
    codes "tool "
    ++ (quote name
        ++ (codes
              " requires confirmation but no ConfirmFunc is configured; set one via ToolRegistry.SetConfirmFunc (or sp4rk.Config.ConfirmFunc when using the Framework), or explicitly override the policy via SetPolicyOverride("
            ++ (quote name ++ codes ", PolicyAlwaysAllow)")))

abbrev pub denied_text : Text → Text
denied_text reason =
    if is_empty reason
    then codes "Tool execution denied by user."
    else codes "Tool execution denied by user. Judge reasoning for flagging this call: " ++ reason

-- JudgeOutcome{Severity: JudgeSeverityHard}
abbrev pub unjudged : JudgeOutcome
unjudged = record { allow = false; reason = []; severity = hard; reason_code = [] }

-- The judge's outcome where it flags the call.
unfoldable pub flagged : Tool → Text → Option JudgeOutcome
flagged tool input = elim tool.judge [
  | none ↦ none
  | some judge ↦
      let outcome = judge input in
      if not outcome.allow && not (is_empty outcome.reason) then some outcome else none
]

unfoldable pub policy_of : ToolRegistry → Text → Tool → ToolPolicy
policy_of r name tool = elim (lookup name r.policy_overrides) [
  | some policy ↦ policy
  | none ↦ tool.default_policy
]

-- The outcome of the confirmation.
unfoldable pub conclude : Tool → Text → JudgeOutcome → ConfirmationRequest → Confirmation → Run
conclude tool input outcome request (unavailable e) = record {
  events = asked request ∷ [];
  reply = failed e;
}
conclude tool input outcome request (answered allow_once) = run_tool (asked request ∷ []) tool input
conclude tool input outcome request (answered deny) = record {
  events = asked request ∷ [];
  reply = returned (record { content = denied_text outcome.reason; is_error = true });
}
conclude tool input outcome request (answered deny_and_stop) = record {
  events = asked request ∷ [];
  reply = failed (codes "context canceled");
}
conclude tool input outcome request (answered (unknown n)) = record {
  events = asked request ∷ [];
  reply = failed (codes "unknown confirmation response: " ++ decimal n);
}

module _ (quote : Text → Text) where
  unfoldable pub confirm_and_execute : ToolRegistry → Tool → Text → Text → JudgeOutcome → Run
  unfolding conclude
  confirm_and_execute r tool name input outcome = elim r.confirm_func [
    | none ↦ refused (no_confirm_func_text quote name)
    | some confirm ↦
        let request = request_for name input outcome in
        conclude tool input outcome request (confirm request)
  ]

  -- The default arm of the switch: the tool runs, unless its judge flags the call.
  unfoldable pub judge_and_execute : ToolRegistry → Tool → Text → Text → Run
  unfolding confirm_and_execute flagged
  judge_and_execute r tool name input = elim (flagged tool input) [
    | some outcome ↦ confirm_and_execute r tool name input outcome
    | none ↦ run_tool [] tool input
  ]

  -- The switch on the policy.
  unfoldable pub dispatch : ToolRegistry → Tool → Text → Text → Run
  unfolding confirm_and_execute judge_and_execute policy_of
  dispatch r tool name input = elim (policy_of r name tool) [
    | always_deny ↦ refused (codes "tool " ++ (quote name ++ codes " blocked by security policy"))
    | user_confirm ↦ confirm_and_execute r tool name input unjudged
    | always_allow ↦ judge_and_execute r tool name input
    | unlisted _ ↦ judge_and_execute r tool name input
  ]

module _ (validate : Text → Text → Text → Bool → Option Text) where
  -- The pre-dispatch validation, where it is enabled.
  unfoldable pub invalid : ToolRegistry → Tool → Text → Text → Option Text
  unfolding category_for
  invalid r tool name input =
      if r.input_validation_enabled
      then validate tool.name tool.input_schema input
          (not (text_eq (category_for r name) source_category_mcp))
      else none

module _ (quote : Text → Text) (validate : Text → Text → Text → Bool → Option Text) where
  unfoldable pub execute : Option Keys → ToolRegistry → Text → Text → Run
  unfolding get invalid dispatch tool_not_found_text
  execute scope r name input = elim (get r name) [
    | none ↦ refused (tool_not_found_text quote scope r name)
    | some tool ↦ elim (invalid validate r tool name input) [
      | some e ↦ refused e
      | none ↦ dispatch quote r tool name input
    ]
  ]
