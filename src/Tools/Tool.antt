-- ===== src/Tools/Tool.antt =====
-- tools/tool.go, tools/safety.go and tools/cache_mode.go: what a tool is to the registry. A tool is
-- the record of its methods, with the context of a call fixed; an optional interface that it does
-- not implement is none. JSON is its text.
use sp4rk.Base.{Text, [], Bool, ℕ, Option, none, some, text_eq, codes, if◌then◌else◌}

-- `unlisted` is any other integer.
pub data ToolPolicy : Type 0 where
  always_allow always_deny user_confirm : ToolPolicy
  unlisted : ℕ → ToolPolicy

pub record ToolResult : Type 0 where
  pub content : Text
  pub is_error : Bool

-- A result, or a Go error.
pub data Reply : Type 0 where
  returned : ToolResult → Reply
  failed : Text → Reply

pub data JudgeSeverity : Type 0 where
  hard soft : JudgeSeverity

pub record JudgeOutcome : Type 0 where
  pub allow : Bool
  pub reason : Text
  pub severity : JudgeSeverity
  pub reason_code : Text

pub data CacheMode : Type 0 where
  cache_default content_backed : CacheMode

pub record Tool : Type 0 where
  pub name : Text
  pub description : Text
  pub input_schema : Text
  pub execute : Text → Reply
  pub default_policy : ToolPolicy
  pub is_untrusted : Bool
  pub group : Option Text
  pub judge : Option (Text → JudgeOutcome)
  pub is_content_backed : Option (Text → Bool)

pub record ToolDescriptor : Type 0 where
  pub name : Text
  pub description : Text
  pub input_schema : Text
  pub source : Text
  pub source_category : Text
  pub group : Text

pub record ConfirmationRequest : Type 0 where
  pub tool_name : Text
  pub input : Text
  pub judge_reasoning : Text
  pub judge_severity : JudgeSeverity
  pub judge_reason_code : Text

-- `unknown` is any other integer.
pub data ConfirmationResponse : Type 0 where
  allow_once deny deny_and_stop : ConfirmationResponse
  unknown : ℕ → ConfirmationResponse

-- What a ConfirmFunc returns.
pub data Confirmation : Type 0 where
  answered : ConfirmationResponse → Confirmation
  unavailable : Text → Confirmation

-- ToolGroupOf
unfoldable pub tool_group_of : Tool → Text
tool_group_of t = elim t.group [ none ↦ [] | some g ↦ g ]

-- ParseToolPolicy
unfoldable pub parse_tool_policy : Text → ToolPolicy
parse_tool_policy s =
    if text_eq s (codes "always_allow")
    then always_allow
    else if text_eq s (codes "always_deny")
    then always_deny
    else user_confirm
