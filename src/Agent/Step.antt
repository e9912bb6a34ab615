-- ===== src/Agent/Step.antt =====
-- agent/types.go: one step of an executor's trajectory.
use sp4rk.Base.{Text, List, [], ℕ, Bool, false}
use sp4rk.Llm.Message.{ToolCall, ReasoningItem}

pub record Step : Type 0 where
  pub thought : Text
  pub reasoning_content : Text
  pub reasoning_items : List ReasoningItem
  pub action : ToolCall
  pub observation : Text
  pub is_error : Bool
  pub tokens_used : ℕ
  pub user_nudge : Text
  pub response_group : ℕ
  pub is_untrusted : Bool
  pub cache_hash : Text

-- Go's zero value `Step{}`.
abbrev pub empty_step : Step
empty_step = record {
  thought = [];
  reasoning_content = [];
  reasoning_items = [];
  action = record { id = []; name = []; input = [] };
  observation = [];
  is_error = false;
  tokens_used = 0;
  user_nudge = [];
  response_group = 0;
  is_untrusted = false;
  cache_hash = [];
}
