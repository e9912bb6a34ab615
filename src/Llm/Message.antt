-- ===== src/Llm/Message.antt =====
-- llm/message.go: messages, their tool calls, reasoning items and content blocks. A role is one of
-- the four texts that the source lists.
use sp4rk.Base.{Text, List}

pub data Role : Type 0 where
  system user assistant tool : Role

-- `input` is the text of the JSON arguments.
pub record ToolCall : Type 0 where
  pub id : Text
  pub name : Text
  pub input : Text

pub record ReasoningItem : Type 0 where
  pub id : Text
  pub summary : Text
  pub encrypted_content : Text

pub record ContentBlock : Type 0 where
  pub kind : Text
  pub text : Text
  pub image_b64 : Text
  pub media_type : Text

pub record Message : Type 0 where
  pub role : Role
  pub content : Text
  pub content_blocks : List ContentBlock
  pub reasoning_content : Text
  pub tool_calls : List ToolCall
  pub tool_call_id : Text
  pub reasoning_items : List ReasoningItem
