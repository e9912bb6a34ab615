-- ===== src/Llm/Tracker.antt =====
-- llm/tokencount.go: ContextTokenTracker. What its mutex makes atomic is one function. A counter is
-- an interface of the source, here the record of its two methods; counts are natural numbers.
use sp4rk.Base.{Text, List, ℕ, ◌+◌}
use sp4rk.Llm.Message.{Message}

pub record TokenCounter : Type 0 where
  pub count : Text → ℕ
  pub count_messages : List Message → ℕ

pub record ContextTokenTracker : Type 0 where
  pub predictive : TokenCounter
  pub last_known_used : ℕ
  pub pending_delta : ℕ

abbrev pub new_context_token_tracker : TokenCounter → ContextTokenTracker
new_context_token_tracker counter = record {
  predictive = counter;
  last_known_used = 0;
  pending_delta = 0;
}

unfoldable pub estimate_total : ContextTokenTracker → ℕ
estimate_total t = t.last_known_used + t.pending_delta

unfoldable pub add_delta : Text → ContextTokenTracker → ContextTokenTracker
add_delta text t = record t { pending_delta = t.pending_delta + t.predictive.count text }

unfoldable pub correct : ℕ → ContextTokenTracker → ContextTokenTracker
correct api_input_tokens t = record t { last_known_used = api_input_tokens; pending_delta = 0 }

unfoldable pub reset : ContextTokenTracker → ContextTokenTracker
reset t = record t { last_known_used = 0; pending_delta = 0 }

unfoldable pub estimate_messages : List Message → ContextTokenTracker → ℕ
estimate_messages msgs t = t.predictive.count_messages msgs
