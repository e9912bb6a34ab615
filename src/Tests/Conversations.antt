-- ===== src/Tests/Conversations.antt =====
-- Runs of memory/compaction_conversation.go on a short conversation.
use sp4rk.Base.{
  List, [], ◌∷◌, ◌*◌, true, false, none, some, codes, length, length-append, ◌≡◌, refl, arith,
  text_eq, byte_length,
}
use sp4rk.Llm.Message.{system, user, assistant, Message}
use sp4rk.Llm.Tracker.{TokenCounter}
use sp4rk.Memory.Steps.{plain_message}
use sp4rk.Memory.Hierarchy.{summarized}
use sp4rk.Memory.Conversation.{
  CompactionConfig, CompactionDeps, compacted, no_summarizer, omission_note,
  conversation_block_text, compact_conversation_history,
}
use sp4rk.Memory.Conversation.Zones.{last_message, compact_conversation_history-last}
use sp4rk.Memory.Conversation.Predict.{CompactionPrediction, predict_compaction}
use sp4rk.Memory.Conversation.Exact.{
  Additive, predict_compaction-verdict, predict_compaction-sliding,
}

abbrev talk : List Message
talk =
    plain_message user (codes "hello")
    ∷ plain_message assistant (codes "hi")
    ∷ plain_message user (codes "fix it")
    ∷ plain_message assistant (codes "done")
    ∷ []

abbrev config : CompactionConfig
config = record {
  keep_first = 1;
  keep_last = 2;
  block_size = 1;
  keep_last_summarized = 2;
  observation_truncate = 0;
  distant_share = λ n. 1;
  distant_and_middle_share = λ n. n;
}

-- Four tokens for each message.
abbrev counter : TokenCounter
counter = record { count = length; count_messages = λ ms. 4 * length ms }

abbrev deps : CompactionDeps
deps = record {
  token_counter = some counter;
  summarize = none;
  max_summarize_tokens = 0;
  summarized_share = λ n. n;
  distant_forecast = λ n. n;
  middle_forecast = λ n. n;
}

abbrev summarizing : CompactionDeps
summarizing = record deps { summarize = some (λ t. summarized (codes "summary")) }

counter-Additive : Additive counter
counter-Additive = record { total = λ xs ys. omega (arith, length-append xs ys) }

abbrev short : List Message
short =
    plain_message system (codes "summary")
    ∷ plain_message system (codes "summary")
    ∷ plain_message system (codes "summary")
    ∷ plain_message assistant (codes "done")
    ∷ []

hierarchical :
    compact_conversation_history config summarizing (codes "hierarchical") talk ≡ compacted short
unfolding compact_conversation_history text_eq byte_length
hierarchical = refl

compact_conversation_history-last_example : last_message short ≡ last_message talk
compact_conversation_history-last_example =
    compact_conversation_history-last config summarizing (codes "hierarchical") talk short
      hierarchical

abbrev windowed : List Message
windowed =
    plain_message user (codes "hello")
    ∷ omission_note 1
    ∷ plain_message user (codes "fix it")
    ∷ plain_message assistant (codes "done")
    ∷ []

slid : compact_conversation_history config deps (codes "sliding_window") talk ≡ compacted windowed
unfolding compact_conversation_history text_eq
slid = refl

-- The verdict is that the window compacts, also where it puts a note in the place of one message.
abbrev sliding_prediction : CompactionPrediction
sliding_prediction = record {
  strategy = codes "sliding_window";
  will_compact = true;
  before_tokens = 16;
  after_tokens = 16;
  verbatim_tokens = 12;
  reclaim = 0;
  exact = true;
}

predicted : predict_compaction config deps (codes "sliding_window") talk ≡ some sliding_prediction
unfolding predict_compaction text_eq
predicted = refl

known : text_eq (codes "sliding_window") (codes "sliding_window") ≡ true
unfolding text_eq
known = refl

predict_compaction-sliding_example : (counter.count_messages windowed ≡ 16) × (true ≡ true)
predict_compaction-sliding_example =
    predict_compaction-sliding config deps (codes "sliding_window") talk counter sliding_prediction
      windowed refl counter-Additive known predicted slid

-- An unknown strategy is no error for an empty history, where the prediction has one.
unknown_accepted :
    (compact_conversation_history config deps (codes "none") [] ≡ compacted [])
    × (predict_compaction config deps (codes "none") [] ≡ none)
unfolding compact_conversation_history predict_compaction text_eq
unknown_accepted = (refl, refl)

abbrev summarizing_prediction : CompactionPrediction
summarizing_prediction = record {
  strategy = codes "summarization";
  will_compact = true;
  before_tokens = 16;
  after_tokens = 34;
  verbatim_tokens = 8;
  reclaim = 0;
  exact = false;
}

forecast : predict_compaction config deps (codes "summarization") talk ≡ some summarizing_prediction
unfolding predict_compaction text_eq byte_length conversation_block_text
forecast = refl

other : text_eq (codes "summarization") (codes "sliding_window") ≡ false
unfolding text_eq
other = refl

predict_compaction-verdict_example :
    compact_conversation_history config deps (codes "summarization") talk ≡ no_summarizer
predict_compaction-verdict_example =
    predict_compaction-verdict config deps (codes "summarization") talk summarizing_prediction
      forecast other refl
