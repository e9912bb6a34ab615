-- ===== src/Memory/Conversation/Predict.antt =====
-- memory/compaction_conversation.go: PredictCompaction. The error on an unknown strategy is none.
use sp4rk.Base.{
  Text, List, [], ◌∷◌, ◌++◌, ℕ, zero, suc, ◌+◌, ◌-◌, max, Bool, true, false, Option, none, some,
  is_empty, is_some, leb, ltb, ◌==◌, if◌then◌else◌, length, take, drop, codes, text_eq,
}
use sp4rk.Llm.Message.{Message}
use sp4rk.Llm.Tracker.{TokenCounter}
use sp4rk.Memory.Conversation.{
  CompactionConfig, CompactionDeps, fallback, omission_note, conversation_block_text,
  conversation_hierarchical_zones,
}

pub record CompactionPrediction : Type 0 where
  pub strategy : Text
  pub will_compact : Bool
  pub before_tokens : ℕ
  pub after_tokens : ℕ
  pub verbatim_tokens : ℕ
  pub reclaim : ℕ
  pub exact : Bool

unfoldable pub count_messages : Option TokenCounter → List Message → ℕ
count_messages none msgs = 0
count_messages (some counter) msgs = counter.count_messages msgs

unfoldable pub text_tokens : Option TokenCounter → Text → ℕ
text_tokens none text = 0
text_tokens (some counter) text = counter.count text

unfoldable pub forecast_summary_tokens : ℕ → (ℕ → ℕ) → ℕ
forecast_summary_tokens input_tokens share =
    if input_tokens == 0 then 0 else max 1 (share input_tokens)

unfoldable pub clamp_summarize_tokens : ℕ → ℕ → ℕ
clamp_summarize_tokens input_tokens limit = if ltb limit input_tokens then limit else input_tokens

-- The tokens of one block that the summarizer is sent.
unfoldable pub block_tokens : CompactionConfig → CompactionDeps → List Message → ℕ
unfolding text_tokens clamp_summarize_tokens
block_tokens cfg deps block =
    clamp_summarize_tokens
      (text_tokens deps.token_counter
        (conversation_block_text block (fallback cfg.observation_truncate 500)))
      (fallback deps.max_summarize_tokens 16000)

-- The sum, over the blocks, of what a function makes of their tokens.
unfoldable pub sum_blocks : CompactionConfig → CompactionDeps → (ℕ → ℕ) → ℕ → ℕ → List Message → ℕ
unfolding block_tokens
sum_blocks cfg deps f size zero msgs = 0
sum_blocks cfg deps f size (suc fuel) [] = 0
sum_blocks cfg deps f size (suc fuel) (m ∷ msgs) =
    f (block_tokens cfg deps (take size (m ∷ msgs)))
    + sum_blocks cfg deps f size fuel (drop size (m ∷ msgs))

-- Nothing changes.
unfoldable pub verbatim_prediction : Text → ℕ → CompactionPrediction
verbatim_prediction strategy before = record {
  strategy = strategy;
  will_compact = false;
  before_tokens = before;
  after_tokens = before;
  verbatim_tokens = before;
  reclaim = 0;
  exact = true;
}

unfoldable pub changed_prediction : Text → ℕ → ℕ → ℕ → Bool → CompactionPrediction
changed_prediction strategy before verbatim after exact = record {
  strategy = strategy;
  will_compact = true;
  before_tokens = before;
  after_tokens = after;
  verbatim_tokens = verbatim;
  reclaim = before - after;
  exact = exact;
}

module _ (cfg : CompactionConfig) (deps : CompactionDeps) (strategy : Text)
    (msgs : List Message) where
  unfoldable pub predict_sliding : CompactionPrediction
  unfolding verbatim_prediction changed_prediction count_messages
  predict_sliding =
      let first = fallback cfg.keep_first 3 in
      let last = fallback cfg.keep_last 10 in
      let before = count_messages deps.token_counter msgs in
      let verbatim =
        count_messages deps.token_counter (take first msgs ++ drop (length msgs - last) msgs) in
      let note = omission_note (length msgs - first - last) ∷ [] in
      if leb (length msgs) (first + last)
      then verbatim_prediction strategy before
      else changed_prediction strategy before verbatim
          (verbatim + count_messages deps.token_counter note) (is_some deps.token_counter)

  unfoldable pub predict_summarizing : CompactionPrediction
  unfolding verbatim_prediction changed_prediction count_messages sum_blocks forecast_summary_tokens
  predict_summarizing =
      let last = fallback cfg.keep_last_summarized 5 in
      let older = length msgs - last in
      let before = count_messages deps.token_counter msgs in
      let verbatim = count_messages deps.token_counter (drop older msgs) in
      let summarized =
        sum_blocks cfg deps (λ n. forecast_summary_tokens n deps.summarized_share)
          (fallback cfg.block_size 10) older (take older msgs) in
      if leb (length msgs) last
      then verbatim_prediction strategy before
      else changed_prediction strategy before verbatim (verbatim + summarized) false

  unfoldable pub predict_hierarchical : CompactionPrediction
  unfolding verbatim_prediction changed_prediction count_messages sum_blocks forecast_summary_tokens
      block_tokens conversation_hierarchical_zones
  predict_hierarchical =
      let (distant, middle) = conversation_hierarchical_zones (length msgs) cfg in
      let before = count_messages deps.token_counter msgs in
      let verbatim = count_messages deps.token_counter (drop (distant + middle) msgs) in
      let distant_tokens = block_tokens cfg deps (take distant msgs) in
      let middle_tokens =
        sum_blocks cfg deps (λ n. n) (fallback cfg.block_size 10) middle
          (take middle (drop distant msgs)) in
      if distant + middle == 0
      then verbatim_prediction strategy before
      else changed_prediction strategy before verbatim
          (verbatim
            + forecast_summary_tokens distant_tokens deps.distant_forecast
            + forecast_summary_tokens middle_tokens deps.middle_forecast)
          false

  -- The prediction for a strategy that is known.
  unfoldable pub empty_or : CompactionPrediction → Option CompactionPrediction
  unfolding verbatim_prediction
  empty_or prediction =
      if is_empty msgs then some (verbatim_prediction strategy 0) else some prediction

  unfoldable pub predict_compaction : Option CompactionPrediction
  unfolding predict_sliding predict_summarizing predict_hierarchical empty_or
  predict_compaction =
      if text_eq strategy (codes "sliding_window")
      then empty_or predict_sliding
      else if text_eq strategy (codes "summarization")
      then empty_or predict_summarizing
      else if text_eq strategy (codes "hierarchical")
      then empty_or predict_hierarchical
      else none
