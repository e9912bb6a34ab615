-- ===== src/Memory/Conversation/Exact.antt =====
-- memory/compaction_conversation.go: what a prediction says of the compaction itself.
use sp4rk.Base.{
  Text, List, [], ◌∷◌, ◌++◌, ◌+◌, ◌-◌, true, false, none, some, is_empty, leb, ◌==◌, if◌then◌else◌,
  length, take, drop, codes, text_eq, ◌≡◌, refl, ◌∙◌, arith, inl, inr, Bool-cases,
}
use sp4rk.Llm.Message.{Message}
use sp4rk.Llm.Tracker.{TokenCounter}
use sp4rk.Memory.Conversation.{
  CompactionConfig, CompactionDeps, Outcome, compacted, no_summarizer, fallback, omission_note,
  compact_sliding, compact_summarizing, compact_hierarchical, conversation_hierarchical_zones,
  compact_conversation_history,
}
use sp4rk.Memory.Conversation.Predict.{
  CompactionPrediction, count_messages, verbatim_prediction, changed_prediction, predict_sliding,
  predict_summarizing, predict_hierarchical, empty_or, predict_compaction,
}

-- A counter counts a conversation message by message.
pub record Additive (counter : TokenCounter) : Type 0 where
  pub total :
      (xs ys : List Message)
      → counter.count_messages (xs ++ ys) ≡ counter.count_messages xs + counter.count_messages ys

is_empty-nil : (msgs : List Message) → is_empty msgs ≡ true → msgs ≡ []
is_empty-nil [] h = refl
is_empty-nil (m ∷ msgs) h = cc

module _ (cfg : CompactionConfig) (deps : CompactionDeps) (strategy : Text)
    (msgs : List Message) where
  -- Without a summarizer, the outcome of a strategy by the verdict on it.
  abbrev unsummarized : CompactionPrediction → Outcome
  unsummarized p = if p.will_compact then no_summarizer else compacted msgs

  summarizing-verdict :
      deps.summarize ≡ none
      → compact_summarizing cfg deps msgs
        ≡ unsummarized (predict_summarizing cfg deps strategy msgs)
  unfolding compact_summarizing predict_summarizing verbatim_prediction changed_prediction
  summarizing-verdict n =
      elim (Bool-cases (leb (length msgs) (fallback cfg.keep_last_summarized 5))) [
        | inl h ↦ rw (h, compact_summarizing) refl
        | inr h ↦ rw (h, n, compact_summarizing) refl
      ]

  hierarchical-verdict :
      deps.summarize ≡ none
      → compact_hierarchical cfg deps msgs
        ≡ unsummarized (predict_hierarchical cfg deps strategy msgs)
  unfolding compact_hierarchical predict_hierarchical verbatim_prediction changed_prediction
  hierarchical-verdict n =
      let zones = conversation_hierarchical_zones (length msgs) cfg in
      elim (Bool-cases (zones.0 + zones.1 == 0)) [
        | inl h ↦ rw (h, compact_hierarchical) refl
        | inr h ↦ rw (h, n, compact_hierarchical) refl
      ]

  -- An empty history stands for itself, and has the verdict that nothing changes.
  by_verdict :
      (o : Outcome) (q p : CompactionPrediction)
      → empty_or cfg deps strategy msgs q ≡ some p
      → o ≡ unsummarized q
      → (if is_empty msgs then compacted msgs else o) ≡ unsummarized p
  unfolding empty_or verbatim_prediction
  by_verdict o q p e h = elim (Bool-cases (is_empty msgs)) [
    | inl z ↦
        let found : some (verbatim_prediction strategy 0) ≡ some p = rw (z, empty_or) at e in
        let same : p ≡ verbatim_prediction strategy 0 = cc in rw (z, same) refl
    | inr z ↦
        let found : some q ≡ some p = rw (z, empty_or) at e in
        let same : p ≡ q = cc in rw (z, same) h
  ]

  -- The verdict of a prediction for a strategy that summarizes is exact: without a summarizer,
  -- compacting fails for the want of it where the verdict is that the strategy compacts, and
  -- returns the history as it is where the verdict is that it does not.
  pub predict_compaction-verdict :
      (p : CompactionPrediction)
      → predict_compaction cfg deps strategy msgs ≡ some p
      → text_eq strategy (codes "sliding_window") ≡ false
      → deps.summarize ≡ none
      → compact_conversation_history cfg deps strategy msgs
        ≡ (if p.will_compact then no_summarizer else compacted msgs)
  unfolding compact_conversation_history predict_compaction
  predict_compaction-verdict p e a n =
      elim (Bool-cases (text_eq strategy (codes "summarization"))) [
        | inl b ↦
            rw (a, b, compact_conversation_history)
              (by_verdict _ _ p (rw (a, b, predict_compaction) at e) (summarizing-verdict n))
        | inr b ↦ elim (Bool-cases (text_eq strategy (codes "hierarchical"))) [
          | inl c ↦
              rw (a, b, c, compact_conversation_history)
                (by_verdict _ _ p (rw (a, b, c, predict_compaction) at e) (hierarchical-verdict n))
          | inr c ↦ let unknown : none ≡ some p = rw (a, b, c, predict_compaction) at e in absurd cc
        ]
      ]

  sliding-exact :
      (counter : TokenCounter)
      → deps.token_counter ≡ some counter
      → Additive counter
      → counter.count_messages (compact_sliding cfg msgs)
        ≡ (predict_sliding cfg deps strategy msgs).after_tokens
  unfolding compact_sliding predict_sliding verbatim_prediction changed_prediction count_messages
  sliding-exact counter c additive =
      let first = fallback cfg.keep_first 3 in
      let last = fallback cfg.keep_last 10 in
      let head = take first msgs in
      let tail = drop (length msgs - last) msgs in
      let note = omission_note (length msgs - first - last) in
      elim (Bool-cases (leb (length msgs) (first + last))) [
        | inl h ↦ rw (c, h) refl
        | inr h ↦
            rw (c, h)
              (additive.total head (note ∷ tail)
                ∙ omega (arith, additive.total (note ∷ []) tail, additive.total head tail))
      ]

  sliding-flag :
      (counter : TokenCounter)
      → deps.token_counter ≡ some counter
      → (predict_sliding cfg deps strategy msgs).exact ≡ true
  unfolding predict_sliding verbatim_prediction changed_prediction
  sliding-flag counter c =
      elim (Bool-cases
        (leb (length msgs) (fallback cfg.keep_first 3 + fallback cfg.keep_last 10))) [
          | inl h ↦ rw h refl
          | inr h ↦ rw (h, c) refl
        ]

  -- The prediction for a sliding window is a dry run: with a counter that counts message by message
  -- the tokens it predicts are those of the compacted history, and it says that it is exact.
  pub predict_compaction-sliding :
      (counter : TokenCounter) (p : CompactionPrediction) (r : List Message)
      → deps.token_counter ≡ some counter
      → Additive counter
      → text_eq strategy (codes "sliding_window") ≡ true
      → predict_compaction cfg deps strategy msgs ≡ some p
      → compact_conversation_history cfg deps strategy msgs ≡ compacted r
      → (counter.count_messages r ≡ p.after_tokens) × (p.exact ≡ true)
  unfolding compact_conversation_history predict_compaction empty_or verbatim_prediction
  predict_compaction-sliding counter p r c additive a e d = elim (Bool-cases (is_empty msgs)) [
    | inl z ↦
        let whole : compacted msgs ≡ compacted r = rw (z, compact_conversation_history) at d in
        let same : r ≡ msgs = cc in
        let found : some (verbatim_prediction strategy 0) ≡ some p =
          rw (z, a, predict_compaction, empty_or) at e in
        let own : p ≡ verbatim_prediction strategy 0 = cc in
        let nil : r ≡ [] = same ∙ is_empty-nil msgs z in
        rw (nil, own) (omega (arith, additive.total [] []), refl)
    | inr z ↦
        let done : compacted (compact_sliding cfg msgs) ≡ compacted r =
          rw (z, a, compact_conversation_history) at d in
        let same : r ≡ compact_sliding cfg msgs = cc in
        let found : some (predict_sliding cfg deps strategy msgs) ≡ some p =
          rw (z, a, predict_compaction, empty_or) at e in
        let own : p ≡ predict_sliding cfg deps strategy msgs = cc in
        rw (same, own) (sliding-exact counter c additive, sliding-flag counter c)
  ]
