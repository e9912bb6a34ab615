-- ===== src/Memory/Conversation.antt =====
-- memory/compaction_conversation.go: CompactConversationHistory and PredictCompaction. The sizes of the
-- zones and the forecasts are computed in floating point: int(float64(n) * ratio), with the ratio
-- that a default or a normalization leaves, is a function of the configuration. The summarizer and
-- the token counter are functions, and none where they are nil.
pub mod Predict
pub mod Zones
pub mod Exact
use sp4rk.Base.{
  Text, List, [], ◌∷◌, ◌++◌, ℕ, zero, suc, ◌+◌, ◌-◌, max, Bool, true, false, ◌&&◌, ◌||◌, not,
  Option, none, some, is_empty, is_some, leb, ltb, ◌==◌, if◌then◌else◌, length, take, drop, codes,
  decimal, text_eq, byte_length,
}
use sp4rk.Strutil.{truncate_utf8}
use sp4rk.Llm.Message.{Role, system, user, assistant, tool, ContentBlock, Message}
use sp4rk.Llm.Blocks.{normalize_content_blocks}
use sp4rk.Llm.Tracker.{TokenCounter}
use sp4rk.Memory.Steps.{plain_message}
use sp4rk.Memory.Hierarchy.{Summary, summarized, failing, truncate_to_token_budget}

pub record CompactionConfig : Type 0 where
  pub keep_first : ℕ
  pub keep_last : ℕ
  pub block_size : ℕ
  pub keep_last_summarized : ℕ
  pub observation_truncate : ℕ
  pub distant_share : ℕ → ℕ
  pub distant_and_middle_share : ℕ → ℕ

pub record CompactionDeps : Type 0 where
  pub token_counter : Option TokenCounter
  pub summarize : Option (Text → Summary)
  pub max_summarize_tokens : ℕ
  -- the forecasts, as functions of the tokens
  pub summarized_share : ℕ → ℕ
  pub distant_forecast : ℕ → ℕ
  pub middle_forecast : ℕ → ℕ

-- The compacted messages, or what went wrong; a failing block is named by its bounds.
pub data Outcome : Type 0 where
  compacted : List Message → Outcome
  unknown_strategy : Text → Outcome
  no_summarizer : Outcome
  summarization_failed : ℕ → ℕ → Text → Outcome

abbrev pub fallback : ℕ → ℕ → ℕ
fallback n default = if n == 0 then default else n

unfoldable pub omission_note : ℕ → Message
omission_note n = plain_message system (
    codes "[... "
    ++ (decimal n
        ++ codes " earlier conversation messages omitted by sliding-window compaction ...]"))

unfoldable pub compact_sliding : CompactionConfig → List Message → List Message
unfolding omission_note
compact_sliding cfg msgs =
    let first = fallback cfg.keep_first 3 in
    let last = fallback cfg.keep_last 10 in
    if leb (length msgs) (first + last)
    then msgs
    else take first msgs
      ++ (omission_note (length msgs - first - last) ∷ drop (length msgs - last) msgs)

unfoldable pub blocks_text : List ContentBlock → Text
blocks_text [] = []
blocks_text (b ∷ blocks) =
    (if text_eq b.kind (codes "text")
      then b.text
      else if text_eq b.kind (codes "image")
      then codes "[image attached]"
      else [])
    ++ blocks_text blocks

unfoldable pub user_message_text : Message → Text
unfolding blocks_text normalize_content_blocks
user_message_text m =
    let blocks = normalize_content_blocks m in
    if is_empty blocks then m.content else blocks_text blocks

abbrev role_name : Role → Text
role_name system = codes "system"
role_name user = codes "user"
role_name assistant = codes "assistant"
role_name tool = codes "tool"

unfoldable pub message_text : Message → Text
unfolding user_message_text
message_text m = elim m.role [
  | user ↦ user_message_text m
  | system ↦ m.content
  | assistant ↦ m.content
  | tool ↦ m.content
]

unfoldable pub conversation_block_text : List Message → ℕ → Text
unfolding message_text
conversation_block_text [] truncate_chars = []
conversation_block_text (m ∷ msgs) truncate_chars =
    let text = message_text m in
    let shown =
      if ltb 0 truncate_chars && ltb truncate_chars (byte_length text)
      then truncate_utf8 text truncate_chars
      else text in
    role_name m.role
    ++ (codes ": " ++ (shown ++ (10 ∷ conversation_block_text msgs truncate_chars)))

-- The text of a block that is sent to the summarizer.
unfoldable pub sent_text : CompactionConfig → CompactionDeps → List Message → Text
unfolding conversation_block_text truncate_to_token_budget
sent_text cfg deps block =
    let text = conversation_block_text block (fallback cfg.observation_truncate 500) in
    let limit = fallback deps.max_summarize_tokens 16000 in
    elim deps.token_counter [
      | none ↦ text
      | some counter ↦
          if ltb limit (counter.count text) then truncate_to_token_budget text limit else text
    ]

-- The loop over the blocks, from the index `i` on. A block takes one message at least.
unfoldable pub summarize_from :
    CompactionConfig → CompactionDeps → (Text → Summary) → ℕ → ℕ → ℕ → List Message → Outcome
unfolding sent_text
summarize_from cfg deps summarize size zero i msgs = compacted []
summarize_from cfg deps summarize size (suc fuel) i [] = compacted []
summarize_from cfg deps summarize size (suc fuel) i (m ∷ msgs) =
    let block = take size (m ∷ msgs) in
    let rest = summarize_from cfg deps summarize size fuel (i + size) (drop size (m ∷ msgs)) in
    elim (summarize (sent_text cfg deps block)) [
      | failing reason ↦ summarization_failed (i + 1) (i + length block) reason
      | summarized summary ↦ elim rest [
        | compacted blocks ↦ compacted (plain_message system summary ∷ blocks)
        | unknown_strategy name ↦ unknown_strategy name
        | no_summarizer ↦ no_summarizer
        | summarization_failed first last reason ↦ summarization_failed first last reason
      ]
    ]

unfoldable pub summarize_conversation_blocks :
    CompactionConfig → CompactionDeps → (Text → Summary) → ℕ → List Message → Outcome
unfolding summarize_from
summarize_conversation_blocks cfg deps summarize size msgs =
    summarize_from cfg deps summarize size (length msgs) 0 msgs

-- The messages in front of others, or the error of the first outcome.
unfoldable pub in_front_of : Outcome → Outcome → Outcome
in_front_of (compacted xs) (compacted ys) = compacted (xs ++ ys)
in_front_of (compacted xs) error = error
in_front_of error rest = error

unfoldable pub compact_summarizing : CompactionConfig → CompactionDeps → List Message → Outcome
unfolding summarize_conversation_blocks in_front_of
compact_summarizing cfg deps msgs =
    let last = fallback cfg.keep_last_summarized 5 in
    let older = length msgs - last in
    if leb (length msgs) last then compacted msgs else elim deps.summarize [
      | none ↦ no_summarizer
      | some summarize ↦
          in_front_of
            (summarize_conversation_blocks cfg deps summarize (fallback cfg.block_size 10)
              (take older msgs))
            (compacted (drop older msgs))
    ]

-- The sizes of the distant and of the middle zone.
unfoldable pub conversation_hierarchical_zones : ℕ → CompactionConfig → ℕ × ℕ
conversation_hierarchical_zones n cfg =
    let cumulative = cfg.distant_and_middle_share n in
    let middle_end = if leb n cumulative then n - 1 else cumulative in
    let share = cfg.distant_share n in
    let distant = if ltb middle_end share then middle_end else share in
    if distant == 0 then (0, 0) else (distant, middle_end - distant)

unfoldable pub compact_hierarchical : CompactionConfig → CompactionDeps → List Message → Outcome
unfolding conversation_hierarchical_zones summarize_conversation_blocks in_front_of
compact_hierarchical cfg deps msgs =
    let (distant, middle) = conversation_hierarchical_zones (length msgs) cfg in
    if distant + middle == 0 then compacted msgs else elim deps.summarize [
      | none ↦ no_summarizer
      | some summarize ↦
          in_front_of (summarize_conversation_blocks cfg deps summarize distant (take distant msgs))
            (in_front_of
              (summarize_conversation_blocks cfg deps summarize (fallback cfg.block_size 10)
                (take middle (drop distant msgs)))
              (compacted (drop (distant + middle) msgs)))
    ]

unfoldable pub compact_conversation_history :
    CompactionConfig → CompactionDeps → Text → List Message → Outcome
unfolding compact_sliding compact_summarizing compact_hierarchical
compact_conversation_history cfg deps strategy msgs =
    if is_empty msgs
    then compacted msgs
    else if text_eq strategy (codes "sliding_window")
    then compacted (compact_sliding cfg msgs)
    else if text_eq strategy (codes "summarization")
    then compact_summarizing cfg deps msgs
    else if text_eq strategy (codes "hierarchical")
    then compact_hierarchical cfg deps msgs
    else unknown_strategy strategy
