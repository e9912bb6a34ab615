-- ===== src/Memory/Hierarchy.antt =====
-- memory/compaction_hierarchy.go: Compact over three zones. The sizes of the zones are computed in
-- floating point: the two shares are int(float64(n) * ratio), a negative number being 0, and are
-- fields of the strategy. `wrap` is security.WrapUntrustedContent, by the content and the tool's name.
pub mod Zones
use sp4rk.Base.{
  Text, List, [], ◌∷◌, ◌++◌, ℕ, zero, suc, ◌+◌, ◌-◌, ◌*◌, ◌/◌, min, Bool, true, false, ◌&&◌, Option,
  none, some, is_empty, leb, ltb, if◌then◌else◌, length, take, drop, codes, decimal, text_eq,
  byte_length, join,
}
use sp4rk.Strutil.{truncate_utf8}
use sp4rk.Strutil.{truncate_utf8}
use sp4rk.Llm.Message.{system, Message}
use sp4rk.Agent.Step.{Step}
use sp4rk.Memory.Steps.{plain_message, steps_to_messages}

-- What the summarizer returns.
pub data Summary : Type 0 where
  summarized : Text → Summary
  failing : Text → Summary

pub record HierarchicalStrategy : Type 0 where
  pub distant_share : ℕ → ℕ
  pub distant_and_middle_share : ℕ → ℕ
  pub observation_truncate : ℕ
  pub summarizer : Option (Text → Summary)
  pub token_counter : Option (Text → ℕ)
  pub max_summarize_tokens : ℕ

-- The boundaries of the zones of `n` steps, step by step as the source adjusts them.
unfoldable pub at_least_one : ℕ → ℕ → ℕ
at_least_one n distant = if ltb distant 1 && ltb 3 n then 1 else distant

unfoldable pub after_distant : ℕ → ℕ → ℕ → ℕ
after_distant n distant middle =
    if leb middle distant && ltb (distant + 1) n then distant + 1 else middle

unfoldable pub before_end : ℕ → ℕ → ℕ
before_end n middle = if leb n middle then n - 1 else middle

unfoldable pub zone_ends : HierarchicalStrategy → ℕ → ℕ × ℕ
unfolding at_least_one after_distant before_end
zone_ends h n =
    let distant = at_least_one n (min (h.distant_share n) n) in
    let middle = before_end n (after_distant n distant (min (h.distant_and_middle_share n) n)) in
    (if ltb middle distant then middle else distant, middle)

-- One part of a step's text, where it is not empty.
abbrev pub part : Text → Text → Text
part label text = if is_empty text then [] else label ++ text

unfoldable pub truncate_to_token_budget : Text → ℕ → Text
truncate_to_token_budget text max_tokens =
    let max_chars = max_tokens * 3 in
    if leb (byte_length text) max_chars
    then text
    else truncate_utf8 text max_chars ++ codes "\n[... truncated for summarization ...]"

-- The blocks of a zone, `size` steps each but the last; there are at most as many as the fuel.
unfoldable pub blocks_of : ℕ → ℕ → List Step → List (List Step)
blocks_of zero size steps = []
blocks_of (suc fuel) size [] = []
blocks_of (suc fuel) size (s ∷ ss) = take size (s ∷ ss) ∷ blocks_of fuel size (drop size (s ∷ ss))

module _ (wrap : Text → Text → Text) where
  unfoldable pub observation_text : HierarchicalStrategy → Text → Step → Text
  observation_text h zone_name step =
      let max_len =
        if text_eq zone_name (codes "middle")
        then h.observation_truncate
        else h.observation_truncate * 6 / 10 in
      let obs =
        if ltb max_len (byte_length step.observation)
        then truncate_utf8 step.observation max_len
        else step.observation in
      if step.is_untrusted then wrap obs step.action.name else obs

  unfoldable pub step_texts : HierarchicalStrategy → Text → ℕ → List Step → List Text
  unfolding observation_text
  step_texts h zone_name i [] = []
  step_texts h zone_name i (step ∷ steps) =
      (codes "\nStep "
        ++ (decimal (i + 1)
            ++ (codes ":"
                ++ (part (codes "\n  Thought: ") step.thought
                    ++ (part (codes "\n  Action: ") step.action.name
                        ++ (if is_empty step.observation
                            then []
                            else codes "\n  Observation: "
                              ++ observation_text h zone_name step))))))
      ∷ step_texts h zone_name (i + 1) steps

  unfoldable pub build_block_text : HierarchicalStrategy → List Step → Text → Text
  unfolding step_texts
  build_block_text h steps zone_name = join [] (
      (codes "Summarize the following "
        ++ (decimal (length steps) ++ (codes " steps from the " ++ (zone_name ++ codes " zone:"))))
      ∷ step_texts h zone_name 0 steps)

  -- The text that is sent to the summarizer.
  unfoldable pub budgeted_text : HierarchicalStrategy → List Step → Text → Text
  unfolding build_block_text truncate_to_token_budget
  budgeted_text h block zone_name =
      let text = build_block_text h block zone_name in
      elim h.token_counter [
        | none ↦ text
        | some count ↦
            if ltb 0 h.max_summarize_tokens && ltb h.max_summarize_tokens (count text)
            then truncate_to_token_budget text h.max_summarize_tokens
            else text
      ]

  unfoldable pub summary_message :
      (Text → Summary) → HierarchicalStrategy → Text → List Step → Message
  unfolding budgeted_text
  summary_message summarizer h zone_name block =
      plain_message system (elim (summarizer (budgeted_text h block zone_name)) [
        | summarized text ↦ text
        | failing e ↦
            codes "["
            ++ (zone_name
                ++ (codes " zone: "
                    ++ (decimal (length block)
                        ++ (codes " steps summarized (error: " ++ (e ++ codes ")]")))))
      ])

  unfoldable pub summarize_blocks :
      (Text → Summary) → HierarchicalStrategy → Text → List (List Step) → List Message
  unfolding summary_message
  summarize_blocks summarizer h zone_name [] = []
  summarize_blocks summarizer h zone_name (block ∷ blocks) =
      summary_message summarizer h zone_name block ∷ summarize_blocks summarizer h zone_name blocks

  unfoldable pub summarize_zone :
      (Text → Summary) → HierarchicalStrategy → List Step → Text → ℕ → List Message
  unfolding summarize_blocks blocks_of
  summarize_zone summarizer h steps zone_name block_size =
      summarize_blocks summarizer h zone_name (blocks_of (length steps) block_size steps)

  unfoldable pub hierarchy_compact : HierarchicalStrategy → List Step → List Message
  unfolding summarize_zone zone_ends
  hierarchy_compact h steps =
      if leb (length steps) 5 then steps_to_messages steps else elim h.summarizer [
        | none ↦ steps_to_messages steps
        | some summarizer ↦
            let ends = zone_ends h (length steps) in
            summarize_zone summarizer h (take ends.0 steps) (codes "distant") 15
            ++ (summarize_zone summarizer h (take (ends.1 - ends.0) (drop ends.0 steps))
                  (codes "middle") 5
                ++ steps_to_messages (drop ends.1 steps))
      ]
