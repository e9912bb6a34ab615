-- ===== src/Memory/Sliding.antt =====
-- memory/compaction_sliding.go: Compact. The two numbers of the strategy are what the constructor
-- leaves, clamped at 0.
use sp4rk.Base.{
  List, ◌∷◌, ◌++◌, ℕ, ◌+◌, ◌-◌, ◌<◌, false, leb, if◌then◌else◌, length, take, drop, codes, decimal,
  ◌≡◌, refl, arith, inl, inr, Bool-cases,
}
use sp4rk.Llm.Message.{system, Message}
use sp4rk.Agent.Step.{Step}
use sp4rk.Memory.Steps.{plain_message, tool_calls_of, steps_to_messages}
use sp4rk.Memory.Steps.Paired.{IsPaired, alone, IsPaired-append, steps_to_messages-IsPaired}
use sp4rk.Memory.Steps.Results.{Carries, Carries-append, observed, steps_to_messages-Carries}

pub record SlidingWindowStrategy : Type 0 where
  pub keep_first : ℕ
  pub keep_last : ℕ

abbrev omitted_message : ℕ → Message
omitted_message n =
    plain_message system (codes "[... " ++ (decimal n ++ codes " steps omitted ...]"))

unfoldable pub sliding_compact : SlidingWindowStrategy → List Step → List Message
sliding_compact s steps =
    if leb (length steps) (s.keep_first + s.keep_last)
    then steps_to_messages steps
    else steps_to_messages (take s.keep_first steps)
      ++ (omitted_message (length steps - s.keep_first - s.keep_last)
          ∷ steps_to_messages (drop (length steps - s.keep_last) steps))

-- Compaction to a window keeps every tool call that is left answered, right after it.
pub sliding_compact-IsPaired :
    (s : SlidingWindowStrategy) (steps : List Step) → IsPaired (sliding_compact s steps)
unfolding sliding_compact
sliding_compact-IsPaired s steps =
    elim (Bool-cases (leb (length steps) (s.keep_first + s.keep_last))) [
      | inl h ↦ rw h (steps_to_messages-IsPaired steps)
      | inr h ↦ rw h (
          IsPaired-append (steps_to_messages-IsPaired (take s.keep_first steps)) (
            alone _ refl (λ p. cc p)
              (steps_to_messages-IsPaired (drop (length steps - s.keep_last) steps))))
    ]

-- Of a trajectory that is longer than the window, the calls and observations of its first and of
-- its last steps are kept, as many as the strategy says, and no others.
pub sliding_compact-Carries :
    (s : SlidingWindowStrategy) (steps : List Step)
    → s.keep_first + s.keep_last < length steps
    → Carries
        (tool_calls_of (take s.keep_first steps)
          ++ tool_calls_of (drop (length steps - s.keep_last) steps))
        (observed (take s.keep_first steps) ++ observed (drop (length steps - s.keep_last) steps))
        (sliding_compact s steps)
unfolding sliding_compact
sliding_compact-Carries s steps h =
    let long : leb (length steps) (s.keep_first + s.keep_last) ≡ false = ground arith in
    let last = steps_to_messages-Carries (drop (length steps - s.keep_last) steps) in
    rw long (
      Carries-append _ _ _ _ _ _ (steps_to_messages-Carries (take s.keep_first steps))
        (record { calls_are = last.calls_are; answers_are = last.answers_are }))
