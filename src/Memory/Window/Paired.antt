-- ===== src/Memory/Window/Paired.antt =====
-- memory/context.go: the tool calls and the tool results of a prompt, over the operations of a window.
use sp4rk.Base.{
  Text, List, [], ◌∷◌, ◌++◌, ℕ, zero, suc, ◌+◌, Bool, true, false, some, is_empty, ltb,
  if◌then◌else◌, length, drop, map, ℤ, ◌≡◌, ◌≢◌, refl, subst, inl, inr, Bool-cases, Option-cases,
}
use sp4rk.Strutil.{trim_right, has_visible_content}
use sp4rk.Llm.Message.{system, user, assistant, tool, Message}
use sp4rk.Agent.Step.{Step}
use sp4rk.Memory.Steps.{
  plain_message, is_nudge_only_step, tool_calls_of, last_step, group_of, after_group,
}
use sp4rk.Memory.Steps.Paired.{
  Answers, none_left, answer, IsPaired, done, alone, exchange, IsPaired-append, nudge_only-calls,
  Answers-nil,
}
use sp4rk.Prompt.{split_cache_break}
use sp4rk.Memory.Window.{Floats, ContextWindow, Strategy}
use sp4rk.Memory.Window.Protect.{compute_protected_indices}
use sp4rk.Memory.Window.Render.{
  build_nudge_msg, appended, build_assistant_msg, build_tool_msg, build_tool_msgs,
  build_grouped_messages, build_standalone_messages, build_from, build_step_messages,
  opening_messages, build_prompt,
}

-- A message without calls that is not a tool's.
alone-plain : (m : Message) → m.tool_calls ≡ [] → m.role ≢ tool → IsPaired (m ∷ [])
alone-plain m e n = alone m e n done

appended-IsPaired : (nudge : Text) → IsPaired (appended (build_nudge_msg nudge))
unfolding build_nudge_msg
appended-IsPaired nudge = elim (Bool-cases (has_visible_content nudge)) [
  | inl h ↦ rw h (alone (plain_message user (trim_right nudge)) refl (λ p. cc p) done)
  | inr h ↦ rw h done
]

-- The messages of a step whose assistant message is left out when there is no call.
silent-IsPaired :
    (b : Bool) (m : Message) (results rest : List Message)
    → (b ≡ true → m.tool_calls ≡ [])
    → m.role ≡ assistant
    → Answers m.tool_calls results
    → IsPaired rest
    → IsPaired ((if b then [] else m ∷ []) ++ (results ++ rest))
silent-IsPaired true m results rest n r a p =
    rw (Answers-nil (subst (λ cs. Answers cs results) (n refl) a)) p
silent-IsPaired false m results rest n r a p = exchange m results r a p

module _ {F : Type 0} (quote : Text → Text) (w : ContextWindow F) (protected : List ℕ) where
  build_tool_msgs-Answers :
      (idx : ℕ) (ss : List Step)
      → Answers (tool_calls_of ss) (build_tool_msgs quote w protected idx ss)
  unfolding tool_calls_of build_tool_msgs build_tool_msg
  build_tool_msgs-Answers idx [] = none_left
  build_tool_msgs-Answers idx (s ∷ ss) = elim (Bool-cases (is_empty s.action.id)) [
    | inl e ↦ rw e (build_tool_msgs-Answers (suc idx) ss)
    | inr e ↦ rw e (answer s.action _ refl refl (build_tool_msgs-Answers (suc idx) ss))
  ]

  build_grouped_messages-IsPaired :
      (idx : ℕ) (s : Step) (ss : List Step)
      → IsPaired (build_grouped_messages quote w protected idx s ss)
  unfolding build_grouped_messages build_assistant_msg
  build_grouped_messages-IsPaired idx s ss =
      exchange _ (build_tool_msgs quote w protected idx (s ∷ ss)) refl
        (build_tool_msgs-Answers idx (s ∷ ss)) (appended-IsPaired (last_step s ss).user_nudge)

  build_tool_msg-Answers :
      (idx : ℕ) (s : Step)
      → Answers
          (if is_empty s.action.id then [] else s.action ∷ [])
          (if is_empty s.action.id then [] else build_tool_msg quote w s idx protected ∷ [])
  unfolding build_tool_msg
  build_tool_msg-Answers idx s = elim (Bool-cases (is_empty s.action.id)) [
    | inl e ↦ rw e none_left
    | inr e ↦ rw e (answer s.action _ refl refl none_left)
  ]

  build_standalone_messages-IsPaired :
      (idx : ℕ) (s : Step) → IsPaired (build_standalone_messages quote w protected idx s)
  unfolding build_standalone_messages build_assistant_msg
  build_standalone_messages-IsPaired idx s =
      let calls = if is_empty s.action.id then [] else s.action ∷ [] in
      silent-IsPaired
        (is_nudge_only_step s.thought s.reasoning_content s.reasoning_items calls
          (trim_right s.user_nudge))
        (build_assistant_msg s.thought s.reasoning_content s.reasoning_items calls) _ _
        (λ h. nudge_only-calls s calls (trim_right s.user_nudge) h) refl
        (build_tool_msg-Answers idx s) (appended-IsPaired s.user_nudge)

  build_from-IsPaired :
      (fuel idx : ℕ) (ss : List Step) → IsPaired (build_from quote w protected fuel idx ss)
  unfolding build_from
  build_from-IsPaired zero idx ss = done
  build_from-IsPaired (suc fuel) idx [] = done
  build_from-IsPaired (suc fuel) idx (s ∷ ss) = elim (Bool-cases (ltb 0 s.response_group)) [
    | inl g ↦
        let group = group_of s.response_group ss in
        rw (g, build_from)
          (IsPaired-append (build_grouped_messages-IsPaired idx s group)
            (build_from-IsPaired fuel (suc (idx + length group)) (after_group s.response_group ss)))
    | inr g ↦
        rw (g, build_from)
          (IsPaired-append (build_standalone_messages-IsPaired idx s)
            (build_from-IsPaired fuel (suc idx) ss))
  ]

-- What makes the prompt of a window paired: its prior conversation, its frozen prefix, and the
-- output of its strategy are.
pub record Keeps {F : Type 0} (w : ContextWindow F) : Type 0 where
  pub prior : IsPaired w.prior_conversation
  pub frozen : (ms : List Message) → w.compacted_messages ≡ some ms → IsPaired ms
  pub strategies :
      (st : Strategy) (ss : List Step) (budget : ℤ) (ms : List Message)
      → w.strategy ≡ some st
      → st ss budget ≡ some ms
      → IsPaired ms

systems-IsPaired : (parts : List Text) → IsPaired (map (plain_message system) parts)
systems-IsPaired [] = done
systems-IsPaired (p ∷ parts) =
    alone (plain_message system p) refl (λ e. cc e) (systems-IsPaired parts)

if-IsPaired :
    (b : Bool) {xs ys : List Message} → IsPaired xs → IsPaired ys → IsPaired (if b then xs else ys)
if-IsPaired true p q = p
if-IsPaired false p q = q

module _ {F : Type 0} (quote : Text → Text) (floats : Floats F) (w : ContextWindow F) where
  opening_messages-IsPaired : IsPaired w.prior_conversation → IsPaired (opening_messages w)
  unfolding opening_messages
  opening_messages-IsPaired prior =
      IsPaired-append (systems-IsPaired (split_cache_break w.system_prompt)) (
        IsPaired-append prior (
          IsPaired-append
            (if-IsPaired _ (alone-plain _ refl (λ e. cc e)) (
              if-IsPaired _ (alone-plain (plain_message user w.task_content) refl (λ e. cc e))
                done))
            (if-IsPaired _ done
              (alone-plain (plain_message system w.plan_content) refl (λ e. cc e)))))

  build_step_messages-IsPaired : Keeps w → IsPaired (build_step_messages quote floats w)
  unfolding build_step_messages
  build_step_messages-IsPaired k =
      let protected = compute_protected_indices floats w in
      elim (Option-cases w.compacted_messages) [
        | inl n ↦
            rw (n, build_step_messages)
              (build_from-IsPaired quote w protected (length w.steps) 0 w.steps)
        | inr (ms, e) ↦
            let start = w.compacted_through_index in
            rw (e, build_step_messages)
              (IsPaired-append (k.frozen ms e)
                (build_from-IsPaired quote w protected (length w.steps) start (drop start w.steps)))
      ]

  pub build_prompt-IsPaired : Keeps w → IsPaired (build_prompt quote floats w)
  unfolding build_prompt
  build_prompt-IsPaired k = IsPaired-append (opening_messages-IsPaired k.prior) (
      IsPaired-append (build_step_messages-IsPaired k)
        (appended-IsPaired w.pending_user_interjection))
