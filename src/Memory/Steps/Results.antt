-- ===== src/Memory/Steps/Results.antt =====
-- memory/steps.go: the tool calls and the observations that a rendering carries.
use sp4rk.Base.{
  Text, List, [], ◌∷◌, ◌++◌, ℕ, zero, suc, ◌≤◌, Bool, true, false, is_empty, if◌then◌else◌, length,
  ltb, ◌==◌, ◌≡◌, refl, sym, ap, subst, ◌∙◌, arith, inl, inr, Bool-cases, append_assoc, append-nil,
}
use sp4rk.Strutil.{trim_right}
use sp4rk.Llm.Message.{Role, system, user, assistant, tool, ToolCall, Message}
use sp4rk.Agent.Step.{Step}
use sp4rk.Memory.Steps.{
  assistant_msg_from_step, is_nudge_only_step, tool_calls_of, tool_results, shown_observation,
  nudge_message, last_step, render_group, render_standalone, group_of, after_group, render_from,
  steps_to_messages,
}
use sp4rk.Memory.Steps.Paired.{render_standalone-render_group, nudge_only-calls}

-- The calls in a prompt, and what its tool messages answer, by call id.
abbrev pub calls_in : List Message → List ToolCall
calls_in [] = []
calls_in (m ∷ ms) = m.tool_calls ++ calls_in ms

abbrev pub is_tool : Role → Bool
is_tool tool = true
is_tool system = false
is_tool user = false
is_tool assistant = false

abbrev pub answers_in : List Message → List (Text × Text)
answers_in [] = []
answers_in (m ∷ ms) =
    if is_tool m.role then (m.tool_call_id, m.content) ∷ answers_in ms else answers_in ms

-- The observations of the steps that called a tool.
unfoldable pub observed : List Step → List (Text × Text)
observed [] = []
observed (s ∷ ss) =
    let rest = observed ss in
    if is_empty s.action.id then rest else (s.action.id, shown_observation s) ∷ rest

calls_in-append : (xs ys : List Message) → calls_in (xs ++ ys) ≡ calls_in xs ++ calls_in ys
calls_in-append [] ys = refl
calls_in-append (m ∷ ms) ys =
    rw (calls_in-append ms ys) (sym (append_assoc m.tool_calls (calls_in ms) (calls_in ys)))

answers_in-append : (xs ys : List Message) → answers_in (xs ++ ys) ≡ answers_in xs ++ answers_in ys
answers_in-append [] ys = refl
answers_in-append (m ∷ ms) ys = elim (Bool-cases (is_tool m.role)) [
  | inl e ↦ rw (e, answers_in-append ms ys) refl
  | inr e ↦ rw (e, answers_in-append ms ys) refl
]

tool_calls_of-append :
    (xs ys : List Step) → tool_calls_of (xs ++ ys) ≡ tool_calls_of xs ++ tool_calls_of ys
unfolding tool_calls_of
tool_calls_of-append [] ys = refl
tool_calls_of-append (s ∷ ss) ys = elim (Bool-cases (is_empty s.action.id)) [
  | inl e ↦ rw (e, tool_calls_of-append ss ys) refl
  | inr e ↦ rw (e, tool_calls_of-append ss ys) refl
]

observed-append : (xs ys : List Step) → observed (xs ++ ys) ≡ observed xs ++ observed ys
unfolding observed
observed-append [] ys = refl
observed-append (s ∷ ss) ys = elim (Bool-cases (is_empty s.action.id)) [
  | inl e ↦ rw (e, observed-append ss ys) refl
  | inr e ↦ rw (e, observed-append ss ys) refl
]

-- A list of messages with these calls and answers.
pub record Carries (calls : List ToolCall) (answers : List (Text × Text)) (ms : List Message)
    : Type 0 where
  pub calls_are : calls_in ms ≡ calls
  pub answers_are : answers_in ms ≡ answers

pub Carries-append :
    (c d : List ToolCall) (a b : List (Text × Text)) (xs ys : List Message)
    → Carries c a xs
    → Carries d b ys
    → Carries (c ++ d) (a ++ b) (xs ++ ys)
Carries-append c d a b xs ys p q = record {
  calls_are = calls_in-append xs ys ∙ rw (p.calls_are, q.calls_are) refl;
  answers_are = answers_in-append xs ys ∙ rw (p.answers_are, q.answers_are) refl;
}

tool_results-Carries : (ss : List Step) → Carries [] (observed ss) (tool_results ss)
unfolding tool_results observed
tool_results-Carries [] = record { calls_are = refl; answers_are = refl }
tool_results-Carries (s ∷ ss) =
    let rest = tool_results-Carries ss in
    elim (Bool-cases (is_empty s.action.id)) [
      | inl e ↦ rw e (tool_results-Carries ss)
      | inr e ↦ rw e (record {
        calls_are = rest.calls_are;
        answers_are = ap (λ l. (s.action.id, shown_observation s) ∷ l) rest.answers_are;
      })
    ]

nudge_message-Carries : (nudge : Text) → Carries [] [] (nudge_message nudge)
nudge_message-Carries [] = record { calls_are = refl; answers_are = refl }
nudge_message-Carries (c ∷ cs) = record { calls_are = refl; answers_are = refl }

head-Carries :
    (s : Step) (calls : List ToolCall) (nudge : Text)
    → Carries calls [] (
        if is_nudge_only_step s.thought s.reasoning_content s.reasoning_items calls nudge
        then []
        else assistant_msg_from_step s.thought s.reasoning_content s.reasoning_items calls ∷ [])
head-Carries s calls nudge =
    elim (Bool-cases
      (is_nudge_only_step s.thought s.reasoning_content s.reasoning_items calls nudge)) [
        | inl h ↦
            rw h (record { calls_are = sym (nudge_only-calls s calls nudge h); answers_are = refl })
        | inr h ↦ rw h (
            unfold assistant_msg_from_step in
            record { calls_are = append-nil calls; answers_are = refl })
      ]

render_group-Carries :
    (s : Step) (ss : List Step)
    → Carries (tool_calls_of (s ∷ ss)) (observed (s ∷ ss)) (render_group s ss)
unfolding render_group
render_group-Carries s ss =
    let nudge = trim_right (last_step s ss).user_nudge in
    let calls = tool_calls_of (s ∷ ss) in
    let tail =
      Carries-append [] [] (observed (s ∷ ss)) [] (tool_results (s ∷ ss)) (nudge_message nudge)
        (tool_results-Carries (s ∷ ss)) (nudge_message-Carries nudge) in
    let whole =
      Carries-append calls [] [] (observed (s ∷ ss) ++ []) _
        (tool_results (s ∷ ss) ++ nudge_message nudge) (head-Carries s calls nudge) tail in
    record {
      calls_are = whole.calls_are ∙ append-nil calls;
      answers_are = whole.answers_are ∙ append-nil (observed (s ∷ ss));
    }

pub group_of-after_group : (g : ℕ) (ss : List Step) → group_of g ss ++ after_group g ss ≡ ss
unfolding group_of after_group
group_of-after_group g [] = refl
group_of-after_group g (s ∷ ss) = elim (Bool-cases (s.response_group == g)) [
  | inl e ↦ rw e (ap (λ l. s ∷ l) (group_of-after_group g ss))
  | inr e ↦ rw e refl
]

length-after_group : (g : ℕ) (ss : List Step) → length (after_group g ss) ≤ length ss
unfolding after_group
length-after_group g [] = omega arith
length-after_group g (s ∷ ss) = elim (Bool-cases (s.response_group == g)) [
  | inl e ↦ rw e (omega (arith, length-after_group g ss))
  | inr e ↦ rw e (omega arith)
]

render_from-Carries :
    (fuel : ℕ) (ss : List Step)
    → length ss ≤ fuel
    → Carries (tool_calls_of ss) (observed ss) (render_from fuel ss)
unfolding render_from
render_from-Carries zero [] h =
    unfold tool_calls_of observed in record { calls_are = refl; answers_are = refl }
render_from-Carries zero (s ∷ ss) h = absurd (omega arith)
render_from-Carries (suc fuel) [] h =
    unfold tool_calls_of observed in record { calls_are = refl; answers_are = refl }
render_from-Carries (suc fuel) (s ∷ ss) h = elim (Bool-cases (ltb 0 s.response_group)) [
  | inl g ↦
      let first = group_of s.response_group ss in
      let later = after_group s.response_group ss in
      let split : (s ∷ first) ++ later ≡ s ∷ ss =
        ap (λ l. s ∷ l) (group_of-after_group s.response_group ss) in
      let whole =
        Carries-append (tool_calls_of (s ∷ first)) (tool_calls_of later) (observed (s ∷ first))
          (observed later) (render_group s first) (render_from fuel later)
          (render_group-Carries s first)
          (render_from-Carries fuel later
            (omega (arith, length-after_group s.response_group ss))) in
      rw (g, render_from)
        (record {
          calls_are =
              whole.calls_are
              ∙ (sym (tool_calls_of-append (s ∷ first) later) ∙ ap tool_calls_of split);
          answers_are =
              whole.answers_are ∙ (sym (observed-append (s ∷ first) later) ∙ ap observed split);
        })
  | inr g ↦
      let whole =
        Carries-append (tool_calls_of (s ∷ [])) (tool_calls_of ss) (observed (s ∷ [])) (observed ss)
          (render_standalone s) (render_from fuel ss)
          (subst (Carries (tool_calls_of (s ∷ [])) (observed (s ∷ [])))
            (sym (render_standalone-render_group s)) (render_group-Carries s []))
          (render_from-Carries fuel ss (omega arith)) in
      rw (g, render_from)
        (record {
          calls_are = whole.calls_are ∙ sym (tool_calls_of-append (s ∷ []) ss);
          answers_are = whole.answers_are ∙ sym (observed-append (s ∷ []) ss);
        })
]

-- The messages of a trajectory carry exactly the tool calls of its steps that have an id, in order,
-- and the tool messages answer exactly those with the observation of the step ("(no output)" for an
-- invisible one).
pub steps_to_messages-Carries :
    (steps : List Step) → Carries (tool_calls_of steps) (observed steps) (steps_to_messages steps)
unfolding steps_to_messages
steps_to_messages-Carries steps = render_from-Carries (length steps) steps (omega arith)
