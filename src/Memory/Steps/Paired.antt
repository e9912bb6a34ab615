-- ===== src/Memory/Steps/Paired.antt =====
-- memory/steps.go: how the tool calls and the tool results of a rendering stand to each other.
use sp4rk.Base.{
  Text, List, [], ◌∷◌, ◌++◌, ℕ, zero, suc, true, is_empty, if◌then◌else◌, length, ltb, ◌≡◌, ◌≢◌,
  refl, sym, subst, arith, inl, inr, Bool-cases, append_assoc, map, ◌∙◌,
}
use sp4rk.Strutil.{trim_right}
use sp4rk.Llm.Message.{user, assistant, tool, ToolCall, Message}
use sp4rk.Agent.Step.{Step}
use sp4rk.Memory.Steps.{
  plain_message, assistant_msg_from_step, is_nudge_only_step, tool_calls_of, tool_results,
  nudge_message, last_step, render_group, render_standalone, group_of, after_group, render_from,
  steps_to_messages,
}

-- The results are tool messages that answer the calls, one each and in their order.
pub data Answers : List ToolCall → List Message → Type 0 where
  none_left : Answers [] []
  answer :
      (c : ToolCall) (m : Message) {cs : List ToolCall} {ms : List Message}
      → m.role ≡ tool
      → m.tool_call_id ≡ c.id
      → Answers cs ms
      → Answers (c ∷ cs) (m ∷ ms)

-- What a model's interface accepts: the calls of an assistant message are answered right after it,
-- and there are no other tool messages.
pub data IsPaired : List Message → Type 0 where
  done : IsPaired []
  alone :
      (m : Message) {ms : List Message}
      → m.tool_calls ≡ []
      → m.role ≢ tool
      → IsPaired ms
      → IsPaired (m ∷ ms)
  exchange :
      (m : Message) (results : List Message) {ms : List Message}
      → m.role ≡ assistant
      → Answers m.tool_calls results
      → IsPaired ms
      → IsPaired (m ∷ (results ++ ms))

pub IsPaired-append : {xs ys : List Message} → IsPaired xs → IsPaired ys → IsPaired (xs ++ ys)
IsPaired-append done q = q
IsPaired-append (alone m e n p) q = alone m e n (IsPaired-append p q)
IsPaired-append {ys = ys} (exchange m results {ms} e a p) q =
    subst (λ zs. IsPaired (m ∷ zs)) (sym (append_assoc results ms ys))
      (exchange m results e a (IsPaired-append p q))

-- Messages that differ in their content only.
pub record SameShape (f : Message → Message) : Type 0 where
  pub roles : (m : Message) → (f m).role ≡ m.role
  pub calls : (m : Message) → (f m).tool_calls ≡ m.tool_calls
  pub call_ids : (m : Message) → (f m).tool_call_id ≡ m.tool_call_id

map-Answers :
    {f : Message → Message} {cs : List ToolCall} {ms : List Message}
    → SameShape f
    → Answers cs ms
    → Answers cs (map f ms)
map-Answers h none_left = none_left
map-Answers {f} h (answer c m r i a) =
    answer c (f m) (h.roles m ∙ r) (h.call_ids m ∙ i) (map-Answers h a)

map-append :
    (f : Message → Message) (xs ys : List Message) → map f (xs ++ ys) ≡ map f xs ++ map f ys
map-append f [] ys = refl
map-append f (x ∷ xs) ys = rw (map-append f xs ys) refl

pub map-IsPaired :
    {f : Message → Message} {ms : List Message} → SameShape f → IsPaired ms → IsPaired (map f ms)
map-IsPaired h done = done
map-IsPaired {f} h (alone m e n p) =
    alone (f m) (h.calls m ∙ e) (λ r. n (sym (h.roles m) ∙ r)) (map-IsPaired h p)
map-IsPaired {f} h (exchange m results {ms} r a p) = rw (map-append f results ms) (
    exchange (f m) (map f results) (h.roles m ∙ r)
      (subst (λ cs. Answers cs (map f results)) (sym (h.calls m)) (map-Answers h a))
      (map-IsPaired h p))

tool_results-Answers : (ss : List Step) → Answers (tool_calls_of ss) (tool_results ss)
unfolding tool_calls_of tool_results
tool_results-Answers [] = none_left
tool_results-Answers (s ∷ ss) = elim (Bool-cases (is_empty s.action.id)) [
  | inl e ↦ rw e (tool_results-Answers ss)
  | inr e ↦ rw e (answer s.action _ refl refl (tool_results-Answers ss))
]

nudge_message-IsPaired : (nudge : Text) → IsPaired (nudge_message nudge)
nudge_message-IsPaired [] = done
nudge_message-IsPaired (c ∷ cs) = alone (plain_message user (c ∷ cs)) refl (λ p. cc p) done

-- Without calls there are no results.
pub Answers-nil : {ms : List Message} → Answers [] ms → ms ≡ []
Answers-nil none_left = refl

pub nudge_only-calls :
    (s : Step) (calls : List ToolCall) (nudge : Text)
    → is_nudge_only_step s.thought s.reasoning_content s.reasoning_items calls nudge ≡ true
    → calls ≡ []
unfolding is_nudge_only_step
nudge_only-calls s [] nudge h = refl
nudge_only-calls s (c ∷ cs) nudge h = absurd (ground arith)

-- The messages of one response, for any calls and their results.
response-IsPaired :
    (s : Step) (calls : List ToolCall) (results : List Message) (nudge : Text)
    → Answers calls results
    → IsPaired (
        (if is_nudge_only_step s.thought s.reasoning_content s.reasoning_items calls nudge
          then []
          else assistant_msg_from_step s.thought s.reasoning_content s.reasoning_items calls ∷ [])
        ++ (results ++ nudge_message nudge))
response-IsPaired s calls results nudge a =
    elim (Bool-cases
      (is_nudge_only_step s.thought s.reasoning_content s.reasoning_items calls nudge)) [
        | inl h ↦
            let none : results ≡ [] =
              Answers-nil (subst (λ cs. Answers cs results) (nudge_only-calls s calls nudge h) a) in
            rw (h, none) (nudge_message-IsPaired nudge)
        | inr h ↦ rw h (
            unfold assistant_msg_from_step in
            exchange _ results refl a (nudge_message-IsPaired nudge))
      ]

render_group-IsPaired : (s : Step) (ss : List Step) → IsPaired (render_group s ss)
unfolding render_group
render_group-IsPaired s ss =
    response-IsPaired s (tool_calls_of (s ∷ ss)) (tool_results (s ∷ ss))
      (trim_right (last_step s ss).user_nudge) (tool_results-Answers (s ∷ ss))

-- A step of its own is rendered like a response with one call.
pub render_standalone-render_group : (s : Step) → render_standalone s ≡ render_group s []
unfolding render_standalone render_group tool_calls_of tool_results
render_standalone-render_group s = refl

pub render_from-IsPaired : (fuel : ℕ) (ss : List Step) → IsPaired (render_from fuel ss)
unfolding render_from
render_from-IsPaired zero ss = done
render_from-IsPaired (suc fuel) [] = done
render_from-IsPaired (suc fuel) (s ∷ ss) = elim (Bool-cases (ltb 0 s.response_group)) [
  | inl g ↦
      rw (g, render_from)
        (IsPaired-append (render_group-IsPaired s (group_of s.response_group ss))
          (render_from-IsPaired fuel (after_group s.response_group ss)))
  | inr g ↦
      rw (g, render_from)
        (IsPaired-append
          (subst IsPaired (sym (render_standalone-render_group s)) (render_group-IsPaired s []))
          (render_from-IsPaired fuel ss))
]

-- In the messages of any trajectory, the tool calls of an assistant message are answered right
-- after it, one result each and in their order, and there is no other tool message.
pub steps_to_messages-IsPaired : (steps : List Step) → IsPaired (steps_to_messages steps)
unfolding steps_to_messages
steps_to_messages-IsPaired steps = render_from-IsPaired (length steps) steps
