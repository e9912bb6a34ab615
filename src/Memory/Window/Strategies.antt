-- ===== src/Memory/Window/Strategies.antt =====
-- memory/steps.go and memory/compaction_sliding.go: which calls the tool messages of a strategy
-- answer.
use sp4rk.Base.{
  Text, List, [], ◌∷◌, ℕ, ◌+◌, ◌-◌, some, Bool-cases, is_empty, leb, length, take, drop, ◌≡◌, refl,
  sym, ap, subst, inl, inr, arith, false, Memᴰ, mem-append, mem-append_left, take-append-drop,
  mem-append_right,
}
use sp4rk.Llm.Message.{tool, Message}
use sp4rk.Agent.Step.{Step}
use sp4rk.Memory.Steps.{steps_to_messages, shown_observation}
use sp4rk.Memory.Steps.Results.{answers_in, observed, steps_to_messages-Carries, is_tool}
use sp4rk.Memory.Sliding.{SlidingWindowStrategy, sliding_compact, sliding_compact-Carries}
use sp4rk.Memory.Window.{Strategy}
use sp4rk.Memory.Window.Frozen.{Answering}
use sp4rk.Memory.Window.Fenced.{EmitsCalls}

answers_in-Memᴰ :
    (ms : List Message) (m : Message)
    → Memᴰ m ms
    → m.role ≡ tool
    → Memᴰ (m.tool_call_id, m.content) (answers_in ms)
answers_in-Memᴰ [] m i r = elim i [ ]
answers_in-Memᴰ (x ∷ ms) m (Memᴰ.head e) r = rw (← e, r) (Memᴰ.head refl)
answers_in-Memᴰ (x ∷ ms) m (Memᴰ.tail i) r = elim (Bool-cases (is_tool x.role)) [
  | inl e ↦ rw e (Memᴰ.tail (answers_in-Memᴰ ms m i r))
  | inr e ↦ rw e (answers_in-Memᴰ ms m i r)
]

observed-head :
    (t : Step) (steps : List Step) (id content : Text)
    → is_empty t.action.id ≡ false
    → Memᴰ (id, content) ((t.action.id, shown_observation t) ∷ observed steps)
    → (Memᴰ (id, content) (observed steps)
        → (s : Step) × Memᴰ s steps × (s.action.id ≡ id) × (is_empty s.action.id ≡ false))
    → (s : Step) × Memᴰ s (t ∷ steps) × (s.action.id ≡ id) × (is_empty s.action.id ≡ false)
observed-head t steps id content n (Memᴰ.head e) rest =
    (t, Memᴰ.head refl, sym (ap (λ (p : Text × Text). p.0) e), n)
observed-head t steps id content n (Memᴰ.tail i) rest =
    let (s, j, q, k) = rest i in (s, Memᴰ.tail j, q, k)

observed-Memᴰ :
    (steps : List Step) (id content : Text)
    → Memᴰ (id, content) (observed steps)
    → (s : Step) × Memᴰ s steps × (s.action.id ≡ id) × (is_empty s.action.id ≡ false)
unfolding observed
observed-Memᴰ [] id content i = elim i [ ]
observed-Memᴰ (t ∷ steps) id content i = elim (Bool-cases (is_empty t.action.id)) [
  | inl e ↦ let (s, j, q, n) = observed-Memᴰ steps id content (rw e at i) in (s, Memᴰ.tail j, q, n)
  | inr e ↦ observed-head t steps id content e (rw e at i) (observed-Memᴰ steps id content)
]

-- Messages whose answers are those of the steps answer calls of them.
answers-Answering :
    (ms : List Message) (steps : List Step) → answers_in ms ≡ observed steps → Answering ms steps
answers-Answering ms steps e m i r =
    observed-Memᴰ steps m.tool_call_id m.content
      (subst (λ l. Memᴰ (m.tool_call_id, m.content) l) e (answers_in-Memᴰ ms m i r))

pub steps_to_messages-Answering : (steps : List Step) → Answering (steps_to_messages steps) steps
steps_to_messages-Answering steps =
    answers-Answering (steps_to_messages steps) steps (steps_to_messages-Carries steps).answers_are

-- The sliding window as the strategy of a context window.
abbrev pub sliding : SlidingWindowStrategy → Strategy
sliding s steps budget = some (sliding_compact s steps)

window-Memᴰ : (n : ℕ) (steps : List Step) {s : Step} → Memᴰ s (take n steps) → Memᴰ s steps
window-Memᴰ n steps {s} i = subst (λ l. Memᴰ s l) (take-append-drop n steps) (mem-append_left _ _ i)

end-Memᴰ : (n : ℕ) (steps : List Step) {s : Step} → Memᴰ s (drop n steps) → Memᴰ s steps
end-Memᴰ n steps {s} i =
    subst (λ l. Memᴰ s l) (take-append-drop n steps) (mem-append_right (take n steps) _ i)

sliding_compact-Answering :
    (s : SlidingWindowStrategy) (steps : List Step) → Answering (sliding_compact s steps) steps
sliding_compact-Answering s steps m i r =
    elim (Bool-cases (leb (length steps) (s.keep_first + s.keep_last))) [
      | inl h ↦
          steps_to_messages-Answering steps m
            (unfold sliding_compact in rw (h, sliding_compact) at i) r
      | inr h ↦
          let carries = sliding_compact-Carries s steps (ground arith) in
          let pair : Text × Text = (m.tool_call_id, m.content) in
          let at = subst (λ l. Memᴰ pair l) carries.answers_are (answers_in-Memᴰ _ m i r) in
          elim (mem-append (observed (take s.keep_first steps)) _ at) [
            | inl j ↦
                let (t, k, q, n) = observed-Memᴰ (take s.keep_first steps) _ m.content j in
                (t, window-Memᴰ s.keep_first steps k, q, n)
            | inr j ↦
                let (t, k, q, n) =
                  observed-Memᴰ (drop (length steps - s.keep_last) steps) _ m.content j in
                (t, end-Memᴰ (length steps - s.keep_last) steps k, q, n)
          ]
    ]

-- The tool messages of the sliding window answer calls of the steps that it is given.
pub sliding-EmitsCalls : (s : SlidingWindowStrategy) → EmitsCalls (sliding s)
sliding-EmitsCalls s steps budget ms e =
    let same : sliding_compact s steps ≡ ms = cc in
    subst (λ l. Answering l steps) same (sliding_compact-Answering s steps)
