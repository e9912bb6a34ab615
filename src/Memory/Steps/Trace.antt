-- ===== src/Memory/Steps/Trace.antt =====
-- memory/steps.go: the calls and the observations of a trajectory, told from its steps alone, and the
-- messages of stepsToMessages.
use sp4rk.Base.{
  Text, List, [], ◌∷◌, ◌++◌, ℕ, true, false, ◌==◌, is_empty, codes, All, ◌≡◌, ◌≢◌, refl, sym, ap,
  subst, arith, Memᴰ, inl, inr, ◌⊎◌, Bool-cases,
}
use sp4rk.Strutil.{trim_right, contains, invisible_trim_set}
use sp4rk.Llm.Message.{ToolCall}
use sp4rk.Agent.Step.{Step}
use sp4rk.Memory.Steps.{tool_calls_of, shown_observation, steps_to_messages}
use sp4rk.Memory.Steps.Results.{calls_in, answers_in, observed, steps_to_messages-Carries}

abbrev pub Invisible : ℕ → Type 0
Invisible c = Memᴰ c invisible_trim_set

-- What is shown of an observation: its text up to the last visible character, or a note.
pub data Shown (observation : Text) : Text → Type 0 where
  visible :
      (front : Text) (c : ℕ) (tail : Text)
      → observation ≡ (front ++ (c ∷ [])) ++ tail
      → ¬ Invisible c
      → All Invisible tail
      → Shown observation (front ++ (c ∷ []))
  blank : All Invisible observation → Shown observation (codes "(no output)")

-- The calls of the steps that have an id, and what is shown of the observation of each.
pub data Trace : List Step → List ToolCall → List (Text × Text) → Type 0 where
  done : Trace [] [] []
  silent :
      {s : Step} {ss : List Step} {calls : List ToolCall} {answers : List (Text × Text)}
      → s.action.id ≡ []
      → Trace ss calls answers
      → Trace (s ∷ ss) calls answers
  called :
      {s : Step} {ss : List Step} {calls : List ToolCall} {answers : List (Text × Text)} {t : Text}
      → s.action.id ≢ []
      → Shown s.observation t
      → Trace ss calls answers
      → Trace (s ∷ ss) (s.action ∷ calls) ((s.action.id, t) ∷ answers)

contains-mem : (c : ℕ) (s : Text) → contains c s ≡ true → Memᴰ c s
unfolding contains
contains-mem c [] h = cc
contains-mem c (d ∷ s) h = elim (Bool-cases (c == d)) [
  | inl e ↦ Memᴰ.head (ground arith)
  | inr n ↦ Memᴰ.tail (contains-mem c s (ground arith))
]

mem-contains : (c : ℕ) (s : Text) → Memᴰ c s → contains c s ≡ true
unfolding contains
mem-contains c [] m = elim m [ ]
mem-contains c (d ∷ s) (Memᴰ.head e) = ground arith
mem-contains c (d ∷ s) (Memᴰ.tail m) = ground (arith, mem-contains c s m)

is_empty-snoc : (t : Text) (c : ℕ) → is_empty (t ++ (c ∷ [])) ≡ false
is_empty-snoc [] c = refl
is_empty-snoc (d ∷ t) c = refl

is_empty-nil : (t : Text) → is_empty t ≡ true → t ≡ []
is_empty-nil [] h = refl
is_empty-nil (c ∷ t) h = cc

-- A text that is trimmed up to its last visible character.
record Trimmed (s : Text) : Type 0 where
  front : Text
  last : ℕ
  tail : Text
  parts : s ≡ (front ++ (last ∷ [])) ++ tail
  seen : ¬ Invisible last
  unseen : All Invisible tail
  trimmed : trim_right s ≡ front ++ (last ∷ [])

trim_right-cases : (s : Text) → ((trim_right s ≡ []) × All Invisible s) ⊎ Trimmed s
unfolding trim_right
trim_right-cases [] = inl (refl, tt)
trim_right-cases (c ∷ s) = elim (trim_right-cases s) [
  | inl (e, a) ↦ elim (Bool-cases (contains c invisible_trim_set)) [
    | inl y ↦ inl (rw (e, y) refl, (contains-mem c invisible_trim_set y, a))
    | inr n ↦ inr (record {
      front = [];
      last = c;
      tail = s;
      parts = refl;
      seen = λ m. cc (n, mem-contains c invisible_trim_set m);
      unseen = a;
      trimmed = rw (e, n) refl;
    })
  ]
  | inr t ↦ inr (record {
    front = c ∷ t.front;
    last = t.last;
    tail = t.tail;
    parts = ap (λ r. c ∷ r) t.parts;
    seen = t.seen;
    unseen = t.unseen;
    trimmed = rw (t.trimmed, is_empty-snoc t.front t.last) refl;
  })
]

pub shown_observation-Shown : (s : Step) → Shown s.observation (shown_observation s)
unfolding shown_observation
shown_observation-Shown s = elim (trim_right-cases s.observation) [
  | inl (e, a) ↦ rw (e, shown_observation) (blank a)
  | inr t ↦
      let same : shown_observation s ≡ t.front ++ (t.last ∷ []) =
        rw (t.trimmed, is_empty-snoc t.front t.last, shown_observation) refl in
      subst (Shown s.observation) (sym same) (visible t.front t.last t.tail t.parts t.seen t.unseen)
]

observed-Trace : (ss : List Step) → Trace ss (tool_calls_of ss) (observed ss)
unfolding tool_calls_of observed
observed-Trace [] = done
observed-Trace (s ∷ ss) = elim (Bool-cases (is_empty s.action.id)) [
  | inl e ↦ rw e (silent (is_empty-nil s.action.id e) (observed-Trace ss))
  | inr e ↦
      let named : s.action.id ≢ [] = λ p. cc (e, ap is_empty p) in
      rw e (called named (shown_observation-Shown s) (observed-Trace ss))
]

-- The tool calls in the messages of a trajectory are those of its steps that have an id, in order,
-- and the tool messages answer exactly those, each with the observation of its step up to the last
-- visible character, or with "(no output)" where it has none.
pub steps_to_messages-Trace :
    (steps : List Step)
    → Trace steps (calls_in (steps_to_messages steps)) (answers_in (steps_to_messages steps))
steps_to_messages-Trace steps =
    let carries = steps_to_messages-Carries steps in
    rw (carries.calls_are, carries.answers_are) (observed-Trace steps)
