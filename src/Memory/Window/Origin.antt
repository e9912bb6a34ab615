-- ===== src/Memory/Window/Origin.antt =====
-- memory/context.go: the steps that the tool messages of a prompt come from.
use sp4rk.Base.{
  Text, List, [], ◌∷◌, ◌++◌, ℕ, zero, suc, ◌+◌, Bool, true, false, is_empty, ltb, if◌then◌else◌,
  length, drop, map, ◌≡◌, ◌≢◌, refl, sym, ap, ◌∙◌, subst, inl, inr, Bool-cases, Memᴰ, mem-append,
  mem-append_left, mem-append_right,
}
use sp4rk.Strutil.{trim_right, has_visible_content}
use sp4rk.Llm.Message.{tool, Message}
use sp4rk.Agent.Step.{Step}
use sp4rk.Memory.Steps.{is_nudge_only_step, group_of, after_group, last_step}
use sp4rk.Memory.Steps.Results.{group_of-after_group}
use sp4rk.Memory.Window.{ContextWindow}
use sp4rk.Memory.Window.Render.{
  build_nudge_msg, appended, build_assistant_msg, build_tool_msg, build_tool_msgs,
  build_grouped_messages, build_standalone_messages, build_from,
}

group_of-Memᴰ : (g : ℕ) (ss : List Step) {s : Step} → Memᴰ s (group_of g ss) → Memᴰ s ss
group_of-Memᴰ g ss {s} m =
    subst (λ l. Memᴰ s l) (group_of-after_group g ss)
      (mem-append_left (group_of g ss) (after_group g ss) m)

after_group-Memᴰ : (g : ℕ) (ss : List Step) {s : Step} → Memᴰ s (after_group g ss) → Memᴰ s ss
after_group-Memᴰ g ss {s} m =
    subst (λ l. Memᴰ s l) (group_of-after_group g ss)
      (mem-append_right (group_of g ss) (after_group g ss) m)

pub drop-Memᴰ : (n : ℕ) (ss : List Step) {s : Step} → Memᴰ s (drop n ss) → Memᴰ s ss
drop-Memᴰ zero ss m = m
drop-Memᴰ (suc n) [] m = m
drop-Memᴰ (suc n) (t ∷ ss) m = Memᴰ.tail (drop-Memᴰ n ss m)

pub map-Memᴰ :
    (f : Message → Message) (ms : List Message) {m : Message}
    → Memᴰ m (map f ms)
    → (m0 : Message) × Memᴰ m0 ms × (m ≡ f m0)
map-Memᴰ f [] m = elim m [ ]
map-Memᴰ f (x ∷ ms) (Memᴰ.head e) = (x, Memᴰ.head refl, e)
map-Memᴰ f (x ∷ ms) (Memᴰ.tail r) = let (m0, i, e) = map-Memᴰ f ms r in (m0, Memᴰ.tail i, e)

single-tool : (x : Message) {m : Message} → x.role ≢ tool → Memᴰ m (x ∷ []) → m.role ≢ tool
single-tool x n (Memᴰ.head e) = λ r. n (sym (ap (λ (y : Message). y.role) e) ∙ r)
single-tool x n (Memᴰ.tail m) = elim m [ ]

appended-tool :
    (nudge : Text) {m : Message} → Memᴰ m (appended (build_nudge_msg nudge)) → m.role ≢ tool
unfolding build_nudge_msg
appended-tool nudge i = elim (Bool-cases (has_visible_content nudge)) [
  | inl h ↦ single-tool _ (λ e. cc e) (rw h at i)
  | inr h ↦ elim (rw h at i) [ ]
]

in_group :
    (s : Step) (ss : List Step) {t : Step}
    → Memᴰ t (s ∷ group_of s.response_group ss)
    → Memᴰ t (s ∷ ss)
in_group s ss (Memᴰ.head e) = Memᴰ.head e
in_group s ss (Memᴰ.tail i) = Memᴰ.tail (group_of-Memᴰ s.response_group ss i)

only : (s : Step) (ss : List Step) {t : Step} → Memᴰ t (s ∷ []) → Memᴰ t (s ∷ ss)
only s ss (Memᴰ.head e) = Memᴰ.head e
only s ss (Memᴰ.tail i) = elim i [ ]

module _ {F : Type 0} (quote : Text → Text) (w : ContextWindow F) (protected : List ℕ) where
  -- The message that buildToolMsg gives for one of the steps, which has a call.
  pub record FromStep (ss : List Step) (m : Message) : Type 0 where
    pub step : Step
    pub is_step : Memᴰ step ss
    pub at : ℕ
    pub message_is : m ≡ build_tool_msg quote w step at protected
    pub called : is_empty step.action.id ≡ false

  pub FromStep-more :
      {ss ts : List Step} {m : Message}
      → FromStep ss m
      → ((s : Step) → Memᴰ s ss → Memᴰ s ts)
      → FromStep ts m
  FromStep-more f more = record {
    step = f.step;
    is_step = more f.step f.is_step;
    at = f.at;
    message_is = f.message_is;
    called = f.called;
  }

  from_head :
      (s : Step) (ss : List Step) (idx : ℕ) {rest : List Message} {m : Message}
      → is_empty s.action.id ≡ false
      → (Memᴰ m rest → FromStep ss m)
      → Memᴰ m (build_tool_msg quote w s idx protected ∷ rest)
      → FromStep (s ∷ ss) m
  from_head s ss idx h f (Memᴰ.head e) = record {
    step = s;
    is_step = Memᴰ.head refl;
    at = idx;
    message_is = e;
    called = h;
  }
  from_head s ss idx h f (Memᴰ.tail i) = FromStep-more (f i) (λ t j. Memᴰ.tail j)

  build_tool_msgs-FromStep :
      (idx : ℕ) (ss : List Step) {m : Message}
      → Memᴰ m (build_tool_msgs quote w protected idx ss)
      → FromStep ss m
  unfolding build_tool_msgs
  build_tool_msgs-FromStep idx [] i = elim i [ ]
  build_tool_msgs-FromStep idx (s ∷ ss) i = elim (Bool-cases (is_empty s.action.id)) [
    | inl e ↦ FromStep-more (build_tool_msgs-FromStep (suc idx) ss (rw e at i)) (λ t j. Memᴰ.tail j)
    | inr e ↦ from_head s ss idx e (build_tool_msgs-FromStep (suc idx) ss) (rw e at i)
  ]

  -- What follows an assistant message: tool messages and a nudge.
  after_assistant :
      (ss : List Step) (results : List Message) (nudge : Text) {m : Message}
      → ((Memᴰ m results) → FromStep ss m)
      → Memᴰ m (results ++ appended (build_nudge_msg nudge))
      → m.role ≡ tool
      → FromStep ss m
  after_assistant ss results nudge f i r = elim (mem-append results _ i) [
    | inl j ↦ f j
    | inr j ↦ absurd (appended-tool nudge j r)
  ]

  build_grouped_messages-FromStep :
      (idx : ℕ) (s : Step) (ss : List Step) {m : Message}
      → Memᴰ m (build_grouped_messages quote w protected idx s ss)
      → m.role ≡ tool
      → FromStep (s ∷ ss) m
  unfolding build_grouped_messages build_assistant_msg
  build_grouped_messages-FromStep idx s ss (Memᴰ.head e) r =
      absurd (single-tool _ (λ a. cc a) (Memᴰ.head e) r)
  build_grouped_messages-FromStep idx s ss (Memᴰ.tail i) r =
      after_assistant (s ∷ ss) (build_tool_msgs quote w protected idx (s ∷ ss))
        (last_step s ss).user_nudge (build_tool_msgs-FromStep idx (s ∷ ss)) i r

  own_result :
      (idx : ℕ) (s : Step) {m : Message}
      → Memᴰ m (if is_empty s.action.id then [] else build_tool_msg quote w s idx protected ∷ [])
      → FromStep (s ∷ []) m
  own_result idx s i = elim (Bool-cases (is_empty s.action.id)) [
    | inl e ↦ elim (rw e at i) [ ]
    | inr e ↦ from_head s [] idx e (λ j. elim j [ ]) (rw e at i)
  ]

  maybe-tool :
      (b : Bool) (x : Message) {m : Message}
      → x.role ≢ tool
      → Memᴰ m (if b then [] else x ∷ [])
      → m.role ≢ tool
  maybe-tool true x n i = elim i [ ]
  maybe-tool false x n i = single-tool x n i

  after_maybe :
      (b : Bool) (x : Message) (ss : List Step) (results : List Message) (nudge : Text)
      {m : Message}
      → x.role ≢ tool
      → (Memᴰ m results → FromStep ss m)
      → Memᴰ m ((if b then [] else x ∷ []) ++ (results ++ appended (build_nudge_msg nudge)))
      → m.role ≡ tool
      → FromStep ss m
  after_maybe b x ss results nudge n f i r = elim (mem-append (if b then [] else x ∷ []) _ i) [
    | inl j ↦ absurd (maybe-tool b x n j r)
    | inr j ↦ after_assistant ss results nudge f j r
  ]

  build_standalone_messages-FromStep :
      (idx : ℕ) (s : Step) {m : Message}
      → Memᴰ m (build_standalone_messages quote w protected idx s)
      → m.role ≡ tool
      → FromStep (s ∷ []) m
  unfolding build_standalone_messages build_assistant_msg
  build_standalone_messages-FromStep idx s i r =
      let calls = if is_empty s.action.id then [] else s.action ∷ [] in
      after_maybe
        (is_nudge_only_step s.thought s.reasoning_content s.reasoning_items calls
          (trim_right s.user_nudge))
        (build_assistant_msg s.thought s.reasoning_content s.reasoning_items calls) (s ∷ []) _
        s.user_nudge (λ a. cc a) (own_result idx s) i r

  pub build_from-FromStep :
      (fuel idx : ℕ) (ss : List Step) {m : Message}
      → Memᴰ m (build_from quote w protected fuel idx ss)
      → m.role ≡ tool
      → FromStep ss m
  unfolding build_from
  build_from-FromStep zero idx ss i r = elim i [ ]
  build_from-FromStep (suc fuel) idx [] i r = elim i [ ]
  build_from-FromStep (suc fuel) idx (s ∷ ss) i r = elim (Bool-cases (ltb 0 s.response_group)) [
    | inl g ↦
        let group = group_of s.response_group ss in
        elim (mem-append (build_grouped_messages quote w protected idx s group) _
          (rw (g, build_from) at i)) [
            | inl j ↦
                FromStep-more (build_grouped_messages-FromStep idx s group j r)
                  (λ t k. in_group s ss k)
            | inr j ↦
                FromStep-more
                  (build_from-FromStep fuel (suc (idx + length group))
                    (after_group s.response_group ss) j r)
                  (λ t k. Memᴰ.tail (after_group-Memᴰ s.response_group ss k))
          ]
    | inr g ↦
        elim (mem-append (build_standalone_messages quote w protected idx s) _
          (rw (g, build_from) at i)) [
            | inl j ↦
                FromStep-more (build_standalone_messages-FromStep idx s j r) (λ t k. only s ss k)
            | inr j ↦ FromStep-more (build_from-FromStep fuel (suc idx) ss j r) (λ t k. Memᴰ.tail k)
          ]
  ]
