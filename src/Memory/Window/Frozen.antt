-- ===== src/Memory/Window/Frozen.antt =====
-- memory/context.go: the boundary that wrapUntrustedInFrozenPrefix puts around the untrusted messages
-- of a frozen prefix.
use sp4rk.Base.{
  none, Text, List, [], ◌∷◌, true, false, ◌&&◌, ◌||◌, not, some, is_empty, is_some, map, ◌≡◌, refl,
  sym, ap, ◌∙◌, subst, arith, inl, inr, Bool-cases, Option-cases, Memᴰ, false≢true, text_eq_refl,
}
use sp4rk.Base.Map.{Map, lookup, insert, lookup-insert}
use sp4rk.Security.Wrap.{wrap_untrusted_content}
use sp4rk.Llm.Message.{tool, Message}
use sp4rk.Agent.Step.{Step}
use sp4rk.Memory.Window.{ContextWindow}
use sp4rk.Memory.Window.Ops.{wrap_message, untrusted_calls, wrap_untrusted_in_frozen_prefix}
use sp4rk.Memory.Window.Origin.{map-Memᴰ}

-- The content stands between the boundary tags.
pub record IsFenced (m : Message) : Type 0 where
  pub inside : Text
  pub source : Text
  pub content_is : m.content ≡ wrap_untrusted_content inside source []

-- The tool messages answer calls of the steps.
abbrev pub Answering : List Message → List Step → Type 0
Answering ms steps =
    (m : Message)
    → Memᴰ m ms
    → m.role ≡ tool
    → (s : Step) × Memᴰ s steps × (s.action.id ≡ m.tool_call_id) × (is_empty s.action.id ≡ false)

-- All the steps that made the call are untrusted.
abbrev pub Untrusted : Text → List Step → Type 0
Untrusted id steps = (s : Step) → Memᴰ s steps → s.action.id ≡ id → s.is_untrusted ≡ true

untrusted_calls-kept :
    (ss : List Step) (found : Map Text) (k : Text)
    → is_some (lookup k found) ≡ true
    → is_some (lookup k (untrusted_calls found ss)) ≡ true
unfolding untrusted_calls
untrusted_calls-kept [] found k h = h
untrusted_calls-kept (s ∷ ss) found k h =
    elim (Bool-cases (s.is_untrusted && not (is_empty s.action.id))) [
      | inl e ↦ rw e (
          untrusted_calls-kept ss (insert s.action.id s.action.name found) k
            (ground (arith, lookup-insert s.action.id k s.action.name found)))
      | inr e ↦ rw e (untrusted_calls-kept ss found k h)
    ]

untrusted_calls-Memᴰ :
    (ss : List Step) (found : Map Text) {s : Step}
    → Memᴰ s ss
    → s.is_untrusted ≡ true
    → is_empty s.action.id ≡ false
    → is_some (lookup s.action.id (untrusted_calls found ss)) ≡ true
unfolding untrusted_calls
untrusted_calls-Memᴰ [] found i u n = elim i [ ]
untrusted_calls-Memᴰ (t ∷ ss) found {s} (Memᴰ.head e) u n =
    rw (← e, u, n)
      (untrusted_calls-kept ss (insert s.action.id s.action.name found) s.action.id (
        ground (
          arith,
          lookup-insert s.action.id s.action.id s.action.name found,
          text_eq_refl s.action.id,
        )))
untrusted_calls-Memᴰ (t ∷ ss) found {s} (Memᴰ.tail i) u n =
    elim (Bool-cases (t.is_untrusted && not (is_empty t.action.id))) [
      | inl e ↦ rw e (untrusted_calls-Memᴰ ss (insert t.action.id t.action.name found) i u n)
      | inr e ↦ rw e (untrusted_calls-Memᴰ ss found i u n)
    ]

wrap_message-IsFenced :
    (untrusted : Map Text) (m : Message)
    → m.role ≡ tool
    → is_empty m.tool_call_id ≡ false
    → is_some (lookup m.tool_call_id untrusted) ≡ true
    → IsFenced (wrap_message untrusted m)
unfolding wrap_message
wrap_message-IsFenced untrusted m r n h = elim (Option-cases (lookup m.tool_call_id untrusted)) [
  | inl z ↦ absurd (false≢true (rw z at h))
  | inr (source, e) ↦
      rw (r, n, e) (record { inside = m.content; source = source; content_is = refl })
]

wrap_message-role : (untrusted : Map Text) (m : Message) → (wrap_message untrusted m).role ≡ m.role
unfolding wrap_message
wrap_message-role untrusted m = ground arith

wrap_message-call_id :
    (untrusted : Map Text) (m : Message) → (wrap_message untrusted m).tool_call_id ≡ m.tool_call_id
unfolding wrap_message
wrap_message-call_id untrusted m = ground arith

is_empty-lookup : (k : Text) (m : Map Text) → is_some (lookup k m) ≡ true → is_empty m ≡ false
unfolding lookup
is_empty-lookup k [] h = cc
is_empty-lookup k (b ∷ m) h = refl

module _ {F : Type 0} where
  -- Fields of a window whose prefix was wrapped.
  pub record Wrapped (w v : ContextWindow F) : Type 0 where
    pub steps_same : v.steps ≡ w.steps
    pub defense_same : v.injection_defense_enabled ≡ w.injection_defense_enabled

  pub wrap-Wrapped : (w : ContextWindow F) → Wrapped w (wrap_untrusted_in_frozen_prefix w)
  unfolding wrap_untrusted_in_frozen_prefix
  wrap-Wrapped w =
      elim (Bool-cases (not w.injection_defense_enabled || is_empty (untrusted_calls [] w.steps))) [
        | inl e ↦
            rw (e, wrap_untrusted_in_frozen_prefix)
              (record { steps_same = refl; defense_same = refl })
        | inr n ↦ elim (Option-cases w.compacted_messages) [
          | inl z ↦
              rw (n, z, wrap_untrusted_in_frozen_prefix)
                (record { steps_same = refl; defense_same = refl })
          | inr (ms, e) ↦
              rw (n, e, wrap_untrusted_in_frozen_prefix)
                (record { steps_same = refl; defense_same = refl })
        ]
      ]

  wrap-nil_same :
      (w : ContextWindow F)
      → (not w.injection_defense_enabled || is_empty (untrusted_calls [] w.steps)) ≡ false
      → w.compacted_messages ≡ none
      → wrap_untrusted_in_frozen_prefix w ≡ w
  unfolding wrap_untrusted_in_frozen_prefix
  wrap-nil_same w n z = simp (n, z) refl

  pub wrap-nil :
      (w : ContextWindow F)
      → w.compacted_messages ≡ none
      → (wrap_untrusted_in_frozen_prefix w).compacted_messages ≡ none
  unfolding wrap_untrusted_in_frozen_prefix
  wrap-nil w z =
      elim (Bool-cases (not w.injection_defense_enabled || is_empty (untrusted_calls [] w.steps))) [
        | inl e ↦ rw (e, wrap_untrusted_in_frozen_prefix) z
        | inr n ↦ subst (λ v. v.compacted_messages ≡ none) (sym (wrap-nil_same w n z)) z
      ]

  wrap-none :
      (w : ContextWindow F)
      → is_empty (untrusted_calls [] w.steps) ≡ true
      → (wrap_untrusted_in_frozen_prefix w).compacted_messages ≡ w.compacted_messages
  unfolding wrap_untrusted_in_frozen_prefix
  wrap-none w z = elim (Bool-cases w.injection_defense_enabled) [
    | inl d ↦ rw (d, z, wrap_untrusted_in_frozen_prefix) refl
    | inr d ↦ rw (d, wrap_untrusted_in_frozen_prefix) refl
  ]

  wrap-some :
      (w : ContextWindow F) (prefix : List Message)
      → w.injection_defense_enabled ≡ true
      → w.compacted_messages ≡ some prefix
      → is_empty (untrusted_calls [] w.steps) ≡ false
      → (wrap_untrusted_in_frozen_prefix w).compacted_messages
        ≡ some (map (wrap_message (untrusted_calls [] w.steps)) prefix)
  unfolding wrap_untrusted_in_frozen_prefix
  wrap-some w prefix d e z = rw (d, z, e, wrap_untrusted_in_frozen_prefix) refl

  answered-lookup :
      (w : ContextWindow F) (prefix : List Message) (x : Message)
      → Answering prefix w.steps
      → Untrusted x.tool_call_id w.steps
      → Memᴰ x prefix
      → x.role ≡ tool
      → (is_some (lookup x.tool_call_id (untrusted_calls [] w.steps)) ≡ true)
        × (is_empty x.tool_call_id ≡ false)
  answered-lookup w prefix x emits u i r =
      let (s, j, id, n) = emits x i r in
      (
        subst (λ k. is_some (lookup k (untrusted_calls [] w.steps)) ≡ true) id
            (untrusted_calls-Memᴰ w.steps [] j (u s j id) n),
        subst (λ k. is_empty k ≡ false) id n,
      )

  pub wrap-IsFenced :
      (w : ContextWindow F) (prefix : List Message) (m : Message) (ms : List Message)
      → w.injection_defense_enabled ≡ true
      → w.compacted_messages ≡ some prefix
      → Answering prefix w.steps
      → Untrusted m.tool_call_id w.steps
      → (wrap_untrusted_in_frozen_prefix w).compacted_messages ≡ some ms
      → Memᴰ m ms
      → m.role ≡ tool
      → IsFenced m
  wrap-IsFenced w prefix m ms d e emits u h i r =
      let untrusted = untrusted_calls [] w.steps in
      elim (Bool-cases (is_empty untrusted)) [
        | inl z ↦
            let both : some prefix ≡ some ms = sym e ∙ (sym (wrap-none w z) ∙ h) in
            let same : ms ≡ prefix = cc in
            let k = answered-lookup w prefix m emits u (subst (λ l. Memᴰ m l) same i) r in
            absurd (false≢true (sym (is_empty-lookup m.tool_call_id untrusted k.0) ∙ z))
        | inr z ↦
            let both : some (map (wrap_message untrusted) prefix) ≡ some ms =
              sym (wrap-some w prefix d e z) ∙ h in
            let same : ms ≡ map (wrap_message untrusted) prefix = cc in
            let (x, j, q) =
              map-Memᴰ (wrap_message untrusted) prefix (subst (λ l. Memᴰ m l) same i) in
            let id : m.tool_call_id ≡ x.tool_call_id =
              ap (λ (y : Message). y.tool_call_id) q ∙ wrap_message-call_id untrusted x in
            let role : x.role ≡ tool =
              sym (wrap_message-role untrusted x) ∙ (sym (ap (λ (y : Message). y.role) q) ∙ r) in
            let k = answered-lookup w prefix x emits (λ s a b. u s a (b ∙ sym id)) j role in
            subst IsFenced (sym q) (wrap_message-IsFenced untrusted x role k.1 k.0)
      ]
