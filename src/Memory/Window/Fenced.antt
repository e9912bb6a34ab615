-- ===== src/Memory/Window/Fenced.antt =====
-- memory/context.go and security/wrap.go: the boundary around untrusted tool output in a prompt,
-- before a compaction and after it.
use sp4rk.Base.{
  Option, Text, List, [], ◌∷◌, ◌++◌, ℕ, true, false, none, some, is_empty, length, drop, ℤ, ◌≡◌,
  refl, sym, ap, ◌∙◌, subst, inl, inr, Option-cases, Memᴰ, mem-append, append_assoc, append-nil,
  mem-append_left,
}
use sp4rk.Llm.Message.{tool, Message}
use sp4rk.Llm.Tracker.{ContextTokenTracker, correct}
use sp4rk.Agent.Step.{Step}
use sp4rk.Memory.Window.{Floats, ContextWindow, Strategy, effective_max}
use sp4rk.Memory.Window.Protect.{compute_protected_indices}
use sp4rk.Memory.Window.Render.{build_tool_msg, build_step_messages, kept_observation}
use sp4rk.Memory.Window.Ops.{
  freeze, with_prefix, compact_with, CompactionResult, compact, estimated_total, add_step,
}
use sp4rk.Memory.Window.Origin.{FromStep, build_from-FromStep, drop-Memᴰ}
use sp4rk.Memory.Window.Frozen.{
  IsFenced, Answering, Untrusted, Wrapped, wrap-Wrapped, wrap-nil, wrap-IsFenced,
}

module _ {F : Type 0} (quote : Text → Text) where
  build_tool_msg-IsFenced :
      (w : ContextWindow F) (s : Step) (idx : ℕ) (protected : List ℕ)
      → w.injection_defense_enabled ≡ true
      → s.is_untrusted ≡ true
      → IsFenced (build_tool_msg quote w s idx protected)
  unfolding build_tool_msg
  build_tool_msg-IsFenced w s idx protected d u =
      rw (d, u)
        (record {
          inside = kept_observation quote w s idx protected;
          source = s.action.name;
          content_is = refl;
        })

  build_tool_msg-id :
      (w : ContextWindow F) (s : Step) (idx : ℕ) (protected : List ℕ)
      → (build_tool_msg quote w s idx protected).tool_call_id ≡ s.action.id
  unfolding build_tool_msg
  build_tool_msg-id w s idx protected = refl

  FromStep-IsFenced :
      (w : ContextWindow F) (protected : List ℕ) (ss : List Step) (m : Message)
      → w.injection_defense_enabled ≡ true
      → FromStep quote w protected ss m
      → Untrusted m.tool_call_id ss
      → IsFenced m
  FromStep-IsFenced w protected ss m d f u =
      let id : f.step.action.id ≡ m.tool_call_id = sym (
        ap (λ (y : Message). y.tool_call_id) f.message_is
        ∙ build_tool_msg-id w f.step f.at protected) in
      subst IsFenced (sym f.message_is)
        (build_tool_msg-IsFenced w f.step f.at protected d (u f.step f.is_step id))

  -- The tail is fenced, so the prompt is if the prefix is.
  build_step_messages-IsFenced :
      (floats : Floats F) (w : ContextWindow F) (m : Message)
      → w.injection_defense_enabled ≡ true
      → m.role ≡ tool
      → Untrusted m.tool_call_id w.steps
      → ((ms : List Message) → w.compacted_messages ≡ some ms → Memᴰ m ms → IsFenced m)
      → Memᴰ m (build_step_messages quote floats w)
      → IsFenced m
  unfolding build_step_messages
  build_step_messages-IsFenced floats w m d r u frozen i =
      let protected = compute_protected_indices floats w in
      let fuel = length w.steps in
      elim (Option-cases w.compacted_messages) [
        | inl n ↦
            FromStep-IsFenced w protected w.steps m d
              (build_from-FromStep quote w protected fuel 0 w.steps
                (rw (n, build_step_messages) at i) r)
              u
        | inr (ms, e) ↦
            let tail = drop w.compacted_through_index w.steps in
            elim (mem-append ms _ (rw (e, build_step_messages) at i)) [
              | inl j ↦ frozen ms e j
              | inr j ↦
                  FromStep-IsFenced w protected tail m d
                    (build_from-FromStep quote w protected fuel w.compacted_through_index tail j r)
                    (λ s k. u s (drop-Memᴰ w.compacted_through_index w.steps k))
            ]
      ]

-- Steps that are added one after the other.
unfoldable pub add_steps : {F : Type 0} → List Step → ContextWindow F → ContextWindow F
unfolding add_step
add_steps [] w = w
add_steps (s ∷ ss) w = add_steps ss (add_step s w)

module _ {F : Type 0} where
  add_steps-steps : (ss : List Step) (w : ContextWindow F) → (add_steps ss w).steps ≡ w.steps ++ ss
  unfolding add_steps add_step
  add_steps-steps [] w = sym (append-nil w.steps)
  add_steps-steps (s ∷ ss) w = add_steps-steps ss (add_step s w) ∙ append_assoc w.steps (s ∷ []) ss

  add_steps-compacted :
      (ss : List Step) (w : ContextWindow F)
      → (add_steps ss w).compacted_messages ≡ w.compacted_messages
  unfolding add_steps add_step
  add_steps-compacted [] w = refl
  add_steps-compacted (s ∷ ss) w = add_steps-compacted ss (add_step s w)

  add_steps-defense :
      (ss : List Step) (w : ContextWindow F)
      → (add_steps ss w).injection_defense_enabled ≡ w.injection_defense_enabled
  unfolding add_steps add_step
  add_steps-defense [] w = refl
  add_steps-defense (s ∷ ss) w = add_steps-defense ss (add_step s w)

-- The tool messages of a strategy answer calls of the steps that it was given.
abbrev pub EmitsCalls : Strategy → Type 0
EmitsCalls st =
    (steps : List Step) (budget : ℤ) (ms : List Message)
    → st steps budget ≡ some ms
    → Answering ms steps

module _ {F : Type 0} (floats : Floats F) (w : ContextWindow F) (st : Strategy) where
  compact_with-freeze :
      is_empty w.steps ≡ false
      → (t : ContextTokenTracker) × ((compact_with floats st w).0
          ≡ record (freeze st w) { tracker = t })
  unfolding compact_with
  compact_with-freeze z =
      let t = correct (estimated_total (freeze st w)) (freeze st w).tracker in
      (t, rw (z, compact_with) refl)

  compact-compact_with : w.strategy ≡ some st → compact floats w ≡ compact_with floats st w
  unfolding compact
  compact-compact_with e =
      ap (λ (o : Option Strategy). elim o [ none ↦ (w, none) | some s ↦ compact_with floats s w ]) e

  freeze-Wrapped :
      (t : ContextTokenTracker) → Wrapped (with_prefix st w) (record (freeze st w) { tracker = t })
  unfolding freeze
  freeze-Wrapped t =
      let wrapped = wrap-Wrapped (with_prefix st w) in
      record { steps_same = wrapped.steps_same; defense_same = wrapped.defense_same }

  freeze-IsFenced :
      (m : Message) (ms : List Message)
      → w.injection_defense_enabled ≡ true
      → EmitsCalls st
      → Untrusted m.tool_call_id w.steps
      → (freeze st w).compacted_messages ≡ some ms
      → Memᴰ m ms
      → m.role ≡ tool
      → IsFenced m
  unfolding freeze
  freeze-IsFenced m ms d emits u h i r = elim (Option-cases (st w.steps (effective_max w))) [
    | inl n ↦ let nil : none ≡ some ms = sym (wrap-nil (with_prefix st w) n) ∙ h in absurd cc
    | inr (prefix, p) ↦
        wrap-IsFenced (with_prefix st w) prefix m ms d p (emits w.steps _ prefix p) u h i r
  ]

  -- With the injection defense on, the tool messages of a prompt that answer untrusted steps stand
  -- between the boundary tags: those of the prefix that a compaction froze, and those of the steps
  -- that were added after it. The strategy's tool messages answer calls of the steps it was given,
  -- and the steps with the message's call id are all untrusted.
  pub compact-IsFenced :
      (quote : Text → Text) (ss : List Step) (m : Message)
      → w.injection_defense_enabled ≡ true
      → w.strategy ≡ some st
      → EmitsCalls st
      → is_empty w.steps ≡ false
      → Untrusted m.tool_call_id (w.steps ++ ss)
      → Memᴰ m (build_step_messages quote floats (add_steps ss (compact floats w).0))
      → m.role ≡ tool
      → IsFenced m
  compact-IsFenced quote ss m d e emits z u i r =
      let c = (compact floats w).0 in
      let (t, q0) = compact_with-freeze z in
      let q : c ≡ record (freeze st w) { tracker = t } =
        ap (λ (y : ContextWindow F × Option (CompactionResult F)). y.0) (compact-compact_with e)
        ∙ q0 in
      let fields = subst (λ v. Wrapped (with_prefix st w) v) (sym q) (freeze-Wrapped t) in
      let steps : (add_steps ss c).steps ≡ w.steps ++ ss =
        add_steps-steps ss c ∙ ap (λ l. l ++ ss) fields.steps_same in
      let frozen : (add_steps ss c).compacted_messages ≡ (freeze st w).compacted_messages =
        add_steps-compacted ss c ∙ ap (λ (v : ContextWindow F). v.compacted_messages) q in
      build_step_messages-IsFenced quote floats (add_steps ss c) m
        (add_steps-defense ss c ∙ (fields.defense_same ∙ d)) r
        (λ s k. u s (subst (λ l. Memᴰ s l) steps k))
        (λ ms h j.
          freeze-IsFenced m ms d emits (λ s k. u s (mem-append_left w.steps ss k)) (sym frozen ∙ h)
            j r)
        i
