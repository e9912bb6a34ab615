-- ===== src/Memory/Conversation/Zones.antt =====
-- memory/compaction_conversation.go: the zones of a conversation, and its last message.
use sp4rk.Base.{
  Text, List, [], ◌∷◌, ◌++◌, ℕ, ◌+◌, ◌-◌, ◌<◌, false, Option, none, some, is_empty, leb, ◌==◌,
  length, take, drop, codes, text_eq, ◌≡◌, refl, sym, ap, ◌∙◌, arith, inl, inr, Bool-cases,
  Option-cases, length-drop, length-append, take-append-drop,
}
use sp4rk.Llm.Message.{Message}
use sp4rk.Memory.Conversation.{
  CompactionConfig, CompactionDeps, Outcome, compacted, unknown_strategy, no_summarizer,
  summarization_failed, fallback, omission_note, compact_sliding, in_front_of, compact_summarizing,
  conversation_hierarchical_zones, compact_hierarchical, compact_conversation_history,
}

-- The zones that are summarized leave at least the last message.
pub conversation_hierarchical_zones_bound :
    (n : ℕ) (cfg : CompactionConfig)
    → 0 < n
    → (conversation_hierarchical_zones n cfg).0 + (conversation_hierarchical_zones n cfg).1 < n
unfolding conversation_hierarchical_zones
conversation_hierarchical_zones_bound n cfg h = ground arith

abbrev pub last_message : List Message → Option Message
last_message [] = none
last_message (m ∷ []) = some m
last_message (m ∷ n ∷ msgs) = last_message (n ∷ msgs)

last_message-cons :
    (m : Message) (ys : List Message) → 0 < length ys → last_message (m ∷ ys) ≡ last_message ys
last_message-cons m [] h = absurd (omega arith)
last_message-cons m (y ∷ ys) h = refl

last_message-append :
    (xs ys : List Message) → 0 < length ys → last_message (xs ++ ys) ≡ last_message ys
last_message-append [] ys h = refl
last_message-append (x ∷ []) ys h = last_message-cons x ys h
last_message-append (x ∷ z ∷ xs) ys h = last_message-append (z ∷ xs) ys h

last_message-drop :
    (n : ℕ) (msgs : List Message) → n < length msgs → last_message (drop n msgs) ≡ last_message msgs
last_message-drop n msgs h =
    sym (last_message-append (take n msgs) (drop n msgs) (omega (arith, length-drop n msgs)))
    ∙ ap last_message (take-append-drop n msgs)

in_front_of-last :
    (o : Outcome) (ys r : List Message)
    → 0 < length ys
    → in_front_of o (compacted ys) ≡ compacted r
    → last_message r ≡ last_message ys
unfolding in_front_of
in_front_of-last (compacted xs) ys r h e =
    let same : r ≡ xs ++ ys = cc in ap last_message same ∙ last_message-append xs ys h
in_front_of-last (unknown_strategy name) ys r h e = absurd cc
in_front_of-last no_summarizer ys r h e = absurd cc
in_front_of-last (summarization_failed a b reason) ys r h e = absurd cc

compact_sliding-last :
    (cfg : CompactionConfig) (msgs : List Message)
    → last_message (compact_sliding cfg msgs) ≡ last_message msgs
unfolding compact_sliding
compact_sliding-last cfg msgs =
    let first = fallback cfg.keep_first 3 in
    let last = fallback cfg.keep_last 10 in
    elim (Bool-cases (leb (length msgs) (first + last))) [
      | inl h ↦ rw h refl
      | inr h ↦
          let n = length msgs - last in
          let inside : n < length msgs = ground arith in
          let tail : 0 < length (drop n msgs) = omega (arith, length-drop n msgs) in
          let note = omission_note (length msgs - first - last) in
          rw h (
            last_message-append (take first msgs) (note ∷ drop n msgs) (omega arith)
            ∙ (last_message-cons note (drop n msgs) tail ∙ last_message-drop n msgs inside))
    ]

compact_summarizing-last :
    (cfg : CompactionConfig) (deps : CompactionDeps) (msgs r : List Message)
    → compact_summarizing cfg deps msgs ≡ compacted r
    → last_message r ≡ last_message msgs
unfolding compact_summarizing
compact_summarizing-last cfg deps msgs r e =
    let last = fallback cfg.keep_last_summarized 5 in
    let older = length msgs - last in
    elim (Bool-cases (leb (length msgs) last)) [
      | inl h ↦
          let whole : compacted msgs ≡ compacted r = rw (h, compact_summarizing) at e in
          let same : r ≡ msgs = cc in ap last_message same
      | inr h ↦ elim (Option-cases deps.summarize) [
        | inl n ↦
            let failed : no_summarizer ≡ compacted r = rw (h, n, compact_summarizing) at e in
            absurd cc
        | inr (summarize, s) ↦
            let inside : older < length msgs = ground arith in
            in_front_of-last _ (drop older msgs) r (omega (arith, length-drop older msgs))
              (rw (h, s, compact_summarizing) at e)
            ∙ last_message-drop older msgs inside
      ]
    ]

in_front_of-ends :
    (o rest : Outcome) (r : List Message)
    → in_front_of o rest ≡ compacted r
    → (xs : List Message) × (ys : List Message) × (rest ≡ compacted ys) × (r ≡ xs ++ ys)
unfolding in_front_of
in_front_of-ends (compacted xs) (compacted ys) r e =
    let same : r ≡ xs ++ ys = cc in (xs, ys, refl, same)
in_front_of-ends (compacted xs) (unknown_strategy name) r e = absurd cc
in_front_of-ends (compacted xs) no_summarizer r e = absurd cc
in_front_of-ends (compacted xs) (summarization_failed a b reason) r e = absurd cc
in_front_of-ends (unknown_strategy name) rest r e = absurd cc
in_front_of-ends no_summarizer rest r e = absurd cc
in_front_of-ends (summarization_failed a b reason) rest r e = absurd cc

-- Two outcomes in front of messages.
two_in_front-last :
    (o p : Outcome) (ys r : List Message)
    → 0 < length ys
    → in_front_of o (in_front_of p (compacted ys)) ≡ compacted r
    → last_message r ≡ last_message ys
two_in_front-last o p ys r h e =
    let (xs, zs, q, same) = in_front_of-ends o (in_front_of p (compacted ys)) r e in
    let (us, vs, k, again) = in_front_of-ends p (compacted ys) zs q in
    let tail : vs ≡ ys = cc in
    let long : 0 < length zs = rw again (omega (arith, length-append us vs, ap length tail)) in
    ap last_message same ∙ (last_message-append xs zs long ∙ in_front_of-last p ys zs h q)

compact_hierarchical-last :
    (cfg : CompactionConfig) (deps : CompactionDeps) (msgs r : List Message)
    → 0 < length msgs
    → compact_hierarchical cfg deps msgs ≡ compacted r
    → last_message r ≡ last_message msgs
unfolding compact_hierarchical
compact_hierarchical-last cfg deps msgs r h e =
    let zones = conversation_hierarchical_zones (length msgs) cfg in
    let inside = conversation_hierarchical_zones_bound (length msgs) cfg h in
    elim (Bool-cases (zones.0 + zones.1 == 0)) [
      | inl z ↦
          let whole : compacted msgs ≡ compacted r = rw (z, compact_hierarchical) at e in
          let same : r ≡ msgs = cc in ap last_message same
      | inr z ↦ elim (Option-cases deps.summarize) [
        | inl n ↦
            let failed : no_summarizer ≡ compacted r = rw (z, n, compact_hierarchical) at e in
            absurd cc
        | inr (summarize, s) ↦
            let tail = drop (zones.0 + zones.1) msgs in
            two_in_front-last _ _ tail r (omega (arith, length-drop (zones.0 + zones.1) msgs))
              (rw (z, s, compact_hierarchical) at e)
            ∙ last_message-drop (zones.0 + zones.1) msgs inside
      ]
    ]

is_empty-length : (msgs : List Message) → is_empty msgs ≡ false → 0 < length msgs
is_empty-length [] h = cc
is_empty-length (m ∷ msgs) h = omega arith

whole-last :
    (msgs r : List Message) → compacted msgs ≡ compacted r → last_message r ≡ last_message msgs
whole-last msgs r e = let same : r ≡ msgs = cc in ap last_message same

-- Compacting never removes the last message of a conversation: if it succeeds, the last message of
-- the result is that of the history.
pub compact_conversation_history-last :
    (cfg : CompactionConfig) (deps : CompactionDeps) (strategy : Text) (msgs r : List Message)
    → compact_conversation_history cfg deps strategy msgs ≡ compacted r
    → last_message r ≡ last_message msgs
unfolding compact_conversation_history
compact_conversation_history-last cfg deps strategy msgs r e = elim (Bool-cases (is_empty msgs)) [
  | inl z ↦ whole-last msgs r (rw (z, compact_conversation_history) at e)
  | inr z ↦ elim (Bool-cases (text_eq strategy (codes "sliding_window"))) [
    | inl a ↦
        let done : compacted (compact_sliding cfg msgs) ≡ compacted r =
          rw (z, a, compact_conversation_history) at e in
        let same : r ≡ compact_sliding cfg msgs = cc in
        ap last_message same ∙ compact_sliding-last cfg msgs
    | inr a ↦ elim (Bool-cases (text_eq strategy (codes "summarization"))) [
      | inl b ↦
          compact_summarizing-last cfg deps msgs r (rw (z, a, b, compact_conversation_history) at e)
      | inr b ↦ elim (Bool-cases (text_eq strategy (codes "hierarchical"))) [
        | inl c ↦
            compact_hierarchical-last cfg deps msgs r (is_empty-length msgs z)
              (rw (z, a, b, c, compact_conversation_history) at e)
        | inr c ↦
            let failed : unknown_strategy strategy ≡ compacted r =
              rw (z, a, b, c, compact_conversation_history) at e in
            absurd cc
      ]
    ]
  ]
]
