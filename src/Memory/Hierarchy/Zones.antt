-- ===== src/Memory/Hierarchy/Zones.antt =====
-- memory/compaction_hierarchy.go: the boundaries of the zones, the blocks, and what is left.
use sp4rk.Base.{
  Text, List, [], ◌∷◌, ◌++◌, ℕ, zero, suc, ◌+◌, ◌-◌, ◌≤◌, ◌<◌, false, some, leb, length, take, drop,
  codes, ◌≡◌, refl, sym, ap, ◌∙◌, arith, inl, inr, Bool-cases, Option-cases, length-drop,
  take-append-drop,
}
use sp4rk.Agent.Step.{Step}
use sp4rk.Memory.Steps.{tool_calls_of}
use sp4rk.Memory.Steps.Paired.{IsPaired, done, alone, IsPaired-append, steps_to_messages-IsPaired}
use sp4rk.Memory.Steps.Results.{Carries, Carries-append, observed, steps_to_messages-Carries}
use sp4rk.Memory.Hierarchy.{
  Summary, HierarchicalStrategy, at_least_one, after_distant, before_end, zone_ends, blocks_of,
  summary_message, summarize_blocks, summarize_zone, hierarchy_compact,
}

module _ (h : HierarchicalStrategy) (n : ℕ) where
  zone_ends-order : (zone_ends h n).0 ≤ (zone_ends h n).1
  unfolding zone_ends
  zone_ends-order = ground arith

  zone_ends-last : 5 < n → (zone_ends h n).1 < n
  unfolding zone_ends after_distant at_least_one before_end
  zone_ends-last lt = ground arith

  -- The distant zone has a step, if the share of the first two zones is not less than its own.
  pub zone_ends-first :
      5 < n → h.distant_share n ≤ h.distant_and_middle_share n → 1 ≤ (zone_ends h n).0
  unfolding zone_ends after_distant at_least_one before_end
  zone_ends-first lt le = ground arith

drop-nil : (a : ℕ) → drop {A = Step} a [] ≡ []
drop-nil zero = refl
drop-nil (suc a) = refl

drop-drop : (a b c : ℕ) (xs : List Step) → b + a ≡ c → drop a (drop b xs) ≡ drop c xs
drop-drop a zero c xs e = let same : a ≡ c = omega arith in ap (λ k. drop k xs) same
drop-drop a (suc b) c [] e = drop-nil a ∙ sym (drop-nil c)
drop-drop a (suc b) zero (x ∷ xs) e = absurd (omega arith)
drop-drop a (suc b) (suc c) (x ∷ xs) e = drop-drop a b c xs (omega arith)

-- Whatever the ratios are, the three zones of more than five steps make up the trajectory in its
-- order, and the recent one is not empty.
pub zones_partition :
    (h : HierarchicalStrategy) (steps : List Step)
    → 5 < length steps
    → let ends = zone_ends h (length steps) in
      (take ends.0 steps ++ (take (ends.1 - ends.0) (drop ends.0 steps) ++ drop ends.1 steps)
        ≡ steps)
      × (0 < length (drop ends.1 steps))
zones_partition h steps lt = (
  rw (← later) (rw (take-append-drop (m - d) (drop d steps)) (take-append-drop d steps)),
  omega (arith, length-drop m steps, zone_ends-last h (length steps) lt),
)
  where
    d : ℕ
    d = (zone_ends h (length steps)).0

    m : ℕ
    m = (zone_ends h (length steps)).1

    later : drop (m - d) (drop d steps) ≡ drop m steps
    later = drop-drop (m - d) d m steps (omega (arith, zone_ends-order h (length steps)))

abbrev pub concat : List (List Step) → List Step
concat [] = []
concat (b ∷ bs) = b ++ concat bs

blocks_of-concat :
    (fuel size : ℕ) (steps : List Step)
    → length steps ≤ fuel
    → concat (blocks_of fuel (suc size) steps) ≡ steps
unfolding blocks_of
blocks_of-concat zero size [] h = refl
blocks_of-concat zero size (s ∷ ss) h = absurd (omega arith)
blocks_of-concat (suc fuel) size [] h = refl
blocks_of-concat (suc fuel) size (s ∷ ss) h =
    rw (blocks_of-concat fuel size (drop size ss) (omega (arith, length-drop size ss)))
      (ap (λ l. s ∷ l) (take-append-drop size ss))

-- The blocks of a zone hold its steps, each in one block and in order: the loop ends with them all.
pub blocks_of-concat_all :
    (size : ℕ) (steps : List Step) → concat (blocks_of (length steps) (suc size) steps) ≡ steps
blocks_of-concat_all size steps = blocks_of-concat (length steps) size steps (omega arith)

module _ (wrap : Text → Text → Text) (summarizer : Text → Summary) (h : HierarchicalStrategy)
    (zone_name : Text) where
  summarize_blocks-IsPaired :
      (blocks : List (List Step)) → IsPaired (summarize_blocks wrap summarizer h zone_name blocks)
  unfolding summarize_blocks summary_message
  summarize_blocks-IsPaired [] = done
  summarize_blocks-IsPaired (b ∷ bs) = alone _ refl (λ p. cc p) (summarize_blocks-IsPaired bs)

  summarize_blocks-Carries :
      (blocks : List (List Step))
      → Carries [] [] (summarize_blocks wrap summarizer h zone_name blocks)
  unfolding summarize_blocks summary_message
  summarize_blocks-Carries [] = record { calls_are = refl; answers_are = refl }
  summarize_blocks-Carries (b ∷ bs) =
      let rest = summarize_blocks-Carries bs in
      record { calls_are = rest.calls_are; answers_are = rest.answers_are }

-- Compaction over zones keeps every tool call that is left answered, right after it.
pub hierarchy_compact-IsPaired :
    (wrap : Text → Text → Text) (h : HierarchicalStrategy) (steps : List Step)
    → IsPaired (hierarchy_compact wrap h steps)
unfolding hierarchy_compact summarize_zone
hierarchy_compact-IsPaired wrap h steps = elim (Bool-cases (leb (length steps) 5)) [
  | inl e ↦ rw (e, hierarchy_compact) (steps_to_messages-IsPaired steps)
  | inr e ↦ elim (Option-cases h.summarizer) [
    | inl p ↦ rw (e, p, hierarchy_compact) (steps_to_messages-IsPaired steps)
    | inr (summarizer, p) ↦
        rw (e, p, hierarchy_compact)
          (IsPaired-append (summarize_blocks-IsPaired wrap summarizer h (codes "distant") _) (
            IsPaired-append (summarize_blocks-IsPaired wrap summarizer h (codes "middle") _)
              (steps_to_messages-IsPaired (drop (zone_ends h (length steps)).1 steps))))
  ]
]

-- Where there are more than five steps and a summarizer, exactly the calls and observations of the
-- recent zone are kept.
pub hierarchy_compact-Carries :
    (wrap : Text → Text → Text) (h : HierarchicalStrategy) (steps : List Step)
    (summarizer : Text → Summary)
    → 5 < length steps
    → h.summarizer ≡ some summarizer
    → let recent = drop (zone_ends h (length steps)).1 steps in
      Carries (tool_calls_of recent) (observed recent) (hierarchy_compact wrap h steps)
unfolding hierarchy_compact summarize_zone
hierarchy_compact-Carries wrap h steps summarizer lt p =
    let e : leb (length steps) 5 ≡ false = ground arith in
    let recent = drop (zone_ends h (length steps)).1 steps in
    rw (e, p, hierarchy_compact)
      (Carries-append [] _ [] _ _ _ (summarize_blocks-Carries wrap summarizer h (codes "distant") _)
        (Carries-append [] _ [] _ _ _
          (summarize_blocks-Carries wrap summarizer h (codes "middle") _)
          (steps_to_messages-Carries recent)))
