-- ===== src/Tools/Registry/Source.antt =====
-- tools/registry.go: UnregisterBySource, on a name of the source and on another.
use sp4rk.Base.{
  Text, [], ◌∷◌, Option, none, some, text_eq, text_eq_iff, text_eq_refl, text-eq_cases,
  if◌then◌else◌, ◌≡◌, ◌≢◌, refl, sym, ap, subst, ◌∙◌, inl, inr, ◌⊎◌, Bool-cases, Option-cases, Memᴰ,
}
use sp4rk.Base.Map.{Keys, keys_of, lookup, lookup-delete_own, lookup-delete_other, lookup-keys_of}
use sp4rk.Tools.Registry.{ToolRegistry, unregister, unregister_each, unregister_by_source}

-- The registry knows nothing of `name`.
pub record Unknown (name : Text) (r : ToolRegistry) : Type 0 where
  pub no_tool : lookup name r.tools ≡ none
  pub no_source : lookup name r.tool_sources ≡ none
  pub no_category : lookup name r.tool_categories ≡ none
  pub no_override : lookup name r.policy_overrides ≡ none

-- The two registries know the same of `name`.
pub record Same (name : Text) (r s : ToolRegistry) : Type 0 where
  pub tool : lookup name s.tools ≡ lookup name r.tools
  pub source : lookup name s.tool_sources ≡ lookup name r.tool_sources
  pub category : lookup name s.tool_categories ≡ lookup name r.tool_categories
  pub override : lookup name s.policy_overrides ≡ lookup name r.policy_overrides

Same-refl : (name : Text) (r : ToolRegistry) → Same name r r
Same-refl name r = record { tool = refl; source = refl; category = refl; override = refl }

Same-trans : (name : Text) {r s t : ToolRegistry} → Same name r s → Same name s t → Same name r t
Same-trans name f g = record {
  tool = g.tool ∙ f.tool;
  source = g.source ∙ f.source;
  category = g.category ∙ f.category;
  override = g.override ∙ f.override;
}

unregister-Unknown : (name : Text) (r : ToolRegistry) → Unknown name (unregister name r)
unfolding unregister
unregister-Unknown name r = record {
  no_tool = lookup-delete_own name r.tools;
  no_source = lookup-delete_own name r.tool_sources;
  no_category = lookup-delete_own name r.tool_categories;
  no_override = lookup-delete_own name r.policy_overrides;
}

unregister-Same :
    (other name : Text) (r : ToolRegistry) → other ≢ name → Same name r (unregister other r)
unfolding unregister
unregister-Same other name r n = record {
  tool = lookup-delete_other other name r.tools n;
  source = lookup-delete_other other name r.tool_sources n;
  category = lookup-delete_other other name r.tool_categories n;
  override = lookup-delete_other other name r.policy_overrides n;
}

module _ (source : Text) where
  -- One round of the loop.
  round : Text → ToolRegistry → ToolRegistry
  round name r = elim (lookup name r.tool_sources) [
    | none ↦ r
    | some s ↦ if text_eq s source then unregister name r else r
  ]

  round-Same :
      (key name : Text) (r : ToolRegistry)
      → (key ≢ name) ⊎ (lookup name r.tool_sources ≢ some source)
      → Same name r (round key r)
  unfolding round
  round-Same key name r h = elim (Option-cases (lookup key r.tool_sources)) [
    | inl p ↦ rw (p, round) (Same-refl name r)
    | inr (s, p) ↦ elim (Bool-cases (text_eq s source)) [
      | inr b ↦ rw (p, b, round) (Same-refl name r)
      | inl b ↦
          rw (p, b, round)
            (elim (text-eq_cases key name) [
              | inr n ↦ unregister-Same key name r n
              | inl e ↦ elim h [
                | inl n ↦ absurd (n e)
                | inr n ↦
                    let here : lookup key r.tool_sources ≡ some source =
                      p ∙ ap some ((text_eq_iff s source).0 b) in
                    absurd (n (subst (λ k. lookup k r.tool_sources ≡ some source) e here))
              ]
            ])
    ]
  ]

  each-Same :
      (keys : Keys) (name : Text) (r : ToolRegistry)
      → lookup name r.tool_sources ≢ some source
      → Same name r (unregister_each source keys r)
  unfolding unregister_each round
  each-Same [] name r h = Same-refl name r
  each-Same (key ∷ keys) name r h =
      let one = round-Same key name r (inr h) in
      Same-trans name one (each-Same keys name (round key r) (λ p. h (sym one.source ∙ p)))

  -- A key that is visited and unknown stays unknown; one with the source becomes so.
  Unknown-Same :
      {name : Text} {r s : ToolRegistry} → Unknown name r → Same name r s → Unknown name s
  Unknown-Same u f = record {
    no_tool = f.tool ∙ u.no_tool;
    no_source = f.source ∙ u.no_source;
    no_category = f.category ∙ u.no_category;
    no_override = f.override ∙ u.no_override;
  }

  round-Unknown :
      (name : Text) (r : ToolRegistry)
      → lookup name r.tool_sources ≡ some source
      → Unknown name (round name r)
  unfolding round
  round-Unknown name r h = rw (h, text_eq_refl, round) (unregister-Unknown name r)

  each-Unknown :
      (keys : Keys) (name : Text) (r : ToolRegistry)
      → Memᴰ name keys
      → lookup name r.tool_sources ≡ some source
      → Unknown name (unregister_each source keys r)
  unfolding unregister_each round
  each-Unknown [] name r m h = elim m [ ]
  each-Unknown (key ∷ keys) name r m h = elim (text-eq_cases key name) [
    | inl e ↦
        let u = round-Unknown name r h in
        subst (λ k. Unknown name (unregister_each source keys (round k r))) (sym e)
          (Unknown-Same u (each-Same keys name (round name r) (λ p. absurd (gone p u.no_source))))
    | inr n ↦
        let one = round-Same key name r (inl n) in
        each-Unknown keys name (round key r) (later m n) (one.source ∙ h)
  ]
    where
      gone : {x : Option Text} → x ≡ some source → x ≡ none → ⊥
      gone p q = cc (p, q)

      later : Memᴰ name (key ∷ keys) → key ≢ name → Memᴰ name keys
      later (Memᴰ.head e) n = absurd (n (sym e))
      later (Memᴰ.tail m) n = m

-- UnregisterBySource forgets a name that is registered from the source: its tool, its source, its
-- category and its policy override.
pub unregister_by_source-Unknown :
    (source name : Text) (r : ToolRegistry)
    → lookup name r.tool_sources ≡ some source
    → Unknown name (unregister_by_source source r)
unfolding unregister_by_source
unregister_by_source-Unknown source name r h =
    each-Unknown source (keys_of r.tool_sources) name r
      (lookup-keys_of name source r.tool_sources h) h

-- UnregisterBySource changes nothing about a name that is not registered from the source.
pub unregister_by_source-Same :
    (source name : Text) (r : ToolRegistry)
    → lookup name r.tool_sources ≢ some source
    → Same name r (unregister_by_source source r)
unfolding unregister_by_source
unregister_by_source-Same source name r h = each-Same source (keys_of r.tool_sources) name r h
