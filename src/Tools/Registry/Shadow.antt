-- ===== src/Tools/Registry/Shadow.antt =====
-- tools/registry.go: registrations by MCP servers, and what they do to the tools that are there.
use sp4rk.Base.{
  Text, true, false, Option, none, some, text_eq_iff, text_eq_refl, has_prefix, codes, ◌≡◌, ◌≢◌,
  refl, ◌∙◌, arith, inl, inr, sym, ap, false≢true, Bool-cases, Option-cases,
}
use sp4rk.Base.Map.{
  lookup-insert_own, lookup-delete_own, lookup, insert, delete, lookup-insert, lookup-delete,
  lookup-insert_other,
}
use sp4rk.Tools.Tool.{Tool, ToolPolicy}
use sp4rk.Tools.Registry.{
  ToolRegistry, shadows, category_for, category_of_source, source_category_mcp, register_locked,
  register_with_source, register_with_source_category, is_tool_untrusted, get,
}

-- A registration by an MCP server, by name or by category.
pub data McpStep : ToolRegistry → ToolRegistry → Type 0 where
  by_source :
      (r : ToolRegistry) (tool : Tool) (source : Text)
      → has_prefix source (codes "mcp") ≡ true
      → McpStep r (register_with_source tool source r).1
  by_category :
      (r : ToolRegistry) (tool : Tool) (source : Text)
      → McpStep r (register_with_source_category tool source source_category_mcp r).1

pub data McpSteps (r : ToolRegistry) : ToolRegistry → Type 0 where
  here : McpSteps r r
  next : {s t : ToolRegistry} → McpSteps r s → McpStep s t → McpSteps r t

-- What the registry holds of `name`: a tool of another category, with its source and its policy.
pub record Holds (name : Text) (tool : Tool) (category : Text) (source : Option Text)
    (policy : Option ToolPolicy) (r : ToolRegistry) : Type 0 where
  pub tool_is : lookup name r.tools ≡ some tool
  pub category_is : category_for r name ≡ category
  pub source_is : lookup name r.tool_sources ≡ source
  pub policy_is : lookup name r.policy_overrides ≡ policy

abbrev registered : Tool → Text → Text → ToolRegistry → ToolRegistry
registered new from category r = record r {
  tools = insert new.name new r.tools;
  tool_sources = insert new.name from r.tool_sources;
  policy_overrides = delete new.name r.policy_overrides;
  tool_categories = insert new.name category r.tool_categories;
}

register_locked-free :
    (new : Tool) (from category : Text) (r : ToolRegistry)
    → shadows r new.name category ≡ false
    → register_locked new (some from) category r ≡ (true, registered new from category r)
unfolding register_locked
register_locked-free new from category r s = rw s refl

register_locked-shadows :
    (new : Tool) (from category : Text) (r : ToolRegistry)
    → shadows r new.name category ≡ true
    → register_locked new (some from) category r ≡ (false, r)
unfolding register_locked
register_locked-shadows new from category r s = rw s refl

-- Another name is left alone.
category_for-registered :
    (new : Tool) (from category name : Text) (r : ToolRegistry)
    → new.name ≢ name
    → category_for (registered new from category r) name ≡ category_for r name
unfolding category_for
category_for-registered new from category name r n =
    let cats = lookup-insert_other new.name name category r.tool_categories n in
    let sources = lookup-insert_other new.name name from r.tool_sources n in
    elim (Option-cases (lookup name r.tool_categories)) [
      | inl p ↦ rw (cats, p, sources, category_for) refl
      | inr (cat, p) ↦ rw (cats, p, category_for) refl
    ]

module _ (name : Text) (tool : Tool) (category : Text) (source : Option Text)
    (policy : Option ToolPolicy) (other : category ≢ source_category_mcp) where
  -- A tool that the rule lets in has another name.
  free-other :
      (new : Text) (r : ToolRegistry)
      → Holds name tool category source policy r
      → shadows r new source_category_mcp ≡ false
      → new ≢ name
  unfolding shadows
  free-other new r h s e = absurd (
      ground (
        arith,
        rw e at s,
        h.tool_is,
        h.category_is,
        text_eq_refl source_category_mcp,
        text_eq_iff category source_category_mcp,
      ))

  Holds-register_locked :
      (new : Tool) (from : Text) (r : ToolRegistry)
      → Holds name tool category source policy r
      → Holds name tool category source policy
          (register_locked new (some from) source_category_mcp r).1
  Holds-register_locked new from r h = elim (Bool-cases (shadows r new.name source_category_mcp)) [
    | inl s ↦ rw (register_locked-shadows new from source_category_mcp r s) h
    | inr s ↦
        let n = free-other new.name r h s in
        rw (register_locked-free new from source_category_mcp r s) (record {
          tool_is = ground (
            arith,
            h.tool_is,
            lookup-insert new.name name new r.tools,
            text_eq_iff new.name name,
          );
          category_is =
              rw (category_for-registered new from source_category_mcp name r n) h.category_is;
          source_is = ground (
            arith,
            h.source_is,
            lookup-insert new.name name from r.tool_sources,
            text_eq_iff new.name name,
          );
          policy_is = ground (
            arith,
            h.policy_is,
            lookup-delete new.name name r.policy_overrides,
            text_eq_iff new.name name,
          );
        })
  ]

  Holds-McpStep :
      {r s : ToolRegistry}
      → McpStep r s
      → Holds name tool category source policy r
      → Holds name tool category source policy s
  unfolding register_with_source register_with_source_category category_of_source
  Holds-McpStep (by_source r new from is_mcp) h = rw is_mcp (Holds-register_locked new from r h)
  Holds-McpStep (by_category r new from) h = Holds-register_locked new from r h

-- A tool of a category that is not MCP stays registered, with its category, its source and its
-- policy override, through every sequence of registrations by MCP servers, whatever names they use.
pub McpSteps-Holds :
    (name : Text) (tool : Tool) (category : Text) (source : Option Text)
    (policy : Option ToolPolicy)
    → category ≢ source_category_mcp
    → {r s : ToolRegistry} → McpSteps r s
    → Holds name tool category source policy r
    → Holds name tool category source policy s
McpSteps-Holds name tool category source policy other here h = h
McpSteps-Holds name tool category source policy other (next steps step) h =
    Holds-McpStep name tool category source policy other step
      (McpSteps-Holds name tool category source policy other steps h)

category_for-registered_own :
    (new : Tool) (from category : Text) (r : ToolRegistry)
    → category_for (registered new from category r) new.name ≡ category
unfolding category_for
category_for-registered_own new from category r =
    rw (lookup-insert_own new.name category r.tool_categories, category_for) refl

untrusted-registered :
    (new : Tool) (from : Text) (r : ToolRegistry)
    → is_tool_untrusted (registered new from source_category_mcp r) new.name ≡ true
unfolding is_tool_untrusted
untrusted-registered new from r = elim (Bool-cases new.is_untrusted) [
  | inl u ↦ rw (lookup-insert_own new.name new r.tools, u, is_tool_untrusted) refl
  | inr u ↦
      rw
        (
          lookup-insert_own new.name new r.tools,
          u,
          category_for-registered_own new from source_category_mcp r,
          text_eq_refl,
          is_tool_untrusted,
        )
        refl
]

-- A tool that a registration under the category MCP lets in is there under its name with the policy
-- that it declares, no override being left of an earlier tool, and its output counts as untrusted.
pub register_mcp-untrusted :
    (tool : Tool) (source : Text) (r : ToolRegistry)
    → (register_with_source_category tool source source_category_mcp r).0 ≡ true
    → let after = (register_with_source_category tool source source_category_mcp r).1 in
      (get after tool.name ≡ some tool)
      × (lookup tool.name after.policy_overrides ≡ none)
      × (is_tool_untrusted after tool.name ≡ true)
unfolding register_with_source_category get
register_mcp-untrusted tool source r h =
    elim (Bool-cases (shadows r tool.name source_category_mcp)) [
      | inl s ↦ absurd (
          false≢true
            (sym (ap (λ p. p.0) (register_locked-shadows tool source source_category_mcp r s)) ∙ h))
      | inr s ↦
          rw (register_locked-free tool source source_category_mcp r s)
            ((own, bare, untrusted-registered tool source r))
    ]
  where
    own : lookup tool.name (registered tool source source_category_mcp r).tools ≡ some tool
    own = lookup-insert_own tool.name tool r.tools

    bare : lookup tool.name (registered tool source source_category_mcp r).policy_overrides ≡ none
    bare = lookup-delete_own tool.name r.policy_overrides
