-- ===== src/Tools/Registry.antt =====
-- tools/registry.go: the tools of a session, with their sources, categories and policy overrides.
-- The mutex makes each operation atomic; the logger is left out.
pub mod Shadow
pub mod Source
use sp4rk.Base.{
  Text, List, [], ◌∷◌, Bool, true, false, ◌&&◌, not, Option, none, some, is_some, codes, text_eq,
  if◌then◌else◌, has_prefix,
}
use sp4rk.Base.Map.{Map, Keys, keys_of, lookup, insert, delete, member}
use sp4rk.Tools.Tool.{
  Tool, ToolPolicy, ToolDescriptor, ConfirmationRequest, Confirmation, CacheMode, cache_default,
  content_backed, tool_group_of,
}

abbrev pub source_category_core : Text
source_category_core = codes "core"

abbrev pub source_category_mcp : Text
source_category_mcp = codes "mcp"

pub record ToolRegistry : Type 0 where
  pub tools : Map Tool
  pub tool_sources : Map Text
  pub tool_categories : Map Text
  pub policy_overrides : Map ToolPolicy
  pub confirm_func : Option (ConfirmationRequest → Confirmation)
  pub input_validation_enabled : Bool

unfoldable pub new_tool_registry : ToolRegistry
new_tool_registry = record {
  tools = [];
  tool_sources = [];
  tool_categories = [];
  policy_overrides = [];
  confirm_func = none;
  input_validation_enabled = true;
}

unfoldable pub set_input_validation_enabled : Bool → ToolRegistry → ToolRegistry
set_input_validation_enabled enabled r = record r { input_validation_enabled = enabled }

unfoldable pub set_confirm_func :
    Option (ConfirmationRequest → Confirmation) → ToolRegistry → ToolRegistry
set_confirm_func fn r = record r { confirm_func = fn }

unfoldable pub set_policy_override : Text → ToolPolicy → ToolRegistry → ToolRegistry
set_policy_override name policy r = record r {
  policy_overrides = insert name policy r.policy_overrides;
}

unfoldable pub clear_policy_override : Text → ToolRegistry → ToolRegistry
clear_policy_override name r = record r { policy_overrides = delete name r.policy_overrides }

-- The heuristic on a source's name.
unfoldable pub category_of_source : Text → Text
category_of_source source =
    if has_prefix source (codes "mcp") then source_category_mcp else source_category_core

unfoldable pub category_for : ToolRegistry → Text → Text
unfolding category_of_source
category_for r name = elim (lookup name r.tool_categories) [
  | some cat ↦ cat
  | none ↦ elim (lookup name r.tool_sources) [
    | some source ↦ category_of_source source
    | none ↦ source_category_core
  ]
]

-- The anti-shadowing rule.
unfoldable pub shadows : ToolRegistry → Text → Text → Bool
unfolding category_for
shadows r name category =
    is_some (lookup name r.tools)
    && (text_eq category source_category_mcp
        && not (text_eq (category_for r name) source_category_mcp))

-- `source` is none where there is none; the Boolean says whether the tool was registered.
unfoldable pub register_locked : Tool → Option Text → Text → ToolRegistry → Bool × ToolRegistry
unfolding shadows
register_locked tool source category r = if shadows r tool.name category then (false, r) else (
  true,
  record r {
    tools = insert tool.name tool r.tools;
    tool_sources = elim source [
      | some s ↦ insert tool.name s r.tool_sources
      | none ↦ delete tool.name r.tool_sources
    ];
    policy_overrides = delete tool.name r.policy_overrides;
    tool_categories = insert tool.name category r.tool_categories;
  },
)

unfoldable pub register : Tool → ToolRegistry → ToolRegistry
unfolding register_locked
register tool r = (register_locked tool none source_category_core r).1

-- The Boolean is false where an error is returned.
unfoldable pub register_with_source : Tool → Text → ToolRegistry → Bool × ToolRegistry
unfolding register_locked category_of_source
register_with_source tool source r =
    register_locked tool (some source) (category_of_source source) r

unfoldable pub register_with_source_category :
    Tool → Text → Text → ToolRegistry → Bool × ToolRegistry
unfolding register_locked
register_with_source_category tool source category r = register_locked tool (some source) category r

unfoldable pub unregister : Text → ToolRegistry → ToolRegistry
unregister name r = record r {
  tools = delete name r.tools;
  tool_sources = delete name r.tool_sources;
  tool_categories = delete name r.tool_categories;
  policy_overrides = delete name r.policy_overrides;
}

-- The `range` over the sources, a key being visited with the source that it then has.
unfoldable pub unregister_each : Text → Keys → ToolRegistry → ToolRegistry
unfolding unregister
unregister_each source [] r = r
unregister_each source (name ∷ names) r =
    unregister_each source names (elim (lookup name r.tool_sources) [
      | none ↦ r
      | some s ↦ if text_eq s source then unregister name r else r
    ])

unfoldable pub unregister_by_source : Text → ToolRegistry → ToolRegistry
unfolding unregister_each
unregister_by_source source r = unregister_each source (keys_of r.tool_sources) r

unfoldable pub get : ToolRegistry → Text → Option Tool
get r name = lookup name r.tools

unfoldable pub descriptor : ToolRegistry → Tool → ToolDescriptor
unfolding category_for tool_group_of
descriptor r tool = record {
  name = tool.name;
  description = tool.description;
  input_schema = tool.input_schema;
  source = elim (lookup tool.name r.tool_sources) [ none ↦ codes "core" | some s ↦ s ];
  source_category = category_for r tool.name;
  group = tool_group_of tool;
}

unfoldable pub descriptors : ToolRegistry → Keys → Map Tool → List ToolDescriptor
unfolding descriptor
descriptors r exclude [] = []
descriptors r exclude ((_, tool) ∷ rest) =
    let others = descriptors r exclude rest in
    if member tool.name exclude then others else descriptor r tool ∷ others

unfoldable pub list_filtered : ToolRegistry → Keys → List ToolDescriptor
unfolding descriptors
list_filtered r exclude = descriptors r exclude r.tools

unfoldable pub get_tool_source : ToolRegistry → Text → Text
get_tool_source r name = elim (lookup name r.tools) [
  | none ↦ []
  | some _ ↦ elim (lookup name r.tool_sources) [ some source ↦ source | none ↦ codes "core" ]
]

unfoldable pub is_tool_untrusted : ToolRegistry → Text → Bool
unfolding category_for
is_tool_untrusted r name = elim (lookup name r.tools) [
  | none ↦ false
  | some tool ↦
      if tool.is_untrusted then true else text_eq (category_for r name) source_category_mcp
]

unfoldable pub cache_strategy : ToolRegistry → Text → Text → CacheMode
cache_strategy r name input = elim (lookup name r.tools) [
  | none ↦ cache_default
  | some tool ↦ elim tool.is_content_backed [
    | none ↦ cache_default
    | some f ↦ if f input then content_backed else cache_default
  ]
]
