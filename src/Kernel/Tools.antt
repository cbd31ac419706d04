-- ===== src/Kernel/Tools.antt =====
-- kernel/resources/tool_registry.py. A set of texts is the list of them in order; the regular
-- expression that `match_pattern` makes of its pattern is a parameter.
pub mod Named
pub mod Distinct
use mathlib.Core.Path.{subst}
use kitematic.Base.{
  String, str_eq, str_eq_cases, eq_iff, is_empty, repr_list, ◌<>◌, ◌≡◌, ◌↔◌, refl, sym, ◌∙◌, Bool,
  true, false, not, ◌&&◌, Option, none, some, List, [], ◌∷◌, ◌++◌, any, all, select, length, ◌==◌,
  ℕ, if◌then◌else◌, arith, inl, inr, Outcome, returned, raised, Bool-cases,
}
use kitematic.Base.Dict.{
  Dict, lookup, contains, insert, erase, values, lookup-insert, lookup-erase, lookup-insert_ne,
  lookup-erase_ne,
}
use kitematic.Kernel.Values.{Value}
use kitematic.Kernel.Errors.{
  Error, tool_not_found, tool_already_registered, tool_capability_mismatch, value_error,
}

pub record ToolDefinition : Type 0 where
  pub tool_id : String
  pub mcp_server : String
  pub description : String
  pub input_schema : Dict Value
  pub output_schema : Dict Value
  pub required_capabilities : List String
  pub tags : List String
  pub metadata : Dict Value

abbrev require_field : String → String → List String
require_field field text = if is_empty field then text ∷ [] else []

unfoldable pub validate_tool : ToolDefinition → List String
validate_tool t =
    require_field t.tool_id "tool_id is required"
    ++ require_field t.mcp_server "mcp_server is required"

unfoldable pub tool_is_valid : ToolDefinition → Bool
unfolding validate_tool
tool_is_valid t = length (validate_tool t) == 0

pub record ToolRegistry : Type 0 where
  pub tools : Dict ToolDefinition

abbrev pub new_registry : ToolRegistry
new_registry = record { tools = [] }

unfoldable pub register_if :
    (valid present : Bool) → ToolDefinition → ToolRegistry → Outcome Error ToolRegistry
register_if false present t r =
    raised (value_error ("Invalid tool definition: " <> repr_list (validate_tool t)))
register_if true true t r = raised (tool_already_registered t.tool_id)
register_if true false t r = returned (record { tools = insert t.tool_id t r.tools })

unfoldable pub register : ToolDefinition → ToolRegistry → Outcome Error ToolRegistry
unfolding tool_is_valid register_if
register t r = register_if (tool_is_valid t) (contains t.tool_id r.tools) t r

unfoldable pub unregister_if : (present : Bool) → String → ToolRegistry → Outcome Error ToolRegistry
unregister_if false tool_id r = raised (tool_not_found tool_id)
unregister_if true tool_id r = returned (record { tools = erase tool_id r.tools })

unfoldable pub unregister : String → ToolRegistry → Outcome Error ToolRegistry
unfolding unregister_if
unregister tool_id r = unregister_if (contains tool_id r.tools) tool_id r

unfoldable pub get_tool : String → ToolRegistry → Option ToolDefinition
get_tool tool_id r = lookup tool_id r.tools

unfoldable pub is_registered : String → ToolRegistry → Bool
is_registered tool_id r = contains tool_id r.tools

unfoldable pub match_pattern :
    (matches : String → String → Bool) (pattern : String) → ToolRegistry → List ToolDefinition
match_pattern matches pattern r = select (λ t. matches pattern t.tool_id) (values r.tools)

unfoldable pub list_tools : ToolRegistry → List ToolDefinition
list_tools r = values r.tools

unfoldable pub is_subset : List String → List String → Bool
is_subset required provided = all (λ c. any (str_eq c) provided) required

-- an agent without a set of capabilities is not asked for any
abbrev pub access_of : Option (List String) → ToolDefinition → Outcome Error ToolDefinition
access_of none t = returned t
access_of (some provided) t =
    if is_subset t.required_capabilities provided
    then returned t
    else raised (tool_capability_mismatch t.tool_id t.required_capabilities provided)

abbrev pub access_found :
    String → Option (List String) → Option ToolDefinition → Outcome Error ToolDefinition
access_found tool_id provided none = raised (tool_not_found tool_id)
access_found tool_id provided (some t) = access_of provided t

unfoldable pub validate_access :
    String → Option (List String) → ToolRegistry → Outcome Error ToolDefinition
validate_access tool_id provided r = access_found tool_id provided (lookup tool_id r.tools)
