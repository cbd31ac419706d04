-- ===== src/Plugins/Manifest.antt =====
-- core/domain/plugin.py and core/domain/capability.py: what a plugin says of itself. What the loader
-- takes over from a file without a check is a JSON-like value.
use kitematic.Base.{
  String, is_empty, Bool, List, [], ◌∷◌, ◌++◌, length, ◌==◌, if◌then◌else◌, str_eq, ◌||◌,
}
use kitematic.Kernel.Values.{Value, Values, Fields, end, field}

pub data PluginType : Type 0 where
  agent tool model framework : PluginType

unfoldable pub plugin_type_value : PluginType → String
plugin_type_value agent = "agent"
plugin_type_value tool = "tool"
plugin_type_value model = "model"
plugin_type_value framework = "framework"

pub record PluginCapability : Type 0 where
  pub name : Value
  pub risk_level : Value
  pub description : Value
  pub permissions : Values

pub record PluginManifest : Type 0 where
  pub name : String
  pub version : String
  pub plugin_type : PluginType
  pub runtime_type : String
  pub description : Value
  pub author : String
  pub entrypoint : Fields
  pub capabilities : List PluginCapability
  pub permissions : Values
  pub dependencies : Values
  pub min_kernel_version : Value
  pub config_schema : Value
  pub provider : Value

-- `key in dict`
unfoldable pub has_field : String → Fields → Bool
has_field key end = Bool.false
has_field key (field k v fs) = str_eq k key || has_field key fs

abbrev require : Bool → String → List String
require missing text = if missing then text ∷ [] else []

unfoldable pub validate_plugin : PluginManifest → List String
unfolding has_field
validate_plugin m =
    require (is_empty m.name) "name is required"
    ++ require (is_empty m.version) "version is required"
    ++ (if has_field "module" m.entrypoint then [] else "entrypoint.module is required" ∷ [])
    ++ (if has_field "class" m.entrypoint then [] else "entrypoint.class is required" ∷ [])
    ++ require (is_empty m.runtime_type) "runtime_type is required"

unfoldable pub plugin_is_valid : PluginManifest → Bool
unfolding validate_plugin
plugin_is_valid m = length (validate_plugin m) == 0
