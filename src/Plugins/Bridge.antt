-- ===== src/Plugins/Bridge.antt =====
-- agents/loader/registry_bridge.py: `register` and `unregister` over the three protocols, as the
-- calls that they make.
use kitematic.Base.{
  ◌<>◌, String, Bool, true, false, Option, none, some, List, [], ◌∷◌, if◌then◌else◌,
}
use kitematic.Kernel.Values.{Fields}
use kitematic.Plugins.Manifest.{PluginCapability, PluginManifest, plugin_type_value}

pub record RegistrationResult : Type 0 where
  pub success : Bool
  pub plugin_name : String
  pub errors : List String

pub data BridgeCall : Type 0 where
  add_capabilities : String → List PluginCapability → BridgeCall
  remove_capabilities unregister_tool : String → BridgeCall
  register_tool : String → Fields → BridgeCall

-- `evaluate_capabilities` with the name and the type of the plugin as its context
abbrev pub PolicyEvaluator : Type 0
PolicyEvaluator = List PluginCapability → (plugin_name plugin_type : String) → Bool

abbrev rejected_result : PluginManifest → RegistrationResult
rejected_result m = record {
  success = false;
  plugin_name = m.name;
  errors = ("Plugin '" <> m.name <> "' capabilities rejected by policy") ∷ [];
}

abbrev registered_calls : PluginManifest → RegistrationResult × List BridgeCall
registered_calls m = (
  record { success = true; plugin_name = m.name; errors = [] },
  add_capabilities m.name m.capabilities ∷ register_tool m.name m.entrypoint ∷ [],
)

unfoldable pub register_plugin :
    PluginManifest → Option PolicyEvaluator → RegistrationResult × List BridgeCall
unfolding plugin_type_value
register_plugin m none = registered_calls m
register_plugin m (some evaluate) =
    if evaluate m.capabilities m.name (plugin_type_value m.plugin_type)
    then registered_calls m
    else (rejected_result m, [])

unfoldable pub unregister_plugin : String → List BridgeCall
unregister_plugin name = remove_capabilities name ∷ unregister_tool name ∷ []
