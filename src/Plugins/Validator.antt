-- ===== src/Plugins/Validator.antt =====
-- agents/loader/validator.py: a manifest from its parsed YAML. A text of an error is a constructor.
pub mod Parts
pub mod Accepted
use kitematic.Base.{
  ℕ, suc, String, str_eq, is_empty, Bool, true, false, ◌&&◌, ◌||◌, ◌==◌, leb, Option, none, some,
  List, [], ◌∷◌, ◌++◌, get_or, if◌then◌else◌, any, Outcome, returned, raised,
}
use kitematic.Base.Dict.{Dict, lookup}
use kitematic.Base.Strip.{strip}
use kitematic.Kernel.Values.{
  Value, Values, Fields, null, flag, number, text, items, object, nil, cons, end, field, truthy,
  field_value, elements,
}
use kitematic.Plugins.Manifest.{
  PluginType, agent, tool, model, framework, PluginCapability, PluginManifest, has_field,
}

pub data ManifestError : Type 0 where
  is_required : String → ManifestError
  invalid_plugin_type : Value → ManifestError
  entrypoint_not_dict entrypoint_module entrypoint_class : ManifestError
  capability_not_dict capability_name capability_risk_level : ℕ → ManifestError
  permissions_not_list dependencies_not_list manifest_not_mapping manifest_not_found : ManifestError

pub data LoadError : Type 0 where
  validation_error : List ManifestError → LoadError
  -- the `TypeError` of a loop over a value that is no list, text or dict
  not_iterable : Value → LoadError
  -- the `AttributeError` of a file that holds no mapping
  attribute_error : LoadError
  -- a `YAMLError` or an `OSError`
  yaml_error : LoadError
  -- any other exception of reading a file, such as a `UnicodeDecodeError` or a `ValueError`, its text
  other_error : String → LoadError

-- `_require_str`: the errors and the text
unfoldable pub stripped : String → String → List ManifestError × String
stripped key s = if is_empty s then (is_required key ∷ [], "") else ([], s)

unfoldable pub require_str : String → Option Value → List ManifestError × String
unfolding stripped strip
require_str key (some (text s)) = stripped key (strip s)
require_str key _ = (is_required key ∷ [], "")

-- `PluginType(value)`
unfoldable pub plugin_type_of : Value → Option PluginType
plugin_type_of (text s) =
    if str_eq s "agent"
    then some agent
    else if str_eq s "tool"
    then some tool
    else if str_eq s "model"
    then some model
    else if str_eq s "framework"
    then some framework
    else none
plugin_type_of _ = none

unfoldable pub type_or_tool : Value → Option PluginType → List ManifestError × PluginType
type_or_tool raw none = (invalid_plugin_type raw ∷ [], tool)
type_or_tool raw (some t) = ([], t)

abbrev error_unless : Bool → ManifestError → List ManifestError
error_unless test e = if test then [] else e ∷ []

unfoldable pub entrypoint_of : Option Value → List ManifestError × Fields
unfolding has_field
entrypoint_of (some (object fs)) = (
  error_unless (has_field "module" fs) entrypoint_module
      ++ error_unless (has_field "class" fs) entrypoint_class,
  fs,
)
entrypoint_of _ = (entrypoint_not_dict ∷ [], end)

unfoldable pub is_risk : Value → Bool
is_risk (text s) = str_eq s "low" || str_eq s "medium" || str_eq s "high" || str_eq s "critical"
is_risk _ = false

-- a list, and otherwise nothing
unfoldable pub list_or_empty : Value → Values
list_or_empty (items vs) = vs
list_or_empty _ = nil

unfoldable pub capability_errors : ℕ → Fields → List ManifestError
unfolding truthy field_value is_risk
capability_errors i fs =
    error_unless (truthy (get_or (field_value "name" fs) (text ""))) (capability_name i)
    ++ error_unless (is_risk (get_or (field_value "risk_level" fs) (text "low")))
        (capability_risk_level i)

unfoldable pub capability_of : Fields → PluginCapability
unfolding field_value list_or_empty
capability_of fs = record {
  name = get_or (field_value "name" fs) (text "");
  risk_level = get_or (field_value "risk_level" fs) (text "low");
  description = get_or (field_value "description" fs) (text "");
  permissions = list_or_empty (get_or (field_value "permissions" fs) (items nil));
}

-- the loop over the capabilities from index `i`
unfoldable pub capabilities_from : ℕ → Values → List ManifestError × List PluginCapability
unfolding capability_errors capability_of
capabilities_from i nil = ([], [])
capabilities_from i (cons (object fs) vs) =
    let rest = capabilities_from (suc i) vs in
    (capability_errors i fs ++ rest.0, capability_of fs ∷ rest.1)
capabilities_from i (cons v vs) =
    let rest = capabilities_from (suc i) vs in (capability_not_dict i ∷ rest.0, rest.1)

unfoldable pub list_of : ManifestError → Value → List ManifestError × Values
list_of e (items vs) = ([], vs)
list_of e _ = (e ∷ [], nil)

abbrev key_of : String → Dict Value → Value → Value
key_of key raw default = get_or (lookup key raw) default

abbrev pub type_of : Dict Value → List ManifestError × PluginType
type_of raw =
    type_or_tool (key_of "plugin_type" raw (text ""))
      (plugin_type_of (key_of "plugin_type" raw (text "")))

abbrev pub permissions_of : Dict Value → List ManifestError × Values
permissions_of raw = list_of permissions_not_list (key_of "permissions" raw (items nil))

abbrev pub dependencies_of : Dict Value → List ManifestError × Values
dependencies_of raw = list_of dependencies_not_list (key_of "dependencies" raw (items nil))

-- all errors, once the elements of the capabilities are known
unfoldable pub manifest_errors : Dict Value → Values → List ManifestError
unfolding require_str plugin_type_of type_or_tool entrypoint_of capabilities_from list_of lookup
manifest_errors raw cs =
    (require_str "name" (lookup "name" raw)).0
    ++ (require_str "version" (lookup "version" raw)).0
    ++ (type_of raw).0
    ++ (require_str "runtime_type" (lookup "runtime_type" raw)).0
    ++ (require_str "author" (lookup "author" raw)).0
    ++ (entrypoint_of (lookup "entrypoint" raw)).0
    ++ (capabilities_from 0 cs).0
    ++ (permissions_of raw).0
    ++ (dependencies_of raw).0

unfoldable pub manifest_of : Dict Value → Values → PluginManifest
unfolding require_str plugin_type_of type_or_tool entrypoint_of capabilities_from list_of lookup
manifest_of raw cs = record {
  name = (require_str "name" (lookup "name" raw)).1;
  version = (require_str "version" (lookup "version" raw)).1;
  plugin_type = (type_of raw).1;
  runtime_type = (require_str "runtime_type" (lookup "runtime_type" raw)).1;
  description = key_of "description" raw (text "");
  author = (require_str "author" (lookup "author" raw)).1;
  entrypoint = (entrypoint_of (lookup "entrypoint" raw)).1;
  capabilities = (capabilities_from 0 cs).1;
  permissions = (permissions_of raw).1;
  dependencies = (dependencies_of raw).1;
  min_kernel_version = key_of "min_kernel_version" raw (text "1.0.0");
  config_schema = key_of "config_schema" raw null;
  provider = key_of "provider" raw null;
}

-- `if errors: raise ValidationError(errors)`
unfoldable pub or_validation_error :
    List ManifestError → PluginManifest → Outcome LoadError PluginManifest
or_validation_error [] m = returned m
or_validation_error (e ∷ es) m = raised (validation_error (e ∷ es))

unfoldable pub with_elements : Dict Value → Value → Option Values → Outcome LoadError PluginManifest
unfolding or_validation_error manifest_errors manifest_of
with_elements raw v none = raised (not_iterable v)
with_elements raw v (some cs) = or_validation_error (manifest_errors raw cs) (manifest_of raw cs)

unfoldable pub validate_manifest : Dict Value → Outcome LoadError PluginManifest
unfolding with_elements elements
validate_manifest raw =
    let v = key_of "capabilities" raw (items nil) in with_elements raw v (elements v)
