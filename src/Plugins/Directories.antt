-- ===== src/Plugins/Directories.antt =====
-- agents/loader/discovery.py and agents/loader/installer.py, on a tree of plugin directories; files
-- beside the manifests are left out. A plugin whose name is one part of a path is copied to the
-- directory of this name, and removed from there. What copying to another path, or removing it, does
-- to the tree is the file system's, and a parameter.
pub mod Discovered
pub mod Installed
use kitematic.Base.{
  String, str_eq, is_empty, codes, contains_text, Bool, true, false, not, ◌||◌, ◌≡◌, Option, none,
  some, List, [], ◌∷◌, ◌++◌, if◌then◌else◌, Outcome, returned, raised,
}
use kitematic.Base.Dict.{Dict, lookup, insert, erase, contains}
use kitematic.Kernel.Values.{Value}
use kitematic.Storage.Documents.{sort_keys}
use kitematic.Plugins.Manifest.{PluginType, agent, tool, model, framework, PluginManifest}
use kitematic.Plugins.Validator.{
  LoadError, validation_error, not_iterable, attribute_error, yaml_error, other_error,
  manifest_not_mapping, manifest_not_found, validate_manifest,
}

-- A manifest.yaml: one whose reading raises a `YAMLError` or an `OSError`, one whose reading raises
-- another exception (bytes that are no UTF-8, a date that there is not), a value that is no mapping,
-- and a mapping.
pub data Yaml : Type 0 where
  unreadable no_mapping : Yaml
  undecodable : (reason : String) → Yaml
  mapping : Dict Value → Yaml

-- The directories of a type, with their manifest.yaml where they have one.
abbrev pub Directories : Type 0
Directories = Dict (Option Yaml)

-- agents/tools, agents/frameworks and agents/models
pub record Tree : Type 0 where
  pub tools : Directories
  pub frameworks : Directories
  pub models : Directories

unfoldable pub load_manifest : Yaml → Outcome LoadError PluginManifest
unfolding validate_manifest
load_manifest unreadable = raised yaml_error
load_manifest (undecodable reason) = raised (other_error reason)
load_manifest no_mapping = raised (validation_error (manifest_not_mapping ∷ []))
load_manifest (mapping raw) = validate_manifest raw

-- one round of the loop, with the manifests of the rest: some exceptions skip the plugin
unfoldable pub discovered :
    Outcome LoadError PluginManifest
    → Outcome LoadError (List PluginManifest)
    → Outcome LoadError (List PluginManifest)
discovered (returned m) (returned ms) = returned (m ∷ ms)
discovered (returned m) (raised e) = raised e
discovered (raised (validation_error es)) rest = rest
discovered (raised yaml_error) rest = rest
discovered (raised (not_iterable v)) rest = raised (not_iterable v)
discovered (raised attribute_error) rest = raised attribute_error
discovered (raised (other_error reason)) rest = raised (other_error reason)

unfoldable pub discover_in : Directories → Outcome LoadError (List PluginManifest)
unfolding discovered load_manifest
discover_in [] = returned []
discover_in ((name, none) ∷ ds) = discover_in ds
discover_in ((name, some yaml) ∷ ds) = discovered (load_manifest yaml) (discover_in ds)

unfoldable pub joined :
    Outcome LoadError (List PluginManifest)
    → Outcome LoadError (List PluginManifest)
    → Outcome LoadError (List PluginManifest)
joined (raised e) rest = raised e
joined (returned ms) (raised e) = raised e
joined (returned ms) (returned more) = returned (ms ++ more)

unfoldable pub discover_plugins : Tree → Outcome LoadError (List PluginManifest)
unfolding discover_in joined sort_keys
discover_plugins t =
    joined (discover_in (sort_keys t.tools))
      (joined (discover_in (sort_keys t.frameworks)) (discover_in (sort_keys t.models)))

unfoldable pub first_named : String → List PluginManifest → Option PluginManifest
first_named name [] = none
first_named name (m ∷ ms) =
    let rest = first_named name ms in if str_eq m.name name then some m else rest

unfoldable pub named_among :
    String → Outcome LoadError (List PluginManifest) → Outcome LoadError (Option PluginManifest)
unfolding first_named
named_among name (raised e) = raised e
named_among name (returned ms) = returned (first_named name ms)

unfoldable pub discover_plugin : String → Tree → Outcome LoadError (Option PluginManifest)
unfolding named_among discover_plugins
discover_plugin name t = named_among name (discover_plugins t)

-- `_plugin_dest`: agents are tools
unfoldable pub directories_of : PluginType → Tree → Directories
directories_of agent t = t.tools
directories_of tool t = t.tools
directories_of model t = t.models
directories_of framework t = t.frameworks

unfoldable pub with_directories : PluginType → Directories → Tree → Tree
with_directories agent ds t = record t { tools = ds }
with_directories tool ds t = record t { tools = ds }
with_directories model ds t = record t { models = ds }
with_directories framework ds t = record t { frameworks = ds }

-- The name of a plugin is one part of a path: not empty, without a slash, and neither "." nor "..".
unfoldable pub is_one_part : String → Bool
unfolding contains_text
is_one_part name =
    not (is_empty name || contains_text "/" (codes name) || str_eq name "." || str_eq name "..")

-- What the file system does for a name that is no such part.
pub record OtherPaths : Type 0 where
  pub copy_to : Yaml → PluginManifest → Tree → Outcome LoadError Tree
  pub remove_at : PluginManifest → Tree → Outcome LoadError (Bool × Tree)

-- `copytree` to a directory of this name
unfoldable pub copied : Yaml → PluginManifest → Tree → Tree
unfolding directories_of with_directories
copied yaml m t =
    with_directories m.plugin_type (insert m.name (some yaml) (directories_of m.plugin_type t)) t

-- `dest.is_dir()` and `rmtree(dest)` of a directory of this name
unfoldable pub removed : PluginManifest → Tree → Bool × Tree
unfolding directories_of with_directories
removed m t =
    if contains m.name (directories_of m.plugin_type t)
    then (true, with_directories m.plugin_type (erase m.name (directories_of m.plugin_type t)) t)
    else (false, t)

unfoldable pub with_manifest :
    PluginManifest → Outcome LoadError Tree → Outcome LoadError (PluginManifest × Tree)
with_manifest m (raised e) = raised e
with_manifest m (returned t) = returned (m, t)

module _ (paths : OtherPaths) where
  unfoldable pub copied_to : Yaml → PluginManifest → Tree → Outcome LoadError Tree
  unfolding copied is_one_part
  copied_to yaml m t =
      if is_one_part m.name then returned (copied yaml m t) else paths.copy_to yaml m t

  unfoldable pub installed :
      Yaml → Outcome LoadError PluginManifest → Tree → Outcome LoadError (PluginManifest × Tree)
  unfolding copied_to with_manifest
  installed yaml (raised e) t = raised e
  installed yaml (returned m) t = with_manifest m (copied_to yaml m t)

  -- from a directory with this manifest.yaml, or with none
  unfoldable pub install_from_path : Option Yaml → Tree → Outcome LoadError (PluginManifest × Tree)
  unfolding installed validate_manifest
  install_from_path none t = raised (validation_error (manifest_not_found ∷ []))
  install_from_path (some unreadable) t = raised yaml_error
  install_from_path (some (undecodable reason)) t = raised (other_error reason)
  install_from_path (some no_mapping) t = raised attribute_error
  install_from_path (some (mapping raw)) t = installed (mapping raw) (validate_manifest raw) t

  unfoldable pub removed_target :
      Outcome LoadError (Option PluginManifest) → Tree → Outcome LoadError (Bool × Tree)
  unfolding removed is_one_part
  removed_target (raised e) t = raised e
  removed_target (returned none) t = returned (false, t)
  removed_target (returned (some m)) t =
      if is_one_part m.name then returned (removed m t) else paths.remove_at m t

  unfoldable pub remove_plugin : String → Tree → Outcome LoadError (Bool × Tree)
  unfolding removed_target discover_plugin
  remove_plugin name t = removed_target (discover_plugin name t) t
