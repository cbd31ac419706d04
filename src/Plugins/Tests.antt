-- ===== src/Plugins/Tests.antt =====
-- Concrete plugins, and what the loader makes of them.
use kitematic.Base.{
  ◌≡◌, ◌↔◌, ◌≢◌, refl, false, String, none, some, List, [], ◌∷◌, In, returned, raised,
}
use kitematic.Base.Dict.{Dict}
use kitematic.Base.Strip.{is_space, strip_left, strip_right}
use kitematic.Kernel.Values.{Value, null, text, items, object, nil, cons, end, field}
use kitematic.Plugins.Manifest.{PluginManifest, tool}
use kitematic.Plugins.Validator.{validate_manifest, not_iterable, attribute_error, other_error}
use kitematic.Plugins.Validator.Accepted.{Accepts, validate_manifest_iff}
use kitematic.Plugins.Directories.{
  mapping, unreadable, Tree, OtherPaths, is_one_part, load_manifest, discover_plugins,
  install_from_path, copied,
}
use kitematic.Plugins.Directories.Discovered.{FoundIn, AllLoad, discover_plugins-FoundIn}
use kitematic.Plugins.Directories.Installed.{Installs, install_from_path-Installs}

abbrev reads_files : Dict Value
reads_files =
    ("name", text " reader ")
    ∷ ("version", text "1.0.0")
    ∷ ("plugin_type", text "tool")
    ∷ ("runtime_type", text "python")
    ∷ ("author", text "acme")
    ∷ ("entrypoint", object (field "module" (text "m") (field "class" (text "C") end)))
    ∷ ("capabilities", items (cons (object (field "name" (text "files.read") end)) nil))
    ∷ []

abbrev reader : PluginManifest
reader = record {
  name = "reader";
  version = "1.0.0";
  plugin_type = tool;
  runtime_type = "python";
  description = text "";
  author = "acme";
  entrypoint = field "module" (text "m") (field "class" (text "C") end);
  capabilities =
      record {
        name = text "files.read";
        risk_level = text "low";
        description = text "";
        permissions = nil;
      }
      ∷ [];
  permissions = nil;
  dependencies = nil;
  min_kernel_version = text "1.0.0";
  config_schema = null;
  provider = null;
}

accepts_reader : validate_manifest reads_files ≡ returned reader
unfolding validate_manifest strip_left strip_right is_space
accepts_reader = refl

validate_manifest_iff_example :
    validate_manifest reads_files ≡ returned reader ↔ Accepts reads_files reader
validate_manifest_iff_example = validate_manifest_iff reads_files reader

-- an empty `capabilities:` raises
empty_capabilities :
    validate_manifest (("capabilities", null) ∷ reads_files) ≡ raised (not_iterable null)
unfolding validate_manifest strip_left strip_right is_space
empty_capabilities = refl

abbrev one_plugin : Tree
one_plugin = record {
  tools = ("reader", some (mapping reads_files)) ∷ ("empty", none) ∷ [];
  frameworks = ("broken", some unreadable) ∷ [];
  models = [];
}

loads_reader : load_manifest (mapping reads_files) ≡ returned reader
unfolding load_manifest strip_left strip_right is_space
loads_reader = accepts_reader

reader_loads :
    ((v : Value) → load_manifest (mapping reads_files) ≢ raised (not_iterable v))
    × (load_manifest (mapping reads_files) ≢ raised attribute_error)
    × ((reason : String) → load_manifest (mapping reads_files) ≢ raised (other_error reason))
reader_loads = (λ v h. iterable v h, raises_no, λ reason h. decodes reason h)
  where
    iterable : (v : Value) → load_manifest (mapping reads_files) ≡ raised (not_iterable v) → ⊥
    iterable v h = cc (h, loads_reader)

    raises_no : load_manifest (mapping reads_files) ≡ raised attribute_error → ⊥
    raises_no h = cc (h, loads_reader)

    decodes :
        (reason : String) → load_manifest (mapping reads_files) ≡ raised (other_error reason) → ⊥
    decodes reason h = cc (h, loads_reader)

broken_loads :
    ((v : Value) → load_manifest unreadable ≢ raised (not_iterable v))
    × (load_manifest unreadable ≢ raised attribute_error)
    × ((reason : String) → load_manifest unreadable ≢ raised (other_error reason))
unfolding load_manifest strip_left strip_right is_space
broken_loads = (λ v h. iterable v h, raises_no, λ reason h. decodes reason h)
  where
    iterable : (v : Value) → load_manifest unreadable ≡ raised (not_iterable v) → ⊥
    iterable v h = cc

    raises_no : load_manifest unreadable ≡ raised attribute_error → ⊥
    raises_no h = cc

    decodes : (reason : String) → load_manifest unreadable ≡ raised (other_error reason) → ⊥
    decodes reason h = cc

one_plugin-AllLoad : AllLoad one_plugin
one_plugin-AllLoad = ((reader_loads, (tt, tt)), (broken_loads, tt), tt)

discover_plugins-FoundIn_example :
    (ms : List PluginManifest) × (discover_plugins one_plugin ≡ returned ms)
    × ((m : PluginManifest) → In m ms ↔ FoundIn m one_plugin)
discover_plugins-FoundIn_example = discover_plugins-FoundIn one_plugin one_plugin-AllLoad

abbrev no_plugins : Tree
no_plugins = record { tools = []; frameworks = []; models = [] }

-- a file system that refuses every other path
abbrev refusing : OtherPaths
refusing = record {
  copy_to = λ yaml m t. raised (other_error "OSError");
  remove_at = λ m t. returned (false, t);
}

-- a name that leads elsewhere is not one part of a path
leads_elsewhere : is_one_part "../../x" ≡ false
unfolding is_one_part
leads_elsewhere = refl

installs_reader :
    install_from_path refusing (some (mapping reads_files)) no_plugins
    ≡ returned (reader, copied (mapping reads_files) reader no_plugins)
unfolding install_from_path validate_manifest is_one_part strip_left strip_right is_space
installs_reader = refl

install_from_path-Installs_example :
    Installs reader no_plugins (copied (mapping reads_files) reader no_plugins)
unfolding is_one_part
install_from_path-Installs_example =
    install_from_path-Installs refusing (some (mapping reads_files)) no_plugins
      (copied (mapping reads_files) reader no_plugins) reader (tt, tt, tt) installs_reader refl
