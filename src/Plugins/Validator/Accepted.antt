-- ===== src/Plugins/Validator/Accepted.antt =====
-- agents/loader/validator.py: exactly which manifests are accepted, and as what.
use mathlib.Core.Path.{subst}
use kitematic.Base.{Option, none, some, List, [], ◌∷◌, ◌++◌, ◌≡◌, ◌↔◌, refl, get_or, returned}
use kitematic.Base.Dict.{Dict, lookup}
use kitematic.Kernel.Values.{elements, Value, Values, null, text, items, nil}
use kitematic.Plugins.Manifest.{PluginManifest, plugin_type_value}
use kitematic.Plugins.Validator.{
  ManifestError, list_of, manifest_errors, manifest_of, type_of, permissions_of, dependencies_of,
  require_str, type_or_tool, entrypoint_of, capabilities_from, or_validation_error, with_elements,
  validate_manifest, permissions_not_list, dependencies_not_list,
}
use kitematic.Plugins.Validator.Parts.{
  nil_left, nil_right, Reads, HasText, HasEntrypoint, AreCapabilities, require_str-HasText,
  HasText-require_str, plugin_type_of-value, type_or_tool-plugin_type_value,
  entrypoint_of-HasEntrypoint, HasEntrypoint-entrypoint_of, capabilities_from-AreCapabilities,
  AreCapabilities-capabilities_from, list_of-items,
}

-- The file has the four texts, a type, an entrypoint with a module and a class, well-formed
-- capabilities and lists of permissions and dependencies, and the manifest is made of them, with
-- the defaults of what may be missing.
abbrev pub Accepts : Dict Value → PluginManifest → Type 0
Accepts raw m =
    HasText (lookup "name" raw) m.name
    × HasText (lookup "version" raw) m.version
    × Reads raw "plugin_type" (text "") (text (plugin_type_value m.plugin_type))
    × HasText (lookup "runtime_type" raw) m.runtime_type
    × HasText (lookup "author" raw) m.author
    × HasEntrypoint (lookup "entrypoint" raw) m.entrypoint
    × ((vs : Values) × (elements (get_or (lookup "capabilities" raw) (items nil)) ≡ some vs)
        × AreCapabilities vs m.capabilities)
    × Reads raw "permissions" (items nil) (items m.permissions)
    × Reads raw "dependencies" (items nil) (items m.dependencies)
    × Reads raw "description" (text "") m.description
    × Reads raw "min_kernel_version" (text "1.0.0") m.min_kernel_version
    × Reads raw "config_schema" null m.config_schema
    × Reads raw "provider" null m.provider

-- lists without elements in all
none_of :
    (n v t r a e c p d : List ManifestError)
    → n ++ v ++ t ++ r ++ a ++ e ++ c ++ p ++ d ≡ []
    → (n ≡ [])
      × (v ≡ [])
      × (t ≡ [])
      × (r ≡ [])
      × (a ≡ [])
      × (e ≡ [])
      × (c ≡ [])
      × (p ≡ [])
      × (d ≡ [])
none_of n v t r a e c p d h0 =
    let h1 = nil_left (n ++ v ++ t ++ r ++ a ++ e ++ c ++ p) d h0 in
    let h2 = nil_left (n ++ v ++ t ++ r ++ a ++ e ++ c) p h1 in
    let h3 = nil_left (n ++ v ++ t ++ r ++ a ++ e) c h2 in
    let h4 = nil_left (n ++ v ++ t ++ r ++ a) e h3 in
    let h5 = nil_left (n ++ v ++ t ++ r) a h4 in
    let h6 = nil_left (n ++ v ++ t) r h5 in
    let h7 = nil_left (n ++ v) t h6 in
    (
      nil_left n v h7,
      nil_right n v h7,
      nil_right (n ++ v) t h6,
      nil_right (n ++ v ++ t) r h5,
      nil_right (n ++ v ++ t ++ r) a h4,
      nil_right (n ++ v ++ t ++ r ++ a) e h3,
      nil_right (n ++ v ++ t ++ r ++ a ++ e) c h2,
      nil_right (n ++ v ++ t ++ r ++ a ++ e ++ c) p h1,
      nil_right (n ++ v ++ t ++ r ++ a ++ e ++ c ++ p) d h0,
    )

manifest_of-Accepts :
    (raw : Dict Value) (vs : Values)
    → elements (get_or (lookup "capabilities" raw) (items nil)) ≡ some vs
    → manifest_errors raw vs ≡ []
    → Accepts raw (manifest_of raw vs)
unfolding manifest_errors manifest_of
manifest_of-Accepts raw vs e h =
    let (n, v, t, r, a, entry, cs, p, d) =
      none_of (require_str "name" (lookup "name" raw)).0
        (require_str "version" (lookup "version" raw)).0 (type_of raw).0
        (require_str "runtime_type" (lookup "runtime_type" raw)).0
        (require_str "author" (lookup "author" raw)).0 (entrypoint_of (lookup "entrypoint" raw)).0
        (capabilities_from 0 vs).0 (permissions_of raw).0 (dependencies_of raw).0 h in
    (
      require_str-HasText "name" _ n,
      require_str-HasText "version" _ v,
      type_or_tool-plugin_type_value _ t,
      require_str-HasText "runtime_type" _ r,
      require_str-HasText "author" _ a,
      entrypoint_of-HasEntrypoint _ entry,
      (vs, e, capabilities_from-AreCapabilities 0 vs cs),
      list_of-items permissions_not_list _ p,
      list_of-items dependencies_not_list _ d,
      refl,
      refl,
      refl,
      refl,
    )

or_validation_error-returned :
    (es : List ManifestError) (n m : PluginManifest)
    → or_validation_error es n ≡ returned m
    → (es ≡ []) × (n ≡ m)
unfolding or_validation_error
or_validation_error-returned [] n m h = (refl, cc)
or_validation_error-returned (e ∷ es) n m h = cc

with_elements-Accepts :
    (raw : Dict Value) (v : Value) (o : Option Values) (m : PluginManifest)
    → elements (get_or (lookup "capabilities" raw) (items nil)) ≡ o
    → with_elements raw v o ≡ returned m
    → Accepts raw m
unfolding with_elements
with_elements-Accepts raw v none m e h = cc
with_elements-Accepts raw v (some vs) m e h =
    let (none_, same) =
      or_validation_error-returned (manifest_errors raw vs) (manifest_of raw vs) m h in
    subst (Accepts raw) same (manifest_of-Accepts raw vs e none_)

Accepts-validate_manifest :
    (raw : Dict Value) (m : PluginManifest) → Accepts raw m → validate_manifest raw ≡ returned m
unfolding validate_manifest with_elements or_validation_error manifest_errors manifest_of
    type_or_tool list_of
Accepts-validate_manifest raw m (n, v, t, r, a, entry, (vs, e, cs), p, d, b, k, s, o) =
    rw
      (
        e,
        HasText-require_str "name" _ _ n,
        HasText-require_str "version" _ _ v,
        t,
        plugin_type_of-value,
        HasText-require_str "runtime_type" _ _ r,
        HasText-require_str "author" _ _ a,
        HasEntrypoint-entrypoint_of _ _ entry,
        AreCapabilities-capabilities_from 0 vs _ cs,
        p,
        d,
        b,
        k,
        s,
        o,
      )
      refl

-- A manifest is accepted exactly if its name, version, runtime type and author are texts that are
-- more than white space, its type is one of the four, its entrypoint is a dict with a module and a
-- class, every capability is a dict with a name and one of the four risk levels, and permissions
-- and dependencies are lists where they are given; and then it is taken over field by field, the
-- texts without the white space around them.
pub validate_manifest_iff :
    (raw : Dict Value) (m : PluginManifest) → validate_manifest raw ≡ returned m ↔ Accepts raw m
unfolding validate_manifest
validate_manifest_iff raw m =
    (with_elements-Accepts raw _ _ m refl, Accepts-validate_manifest raw m)
