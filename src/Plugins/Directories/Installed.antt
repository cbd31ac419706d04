-- ===== src/Plugins/Directories/Installed.antt =====
-- agents/loader/installer.py puts a plugin where agents/loader/discovery.py finds it.
use mathlib.Core.Path.{subst}
use kitematic.Base.{
  String, Bool-cases, true, false, if◌then◌else◌, ◌≡◌, ◌⊎◌, ◌∙◌, ap, sym, refl, inl, inr, Option,
  none, some, List, In, Outcome, returned, raised,
}
use kitematic.Base.Dict.{insert}
use kitematic.Base.Entries.{All-insert}
use kitematic.Kernel.Values.{Value}
use kitematic.Plugins.Manifest.{PluginType, agent, tool, model, framework, PluginManifest}
use kitematic.Plugins.Validator.{
  LoadError, not_iterable, attribute_error, other_error, validate_manifest,
}
use kitematic.Plugins.Directories.{
  Yaml, unreadable, undecodable, no_mapping, mapping, OtherPaths, is_one_part, copied_to,
  with_manifest, Tree, load_manifest, discover_plugins, directories_of, with_directories, copied,
  installed, install_from_path,
}
use kitematic.Plugins.Directories.Discovered.{
  CanLoad, Holds, Found, FoundIn, AllLoad, discover_plugins-FoundIn, Found-insert,
  Found-insert_self,
}

module _ (name : String) (yaml : Yaml) (t : Tree) where
  abbrev put : PluginType → Tree
  put type = with_directories type (insert name (some yaml) (directories_of type t)) t

  put-AllLoad : (type : PluginType) → CanLoad (name, some yaml) → AllLoad t → AllLoad (put type)
  unfolding with_directories directories_of
  put-AllLoad agent l (a, b, c) = (All-insert CanLoad name (some yaml) t.tools l a, b, c)
  put-AllLoad tool l (a, b, c) = (All-insert CanLoad name (some yaml) t.tools l a, b, c)
  put-AllLoad model l (a, b, c) = (a, b, All-insert CanLoad name (some yaml) t.models l c)
  put-AllLoad framework l (a, b, c) = (a, All-insert CanLoad name (some yaml) t.frameworks l b, c)

  put-FoundIn :
      (type : PluginType) (m : PluginManifest)
      → load_manifest yaml ≡ returned m
      → FoundIn m (put type)
  unfolding with_directories directories_of
  put-FoundIn agent m h = inl (Found-insert_self m name (some yaml) t.tools h)
  put-FoundIn tool m h = inl (Found-insert_self m name (some yaml) t.tools h)
  put-FoundIn model m h = inr (inr (Found-insert_self m name (some yaml) t.models h))
  put-FoundIn framework m h = inr (inl (Found-insert_self m name (some yaml) t.frameworks h))

  in_tools :
      (m : PluginManifest)
      → Holds m (name, some yaml) ⊎ Found m t.tools
      → Holds m (name, some yaml) ⊎ FoundIn m t
  in_tools m (inl h) = inl h
  in_tools m (inr h) = inr (inl h)

  FoundIn-put :
      (type : PluginType) (m : PluginManifest)
      → FoundIn m (put type)
      → (load_manifest yaml ≡ returned m) ⊎ FoundIn m t
  unfolding with_directories directories_of
  FoundIn-put agent m (inl h) = in_tools m (Found-insert m name (some yaml) t.tools h)
  FoundIn-put tool m (inl h) = in_tools m (Found-insert m name (some yaml) t.tools h)
  FoundIn-put agent m (inr h) = inr (inr h)
  FoundIn-put tool m (inr h) = inr (inr h)
  FoundIn-put model m (inl h) = inr (inl h)
  FoundIn-put framework m (inl h) = inr (inl h)
  FoundIn-put model m (inr (inl h)) = inr (inr (inl h))
  FoundIn-put model m (inr (inr h)) = elim (Found-insert m name (some yaml) t.models h) [
    | inl x ↦ inl x
    | inr x ↦ inr (inr (inr x))
  ]
  FoundIn-put framework m (inr (inl h)) = elim (Found-insert m name (some yaml) t.frameworks h) [
    | inl x ↦ inl x
    | inr x ↦ inr (inr (inl x))
  ]
  FoundIn-put framework m (inr (inr h)) = inr (inr (inr h))

-- What an installation of `m` leaves to be discovered.
abbrev pub Installs : PluginManifest → Tree → Tree → Type 0
Installs m t t' =
    (ms : List PluginManifest) × (discover_plugins t' ≡ returned ms)
    × In m ms
    × ((n : PluginManifest) → In n ms → (n ≡ m) ⊎ FoundIn n t)

put-Installs :
    (yaml : Yaml) (m : PluginManifest) (t : Tree)
    → load_manifest yaml ≡ returned m
    → AllLoad t
    → Installs m t (put m.name yaml t m.plugin_type)
put-Installs yaml m t h all =
    let (ms, e, f) = discover_plugins-FoundIn (put m.name yaml t m.plugin_type) (
      put-AllLoad m.name yaml t m.plugin_type
        (λ v. no_type_error v, no_attribute_error, λ r. no_other r) all) in
    (
      ms,
      e,
      (f m).1 (put-FoundIn m.name yaml t m.plugin_type m h),
      λ n i. elim (FoundIn-put m.name yaml t m.plugin_type n ((f n).0 i)) [
        | inl k ↦ inl (same n k)
        | inr k ↦ inr k
      ],
    )
  where
    no_type_error : (v : Value) → load_manifest yaml ≡ raised (not_iterable v) → ⊥
    no_type_error v k = cc

    no_attribute_error : load_manifest yaml ≡ raised attribute_error → ⊥
    no_attribute_error k = cc

    no_other : (r : String) → load_manifest yaml ≡ raised (other_error r) → ⊥
    no_other r k = cc

    same : (n : PluginManifest) → load_manifest yaml ≡ returned n → n ≡ m
    same n k = cc

carried :
    (n m : PluginManifest) (t u t' : Tree)
    → Installs n t u
    → ◌≡◌ {A = Outcome LoadError (PluginManifest × Tree)} (returned (n, u)) (returned (m, t'))
    → Installs m t t'
carried n m t u t' i k =
    let p : n ≡ m = cc in
    let q : u ≡ t' = cc in subst (λ x. Installs m t x) q (subst (λ x. Installs x t u) p i)

module _ (paths : OtherPaths) where
  installed-Installs :
      (yaml : Yaml) (o : Outcome LoadError PluginManifest) (m : PluginManifest) (t t' : Tree)
      → load_manifest yaml ≡ o
      → AllLoad t
      → installed paths yaml o t ≡ returned (m, t')
      → is_one_part m.name ≡ true
      → Installs m t t'
  unfolding installed copied_to with_manifest
  installed-Installs yaml (raised e) m t t' l all h one = cc
  installed-Installs yaml (returned n) m t t' l all h one = elim (Bool-cases (is_one_part n.name)) [
    | inl b ↦ carried n m t (copied yaml n t) t' (unfold copied in put-Installs yaml n t l all) (
        ap (λ x. with_manifest n (if x then returned (copied yaml n t) else paths.copy_to yaml n t))
          (sym b)
        ∙ h)
    | inr b ↦ other b (paths.copy_to yaml n t) (
        ap (λ x. with_manifest n (if x then returned (copied yaml n t) else paths.copy_to yaml n t))
          (sym b)
        ∙ h)
  ]
    where
      other :
          is_one_part n.name ≡ false
          → (o : Outcome LoadError Tree) → with_manifest n o ≡ returned (m, t')
          → Installs m t t'
      other b (raised e) k = cc
      other b (returned u) k = let p : n ≡ m = cc in cc (ap (λ x. is_one_part x.name) p)

  -- A plugin that was installed from a path, and whose name is one part of a path, is discovered,
  -- together with no others than those that were there, when in the tree before no loop over
  -- capabilities raises and no manifest's reading raises an exception that discovery does not catch.
  pub install_from_path-Installs :
      (source : Option Yaml) (t t' : Tree) (m : PluginManifest)
      → AllLoad t
      → install_from_path paths source t ≡ returned (m, t')
      → is_one_part m.name ≡ true
      → Installs m t t'
  unfolding install_from_path
  install_from_path-Installs none t t' m all h one = cc
  install_from_path-Installs (some unreadable) t t' m all h one = cc
  install_from_path-Installs (some (undecodable reason)) t t' m all h one = cc
  install_from_path-Installs (some no_mapping) t t' m all h one = cc
  install_from_path-Installs (some (mapping raw)) t t' m all h one =
      installed-Installs (mapping raw) (validate_manifest raw) m t t' loads_it all h one
    where
      loads_it : load_manifest (mapping raw) ≡ validate_manifest raw
      loads_it = unfold load_manifest in refl
