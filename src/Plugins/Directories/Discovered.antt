-- ===== src/Plugins/Directories/Discovered.antt =====
-- agents/loader/discovery.py finds exactly the accepted manifests, and what the installer put there.
use kitematic.Base.{
  String, str_eq, Bool, Bool-cases, true, false, ◌≡◌, ◌≢◌, ◌⊎◌, ◌↔◌, refl, ap, sym, inl, inr,
  Option, none, some, List, [], ◌∷◌, ◌++◌, All, In, In-append_left, In-append_right, Never, Outcome,
  returned, raised, if◌then◌else◌,
}
use kitematic.Base.Dict.{insert}
use kitematic.Storage.Documents.{sort_keys, key_before}
use kitematic.Storage.Indexed.{insert_ordered, sort_ordered}
use kitematic.Kernel.Values.{Value}
use kitematic.Plugins.Manifest.{PluginManifest}
use kitematic.Plugins.Validator.{
  LoadError, not_iterable, validation_error, yaml_error, attribute_error, other_error,
}
use kitematic.Plugins.Directories.{
  Yaml, Directories, Tree, load_manifest, discovered, discover_in, joined, discover_plugins,
}

-- Reading it raises nothing that discovery does not catch, and no loop over its capabilities raises.
abbrev pub CanLoad : String × Option Yaml → Type 0
CanLoad (name, none) = Unit
CanLoad (name, some yaml) =
    ((v : Value) → load_manifest yaml ≢ raised (not_iterable v))
    × (load_manifest yaml ≢ raised attribute_error)
    × ((reason : String) → load_manifest yaml ≢ raised (other_error reason))

-- The manifest of the directory.
abbrev pub Holds : PluginManifest → String × Option Yaml → Type 0
Holds m (name, none) = ⊥
Holds m (name, some yaml) = load_manifest yaml ≡ returned m

-- One of the directories has this manifest.
abbrev pub Found : PluginManifest → Directories → Type 0
Found m [] = Never
Found m (e ∷ ds) = Holds m e ⊎ Found m ds

discovered-Found :
    (o : Outcome LoadError PluginManifest) (ms : List PluginManifest) (P : PluginManifest → Type 0)
    → ((v : Value) → o ≢ raised (not_iterable v))
    → o ≢ raised attribute_error
    → ((reason : String) → o ≢ raised (other_error reason))
    → ((m : PluginManifest) → In m ms ↔ P m)
    → (more : List PluginManifest) × (discovered o (returned ms) ≡ returned more)
      × ((m : PluginManifest) → In m more ↔ (o ≡ returned m) ⊎ P m)
unfolding discovered
discovered-Found (returned n) ms P i a u h = (
  n ∷ ms,
  refl,
  λ m. (
    λ x. elim x [ inl e ↦ inl (ap returned (sym e)) | inr y ↦ inr ((h m).0 y) ],
    λ x. elim x [ inl e ↦ inl (same m e) | inr y ↦ inr ((h m).1 y) ],
  ),
)
  where
    same :
        (m : PluginManifest)
        → ◌≡◌ {A = Outcome LoadError PluginManifest} (returned n) (returned m)
        → m ≡ n
    same m e = cc
discovered-Found (raised (not_iterable v)) ms P i a u h = absurd (i v refl)
discovered-Found (raised attribute_error) ms P i a u h = absurd (a refl)
discovered-Found (raised (other_error reason)) ms P i a u h = absurd (u reason refl)
discovered-Found (raised (validation_error es)) ms P i a u h =
    (ms, refl, λ m. (λ x. inr ((h m).0 x), λ x. elim x [ inl e ↦ cc | inr y ↦ (h m).1 y ]))
discovered-Found (raised yaml_error) ms P i a u h =
    (ms, refl, λ m. (λ x. inr ((h m).0 x), λ x. elim x [ inl e ↦ cc | inr y ↦ (h m).1 y ]))

-- a search that gives exactly what is found
abbrev Gives : Outcome LoadError (List PluginManifest) → (PluginManifest → Type 0) → Type 0
Gives o P = (ms : List PluginManifest) × (o ≡ returned ms) × ((m : PluginManifest) → In m ms ↔ P m)

discover_in-Gives : (ds : Directories) → All CanLoad ds → Gives (discover_in ds) (λ m. Found m ds)
unfolding discover_in
discover_in-Gives [] h = ([], refl, λ m. (λ i. i, λ i. i))
discover_in-Gives ((name, none) ∷ ds) (_, h) =
    let (ms, e, f) = discover_in-Gives ds h in
    (ms, e, λ m. (λ i. inr ((f m).0 i), λ x. elim x [ inl n ↦ absurd n | inr y ↦ (f m).1 y ]))
discover_in-Gives ((name, some yaml) ∷ ds) ((i, a, u), h) =
    let (ms, e, f) = discover_in-Gives ds h in
    rw e (discovered-Found (load_manifest yaml) ms (λ m. Found m ds) i a u f)

In-split : (m : PluginManifest) (xs ys : List PluginManifest) → In m (xs ++ ys) → In m xs ⊎ In m ys
In-split m [] ys i = inr i
In-split m (x ∷ xs) ys (inl e) = inl (inl e)
In-split m (x ∷ xs) ys (inr i) = elim (In-split m xs ys i) [ inl j ↦ inl (inr j) | inr j ↦ inr j ]

joined-Gives :
    (o p : Outcome LoadError (List PluginManifest)) (P Q : PluginManifest → Type 0)
    → Gives o P
    → Gives p Q
    → Gives (joined o p) (λ m. P m ⊎ Q m)
unfolding joined
joined-Gives o p P Q (xs, e, f) (ys, k, g) = (
  xs ++ ys,
  rw (e, k) refl,
  λ m. (
    λ i. elim (In-split m xs ys i) [ inl j ↦ inl ((f m).0 j) | inr j ↦ inr ((g m).0 j) ],
    λ x. elim x [
      | inl j ↦ In-append_left m xs ys ((f m).1 j)
      | inr j ↦ In-append_right m xs ys ((g m).1 j)
    ],
  ),
)

-- sorting changes neither what can be loaded nor what is found
module _ (e : String × Option Yaml) where
  CanLoad-insert_ordered :
      (ds : Directories) → CanLoad e → All CanLoad ds → All CanLoad (insert_ordered key_before e ds)
  unfolding insert_ordered
  CanLoad-insert_ordered [] l h = (l, tt)
  CanLoad-insert_ordered (d ∷ ds) l (k, h) = elim (Bool-cases (key_before e d)) [
    | inl b ↦ rw b (l, (k, h))
    | inr b ↦ rw b (k, CanLoad-insert_ordered ds l h)
  ]

  Found-insert_ordered :
      (m : PluginManifest) (ds : Directories)
      → Found m (insert_ordered key_before e ds) ↔ (Holds m e ⊎ Found m ds)
  unfolding insert_ordered
  Found-insert_ordered m [] = (λ x. x, λ x. x)
  Found-insert_ordered m (d ∷ ds) = elim (Bool-cases (key_before e d)) [
    | inl b ↦ rw b (λ x. x, λ x. x)
    | inr b ↦
        let (to, from) = Found-insert_ordered m ds in
        rw b (
          λ x. elim x [
            | inl y ↦ inr (inl y)
            | inr y ↦ elim (to y) [ inl z ↦ inl z | inr z ↦ inr (inr z) ]
          ],
          λ x. elim x [
            | inl y ↦ inr (from (inl y))
            | inr y ↦ elim y [ inl z ↦ inl z | inr z ↦ inr (from (inr z)) ]
          ],
        )
  ]

CanLoad-sort_keys : (ds : Directories) → All CanLoad ds → All CanLoad (sort_keys ds)
unfolding sort_keys sort_ordered
CanLoad-sort_keys [] h = h
CanLoad-sort_keys (e ∷ ds) (l, h) =
    CanLoad-insert_ordered e (sort_keys ds) l (CanLoad-sort_keys ds h)

Found-sort_keys : (m : PluginManifest) (ds : Directories) → Found m (sort_keys ds) ↔ Found m ds
unfolding sort_keys sort_ordered
Found-sort_keys m [] = (λ x. x, λ x. x)
Found-sort_keys m (e ∷ ds) =
    let (to, from) = Found-insert_ordered e m (sort_keys ds) in
    let (to_rest, from_rest) = Found-sort_keys m ds in
    (
      λ x. elim (to x) [ inl y ↦ inl y | inr y ↦ inr (to_rest y) ],
      λ x. from (elim x [ inl y ↦ inl y | inr y ↦ inr (from_rest y) ]),
    )

discover_sorted-Gives :
    (ds : Directories) → All CanLoad ds → Gives (discover_in (sort_keys ds)) (λ m. Found m ds)
discover_sorted-Gives ds h =
    let (ms, e, f) = discover_in-Gives (sort_keys ds) (CanLoad-sort_keys ds h) in
    let same = Found-sort_keys in
    (ms, e, λ m. (λ i. (same m ds).0 ((f m).0 i), λ x. (f m).1 ((same m ds).1 x)))

abbrev pub AllLoad : Tree → Type 0
AllLoad t = All CanLoad t.tools × All CanLoad t.frameworks × All CanLoad t.models

-- One of the three kinds of directories has this manifest.
abbrev pub FoundIn : PluginManifest → Tree → Type 0
FoundIn m t = Found m t.tools ⊎ (Found m t.frameworks ⊎ Found m t.models)

-- Unless the capabilities of some plugin are no list, text or dict, or reading some manifest raises
-- an exception other than a `YAMLError` or an `OSError`, discovery does not raise, and it gives
-- exactly the manifests that can be read and are accepted: the others are skipped.
pub discover_plugins-FoundIn :
    (t : Tree)
    → AllLoad t
    → (ms : List PluginManifest) × (discover_plugins t ≡ returned ms)
      × ((m : PluginManifest) → In m ms ↔ FoundIn m t)
unfolding discover_plugins
discover_plugins-FoundIn t (a, b, c) =
    joined-Gives _ _ (λ m. Found m t.tools) (λ m. Found m t.frameworks ⊎ Found m t.models)
      (discover_sorted-Gives t.tools a)
      (joined-Gives _ _ (λ m. Found m t.frameworks) (λ m. Found m t.models)
        (discover_sorted-Gives t.frameworks b) (discover_sorted-Gives t.models c))

pub Found-insert_self :
    (m : PluginManifest) (name : String) (o : Option Yaml) (ds : Directories)
    → Holds m (name, o)
    → Found m (insert name o ds)
unfolding insert
Found-insert_self m name o [] h = inl h
Found-insert_self m name o ((j, p) ∷ ds) h = elim (Bool-cases (str_eq j name)) [
  | inl b ↦ rw b (inl h)
  | inr b ↦ rw b (inr (Found-insert_self m name o ds h))
]

pub Found-insert :
    (m : PluginManifest) (name : String) (o : Option Yaml) (ds : Directories)
    → Found m (insert name o ds)
    → Holds m (name, o) ⊎ Found m ds
unfolding insert
Found-insert m name o [] (inl h) = inl h
Found-insert m name o [] (inr h) = inr h
Found-insert m name o ((j, p) ∷ ds) h = among (str_eq j name) (λ x. Found-insert m name o ds x) h
  where
    among :
        (b : Bool)
        → (Found m (insert name o ds) → Holds m (name, o) ⊎ Found m ds)
        → Found m (if b then (name, o) ∷ ds else (j, p) ∷ insert name o ds)
        → Holds m (name, o) ⊎ Found m ((j, p) ∷ ds)
    among true _ (inl x) = inl x
    among true _ (inr x) = inr (inr x)
    among false _ (inl x) = inr (inl x)
    among false rest (inr x) = elim (rest x) [ inl y ↦ inl y | inr y ↦ inr (inr y) ]
