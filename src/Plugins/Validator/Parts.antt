-- ===== src/Plugins/Validator/Parts.antt =====
-- agents/loader/validator.py: when each field of a manifest has no errors.
use mathlib.Core.Path.{subst}
use kitematic.Base.{
  str_eq_cases, ℕ, suc, String, is_empty, Bool, Bool-cases, true, false, ◌≡◌, refl, ap, sym, ◌∙◌,
  inl, inr, Option, none, some, List, [], ◌∷◌, ◌++◌, get_or, Never, if◌then◌else◌,
}
use kitematic.Base.Dict.{Dict, lookup}
use kitematic.Base.Strip.{strip}
use kitematic.Kernel.Values.{
  Value, Values, Fields, null, flag, number, text, items, object, nil, cons, truthy,
}
use kitematic.Plugins.Manifest.{
  PluginType, agent, tool, model, framework, PluginCapability, plugin_type_value, has_field,
}
use kitematic.Plugins.Validator.{
  ManifestError, capability_errors, capability_of, capabilities_from, is_risk, stripped,
  require_str, plugin_type_of, type_or_tool, entrypoint_of, list_of,
}

pub nil_left : {A : Type 0} (xs ys : List A) → xs ++ ys ≡ [] → xs ≡ []
nil_left [] ys h = refl
nil_left (x ∷ xs) ys h = cc

pub nil_right : {A : Type 0} (xs ys : List A) → xs ++ ys ≡ [] → ys ≡ []
nil_right [] ys h = h
nil_right (x ∷ xs) ys h = cc

unless-true :
    (b : Bool) (e : ManifestError)
    → ◌≡◌ {A = List ManifestError} (if b then [] else e ∷ []) []
    → b ≡ true
unless-true true e h = refl
unless-true false e h = cc

-- the value of a key, or the default
abbrev pub Reads : Dict Value → String → Value → Value → Type 0
Reads raw key default v = get_or (lookup key raw) default ≡ v

-- A text that is more than white space, and `s` without the white space around it.
abbrev pub HasText : Option Value → String → Type 0
HasText o s = (t : String) × (o ≡ some (text t)) × (is_empty (strip t) ≡ false) × (strip t ≡ s)

stripped-nonempty :
    (key s : String) → (stripped key s).0 ≡ [] → (is_empty s ≡ false) × (s ≡ (stripped key s).1)
unfolding stripped
stripped-nonempty key s h = elim (Bool-cases (is_empty s)) [ inl e ↦ cc | inr e ↦ (e, rw e refl) ]

pub require_str-HasText :
    (key : String) (o : Option Value) → (require_str key o).0 ≡ [] → HasText o (require_str key o).1
unfolding require_str
require_str-HasText key none h = cc
require_str-HasText key (some null) h = cc
require_str-HasText key (some (flag b)) h = cc
require_str-HasText key (some (number n)) h = cc
require_str-HasText key (some (items vs)) h = cc
require_str-HasText key (some (object fs)) h = cc
require_str-HasText key (some (text s)) h =
    let (e, same) = stripped-nonempty key (strip s) h in (s, refl, e, same)

pub HasText-require_str :
    (key : String) (o : Option Value) (s : String) → HasText o s → require_str key o ≡ ([], s)
unfolding require_str stripped
HasText-require_str key o s (t, there, e, same) = rw (there, e, same) refl

named_type :
    (s : String) (u t : PluginType)
    → s ≡ plugin_type_value u
    → ◌≡◌ {A = Option PluginType} (some u) (some t)
    → text s ≡ text (plugin_type_value t)
named_type s u t e same = let p : u ≡ t = cc in ap text (e ∙ ap plugin_type_value p)

plugin_type_of-some :
    (v : Value) (t : PluginType) → plugin_type_of v ≡ some t → v ≡ text (plugin_type_value t)
unfolding plugin_type_of
plugin_type_of-some null t h = cc
plugin_type_of-some (flag b) t h = cc
plugin_type_of-some (number n) t h = cc
plugin_type_of-some (items vs) t h = cc
plugin_type_of-some (object fs) t h = cc
plugin_type_of-some (text s) t h = elim (str_eq_cases s "agent") [
  | inl (e, same) ↦ named_type s agent t (unfold plugin_type_value in same) (rw e at h)
  | inr (a, _) ↦ elim (str_eq_cases s "tool") [
    | inl (e, same) ↦ named_type s tool t (unfold plugin_type_value in same) (rw (a, e) at h)
    | inr (b, _) ↦ elim (str_eq_cases s "model") [
      | inl (e, same) ↦ named_type s model t (unfold plugin_type_value in same) (rw (a, b, e) at h)
      | inr (c, _) ↦ elim (str_eq_cases s "framework") [
        | inl (e, same) ↦
            named_type s framework t (unfold plugin_type_value in same) (rw (a, b, c, e) at h)
        | inr (d, _) ↦ absurd (no_type (rw (a, b, c, d) at h))
      ]
    ]
  ]
]
  where
    no_type : ◌≡◌ {A = Option PluginType} none (some t) → ⊥
    no_type e = cc

pub plugin_type_of-value : (t : PluginType) → plugin_type_of (text (plugin_type_value t)) ≡ some t
unfolding plugin_type_of plugin_type_value
plugin_type_of-value agent = refl
plugin_type_of-value tool = refl
plugin_type_of-value model = refl
plugin_type_of-value framework = refl

pub type_or_tool-plugin_type_value :
    (v : Value)
    → (type_or_tool v (plugin_type_of v)).0 ≡ []
    → v ≡ text (plugin_type_value (type_or_tool v (plugin_type_of v)).1)
type_or_tool-plugin_type_value v h = known v (plugin_type_of v) refl h
  where
    known :
        (v : Value) (o : Option PluginType)
        → plugin_type_of v ≡ o
        → (type_or_tool v o).0 ≡ []
        → v ≡ text (plugin_type_value (type_or_tool v o).1)
    known v none e h = unfold type_or_tool in cc
    known v (some t) e h = unfold type_or_tool in plugin_type_of-some v t e

-- A dict with a module and a class.
abbrev pub HasEntrypoint : Option Value → Fields → Type 0
HasEntrypoint o fs =
    (o ≡ some (object fs)) × (has_field "module" fs ≡ true) × (has_field "class" fs ≡ true)

pub entrypoint_of-HasEntrypoint :
    (o : Option Value) → (entrypoint_of o).0 ≡ [] → HasEntrypoint o (entrypoint_of o).1
unfolding entrypoint_of
entrypoint_of-HasEntrypoint none h = cc
entrypoint_of-HasEntrypoint (some null) h = cc
entrypoint_of-HasEntrypoint (some (flag b)) h = cc
entrypoint_of-HasEntrypoint (some (number n)) h = cc
entrypoint_of-HasEntrypoint (some (items vs)) h = cc
entrypoint_of-HasEntrypoint (some (text s)) h = cc
entrypoint_of-HasEntrypoint (some (object fs)) h =
    (refl, unless-true _ _ (nil_left _ _ h), unless-true _ _ (nil_right _ _ h))

pub HasEntrypoint-entrypoint_of :
    (o : Option Value) (fs : Fields) → HasEntrypoint o fs → entrypoint_of o ≡ ([], fs)
unfolding entrypoint_of
HasEntrypoint-entrypoint_of o fs (there, m, c) = rw (there, m, c) refl

-- Every element is a dict with a name and one of the four risk levels, and the capabilities are made
-- of them in order.
abbrev pub AreCapabilities : Values → List PluginCapability → Type 0
AreCapabilities nil [] = Unit
AreCapabilities (cons (object fs) vs) (c ∷ cs) =
    ((c ≡ capability_of fs) × (truthy c.name ≡ true) × (is_risk c.risk_level ≡ true))
    × AreCapabilities vs cs
AreCapabilities _ _ = Never

capability_errors-none :
    (i : ℕ) (fs : Fields)
    → capability_errors i fs ≡ []
    → (truthy (capability_of fs).name ≡ true) × (is_risk (capability_of fs).risk_level ≡ true)
unfolding capability_errors capability_of
capability_errors-none i fs h =
    (unless-true _ _ (nil_left _ _ h), unless-true _ _ (nil_right _ _ h))

none-capability_errors :
    (i : ℕ) (fs : Fields) (c : PluginCapability)
    → c ≡ capability_of fs
    → truthy c.name ≡ true
    → is_risk c.risk_level ≡ true
    → capability_errors i fs ≡ []
unfolding capability_errors
none-capability_errors i fs c e t r =
    let t' : truthy (capability_of fs).name ≡ true = subst (λ x. truthy x.name ≡ true) e t in
    let r' : is_risk (capability_of fs).risk_level ≡ true =
      subst (λ x. is_risk x.risk_level ≡ true) e r in
    errors_none t' r'
  where
    errors_none :
        truthy (capability_of fs).name ≡ true
        → is_risk (capability_of fs).risk_level ≡ true
        → capability_errors i fs ≡ []
    errors_none t r = unfold capability_of in rw (t, r) refl

pub capabilities_from-AreCapabilities :
    (i : ℕ) (vs : Values)
    → (capabilities_from i vs).0 ≡ []
    → AreCapabilities vs (capabilities_from i vs).1
unfolding capabilities_from
capabilities_from-AreCapabilities i nil h = tt
capabilities_from-AreCapabilities i (cons (object fs) vs) h =
    let (t, r) = capability_errors-none i fs (nil_left _ _ h) in
    (
      (refl, t, r),
      capabilities_from-AreCapabilities (suc i) vs (nil_right (capability_errors i fs) _ h),
    )
capabilities_from-AreCapabilities i (cons null vs) h = cc
capabilities_from-AreCapabilities i (cons (flag b) vs) h = cc
capabilities_from-AreCapabilities i (cons (number n) vs) h = cc
capabilities_from-AreCapabilities i (cons (text s) vs) h = cc
capabilities_from-AreCapabilities i (cons (items ws) vs) h = cc

pub AreCapabilities-capabilities_from :
    (i : ℕ) (vs : Values) (cs : List PluginCapability)
    → AreCapabilities vs cs
    → capabilities_from i vs ≡ ([], cs)
unfolding capabilities_from
AreCapabilities-capabilities_from i nil [] h = refl
AreCapabilities-capabilities_from i nil (c ∷ cs) h = elim h [ ]
AreCapabilities-capabilities_from i (cons (object fs) vs) [] h = elim h [ ]
AreCapabilities-capabilities_from i (cons (object fs) vs) (c ∷ cs) ((e, t, r), h) =
    rw
      (
        none-capability_errors i fs c e t r,
        AreCapabilities-capabilities_from (suc i) vs cs h,
        sym e,
      )
      refl
AreCapabilities-capabilities_from i (cons null vs) cs h = elim h [ ]
AreCapabilities-capabilities_from i (cons (flag b) vs) cs h = elim h [ ]
AreCapabilities-capabilities_from i (cons (number n) vs) cs h = elim h [ ]
AreCapabilities-capabilities_from i (cons (text s) vs) cs h = elim h [ ]
AreCapabilities-capabilities_from i (cons (items ws) vs) cs h = elim h [ ]

pub list_of-items :
    (e : ManifestError) (v : Value) → (list_of e v).0 ≡ [] → v ≡ items (list_of e v).1
unfolding list_of
list_of-items e null h = cc
list_of-items e (flag b) h = cc
list_of-items e (number n) h = cc
list_of-items e (text s) h = cc
list_of-items e (items vs) h = refl
list_of-items e (object fs) h = cc
