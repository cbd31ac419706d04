-- ===== src/Core/Capabilities.antt =====
-- core/policies/capability.py, the registry of core/policies/capability_registry.py and the searches
-- of core/policies/capability_catalog.py, which work on any list of capabilities here. The maps
-- `requirements` and `metadata` of a capability, which nothing reads, are left out. `parse` is the
-- parser of versions of the package `packaging`, up to equality of versions: none for text that is
-- no version.
pub mod Catalog
pub mod Registered
use kitematic.Base.{
  ℕ, String, ◌<>◌, repr_list, str_eq, is_empty, Bool, true, false, not, ◌&&◌, Option, none, some,
  List, [], ◌∷◌, ◌++◌, select, length, ◌==◌, if◌then◌else◌, Outcome, returned, raised,
}
use kitematic.Base.Dict.{Dict, lookup, insert, erase, values, contains}

pub data CapabilityCategory : Type 0 where
  model tool code media enterprise security system device filesystem network : CapabilityCategory

abbrev pub same_category : CapabilityCategory → CapabilityCategory → Bool
same_category model model = true
same_category tool tool = true
same_category code code = true
same_category media media = true
same_category enterprise enterprise = true
same_category security security = true
same_category system system = true
same_category device device = true
same_category filesystem filesystem = true
same_category network network = true
same_category _ _ = false

pub record Capability : Type 0 where
  pub id : String
  pub name : String
  pub category : CapabilityCategory
  pub risk_level : String
  pub version : String
  pub description : String
  pub tags : List String

-- a capability with the defaults of the class
abbrev pub built_in :
    (id name : String) (category : CapabilityCategory) (risk_level description : String)
    → Capability
built_in id name category risk_level description = record {
  id = id;
  name = name;
  category = category;
  risk_level = risk_level;
  version = "1.0";
  description = description;
  tags = [];
}

abbrev required : String → String → List String
required value error = if is_empty value then error ∷ [] else []

unfoldable pub validate_capability : Capability → List String
validate_capability c =
    required c.id "capability id required" ++ required c.name "capability name required"

pub record CapabilityRegistry : Type 0 where
  pub capabilities : Dict Capability

unfoldable pub register_valid :
    (errors : List String) → Capability → CapabilityRegistry → Outcome String CapabilityRegistry
register_valid [] c r = returned (record { capabilities = insert c.id c r.capabilities })
register_valid (e ∷ es) c r = raised ("Invalid capability " <> c.id <> ": " <> repr_list (e ∷ es))

unfoldable pub register_capability :
    Capability → CapabilityRegistry → Outcome String CapabilityRegistry
unfolding register_valid validate_capability
register_capability c r = register_valid (validate_capability c) c r

-- the rest of the capabilities, after one of them
abbrev pub and_then :
    Outcome String CapabilityRegistry
    → (CapabilityRegistry → Outcome String CapabilityRegistry)
    → Outcome String CapabilityRegistry
and_then (raised e) next = raised e
and_then (returned r) next = next r

-- `__init__`, with capabilities
unfoldable pub register_each :
    List Capability → CapabilityRegistry → Outcome String CapabilityRegistry
unfolding register_capability
register_each [] r = returned r
register_each (c ∷ cs) r = and_then (register_capability c r) (register_each cs)

unfoldable pub get_capability : (capability_id : String) → CapabilityRegistry → Option Capability
get_capability capability_id r = lookup capability_id r.capabilities

unfoldable pub has_capability_id : (capability_id : String) → CapabilityRegistry → Bool
has_capability_id capability_id r = contains capability_id r.capabilities

unfoldable pub list_capabilities : CapabilityRegistry → List Capability
list_capabilities r = values r.capabilities

unfoldable pub remove_capability :
    (capability_id : String) → CapabilityRegistry → CapabilityRegistry
remove_capability capability_id r = record { capabilities = erase capability_id r.capabilities }

unfoldable pub capability_count : CapabilityRegistry → ℕ
capability_count r = length r.capabilities

abbrev pub of_category : Option CapabilityCategory → Capability → Bool
of_category none c = true
of_category (some category) c = same_category c.category category

abbrev pub of_risk : Option String → Capability → Bool
of_risk none c = true
of_risk (some risk_level) c = str_eq c.risk_level risk_level

-- `query`, of the catalog over all its capabilities, of the registry over its values
unfoldable pub query : Option CapabilityCategory → Option String → List Capability → List Capability
query category risk_level cs = select (λ c. of_category category c && of_risk risk_level c) cs

-- `CapabilityCatalog.by_id`
unfoldable pub by_id : (cap_id : String) → List Capability → Option Capability
by_id cap_id [] = none
by_id cap_id (c ∷ cs) = let rest = by_id cap_id cs in if str_eq c.id cap_id then some c else rest

module _ {V : Type 0} (parse : String → Option V) (same_version : V → V → Bool) where
  -- whether two texts are versions, and equal ones
  abbrev pub versions_match : Option V → Option V → Bool
  versions_match (some v) (some w) = same_version v w
  versions_match _ _ = false

  -- `CapabilityRegistry.get_compatible`: a text that is no version matches nothing
  unfoldable pub compatible :
      (capability_id : String)
      → Option String
      → CapabilityRegistry
      → Option Capability
      → List Capability
  compatible capability_id constraint r none = []
  compatible capability_id none r (some c) = c ∷ []
  compatible capability_id (some constraint) r (some c) =
      select (λ d. str_eq d.id capability_id && versions_match (parse d.version) (parse constraint))
        (values r.capabilities)

  unfoldable pub get_compatible :
      (capability_id : String) → Option String → CapabilityRegistry → List Capability
  unfolding compatible get_capability
  get_compatible capability_id constraint r =
      compatible capability_id constraint r (get_capability capability_id r)

  -- `CapabilityCatalog.resolve_version`: texts that are no versions are compared as they are
  abbrev pub by_version :
      Capability → (constraint : String) → Option V → Option V → Option Capability
  by_version c constraint (some v) (some w) = if same_version v w then some c else none
  by_version c constraint _ _ = if str_eq c.version constraint then some c else none

  abbrev pub resolved_of : Option String → Option Capability → Option Capability
  resolved_of constraint none = none
  resolved_of none (some c) = some c
  resolved_of (some constraint) (some c) =
      by_version c constraint (parse constraint) (parse c.version)

  unfoldable pub resolve_version :
      (cap_id : String) → Option String → List Capability → Option Capability
  unfolding by_id
  resolve_version cap_id constraint cs = resolved_of constraint (by_id cap_id cs)

  abbrev pub as_list : Option Capability → List Capability
  as_list none = []
  as_list (some c) = c ∷ []

  -- `CapabilityCatalog.get_compatible`
  unfoldable pub get_compatible_of :
      (cap_id : String) → Option String → List Capability → List Capability
  unfolding resolve_version
  get_compatible_of cap_id constraint cs = as_list (resolve_version cap_id constraint cs)
