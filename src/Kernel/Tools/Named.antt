-- ===== src/Kernel/Tools/Named.antt =====
-- What the tool registry of kernel/resources/tool_registry.py gives to an agent.
use mathlib.Core.Path.{subst}
use kitematic.Base.{
  String, str_eq, str_eq_cases, ◌≡◌, refl, sym, ◌∙◌, Bool, true, false, Option, none, some, List,
  [], ◌∷◌, inl, inr, Outcome, returned, raised, Bool-cases,
}
use kitematic.Base.Dict.{
  Dict, lookup, contains, erase, lookup-insert, lookup-erase, lookup-insert_ne, lookup-erase_ne,
}
use kitematic.Kernel.Errors.{Error, tool_capability_mismatch}
use kitematic.Kernel.Tools.{
  ToolDefinition, tool_is_valid, ToolRegistry, new_registry, register_if, register, unregister_if,
  unregister, is_subset, access_of, access_found, validate_access,
}

-- Registrations and removals, one after the other; one that raises changes nothing.
pub data Change : Type 0 where
  add : ToolDefinition → Change
  remove : String → Change

abbrev pub kept : ToolRegistry → Outcome Error ToolRegistry → ToolRegistry
kept r (returned r') = r'
kept r (raised e) = r

unfoldable pub changes : List Change → ToolRegistry → ToolRegistry
changes [] r = r
changes (add t ∷ rest) r = changes rest (kept r (register t r))
changes (remove tool_id ∷ rest) r = changes rest (kept r (unregister tool_id r))

-- Every tool stands under its own identifier, and is valid.
unfoldable pub IsKeyed : ToolRegistry → Type 0
IsKeyed r =
    (tool_id : String) (t : ToolDefinition)
    → lookup tool_id r.tools ≡ some t
    → (t.tool_id ≡ tool_id) × (tool_is_valid t ≡ true)

IsNamed : String → ToolDefinition → Type 0
IsNamed tool_id t = (t.tool_id ≡ tool_id) × (tool_is_valid t ≡ true)

IsNamedIf : String → Option ToolDefinition → Type 0
IsNamedIf tool_id none = Unit
IsNamedIf tool_id (some t) = IsNamed tool_id t

keyed_by :
    (t t' : ToolDefinition) (tool_id : String)
    → IsNamed tool_id t
    → some t ≡ some t'
    → IsNamed tool_id t'
unfolding IsNamedIf
keyed_by t t' tool_id h e = subst (IsNamedIf tool_id) e h

register_if-IsKeyed :
    (valid present : Bool) (t : ToolDefinition) (r : ToolRegistry)
    → tool_is_valid t ≡ valid
    → IsKeyed r
    → IsKeyed (kept r (register_if valid present t r))
unfolding register_if IsKeyed
register_if-IsKeyed false present t r v h tool_id t' e = h tool_id t' e
register_if-IsKeyed true true t r v h tool_id t' e = h tool_id t' e
register_if-IsKeyed true false t r v h tool_id t' e = elim (str_eq_cases t.tool_id tool_id) [
  | inl (same, p) ↦
      unfold IsNamed in keyed_by t t' tool_id (p, v) (sym (rw (lookup-insert, same) refl) ∙ e)
  | inr (other, n) ↦ h tool_id t' (sym (lookup-insert_ne t.tool_id tool_id t r.tools n) ∙ e)
]

lookup-erase_of :
    (j k : String) (d : Dict ToolDefinition) → str_eq j k ≡ true → lookup k (erase j d) ≡ none
lookup-erase_of j k d e = rw (lookup-erase, e) refl

unregister_if-IsKeyed :
    (present : Bool) (j : String) (r : ToolRegistry)
    → IsKeyed r
    → IsKeyed (kept r (unregister_if present j r))
unfolding unregister_if IsKeyed
unregister_if-IsKeyed false j r h tool_id t e = h tool_id t e
unregister_if-IsKeyed true j r h tool_id t e = elim (str_eq_cases j tool_id) [
  | inl (same, p) ↦ cc (lookup-erase_of j tool_id r.tools same)
  | inr (other, n) ↦ h tool_id t (sym (lookup-erase_ne j tool_id r.tools n) ∙ e)
]

pub none_there : IsKeyed new_registry
unfolding IsKeyed lookup
none_there tool_id t e = cc

pub changes-IsKeyed : (cs : List Change) (r : ToolRegistry) → IsKeyed r → IsKeyed (changes cs r)
unfolding changes register unregister
changes-IsKeyed [] r h = h
changes-IsKeyed (add t ∷ rest) r h =
    changes-IsKeyed rest _ (register_if-IsKeyed (tool_is_valid t) _ t r refl h)
changes-IsKeyed (remove j ∷ rest) r h =
    changes-IsKeyed rest _ (unregister_if-IsKeyed (contains j r.tools) j r h)

access_found-some :
    (tool_id : String) (provided : Option (List String)) (o : Option ToolDefinition)
    (t : ToolDefinition)
    → access_found tool_id provided o ≡ returned t
    → o ≡ some t
access_found-some tool_id provided none t h = cc
access_found-some tool_id none (some t') t h = cc
access_found-some tool_id (some provided) (some t') t h =
    elim (Bool-cases (is_subset t'.required_capabilities provided)) [
      | inl e ↦ cc (granted e)
      | inr e ↦ cc (refused e)
    ]
  where
    granted :
        is_subset t'.required_capabilities provided ≡ true
        → access_of (some provided) t' ≡ returned t'
    granted e = rw e refl

    refused :
        is_subset t'.required_capabilities provided ≡ false
        → access_of (some provided) t'
          ≡ raised (tool_capability_mismatch t'.tool_id t'.required_capabilities provided)
    refused e = rw e refl

-- Whatever registrations and removals come first, an agent that gets a tool gets the one that was
-- registered under the identifier it asks for, and that tool is valid.
pub validate_access_named :
    (cs : List Change) (tool_id : String) (provided : Option (List String)) (t : ToolDefinition)
    → validate_access tool_id provided (changes cs new_registry) ≡ returned t
    → (t.tool_id ≡ tool_id) × (tool_is_valid t ≡ true)
unfolding validate_access IsKeyed
validate_access_named cs tool_id provided t h =
    changes-IsKeyed cs new_registry none_there tool_id t
      (access_found-some tool_id provided (lookup tool_id (changes cs new_registry).tools) t h)
