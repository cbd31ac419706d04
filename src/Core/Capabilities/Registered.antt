-- ===== src/Core/Capabilities/Registered.antt =====
-- A registry of core/policies/capability_registry.py answers as its list of capabilities.
use mathlib.Core.List.{append_assoc, append-nil}
use kitematic.Base.{
  ◌≡◌, ◌∙◌, refl, sym, ap, inl, inr, String, str_eq, is_empty, Bool, true, false, not, ◌&&◌,
  Bool-cases, none, List, [], ◌∷◌, ◌++◌, map, any, all, All, arith, returned,
}
use kitematic.Base.Dict.{Dict, lookup, insert, values}
use kitematic.Core.Capabilities.{
  Capability, CapabilityRegistry, validate_capability, register_valid, register_capability,
  register_each, get_capability, list_capabilities, by_id,
}

-- no identifier occurs twice
unfoldable pub distinct_ids : List Capability → Bool
distinct_ids [] = true
distinct_ids (c ∷ cs) = not (any (λ d. str_eq c.id d.id) cs) && distinct_ids cs

-- the identifier and the name are there
abbrev pub is_named : Capability → Bool
is_named c = not (is_empty c.id) && not (is_empty c.name)

abbrev entries : List Capability → Dict Capability
entries cs = map (λ c. (c.id, c)) cs

register_capability-named :
    (c : Capability) (d : Dict Capability)
    → is_named c ≡ true
    → register_capability c (record { capabilities = d })
      ≡ returned (record { capabilities = insert c.id c d })
unfolding register_capability register_valid validate_capability
register_capability-named c d h =
    let has_id : is_empty c.id ≡ false = ground arith in
    let has_name : is_empty c.name ≡ false = ground arith in rw (has_id, has_name) refl

-- a new key is inserted at the end
insert-absent :
    (k : String) (c : Capability) (d : Dict Capability)
    → lookup k d ≡ none
    → insert k c d ≡ d ++ (k, c) ∷ []
unfolding insert lookup
insert-absent k c [] h = refl
insert-absent k c ((j, b) ∷ d) h = elim (Bool-cases (str_eq j k)) [
  | inl e ↦ ground arith
  | inr e ↦ rw e (ap (λ rest. (j, b) ∷ rest) (insert-absent k c d (ground arith)))
]

lookup-append_absent :
    (k j : String) (c : Capability) (d : Dict Capability)
    → lookup k d ≡ none
    → str_eq j k ≡ false
    → lookup k (d ++ (j, c) ∷ []) ≡ none
unfolding lookup
lookup-append_absent k j c [] h e = rw e refl
lookup-append_absent k j c ((i, b) ∷ d) h e = elim (Bool-cases (str_eq i k)) [
  | inl f ↦ ground arith
  | inr f ↦ rw f (lookup-append_absent k j c d (ground arith) e)
]

-- the identifiers of the rest are new, also after the first
still_absent :
    (c : Capability) (cs : List Capability) (d : Dict Capability)
    → any (λ b. str_eq c.id b.id) cs ≡ false
    → All (λ b. lookup b.id d ≡ none) cs
    → All (λ b. lookup b.id (d ++ (c.id, c) ∷ []) ≡ none) cs
still_absent c [] d h hs = tt
still_absent c (b ∷ cs) d h (k, hs) =
    (lookup-append_absent b.id c.id c d k (ground arith), still_absent c cs d (ground arith) hs)

lookup-entries : (id : String) (cs : List Capability) → lookup id (entries cs) ≡ by_id id cs
unfolding lookup by_id
lookup-entries id [] = refl
lookup-entries id (c ∷ cs) = ground (arith, lookup-entries id cs)

values-entries : (cs : List Capability) → values (entries cs) ≡ cs
values-entries [] = refl
values-entries (c ∷ cs) = ap (λ rest. c ∷ rest) (values-entries cs)

register_each-appends :
    (cs : List Capability) (d : Dict Capability)
    → all is_named cs ≡ true
    → distinct_ids cs ≡ true
    → All (λ c. lookup c.id d ≡ none) cs
    → register_each cs (record { capabilities = d })
      ≡ returned (record { capabilities = d ++ entries cs })
unfolding register_each distinct_ids
register_each-appends [] d named distinct new =
    ap (λ x. returned (record { capabilities = x })) (sym (append-nil d))
register_each-appends (c ∷ cs) d named distinct (absent, new) =
    rw (register_capability-named c d (ground arith), insert-absent c.id c d absent)
      (register_each-appends cs (d ++ (c.id, c) ∷ []) (ground arith) (ground arith)
          (still_absent c cs d (ground arith) new)
        ∙ ap (λ x. returned (record { capabilities = x }))
            (append_assoc d ((c.id, c) ∷ []) (entries cs)))

none_present : (cs : List Capability) → All (λ c. lookup {V = Capability} c.id [] ≡ none) cs
unfolding lookup
none_present [] = tt
none_present (c ∷ cs) = (refl, none_present cs)

-- A registry that is made from capabilities with names and with identifiers that are all different
-- raises nothing, lists them in their order, and finds each identifier as a search of the list
-- does.
pub register_each-by_id :
    (cs : List Capability)
    → all is_named cs ≡ true
    → distinct_ids cs ≡ true
    → (r : CapabilityRegistry) × (register_each cs (record { capabilities = [] }) ≡ returned r)
      × (list_capabilities r ≡ cs)
      × ((id : String) → get_capability id r ≡ by_id id cs)
unfolding list_capabilities get_capability
register_each-by_id cs named distinct = (
  record { capabilities = entries cs },
  register_each-appends cs [] named distinct (none_present cs),
  values-entries cs,
  λ id. lookup-entries id cs,
)
