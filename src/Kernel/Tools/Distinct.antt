-- ===== src/Kernel/Tools/Distinct.antt =====
-- The tool registry of kernel/resources/tool_registry.py holds each tool once, under its own
-- identifier: what a listing gives is what a look-up gives.
use kitematic.Base.{
  String, str_eq, eq_iff, str_eq_cases, ◌≡◌, refl, sym, ap, ◌∙◌, Bool, true, false, some, List, [],
  ◌∷◌, In, arith, inl, inr, Bool-cases,
}
use kitematic.Base.Dict.{Dict, lookup, contains, insert, erase, values, lookup-insert, lookup-erase}
use kitematic.Kernel.Tools.{
  ToolDefinition, tool_is_valid, ToolRegistry, new_registry, register_if, register, unregister_if,
  unregister,
}
use kitematic.Kernel.Tools.Named.{Change, add, remove, changes, kept}

-- Every entry stands under the identifier of its tool, and under no other entry's.
IsDistinct : Dict ToolDefinition → Type 0
IsDistinct [] = Unit
IsDistinct ((k, t) ∷ d) = (t.tool_id ≡ k) × (contains k d ≡ false) × IsDistinct d

contains-insert_other :
    (j k : String) (t : ToolDefinition) (d : Dict ToolDefinition)
    → str_eq j k ≡ false
    → contains j d ≡ false
    → contains j (insert k t d) ≡ false
contains-insert_other j k t d n h = rw lookup-insert (ground (arith, eq_iff k j, eq_iff j k))

contains-erase :
    (j k : String) (d : Dict ToolDefinition) → contains j d ≡ false → contains j (erase k d) ≡ false
contains-erase j k d h = rw lookup-erase (ground arith)

insert-IsDistinct :
    (t : ToolDefinition) (d : Dict ToolDefinition)
    → IsDistinct d
    → IsDistinct (insert t.tool_id t d)
unfolding insert IsDistinct
insert-IsDistinct t [] h = (refl, unfold lookup in refl, tt)
insert-IsDistinct t ((j, w) ∷ d) (own, alone, h) = elim (str_eq_cases j t.tool_id) [
  | inl (same, p) ↦ rw same (refl, rw (sym p) alone, h)
  | inr (other, n) ↦
      rw other (own, contains-insert_other j t.tool_id t d other alone, insert-IsDistinct t d h)
]

erase-IsDistinct : (k : String) (d : Dict ToolDefinition) → IsDistinct d → IsDistinct (erase k d)
unfolding erase IsDistinct
erase-IsDistinct k [] h = tt
erase-IsDistinct k ((j, w) ∷ d) (own, alone, h) = elim (Bool-cases (str_eq j k)) [
  | inl same ↦ rw same (erase-IsDistinct k d h)
  | inr other ↦ rw other (own, contains-erase j k d alone, erase-IsDistinct k d h)
]

register_if-IsDistinct :
    (valid present : Bool) (t : ToolDefinition) (r : ToolRegistry)
    → IsDistinct r.tools
    → IsDistinct (kept r (register_if valid present t r)).tools
unfolding register_if
register_if-IsDistinct false present t r h = h
register_if-IsDistinct true true t r h = h
register_if-IsDistinct true false t r h = insert-IsDistinct t r.tools h

unregister_if-IsDistinct :
    (present : Bool) (k : String) (r : ToolRegistry)
    → IsDistinct r.tools
    → IsDistinct (kept r (unregister_if present k r)).tools
unfolding unregister_if
unregister_if-IsDistinct false k r h = h
unregister_if-IsDistinct true k r h = erase-IsDistinct k r.tools h

changes-IsDistinct :
    (cs : List Change) (r : ToolRegistry) → IsDistinct r.tools → IsDistinct (changes cs r).tools
unfolding changes register unregister
changes-IsDistinct [] r h = h
changes-IsDistinct (add t ∷ rest) r h =
    changes-IsDistinct rest _ (register_if-IsDistinct (tool_is_valid t) _ t r h)
changes-IsDistinct (remove k ∷ rest) r h =
    changes-IsDistinct rest _ (unregister_if-IsDistinct _ k r h)

lookup-values :
    (t : ToolDefinition) (d : Dict ToolDefinition)
    → IsDistinct d
    → In t (values d)
    → lookup t.tool_id d ≡ some t
unfolding lookup IsDistinct
lookup-values t [] h i = elim i [ ]
lookup-values t ((j, w) ∷ d) (own, alone, h) (inl same) =
    rw ((eq_iff j t.tool_id).1 (sym own ∙ ap (λ x. x.tool_id) (sym same))) (ap some (sym same))
lookup-values t ((j, w) ∷ d) (own, alone, h) (inr i) =
    let there = lookup-values t d h i in
    elim (str_eq_cases j t.tool_id) [
      | inl (same, p) ↦ clash p there
      | inr (other, n) ↦ rw other there
    ]
  where
    clash : j ≡ t.tool_id → lookup t.tool_id d ≡ some t → lookup t.tool_id ((j, w) ∷ d) ≡ some t
    clash p there = cc

-- Whatever registrations and removals come first, every tool that the registry lists is found under
-- its identifier.
pub changes-listed :
    (cs : List Change) (t : ToolDefinition)
    → In t (values (changes cs new_registry).tools)
    → lookup t.tool_id (changes cs new_registry).tools ≡ some t
changes-listed cs t i =
    lookup-values t _ (changes-IsDistinct cs new_registry (unfold IsDistinct in tt)) i
