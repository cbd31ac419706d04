-- ===== src/ControlPlane/Registry/Listed.antt =====
-- memory_instance_repository.py: an instance gets an identifier of its own, and is never lost.
use text.Mathlib.TextLemmas.{append_cancel_left}
use kitematic.Base.{
  ℕ, ◌+◌, ◌<◌, String, ◌<>◌, show, show_inj, str_eq, eq_refl, str_eq_cases, ◌≡◌, refl, ap, sym, ◌∙◌,
  inl, inr, Option, Option-cases, none, some, List, [], ◌∷◌, All, All-imp, In, In-kept, arith,
}
use kitematic.Base.Dict.{Dict, lookup, values, lookup-insert, lookup-insert_self}
use kitematic.Base.Entries.{All-insert, All-lookup}
use kitematic.Kernel.Values.{Value}
use kitematic.ControlPlane.Registry.{
  Instance, Instances, new_instances, create_instance, get_instance, list_instances,
  changed_instance, update_instance, delete_instance,
}

pub data Change : Type 0 where
  creating : (tenant_id template_id name : String) → Dict Value → Change
  updating : String → Dict Value → Change
  deleting : String → Change

unfoldable pub run_change : Change → Instances → Instances
run_change (creating tenant_id template_id name config) s =
    (create_instance tenant_id template_id name config s).1
run_change (updating id config) s = update_instance id config s
run_change (deleting id) s = delete_instance id s

unfoldable pub run_changes : List Change → Instances → Instances
unfolding run_change
run_changes [] s = s
run_changes (c ∷ cs) s = run_changes cs (run_change c s)

-- The identifier has a number below `n`.
abbrev IsNumbered : ℕ → String × Instance → Type 0
IsNumbered n e = (k : ℕ) × (k < n) × (e.0 ≡ "inst-" <> show k)

abbrev AreNumbered : Instances → Type 0
AreNumbered s = All (IsNumbered s.next_id) s.instances

changed-AreNumbered :
    (o : Option Instance) (id : String) (change : Instance → Instance) (s : Instances)
    → lookup id s.instances ≡ o
    → AreNumbered s
    → AreNumbered (changed_instance o id change s)
unfolding changed_instance
changed-AreNumbered none id change s e h = h
changed-AreNumbered (some i) id change s e h =
    All-insert (IsNumbered s.next_id) id (change i) s.instances
      (All-lookup (IsNumbered s.next_id) id i s.instances h e) h

run_change-AreNumbered : (c : Change) (s : Instances) → AreNumbered s → AreNumbered (run_change c s)
unfolding run_change create_instance update_instance delete_instance
run_change-AreNumbered (creating tenant_id template_id name config) s h =
    All-insert (IsNumbered (s.next_id + 1)) _ _ s.instances (s.next_id, omega arith, refl)
      (All-imp _ _ s.instances (λ e (k, lt, same). (k, omega (arith, lt), same)) h)
run_change-AreNumbered (updating id config) s h = changed-AreNumbered _ id _ s refl h
run_change-AreNumbered (deleting id) s h = changed-AreNumbered _ id _ s refl h

run_changes-AreNumbered :
    (cs : List Change) (s : Instances) → AreNumbered s → AreNumbered (run_changes cs s)
unfolding run_changes
run_changes-AreNumbered [] s h = h
run_changes-AreNumbered (c ∷ cs) s h =
    run_changes-AreNumbered cs (run_change c s) (run_change-AreNumbered c s h)

fresh : (s : Instances) → AreNumbered s → lookup ("inst-" <> show s.next_id) s.instances ≡ none
fresh s h = elim (Option-cases (lookup ("inst-" <> show s.next_id) s.instances)) [
  | inl e ↦ e
  | inr (i, e) ↦
      let (k, lt, same) = All-lookup (IsNumbered s.next_id) _ i s.instances h e in
      let p : s.next_id ≡ k = show_inj s.next_id k (append_cancel_left "inst-" _ _ same) in
      absurd (omega (arith, lt, p))
]

-- The instance is there, of this tenant, template and name.
abbrev pub IsKept : (id tenant_id template_id name : String) → Instances → Type 0
IsKept id tenant_id template_id name s =
    (i : Instance) × (get_instance id s ≡ some i)
    × (i.tenant_id ≡ tenant_id)
    × (i.template_id ≡ template_id)
    × (i.name ≡ name)
    × In i (list_instances tenant_id s)

-- the instance is stored, with its owner
abbrev Stored : (id tenant_id template_id name : String) → Instances → Type 0
Stored id tenant_id template_id name s =
    (i : Instance) × (lookup id s.instances ≡ some i)
    × (i.tenant_id ≡ tenant_id)
    × (i.template_id ≡ template_id)
    × (i.name ≡ name)

module _ (id t tpl name : String) where
  changed-Stored :
      (o : Option Instance) (j : String) (change : Instance → Instance) (s : Instances)
      → ((i : Instance)
          → ((change i).tenant_id ≡ i.tenant_id)
            × ((change i).template_id ≡ i.template_id)
            × ((change i).name ≡ i.name))
      → lookup j s.instances ≡ o
      → Stored id t tpl name s
      → Stored id t tpl name (changed_instance o j change s)
  unfolding changed_instance
  changed-Stored none j change s keeps e h = h
  changed-Stored (some x) j change s keeps e (i, there, a, b, c) = elim (str_eq_cases j id) [
    | inl (q, same) ↦
        let p : x ≡ i = some_inj (sym e ∙ ap (λ y. lookup y s.instances) same ∙ there) in
        (
          change x,
          rw (lookup-insert, q) refl,
          (keeps x).0 ∙ ap (λ y. y.tenant_id) p ∙ a,
          (keeps x).1 ∙ ap (λ y. y.template_id) p ∙ b,
          (keeps x).2 ∙ ap (λ y. y.name) p ∙ c,
        )
    | inr (q, n) ↦ (i, rw (lookup-insert, q) there, a, b, c)
  ]
    where
      some_inj : ◌≡◌ {A = Option Instance} (some x) (some i) → x ≡ i
      some_inj k = cc

  run_change-Stored :
      (c : Change) (s : Instances)
      → AreNumbered s
      → Stored id t tpl name s
      → Stored id t tpl name (run_change c s)
  unfolding run_change create_instance update_instance delete_instance
  run_change-Stored (creating tenant_id template_id n config) s h (i, there, a, b, c) =
      elim (str_eq_cases ("inst-" <> show s.next_id) id) [
        | inl (q, same) ↦
            let gone : lookup id s.instances ≡ none =
              ap (λ y. lookup y s.instances) (sym same) ∙ fresh s h in
            cc (gone, there)
        | inr (q, n) ↦ (i, rw (lookup-insert, q) there, a, b, c)
      ]
  run_change-Stored (updating j config) s h kept =
      changed-Stored _ j _ s (λ i. (refl, refl, refl)) refl kept
  run_change-Stored (deleting j) s h kept =
      changed-Stored _ j _ s (λ i. (refl, refl, refl)) refl kept

  run_changes-Stored :
      (cs : List Change) (s : Instances)
      → AreNumbered s
      → Stored id t tpl name s
      → Stored id t tpl name (run_changes cs s)
  unfolding run_changes
  run_changes-Stored [] s h kept = kept
  run_changes-Stored (c ∷ cs) s h kept =
      run_changes-Stored cs (run_change c s) (run_change-AreNumbered c s h)
        (run_change-Stored c s h kept)

In-values :
    (id : String) (i : Instance) (d : Dict Instance) → lookup id d ≡ some i → In i (values d)
unfolding lookup
In-values id i [] h = cc
In-values id i ((j, x) ∷ d) h = elim (str_eq_cases j id) [
  | inl (q, same) ↦ inl (found (rw (sym h, q) refl))
  | inr (q, n) ↦ inr (In-values id i d (ground (arith, q, h)))
]
  where
    found : ◌≡◌ {A = Option Instance} (some i) (some x) → i ≡ x
    found k = cc

-- A new instance gets an identifier that no instance has; and after any later operations it is found
-- under it and listed for its tenant, with the tenant, template and name that it was made with.
pub create_instance-IsKept :
    (before after : List Change) (tenant_id template_id name : String) (config : Dict Value)
    → let s = run_changes before new_instances in
      let made = create_instance tenant_id template_id name config s in
      (get_instance made.0 s ≡ none)
      × IsKept made.0 tenant_id template_id name (run_changes after made.1)
unfolding run_change create_instance get_instance list_instances
create_instance-IsKept before after tenant_id template_id name config =
    let s = run_changes before new_instances in
    let h = run_changes-AreNumbered before new_instances tt in
    let made : Instances = (create_instance tenant_id template_id name config s).1 in
    let id : String = "inst-" <> show s.next_id in
    let (i, there, own, template, named) =
      run_changes-Stored id tenant_id template_id name after made
        (run_change-AreNumbered (creating tenant_id template_id name config) s h)
        (_, lookup-insert_self id _ s.instances, refl, refl, refl) in
    (
      fresh s h,
      (
        i,
        there,
        own,
        template,
        named,
        In-kept (λ x. str_eq x.tenant_id tenant_id) i _ (In-values id i _ there)
            (ap (λ x. str_eq x tenant_id) own ∙ eq_refl tenant_id),
      ),
    )
