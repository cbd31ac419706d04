-- ===== src/Storage/Memories/Listed.antt =====
-- The index of infrastructure/storage/memory/in_memory.py misses no memory.
use mathlib.Core.Path.{subst}
use kitematic.Base.{
  In-kept, ◌≡◌, inl, inr, refl, sym, ap, ◌∙◌, String, str_eq, eq_iff, eq_refl, str_eq_cases, Bool,
  true, false, not, Option, none, some, List, [], In, get_or, arith, if◌then◌else◌,
}
use kitematic.Base.Dict.{Dict, lookup, erase, lookup-insert, lookup-erase}
use kitematic.Storage.Indexed.{In-add_to_set, In-add_to_set_self}
use kitematic.Storage.Memories.{
  MemoryItem, MemoryStore, save_memory, memories_of, discarded, deleted,
}

-- Every stored memory is in the index, under its agent.
abbrev pub IsListed : MemoryStore → Type 0
IsListed s =
    (id : String) (m : MemoryItem)
    → lookup id s.store ≡ some m
    → In id (memories_of m.agent_instance_id s)

memory_eq : (a b : MemoryItem) → ◌≡◌ {A = Option MemoryItem} (some a) (some b) → a ≡ b
memory_eq a b h = cc

-- saving keeps what is in the index, and adds the memory
In-save_memory :
    (m : MemoryItem) (s : MemoryStore) (id agent : String)
    → In id (memories_of agent s)
    → In id (memories_of agent (save_memory m s).1)
unfolding save_memory memories_of
In-save_memory m s id agent i = elim (str_eq_cases m.agent_instance_id agent) [
  | inl (b, same) ↦
      rw (lookup-insert, b)
        (In-add_to_set id m.item_id _
          (subst (λ x. In id (get_or (lookup x s.agent_index) [])) (sym same) i))
  | inr (b, n) ↦ rw (lookup-insert, b) i
]

In-save_memory_self :
    (m : MemoryItem) (s : MemoryStore)
    → In m.item_id (memories_of m.agent_instance_id (save_memory m s).1)
unfolding save_memory memories_of
In-save_memory_self m s = rw (lookup-insert, eq_refl) (In-add_to_set_self m.item_id _)

lookup-save_memory :
    (m : MemoryItem) (s : MemoryStore) (id : String) (b : Bool)
    → str_eq m.item_id id ≡ b
    → lookup id (save_memory m s).1.store ≡ (if b then some m else lookup id s.store)
unfolding save_memory
lookup-save_memory m s id b e =
    lookup-insert m.item_id id m s.store ∙ ap (λ t. if t then some m else lookup id s.store) e

pub save_memory-IsListed :
    (m : MemoryItem) (s : MemoryStore) → IsListed s → IsListed (save_memory m s).1
save_memory-IsListed m s h id d found = elim (str_eq_cases m.item_id id) [
  | inl (b, same) ↦
      subst (λ x. In x (memories_of d.agent_instance_id (save_memory m s).1)) same
        (subst (λ x. In m.item_id (memories_of x.agent_instance_id (save_memory m s).1))
          (memory_eq m d (sym (lookup-save_memory m s id true b) ∙ found))
          (In-save_memory_self m s))
  | inr (b, n) ↦
      In-save_memory m s id d.agent_instance_id
        (h id d (sym (lookup-save_memory m s id false b) ∙ found))
]

-- the index without `memory_id` still has every other identifier
In-discarded :
    (agent memory_id id other : String) (entry : Option (List String)) (index : Dict (List String))
    → lookup agent index ≡ entry
    → str_eq id memory_id ≡ false
    → In id (get_or (lookup other index) [])
    → In id (get_or (lookup other (discarded agent memory_id entry index)) [])
unfolding discarded
In-discarded agent memory_id id other none index e n i = i
In-discarded agent memory_id id other (some ids) index e n i = elim (str_eq_cases agent other) [
  | inl (b, same) ↦
      rw (lookup-insert, b)
        (In-kept (λ x. not (str_eq x memory_id)) id ids
          (subst (λ o. In id (get_or o [])) (ap (λ a. lookup a index) (sym same) ∙ e) i) (ap not n))
  | inr (b, m) ↦ rw (lookup-insert, b) i
]

-- what is left after a deletion was there before
erased_left :
    (k id : String) (d : Dict MemoryItem) (x : MemoryItem)
    → lookup id (erase k d) ≡ some x
    → (str_eq id k ≡ false) × (lookup id d ≡ some x)
erased_left k id d x h = by_test (str_eq k id) refl (sym (lookup-erase k id d) ∙ h)
  where
    by_test :
        (b : Bool)
        → str_eq k id ≡ b
        → (if b then none else lookup id d) ≡ some x
        → (str_eq id k ≡ false) × (lookup id d ≡ some x)
    by_test true e found = cc
    by_test false e found = (ground (arith, eq_iff k id, eq_iff id k), found)

pub deleted-IsListed :
    (memory_id : String) (s : MemoryStore) (o : Option MemoryItem)
    → IsListed s
    → IsListed (deleted memory_id o s)
unfolding deleted memories_of
deleted-IsListed memory_id s none h = h
deleted-IsListed memory_id s (some m) h = λ id x found.
    let (n, there) = erased_left memory_id id s.store x found in
    In-discarded m.agent_instance_id memory_id id x.agent_instance_id _ s.agent_index refl n
      (h id x there)
