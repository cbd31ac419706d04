-- ===== src/Storage/Memories/Agents.antt =====
-- The memories of an agent (infrastructure/storage/memory/in_memory.py).
use mathlib.Core.Path.{subst}
use kitematic.Storage.Memories.Sorted.{Sorts, sort_memories-Sorts}
use kitematic.Storage.Memories.Listed.{IsListed, save_memory-IsListed, deleted-IsListed}
use kitematic.Base.{
  In, ℕ, ◌≡◌, ◌≢◌, inl, inr, refl, sym, ap, ◌∙◌, String, str_eq, eq_iff, eq_refl, str_eq_cases, not,
  Option, none, some, List, [], ◌∷◌, select, All, All-imp, get_or, arith,
}
use kitematic.Base.Dict.{Dict, lookup, insert, erase, lookup-insert, lookup-erase}
use kitematic.Storage.Indexed.{Names, All-add_to_set, fetch_all-returned}
use kitematic.Storage.Memories.{
  MemoryItem, MemoryStore, new_memories, save_memory, is_expired, memories_of, list_by_agent,
  discarded, deleted, delete_memory,
}

-- Every identifier in an agent's set is that of a stored memory of this agent.
abbrev pub IsIndexed : MemoryStore → Type 0
IsIndexed s =
    (agent : String) → All (Names (λ m. m.agent_instance_id ≡ agent) s.store) (memories_of agent s)

-- Saving a memory keeps the index right, unless its identifier is that of another agent's memory.
abbrev pub KeepsAgent : MemoryItem → MemoryStore → Type 0
KeepsAgent m s =
    (old : MemoryItem)
    → lookup m.item_id s.store ≡ some old
    → old.agent_instance_id ≡ m.agent_instance_id

save_memory-IsIndexed :
    (m : MemoryItem) (s : MemoryStore)
    → KeepsAgent m s
    → IsIndexed s
    → IsIndexed (save_memory m s).1
unfolding save_memory memories_of
save_memory-IsIndexed m s keeps h agent = elim (str_eq_cases m.agent_instance_id agent) [
  | inl (e, same) ↦
      rw (lookup-insert, e)
        (All-add_to_set _ m.item_id _ (m, rw (lookup-insert, eq_refl) refl, same)
          (All-imp _ _ _ (still agent) (
            subst
              (λ a.
                All (Names (λ x. x.agent_instance_id ≡ agent) s.store)
                  (get_or (lookup a s.agent_index) []))
              (sym same) (h agent))))
  | inr (e, n) ↦ rw (lookup-insert, e) (All-imp _ _ _ (still agent) (h agent))
]
  where
    still :
        (agent : String) (id : String)
        → Names (λ x. x.agent_instance_id ≡ agent) s.store id
        → Names (λ x. x.agent_instance_id ≡ agent) (insert m.item_id m s.store) id
    still agent id (old, there, q) = elim (str_eq_cases m.item_id id) [
      | inl (e, same) ↦ (
        m,
        rw (lookup-insert, e) refl,
        sym (keeps old (ap (λ x. lookup x s.store) same ∙ there)) ∙ q,
      )
      | inr (e, n) ↦ (old, rw (lookup-insert, e) there, q)
    ]

-- every identifier that stays names a memory that stays
select_others-Names :
    (agent memory_id : String) (store : Dict MemoryItem) (ids : List String)
    → All (Names (λ m. m.agent_instance_id ≡ agent) store) ids
    → All
        (Names (λ m. m.agent_instance_id ≡ agent) (erase memory_id store))
        (select (λ id. not (str_eq id memory_id)) ids)
select_others-Names agent memory_id store [] h = tt
select_others-Names agent memory_id store (id ∷ ids) ((m, there, q), hs) =
    elim (str_eq_cases id memory_id) [
      | inl (e, same) ↦ rw e (select_others-Names agent memory_id store ids hs)
      | inr (e, n) ↦ rw e (
        (m, rw lookup-erase (ground (arith, eq_iff memory_id id, n)), q),
        select_others-Names agent memory_id store ids hs,
      )
    ]

some_eq : (a b : MemoryItem) → ◌≡◌ {A = Option MemoryItem} (some a) (some b) → a ≡ b
some_eq a b h = cc

-- the memories of another agent stay when one is deleted
others-Names :
    (agent memory_id : String) (store : Dict MemoryItem) (m : MemoryItem) (ids : List String)
    → lookup memory_id store ≡ some m
    → m.agent_instance_id ≢ agent
    → All (Names (λ m. m.agent_instance_id ≡ agent) store) ids
    → All (Names (λ m. m.agent_instance_id ≡ agent) (erase memory_id store)) ids
others-Names agent memory_id store m ids found other h = All-imp _ _ _ keep h
  where
    keep :
        (id : String)
        → Names (λ x. x.agent_instance_id ≡ agent) store id
        → Names (λ x. x.agent_instance_id ≡ agent) (erase memory_id store) id
    keep id (x, there, q) = elim (str_eq_cases memory_id id) [
      | inl (e, same) ↦ absurd (
          other (
            ap (λ y. y.agent_instance_id)
              (some_eq _ _ (sym found ∙ ap (λ k. lookup k store) same ∙ there))
            ∙ q))
      | inr (e, n) ↦ (x, rw (lookup-erase, e) there, q)
    ]

module _ (memory_id : String) (s : MemoryStore) (m : MemoryItem)
    (found : lookup memory_id s.store ≡ some m) (h : IsIndexed s) (agent : String) where
  by_entry-IsIndexed :
      (entry : Option (List String))
      → lookup m.agent_instance_id s.agent_index ≡ entry
      → All
          (Names (λ x. x.agent_instance_id ≡ agent) (erase memory_id s.store))
          (get_or (lookup agent (discarded m.agent_instance_id memory_id entry s.agent_index)) [])
  unfolding discarded memories_of
  by_entry-IsIndexed none e = elim (str_eq_cases m.agent_instance_id agent) [
    | inl (b, same) ↦ rw (ap (λ a. lookup a s.agent_index) (sym same) ∙ e) tt
    | inr (b, n) ↦ others-Names agent memory_id s.store m _ found n (h agent)
  ]
  by_entry-IsIndexed (some ids) e = elim (str_eq_cases m.agent_instance_id agent) [
    | inl (b, same) ↦
        rw (lookup-insert, b)
          (select_others-Names agent memory_id s.store ids (
            subst (λ o. All (Names (λ x. x.agent_instance_id ≡ agent) s.store) (get_or o []))
              (ap (λ a. lookup a s.agent_index) (sym same) ∙ e) (h agent)))
    | inr (b, n) ↦
        rw (lookup-insert, b) (others-Names agent memory_id s.store m _ found n (h agent))
  ]

deleted-IsIndexed :
    (memory_id : String) (s : MemoryStore) (o : Option MemoryItem)
    → lookup memory_id s.store ≡ o
    → IsIndexed s
    → IsIndexed (deleted memory_id o s)
unfolding deleted memories_of
deleted-IsIndexed memory_id s none found h = h
deleted-IsIndexed memory_id s (some m) found h =
    λ agent. by_entry-IsIndexed memory_id s m found h agent _ refl

-- The operations that change a store.
pub data Command : Type 0 where
  saving : MemoryItem → Command
  deleting : (memory_id : String) → Command

unfoldable pub run_commands : List Command → MemoryStore → MemoryStore
run_commands [] s = s
run_commands (saving m ∷ cs) s = run_commands cs (save_memory m s).1
run_commands (deleting memory_id ∷ cs) s = run_commands cs (delete_memory memory_id s)

-- No memory is saved again under another agent.
abbrev pub KeepAgents : List Command → MemoryStore → Type 0
KeepAgents [] s = Unit
KeepAgents (saving m ∷ cs) s = KeepsAgent m s × KeepAgents cs (save_memory m s).1
KeepAgents (deleting memory_id ∷ cs) s = KeepAgents cs (delete_memory memory_id s)

run_commands-IsIndexed :
    (cs : List Command) (s : MemoryStore)
    → KeepAgents cs s
    → IsIndexed s
    → IsIndexed (run_commands cs s)
unfolding run_commands delete_memory
run_commands-IsIndexed [] s k h = h
run_commands-IsIndexed (saving m ∷ cs) s (k, ks) h =
    run_commands-IsIndexed cs _ ks (save_memory-IsIndexed m s k h)
run_commands-IsIndexed (deleting memory_id ∷ cs) s ks h =
    run_commands-IsIndexed cs _ ks (deleted-IsIndexed memory_id s _ refl h)

new_memories-IsIndexed : IsIndexed new_memories
unfolding memories_of lookup
new_memories-IsIndexed agent = tt

run_commands-IsListed :
    (cs : List Command) (s : MemoryStore) → IsListed s → IsListed (run_commands cs s)
unfolding run_commands delete_memory
run_commands-IsListed [] s h = h
run_commands-IsListed (saving m ∷ cs) s h = run_commands-IsListed cs _ (save_memory-IsListed m s h)
run_commands-IsListed (deleting memory_id ∷ cs) s h =
    run_commands-IsListed cs _ (deleted-IsListed memory_id s _ h)

new_memories-IsListed : IsListed new_memories
unfolding lookup
new_memories-IsListed id m h = cc

-- Whatever is saved and deleted, as long as no memory is saved again under another agent, listing
-- an agent's memories never fails on a missing one: of memories that are all this agent's, and all
-- of those that are stored, it gives those that have not expired, each as often as it is there, in
-- the order of their times of creation and, between equal or missing times, of their identifiers; or
-- it raises the `TypeError` of comparing times, exactly where some of those that have not expired
-- have a time of creation and some have none.
pub list_by_agent-Sorts :
    (cs : List Command) (agent : String) (now : ℕ)
    → KeepAgents cs new_memories
    → (found : List MemoryItem) × Sorts
        (select (λ m. not (is_expired now m)) found)
        (list_by_agent now agent (run_commands cs new_memories))
      × All (λ m. m.agent_instance_id ≡ agent) found
      × ((id : String) (m : MemoryItem)
          → lookup id (run_commands cs new_memories).store ≡ some m
          → m.agent_instance_id ≡ agent
          → In m found)
unfolding list_by_agent
list_by_agent-Sorts cs agent now k =
    let s = run_commands cs new_memories in
    let (found, e, own, all) =
      fetch_all-returned (λ m. m.agent_instance_id ≡ agent) (memories_of agent s) s.store
        (run_commands-IsIndexed cs new_memories k new_memories-IsIndexed agent) in
    (
      found,
      rw e (sort_memories-Sorts (select (λ m. not (is_expired now m)) found)),
      own,
      λ id m there same.
          all id m
            (subst (λ a. In id (memories_of a s)) same
              (run_commands-IsListed cs new_memories new_memories-IsListed id m there))
            there,
    )
