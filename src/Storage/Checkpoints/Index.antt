-- ===== src/Storage/Checkpoints/Index.antt =====
-- The index of the store in memory (infrastructure/storage/checkpoint/in_memory.py): every
-- identifier in it is that of a stored checkpoint, so that listing never fails.
use mathlib.Core.Path.{subst}
use kitematic.Base.{
  str_eq, eq_refl, ap, get_or, if◌then◌else◌, In, some, Option, sym, ◌∙◌, eq_refl, ◌≤◌, ◌≡◌, ◌⊎◌,
  inl, inr, refl, String, Bool, true, false, Option, none, some, List, [], ◌∷◌, All, All-imp, In,
  ltb, Outcome, returned, arith, if◌then◌else◌, str_eq_cases,
}
use kitematic.Base.Dict.{Dict, lookup, insert, lookup-insert}
use kitematic.Storage.Indexed.{
  Names, All-add_to_set, In-add_to_set, In-add_to_set_self, fetch_all-returned,
}
use kitematic.Storage.Checkpoints.{
  Checkpoint, CheckpointStore, new_store, get, save, ids_of, sort_checkpoints, list_by_execution,
  latest_from, latest_of, get_latest,
}

-- An identifier with a stored checkpoint.
abbrev IsStored : Dict Checkpoint → String → Type 0
IsStored store id = Names (λ c. Unit) store id

IsStored-insert :
    (store : Dict Checkpoint) (j : String) (c : Checkpoint) (id : String)
    → IsStored store id
    → IsStored (insert j c store) id
IsStored-insert store j c id (d, there, q) = elim (str_eq_cases j id) [
  | inl (e, same) ↦ (c, rw (lookup-insert, e) refl, tt)
  | inr (e, n) ↦ (d, rw (lookup-insert, e) there, tt)
]

IsStored-insert_self :
    (store : Dict Checkpoint) (j : String) (c : Checkpoint) → IsStored (insert j c store) j
IsStored-insert_self store j c = (c, rw (lookup-insert, eq_refl) refl, tt)

-- Every identifier in the index is stored.
abbrev pub IsIndexed : CheckpointStore → Type 0
IsIndexed s = (execution_id : String) → All (IsStored s.store) (ids_of execution_id s)

save-IsIndexed : (c : Checkpoint) (s : CheckpointStore) → IsIndexed s → IsIndexed (save c s).1
unfolding save ids_of
save-IsIndexed c s h e = elim (str_eq_cases c.execution_id e) [
  | inl (same, p) ↦
      rw (lookup-insert, same)
        (All-add_to_set _ c.checkpoint_id _ (IsStored-insert_self s.store c.checkpoint_id c)
          (All-imp _ _ _ (IsStored-insert s.store c.checkpoint_id c) (h c.execution_id)))
  | inr (other, n) ↦
      rw (lookup-insert, other) (All-imp _ _ _ (IsStored-insert s.store c.checkpoint_id c) (h e))
]

-- Checkpoints saved one after the other.
unfoldable pub save_all : List Checkpoint → CheckpointStore → CheckpointStore
save_all [] s = s
save_all (c ∷ cs) s = save_all cs (save c s).1

pub save_all-IsIndexed :
    (cs : List Checkpoint) (s : CheckpointStore) → IsIndexed s → IsIndexed (save_all cs s)
unfolding save_all
save_all-IsIndexed [] s h = h
save_all-IsIndexed (c ∷ cs) s h = save_all-IsIndexed cs (save c s).1 (save-IsIndexed c s h)

pub new_store-IsIndexed : IsIndexed new_store
unfolding ids_of lookup
new_store-IsIndexed e = tt

-- Every stored checkpoint is in the index, under its execution.
abbrev IsListed : CheckpointStore → Type 0
IsListed s =
    (id : String) (c : Checkpoint) → lookup id s.store ≡ some c → In id (ids_of c.execution_id s)

checkpoint_eq : (a b : Checkpoint) → ◌≡◌ {A = Option Checkpoint} (some a) (some b) → a ≡ b
checkpoint_eq a b h = cc

-- saving keeps what is in the index, and adds the checkpoint
In-save :
    (c : Checkpoint) (s : CheckpointStore) (id execution_id : String)
    → In id (ids_of execution_id s)
    → In id (ids_of execution_id (save c s).1)
unfolding save ids_of
In-save c s id e i = elim (str_eq_cases c.execution_id e) [
  | inl (b, same) ↦
      rw (lookup-insert, b)
        (In-add_to_set id c.checkpoint_id _
          (subst (λ x. In id (get_or (lookup x s.execution_index) [])) (sym same) i))
  | inr (b, n) ↦ rw (lookup-insert, b) i
]

In-save_self :
    (c : Checkpoint) (s : CheckpointStore) → In c.checkpoint_id (ids_of c.execution_id (save c s).1)
unfolding save ids_of
In-save_self c s = rw (lookup-insert, eq_refl) (In-add_to_set_self c.checkpoint_id _)

lookup-save :
    (c : Checkpoint) (s : CheckpointStore) (id : String) (b : Bool)
    → str_eq c.checkpoint_id id ≡ b
    → lookup id (save c s).1.store ≡ (if b then some c else lookup id s.store)
unfolding save
lookup-save c s id b e =
    lookup-insert c.checkpoint_id id c s.store ∙ ap (λ t. if t then some c else lookup id s.store) e

save-IsListed : (c : Checkpoint) (s : CheckpointStore) → IsListed s → IsListed (save c s).1
save-IsListed c s h id d found = elim (str_eq_cases c.checkpoint_id id) [
  | inl (b, same) ↦
      subst (λ x. In x (ids_of d.execution_id (save c s).1)) same
        (subst (λ x. In c.checkpoint_id (ids_of x.execution_id (save c s).1))
          (checkpoint_eq c d (sym (lookup-save c s id true b) ∙ found)) (In-save_self c s))
  | inr (b, n) ↦ In-save c s id d.execution_id (h id d (sym (lookup-save c s id false b) ∙ found))
]

save_all-IsListed :
    (cs : List Checkpoint) (s : CheckpointStore) → IsListed s → IsListed (save_all cs s)
unfolding save_all
save_all-IsListed [] s h = h
save_all-IsListed (c ∷ cs) s h = save_all-IsListed cs (save c s).1 (save-IsListed c s h)

new_store-IsListed : IsListed new_store
unfolding lookup
new_store-IsListed id c h = cc

-- One of the checkpoints, with the highest version of all.
abbrev pub IsLatest : Checkpoint → List Checkpoint → Type 0
IsLatest best found = In best found × All (λ c. c.version ≤ best.version) found

if-IsLatest :
    (test : Bool) (c d : Checkpoint) (ds : List Checkpoint) (best : Checkpoint)
    → ltb c.version d.version ≡ test
    → IsLatest best ((if test then d else c) ∷ ds)
    → IsLatest best (c ∷ d ∷ ds)
if-IsLatest true c d ds best e (i, (h, hs)) = (inr i, (ground arith, (h, hs)))
if-IsLatest false c d ds best e (inl same, (h, hs)) = (inl same, (h, (ground arith, hs)))
if-IsLatest false c d ds best e (inr i, (h, hs)) = (inr (inr i), (h, (ground arith, hs)))

pub latest_from-IsLatest :
    (c : Checkpoint) (ds : List Checkpoint) → IsLatest (latest_from c ds) (c ∷ ds)
unfolding latest_from
latest_from-IsLatest c [] = (inl refl, (omega arith, tt))
latest_from-IsLatest c (d ∷ ds) =
    if-IsLatest (ltb c.version d.version) c d ds _ refl
      (latest_from-IsLatest (if ltb c.version d.version then d else c) ds)

-- What `get_latest` gives for the checkpoints `found` of an execution.
abbrev pub LatestOf : {E : Type 0} → List Checkpoint → Outcome E (Option Checkpoint) → Type 0
LatestOf found o =
    ((found ≡ []) × (o ≡ returned none))
    ⊎ ((best : Checkpoint) × (o ≡ returned (some best)) × IsLatest best found)

latest_of-LatestOf : (found : List Checkpoint) → LatestOf found (latest_of (returned found))
unfolding latest_of
latest_of-LatestOf [] = inl (refl, refl)
latest_of-LatestOf (c ∷ cs) = inr (latest_from c cs, refl, latest_from-IsLatest c cs)

-- Whatever was saved, listing an execution never fails on a missing checkpoint: it gives, in order,
-- checkpoints among which are all the stored ones of this execution, and the latest is one of them
-- with the highest version, or there is none.
pub save_all-LatestOf :
    (cs : List Checkpoint) (execution_id : String)
    → (found : List Checkpoint) × (list_by_execution execution_id (save_all cs new_store)
        ≡ returned (sort_checkpoints found))
      × LatestOf found (get_latest execution_id (save_all cs new_store))
      × ((id : String) (c : Checkpoint)
          → get id (save_all cs new_store) ≡ some c
          → c.execution_id ≡ execution_id
          → In c found)
unfolding list_by_execution get_latest get
save_all-LatestOf cs execution_id =
    let s = save_all cs new_store in
    let (found, e, _, all) =
      fetch_all-returned (λ c. Unit) (ids_of execution_id s) s.store
        (save_all-IsIndexed cs new_store new_store-IsIndexed execution_id) in
    (
      found,
      rw e refl,
      rw e (latest_of-LatestOf found),
      λ id c there own.
          all id c
            (subst (λ x. In id (ids_of x s)) own
              (save_all-IsListed cs new_store new_store-IsListed id c there))
            there,
    )
