-- ===== src/Storage/Files/Refines.antt =====
-- A directory of infrastructure/storage/checkpoint/file_system.py refines the store in memory.
use kitematic.Base.{
  String, str_eq_cases, Bool-cases, ◌≡◌, refl, inl, inr, Option, none, some, List, [], ◌∷◌, map,
  Outcome, returned, raised,
}
use kitematic.Base.Dict.{lookup, lookup-insert}
use kitematic.Kernel.Errors.{Error}
use kitematic.Storage.Indexed.{fetch_all, fetched, insert_ordered, sort_ordered, fetch_all-returned}
use kitematic.Storage.Checkpoints.{
  Checkpoint, CheckpointStore, new_store, save, get, ids_of, before, sort_checkpoints,
  list_by_execution, latest_from,
}
use kitematic.Storage.Checkpoints.Index.{
  LatestOf, save_all, save_all-IsIndexed, new_store-IsIndexed, latest_from-IsLatest,
}
use kitematic.Storage.Documents.{sorted_history}
use kitematic.Storage.Files.{
  Disk, empty_disk, load_index, loaded, save_to_disk, read_file, get_from_disk, collected, collect,
  in_order, ids_on_disk, list_from_disk, latest_listed, latest_from_disk,
}
use kitematic.Storage.Files.Saved.{get-save_to_disk, ids-save_to_disk}

-- what the disk gives for an optional checkpoint of the store
abbrev as_read : Option Checkpoint → Option Checkpoint
as_read none = none
as_read (some c) = some (sorted_history c)

-- The disk holds the checkpoints of the store, under the same identifiers, and the same index.
abbrev Holds : Disk → CheckpointStore → Type 0
Holds d s =
    ((id : String) → get_from_disk id d ≡ returned (as_read (get id s)))
    × ((execution_id : String) → ids_on_disk execution_id d ≡ ids_of execution_id s)

save_to_disk-Holds :
    (c : Checkpoint) (d : Disk) (s : CheckpointStore)
    → Holds d s
    → Holds (save_to_disk c d).1 (save c s).1
unfolding get ids_of save
save_to_disk-Holds c d s (gets, ids) = (
  λ id. elim (str_eq_cases c.checkpoint_id id) [
    | inl (e, same) ↦ rw (get-save_to_disk, lookup-insert, e) refl
    | inr (e, n) ↦ rw (get-save_to_disk, lookup-insert, e) (gets id)
  ],
  λ x. elim (str_eq_cases c.execution_id x) [
    | inl (e, same) ↦ rw (ids-save_to_disk, lookup-insert, e, ids c.execution_id) refl
    | inr (e, n) ↦ rw (ids-save_to_disk, lookup-insert, e) (ids x)
  ],
)

-- Checkpoints saved one after the other.
unfoldable pub save_all_to_disk : List Checkpoint → Disk → Disk
unfolding save_to_disk
save_all_to_disk [] d = d
save_all_to_disk (c ∷ cs) d = save_all_to_disk cs (save_to_disk c d).1

save_all-Holds :
    (cs : List Checkpoint) (d : Disk) (s : CheckpointStore)
    → Holds d s
    → Holds (save_all_to_disk cs d) (save_all cs s)
unfolding save_all_to_disk save_all
save_all-Holds [] d s h = h
save_all-Holds (c ∷ cs) d s h =
    save_all-Holds cs (save_to_disk c d).1 (save c s).1 (save_to_disk-Holds c d s h)

empty-Holds : Holds empty_disk new_store
unfolding get_from_disk read_file get ids_on_disk load_index loaded ids_of lookup
empty-Holds = (λ id. refl, λ x. refl)

collected-fetched :
    (d : Disk) (s : CheckpointStore) (id : String) (o : Option Checkpoint)
    (fetch : Outcome String (List Checkpoint)) (rest : Outcome Error (List Checkpoint))
    (found : List Checkpoint)
    → ((more : List Checkpoint) → fetch ≡ returned more → rest ≡ returned (map sorted_history more))
    → fetched o id fetch ≡ returned found
    → collected (returned (as_read o)) rest ≡ returned (map sorted_history found)
unfolding collected fetched
collected-fetched d s id none fetch rest found ih h = cc
collected-fetched d s id (some c) (raised missing) rest found ih h = cc
collected-fetched d s id (some c) (returned more) rest found ih h = rw (ih more refl) cc

get-lookup : (id : String) (s : CheckpointStore) → get id s ≡ lookup id s.store
unfolding get
get-lookup id s = refl

collect-fetch_all :
    (d : Disk) (s : CheckpointStore) (ids : List String) (found : List Checkpoint)
    → Holds d s
    → fetch_all ids s.store ≡ returned found
    → collect ids d ≡ returned (map sorted_history found)
unfolding collect fetch_all
collect-fetch_all d s [] found h e = cc
collect-fetch_all d s (id ∷ ids) found h e =
    rw (h.0 id, get-lookup id s)
      (collected-fetched d s id (lookup id s.store) (fetch_all ids s.store) (collect ids d) found
        (λ more m. collect-fetch_all d s ids more h m) e)

insert-sorted_history :
    (c : Checkpoint) (cs : List Checkpoint)
    → insert_ordered before (sorted_history c) (map sorted_history cs)
      ≡ map sorted_history (insert_ordered before c cs)
unfolding insert_ordered before sorted_history
insert-sorted_history c [] = refl
insert-sorted_history c (d ∷ ds) = elim (Bool-cases (before c d)) [
  | inl e ↦ rw e refl
  | inr e ↦ rw (e, insert-sorted_history c ds) refl
]

sort-sorted_history :
    (cs : List Checkpoint)
    → sort_checkpoints (map sorted_history cs) ≡ map sorted_history (sort_checkpoints cs)
unfolding sort_checkpoints sort_ordered
sort-sorted_history [] = refl
sort-sorted_history (c ∷ cs) =
    rw (sort-sorted_history cs) (insert-sorted_history c (sort_checkpoints cs))

latest_listed-LatestOf : (cs : List Checkpoint) → LatestOf cs (latest_listed (returned cs))
unfolding latest_listed
latest_listed-LatestOf [] = inl (refl, refl)
latest_listed-LatestOf (c ∷ cs) = inr (latest_from c cs, refl, latest_from-IsLatest c cs)

-- The disk answers as the store does, up to the order of the keys in tool histories.
abbrev pub Refines : Disk → CheckpointStore → Type 0
Refines d s =
    ((id : String) → get_from_disk id d ≡ returned (as_read (get id s)))
    × ((execution_id : String)
        → (found : List Checkpoint) × (list_by_execution execution_id s ≡ returned found)
          × (list_from_disk execution_id d ≡ returned (map sorted_history found))
          × LatestOf (map sorted_history found) (latest_from_disk execution_id d))

-- After any checkpoints were saved into an empty directory, reading never raises and gives what the
-- store in memory gives after the same saves, with the keys of tool histories sorted: each
-- identifier has the same checkpoint or none, and each execution the same list of checkpoints in
-- the same order, whose latest is one with the highest version.
pub save_all_to_disk-Refines :
    (cs : List Checkpoint) → Refines (save_all_to_disk cs empty_disk) (save_all cs new_store)
unfolding list_from_disk latest_from_disk list_by_execution in_order
save_all_to_disk-Refines cs =
    let d = save_all_to_disk cs empty_disk in
    let s = save_all cs new_store in
    let h : Holds d s = save_all-Holds cs empty_disk new_store empty-Holds in
    (
      h.0,
      λ x.
          let (found, e, _, _) =
            fetch_all-returned (λ c. Unit) (ids_of x s) s.store
              (save_all-IsIndexed cs new_store new_store-IsIndexed x) in
          let listed = collect-fetch_all d s (ids_of x s) found h e in
          (
            sort_checkpoints found,
            rw e refl,
            rw (h.1 x, listed, sort-sorted_history) refl,
            rw (h.1 x, listed, sort-sorted_history) (latest_listed-LatestOf _),
          ),
    )
