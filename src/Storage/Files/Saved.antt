-- ===== src/Storage/Files/Saved.antt =====
-- The files of infrastructure/storage/checkpoint/file_system.py give what the store in memory gives.
use kitematic.Base.{
  ◌∙◌, String, str_eq, str_eq_cases, ◌≡◌, refl, inl, inr, some, if◌then◌else◌, returned,
}
use kitematic.Base.Dict.{insert, lookup-insert, lookup-insert_self}
use kitematic.Storage.Indexed.{add_to_set}
use kitematic.Storage.Checkpoints.{Checkpoint}
use kitematic.Storage.Documents.{sorted_history}
use kitematic.Storage.Documents.RoundTrip.{dict_to_checkpoint-checkpoint_to_dict, lookup-sort_keys}
use kitematic.Storage.Files.{
  save_to_disk, Disk, load_index, loaded, document_of, save_document, update_index, document_writes,
  index_writes, perform, perform_all, replace_file, moved_file, indexed, read_file, read_as,
  get_from_disk, ids_on_disk,
}

-- a saved document replaces the file of its checkpoint, and nothing else
pub save_document-files :
    (c : Checkpoint) (d : Disk)
    → (save_document c d).checkpoint_files
      ≡ insert c.checkpoint_id (document_of c) d.checkpoint_files
unfolding save_document document_writes perform_all perform replace_file moved_file
save_document-files c d = rw lookup-insert_self refl

pub save_document-index :
    (c : Checkpoint) (d : Disk) → (save_document c d).index_file ≡ d.index_file
unfolding save_document document_writes perform_all perform replace_file moved_file
save_document-index c d = rw lookup-insert_self refl

pub read_file-document_of :
    (c : Checkpoint) → read_file (some (document_of c)) ≡ returned (some (sorted_history c))
unfolding read_file document_of read_as
read_file-document_of c = rw dict_to_checkpoint-checkpoint_to_dict refl

pub get-save_document :
    (c : Checkpoint) (id : String) (d : Disk)
    → get_from_disk id (save_document c d) ≡ (
        if str_eq c.checkpoint_id id
        then returned (some (sorted_history c))
        else get_from_disk id d)
unfolding get_from_disk
get-save_document c id d = elim (str_eq_cases c.checkpoint_id id) [
  | inl (e, same) ↦ rw (save_document-files, lookup-insert, e) (read_file-document_of c)
  | inr (e, n) ↦ rw (save_document-files, lookup-insert, e) refl
]

pub ids-update_index :
    (c : Checkpoint) (execution_id : String) (d : Disk)
    → ids_on_disk execution_id (update_index c d) ≡ (
        if str_eq c.execution_id execution_id
        then add_to_set c.checkpoint_id (ids_on_disk c.execution_id d)
        else ids_on_disk execution_id d)
unfolding ids_on_disk update_index index_writes perform_all perform load_index loaded indexed
ids-update_index c execution_id d = elim (str_eq_cases c.execution_id execution_id) [
  | inl (e, same) ↦ rw (lookup-sort_keys, lookup-insert, e) refl
  | inr (e, n) ↦ rw (lookup-sort_keys, lookup-insert, e) refl
]

pub ids-save_document :
    (c : Checkpoint) (execution_id : String) (d : Disk)
    → ids_on_disk execution_id (save_document c d) ≡ ids_on_disk execution_id d
unfolding ids_on_disk load_index
ids-save_document c execution_id d = rw save_document-index refl

pub get-save_to_disk :
    (c : Checkpoint) (id : String) (d : Disk)
    → get_from_disk id (save_to_disk c d).1 ≡ (
        if str_eq c.checkpoint_id id
        then returned (some (sorted_history c))
        else get_from_disk id d)
unfolding save_to_disk update_index index_writes perform_all perform get_from_disk
get-save_to_disk c id d = unfold get_from_disk in get-save_document c id d

pub ids-save_to_disk :
    (c : Checkpoint) (execution_id : String) (d : Disk)
    → ids_on_disk execution_id (save_to_disk c d).1 ≡ (
        if str_eq c.execution_id execution_id
        then add_to_set c.checkpoint_id (ids_on_disk c.execution_id d)
        else ids_on_disk execution_id d)
unfolding save_to_disk
ids-save_to_disk c execution_id d =
    ids-update_index c execution_id (save_document c d)
    ∙ rw (ids-save_document c c.execution_id d, ids-save_document c execution_id d) refl
