-- ===== src/Storage/Files.antt =====
-- infrastructure/storage/checkpoint/file_system.py: checkpoints in JSON files, and their index.
--
-- A file is what `json.load` makes of it: the document that `json.dump` wrote, or no JSON at all.
-- Identifiers are names of files, without a slash. Writing never fails; that it may be interrupted
-- is the subject of a module of its own.
pub mod Saved
pub mod Refines
pub mod Interrupted
use kitematic.Base.{String, Option, none, some, List, [], ◌∷◌, get_or, Outcome, returned, raised}
use kitematic.Base.Dict.{Dict, lookup, insert, erase}
use kitematic.Kernel.Errors.{Error, value_error}
use kitematic.Storage.Indexed.{add_to_set}
use kitematic.Storage.Checkpoints.{Checkpoint, sort_checkpoints, latest_from}
use kitematic.Storage.Documents.{
  Document, ReadError, key_error, not_valid, checkpoint_to_dict, dict_to_checkpoint, sort_keys,
  sorted_history,
}

pub data Content (A : Type 0) : Type 0 where
  damaged : Content A
  json : A → Content A

-- The directory: files of checkpoints and the temporary ones by identifier, the index and its
-- temporary file where they exist.
pub record Disk : Type 0 where
  pub checkpoint_files : Dict (Content Document)
  pub temporary_files : Dict (Content Document)
  pub index_file : Option (Content (Dict (List String)))
  pub index_temporary : Option (Content (Dict (List String)))

abbrev pub empty_disk : Disk
empty_disk = record {
  checkpoint_files = [];
  temporary_files = [];
  index_file = none;
  index_temporary = none;
}

unfoldable pub loaded : Option (Content (Dict (List String))) → Dict (List String)
loaded none = []
loaded (some damaged) = []
loaded (some (json index)) = index

unfoldable pub load_index : Disk → Dict (List String)
unfolding loaded
load_index d = loaded d.index_file

-- Where a file is written: beside its place, under a temporary name, or in its place.
pub data Place : Type 0 where
  temporary destination : Place

-- What a save does to the directory: it writes files and renames temporary ones.
pub data Write : Type 0 where
  write_document : Place → String → Content Document → Write
  replace_document : String → Write
  write_index : Place → Content (Dict (List String)) → Write
  replace_index : Write

-- `tmp.replace(dest)`
unfoldable pub moved_file : Option (Content Document) → String → Disk → Disk
moved_file none id d = d
moved_file (some content) id d = record d {
  checkpoint_files = insert id content d.checkpoint_files;
  temporary_files = erase id d.temporary_files;
}

unfoldable pub replace_file : String → Disk → Disk
unfolding moved_file
replace_file id d = moved_file (lookup id d.temporary_files) id d

unfoldable pub perform : Write → Disk → Disk
unfolding replace_file
perform (write_document temporary id content) d = record d {
  temporary_files = insert id content d.temporary_files;
}
perform (write_document destination id content) d = record d {
  checkpoint_files = insert id content d.checkpoint_files;
}
perform (replace_document id) d = replace_file id d
perform (write_index temporary content) d = record d { index_temporary = some content }
perform (write_index destination content) d = record d { index_file = some content }
perform replace_index d = record d { index_file = d.index_temporary; index_temporary = none }

unfoldable pub perform_all : List Write → Disk → Disk
unfolding perform
perform_all [] d = d
perform_all (w ∷ ws) d = perform_all ws (perform w d)

-- the index with the checkpoint
unfoldable pub indexed : Checkpoint → Dict (List String) → Dict (List String)
indexed c index =
    insert c.execution_id (add_to_set c.checkpoint_id (get_or (lookup c.execution_id index) []))
      index

-- the file of a checkpoint
unfoldable pub document_of : Checkpoint → Content Document
unfolding checkpoint_to_dict sorted_history
document_of c = json (checkpoint_to_dict (sorted_history c))

-- the file, first under a temporary name
unfoldable pub document_writes : Checkpoint → List Write
unfolding document_of
document_writes c =
    write_document temporary c.checkpoint_id (document_of c) ∷ replace_document c.checkpoint_id ∷ []

-- `_save_index`
unfoldable pub index_writes : Dict (List String) → List Write
unfolding sort_keys
index_writes index = write_index temporary (json (sort_keys index)) ∷ replace_index ∷ []

unfoldable pub save_document : Checkpoint → Disk → Disk
unfolding document_writes perform_all
save_document c d = perform_all (document_writes c) d

unfoldable pub update_index : Checkpoint → Disk → Disk
unfolding index_writes perform_all indexed load_index
update_index c d = perform_all (index_writes (indexed c (load_index d))) d

unfoldable pub save_to_disk : Checkpoint → Disk → Checkpoint × Disk
unfolding save_document update_index
save_to_disk c d = (c, update_index c (save_document c d))

-- the exceptions that `get` catches, and the one that it lets pass
unfoldable pub read_as : Outcome ReadError Checkpoint → Outcome Error (Option Checkpoint)
read_as (returned c) = returned (some c)
read_as (raised (key_error key)) = returned none
read_as (raised (not_valid reason)) = raised (value_error reason)

unfoldable pub read_file : Option (Content Document) → Outcome Error (Option Checkpoint)
unfolding read_as dict_to_checkpoint
read_file none = returned none
read_file (some damaged) = returned none
read_file (some (json document)) = read_as (dict_to_checkpoint document)

unfoldable pub get_from_disk : String → Disk → Outcome Error (Option Checkpoint)
unfolding read_file
get_from_disk checkpoint_id d = read_file (lookup checkpoint_id d.checkpoint_files)

-- one round of the loop of `list_by_execution`, with the rest of them
unfoldable pub collected :
    Outcome Error (Option Checkpoint)
    → Outcome Error (List Checkpoint)
    → Outcome Error (List Checkpoint)
collected (raised e) rest = raised e
collected (returned none) rest = rest
collected (returned (some c)) (raised e) = raised e
collected (returned (some c)) (returned cs) = returned (c ∷ cs)

unfoldable pub collect : List String → Disk → Outcome Error (List Checkpoint)
unfolding collected get_from_disk
collect [] d = returned []
collect (id ∷ ids) d = collected (get_from_disk id d) (collect ids d)

unfoldable pub in_order : Outcome Error (List Checkpoint) → Outcome Error (List Checkpoint)
in_order (raised e) = raised e
in_order (returned cs) = returned (sort_checkpoints cs)

unfoldable pub ids_on_disk : String → Disk → List String
unfolding load_index
ids_on_disk execution_id d = get_or (lookup execution_id (load_index d)) []

unfoldable pub list_from_disk : String → Disk → Outcome Error (List Checkpoint)
unfolding in_order collect ids_on_disk
list_from_disk execution_id d = in_order (collect (ids_on_disk execution_id d) d)

unfoldable pub latest_listed : Outcome Error (List Checkpoint) → Outcome Error (Option Checkpoint)
latest_listed (raised e) = raised e
latest_listed (returned []) = returned none
latest_listed (returned (c ∷ cs)) = returned (some (latest_from c cs))

unfoldable pub latest_from_disk : String → Disk → Outcome Error (Option Checkpoint)
unfolding latest_listed list_from_disk
latest_from_disk execution_id d = latest_listed (list_from_disk execution_id d)
