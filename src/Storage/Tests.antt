-- ===== src/Storage/Tests.antt =====
-- Concrete checkpoints and memories, and what the stores do with them.
use kitematic.Base.{inr, String, In, ◌≡◌, refl, not, none, some, List, [], ◌∷◌, select, All, raised}
use kitematic.Base.Dict.{lookup, insert, erase}
use kitematic.Storage.Checkpoints.{Checkpoint, step_complete, new_store}
use kitematic.Storage.Checkpoints.Index.{save_all}
use kitematic.Storage.Files.{
  Disk, damaged, empty_disk, temporary, write_index, perform, index_writes, save_to_disk,
  save_document,
}
use kitematic.Storage.Files.Refines.{Refines, save_all_to_disk, save_all_to_disk-Refines}
use kitematic.Storage.Files.Interrupted.{
  Partial, SameFiles, SameIndex, torn_index, Interrupted-Atomic,
}
use kitematic.Storage.Indexed.{fetch_all, fetched}
use kitematic.Storage.Memories.{
  MemoryItem, key_error, type_error, fact, new_memories, is_expired, is_mixed, sort_memories,
  list_by_agent, save_memory, delete_memory, deleted, memories_of, discarded,
}
use kitematic.Storage.Memories.Sorted.{Sorts}
use kitematic.Storage.Memories.Agents.{Command, saving, deleting, run_commands, list_by_agent-Sorts}

abbrev first_save : Checkpoint
first_save = record {
  checkpoint_id = "c1";
  execution_id = "e1";
  version = 1;
  trigger_reason = step_complete;
  checkpoint_hash = "h";
  schema_version = "1.0";
  parent_checkpoint_id = none;
  agent_state_ref = none;
  memory_refs = [];
  tool_history = [];
}

abbrev second_save : Checkpoint
second_save = record first_save { checkpoint_id = "c2"; version = 2 }

abbrev likes_tea : MemoryItem
likes_tea = record {
  item_id = "m1";
  tenant_id = "acme";
  agent_instance_id = "a1";
  memory_type = fact;
  content = "likes tea";
  confidence = 900;
  source = "";
  created_at = some 1;
  expires_at = none;
}

abbrev likes_rain : MemoryItem
likes_rain = record likes_tea { item_id = "m2"; content = "likes rain"; expires_at = some 5 }

abbrev three_commands : List Command
three_commands = saving likes_tea ∷ saving likes_rain ∷ deleting "m3" ∷ []

list_by_agent-Sorts_example :
    (found : List MemoryItem) × Sorts
      (select (λ m. not (is_expired 9 m)) found)
      (list_by_agent 9 "a1" (run_commands three_commands new_memories))
    × All (λ m. m.agent_instance_id ≡ "a1") found
    × ((id : String) (m : MemoryItem)
        → lookup id (run_commands three_commands new_memories).store ≡ some m
        → m.agent_instance_id ≡ "a1"
        → In m found)
unfolding save_memory lookup insert
list_by_agent-Sorts_example =
    list_by_agent-Sorts three_commands "a1" 9 ((λ old h. cc), ((λ old h. cc), tt))

-- A memory with a time of creation beside one without: the listing fails.
times_not_compared :
    list_by_agent 9 "a1" (
      run_commands
        (saving likes_tea ∷ saving (record likes_tea { item_id = "m4"; created_at = none }) ∷ [])
        new_memories)
    ≡ raised type_error
unfolding list_by_agent fetch_all memories_of fetched run_commands save_memory is_mixed is_expired
    sort_memories lookup insert
times_not_compared = refl

-- A memory that is saved again under another agent, and then deleted, is still listed for the first
-- agent, and the listing fails.
listing_fails :
    list_by_agent 9 "a1" (
      run_commands
        (saving likes_tea
          ∷ saving (record likes_tea { agent_instance_id = "a2" })
          ∷ deleting "m1"
          ∷ [])
        new_memories)
    ≡ raised (key_error "m1")
unfolding list_by_agent fetch_all memories_of fetched discarded run_commands save_memory
    delete_memory deleted lookup insert erase
listing_fails = refl

save_all_to_disk-Refines_example :
    Refines
      (save_all_to_disk (first_save ∷ second_save ∷ []) empty_disk)
      (save_all (first_save ∷ second_save ∷ []) new_store)
save_all_to_disk-Refines_example = save_all_to_disk-Refines (first_save ∷ second_save ∷ [])

abbrev one_file : Disk
one_file = (save_to_disk first_save empty_disk).1

abbrev cut_off : Disk
cut_off = perform (write_index temporary damaged) (save_document second_save one_file)

Interrupted-Atomic_example :
    Partial second_save one_file cut_off
    × SameFiles (save_to_disk second_save cut_off).1 (save_to_disk second_save one_file).1
    × SameIndex (save_to_disk second_save cut_off).1 (save_to_disk second_save one_file).1
unfolding index_writes
Interrupted-Atomic_example =
    Interrupted-Atomic second_save one_file cut_off (inr (torn_index damaged))
