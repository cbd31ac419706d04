-- ===== src/Storage/Repository.antt =====
-- core/contracts/checkpoint_repository.py: what a repository of checkpoints promises, as the
-- operations and the laws that its clients rely on. `R` is the state of the repository.
use kitematic.Base.{ap, String, ◌≡◌, ◌≢◌, Option, some, Outcome, returned}
use kitematic.Base.Dict.{lookup-insert_self, lookup-insert_ne}
use kitematic.Kernel.Errors.{Error}
use kitematic.Storage.Checkpoints.{Checkpoint, CheckpointStore, save, get}

pub record Repository (R : Type 0) : Type 0 where
  pub save_checkpoint : Checkpoint → R → Outcome Error Checkpoint × R
  pub get_checkpoint : String → R → Outcome Error (Option Checkpoint)
  -- what was saved is found under its identifier
  pub get-save_self :
      (c c' : Checkpoint) (r : R)
      → (save_checkpoint c r).0 ≡ returned c'
      → get_checkpoint c.checkpoint_id (save_checkpoint c r).1 ≡ returned (some c)
  -- and nothing else is lost or changed
  pub get-save_other :
      (c : Checkpoint) (id : String) (r : R)
      → c.checkpoint_id ≢ id
      → get_checkpoint id (save_checkpoint c r).1 ≡ get_checkpoint id r

pub get-save : (c : Checkpoint) (s : CheckpointStore) → get c.checkpoint_id (save c s).1 ≡ some c
unfolding get save
get-save c s = lookup-insert_self c.checkpoint_id c s.store

pub get-save_of_other :
    (c : Checkpoint) (id : String) (s : CheckpointStore)
    → c.checkpoint_id ≢ id
    → get id (save c s).1 ≡ get id s
unfolding get save
get-save_of_other c id s n = lookup-insert_ne c.checkpoint_id id c s.store n

-- The store in memory is a repository.
abbrev pub in_memory : Repository CheckpointStore
in_memory = record {
  save_checkpoint = λ c s. (returned (save c s).0, (save c s).1);
  get_checkpoint = λ id s. returned (get id s);
  get-save_self = λ c c' s h. ap returned (get-save c s);
  get-save_other = λ c id s n. ap returned (get-save_of_other c id s n);
}
