-- ===== src/ControlPlane/Adapters/Checkpoints/Saved.antt =====
-- A state that was saved is restored (control_plane/adapters/to_kernel/checkpoint.py).
use kitematic.Base.{
  String, ◌≡◌, ◌≢◌, ◌∙◌, refl, sym, ap, some, List, [], ◌∷◌, Outcome, returned, raised,
}
use kitematic.Base.Dict.{Dict}
use kitematic.Kernel.Values.{Value}
use kitematic.Kernel.Errors.{Error}
use kitematic.Storage.Checkpoints.{Checkpoint, validate_checkpoint}
use kitematic.Storage.Documents.{sort_entry}
use kitematic.Storage.Repository.{Repository}
use kitematic.ControlPlane.Adapters.Checkpoints.{
  Adapter, Json, after_save, save_valid, save_state, decoded, state_of, after_get, restore_state,
}

module _ {R : Type 0} (repository : Repository R) (json : Json) where
  after_save-stored :
      (c : Checkpoint) (a : Adapter R) (id : String) (run : Outcome Error Checkpoint × R)
      → repository.save_checkpoint c a.repo ≡ run
      → (after_save repository json c.checkpoint_id a run).0 ≡ returned id
      → (id ≡ c.checkpoint_id)
        × (repository.get_checkpoint c.checkpoint_id
              (after_save repository json c.checkpoint_id a run).1.repo
            ≡ returned (some c))
  unfolding after_save
  after_save-stored c a id (raised e, r) k h = cc
  after_save-stored c a id (returned c', r) k h = (
    cc,
    ap (λ x. repository.get_checkpoint c.checkpoint_id x.1) (sym k)
        ∙ repository.get-save_self c c' a.repo (ap (λ x. x.0) k),
  )

  save_valid-stored :
      (errors : List String) (c : Checkpoint) (a : Adapter R) (id : String)
      → (save_valid repository json errors c a).0 ≡ returned id
      → (id ≡ c.checkpoint_id)
        × (repository.get_checkpoint c.checkpoint_id (save_valid repository json errors c a).1.repo
            ≡ returned (some c))
  unfolding save_valid
  save_valid-stored [] c a id h = after_save-stored c a id _ refl h
  save_valid-stored (error ∷ errors) c a id h = cc

  -- A state is restored, with the keys of every dict in it sorted, under the identifier that saving
  -- it returned, whatever the repository is, if it keeps its promises, and if the JSON text of the
  -- sorted state reads back as that.
  pub restore_state-save_state :
      (checkpoint_id execution_id : String) (state : Dict Value) (a : Adapter R) (id : String)
      → json.loads (json.dumps (sort_entry state)) ≡ returned (sort_entry state)
      → (save_state repository json checkpoint_id execution_id state a).0 ≡ returned id
      → restore_state repository json id
          (save_state repository json checkpoint_id execution_id state a).1
        ≡ returned (sort_entry state)
  unfolding save_state restore_state after_get state_of decoded
  restore_state-save_state checkpoint_id execution_id state a id reads h =
      let (same, there) = save_valid-stored _ _ _ id h in rw (same, there, reads) refl

  save_valid-keeps :
      (errors : List String) (c : Checkpoint) (a : Adapter R) (id : String)
      → c.checkpoint_id ≢ id
      → repository.get_checkpoint id (save_valid repository json errors c a).1.repo
        ≡ repository.get_checkpoint id a.repo
  unfolding save_valid
  save_valid-keeps (error ∷ errors) c a id n = refl
  save_valid-keeps [] c a id n =
      ap (repository.get_checkpoint id) (by_run (repository.save_checkpoint c a.repo))
      ∙ repository.get-save_other c id a.repo n
    where
      by_run :
          (run : Outcome Error Checkpoint × R)
          → (after_save repository json c.checkpoint_id a run).1.repo ≡ run.1
      by_run (raised e, r) = unfold after_save in refl
      by_run (returned c', r) = unfold after_save in refl

  -- Saving a state under one identifier leaves what is restored under every other as it was,
  -- whether the save succeeds or raises.
  pub restore_state_of_other :
      (checkpoint_id execution_id : String) (state : Dict Value) (a : Adapter R) (id : String)
      → checkpoint_id ≢ id
      → restore_state repository json id
          (save_state repository json checkpoint_id execution_id state a).1
        ≡ restore_state repository json id a
  unfolding save_state restore_state
  restore_state_of_other checkpoint_id execution_id state a id n =
      ap (after_get repository json id) (save_valid-keeps (validate_checkpoint _) _ _ id n)
