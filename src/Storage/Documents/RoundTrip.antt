-- ===== src/Storage/Documents/RoundTrip.antt =====
-- The documents of infrastructure/storage/checkpoint/file_system.py: what is written is read back,
-- and sorting the keys of a dict keeps its items.
use kitematic.Base.{
  codes, ℕ, String, str_eq, eq_iff, Bool-cases, true, false, ◌≡◌, ◌≢◌, refl, ap, ◌∙◌, inl, inr,
  some, List, [], ◌∷◌, arith, if◌then◌else◌, returned,
}
use kitematic.Base.Dict.{Dict, lookup}
use kitematic.Storage.Indexed.{insert_ordered, sort_ordered}
use kitematic.Storage.Checkpoints.{
  Checkpoint, CheckpointTrigger, step_complete, before_tool_call, after_tool_call, error_recovery,
  pause_request, before_irreversible, codes_le,
}
use kitematic.Storage.Documents.{
  trigger_value, trigger_of, required_key, checkpoint_to_dict, dict_to_checkpoint, key_before,
  sort_keys,
}

trigger_of-trigger_value : (t : CheckpointTrigger) → trigger_of (trigger_value t) ≡ returned t
unfolding trigger_of trigger_value
trigger_of-trigger_value step_complete = refl
trigger_of-trigger_value before_tool_call = refl
trigger_of-trigger_value after_tool_call = refl
trigger_of-trigger_value error_recovery = refl
trigger_of-trigger_value pause_request = refl
trigger_of-trigger_value before_irreversible = refl

pub dict_to_checkpoint-checkpoint_to_dict :
    (c : Checkpoint) → dict_to_checkpoint (checkpoint_to_dict c) ≡ returned c
unfolding dict_to_checkpoint checkpoint_to_dict required_key
dict_to_checkpoint-checkpoint_to_dict c = rw trigger_of-trigger_value refl

codes_le_refl : (s : List ℕ) → codes_le s s ≡ true
unfolding codes_le
codes_le_refl [] = refl
codes_le_refl (c ∷ s) = ground (arith, codes_le_refl s)

module _ {V : Type 0} where
  ne-key_before : (e f : String × V) → key_before e f ≡ false → e.0 ≢ f.0
  unfolding key_before
  ne-key_before e f h same =
      let h' : codes_le (codes e.0) (codes e.0) ≡ false =
        ap (λ x. codes_le (codes e.0) (codes x)) same ∙ h in
      cc (codes_le_refl (codes e.0), h')

  lookup-insert_ordered :
      (k : String) (e : String × V) (d : Dict V)
      → lookup k (insert_ordered key_before e d) ≡ (if str_eq e.0 k then some e.1 else lookup k d)
  unfolding lookup insert_ordered
  lookup-insert_ordered k e [] = refl
  lookup-insert_ordered k e (f ∷ d) = elim (Bool-cases (key_before e f)) [
    | inl b ↦ rw b refl
    | inr b ↦ rw b (
        ground
          (arith, lookup-insert_ordered k e d, ne-key_before e f b, eq_iff e.0 k, eq_iff f.0 k))
  ]

  pub lookup-sort_keys : (k : String) (d : Dict V) → lookup k (sort_keys d) ≡ lookup k d
  unfolding lookup sort_keys sort_ordered
  lookup-sort_keys k [] = refl
  lookup-sort_keys k (e ∷ d) = rw (lookup-insert_ordered, lookup-sort_keys k d) refl
