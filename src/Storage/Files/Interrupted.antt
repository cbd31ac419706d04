-- ===== src/Storage/Files/Interrupted.antt =====
-- infrastructure/storage/checkpoint/file_system.py: a save that is cut off between two writes, or in
-- the middle of one. Renaming a file is atomic, as POSIX has it.
use kitematic.Base.{
  String, str_eq, str_eq_cases, eq_refl, Bool-cases, true, false, ◌≡◌, ◌⊎◌, refl, ap, sym, ◌∙◌, inl,
  inr, List, [], ◌∷◌, ◌++◌, any, arith, if◌then◌else◌,
}
use kitematic.Base.Dict.{Dict}
use kitematic.Storage.Indexed.{add_to_set}
use kitematic.Storage.Checkpoints.{Checkpoint}
use kitematic.Storage.Documents.{Document}
use kitematic.Storage.Files.{
  Disk, Content, Place, Write, write_document, write_index, perform, perform_all, document_writes,
  index_writes, indexed, save_document, update_index, save_to_disk, get_from_disk, ids_on_disk,
  load_index,
}
use kitematic.Storage.Files.Saved.{
  get-save_document, ids-save_document, get-save_to_disk, ids-save_to_disk,
}

-- What a sequence of writes leaves behind if it is cut off: nothing of the rest is done, or a file
-- that is being written holds anything, or the cut comes later. Renaming is atomic.
pub data Cut : List Write → Disk → Disk → Type 0 where
  stopped : {ws : List Write} {d : Disk} → Cut ws d d
  torn_document :
      {place : Place} {id : String} {content : Content Document} {ws : List Write} {d : Disk}
      (torn : Content Document)
      → Cut (write_document place id content ∷ ws) d (perform (write_document place id torn) d)
  torn_index :
      {place : Place} {content : Content (Dict (List String))} {ws : List Write} {d : Disk}
      (torn : Content (Dict (List String)))
      → Cut (write_index place content ∷ ws) d (perform (write_index place torn) d)
  later : {w : Write} {ws : List Write} {d e : Disk} → Cut ws (perform w d) e → Cut (w ∷ ws) d e

-- A save is cut off in the writes of the document, or in those of the index.
abbrev pub Interrupted : Checkpoint → Disk → Disk → Type 0
Interrupted c d e =
    Cut (document_writes c) d e
    ⊎ Cut (index_writes (indexed c (load_index (save_document c d)))) (save_document c d) e

abbrev pub SameFiles : Disk → Disk → Type 0
SameFiles d e = (id : String) → get_from_disk id d ≡ get_from_disk id e

abbrev pub SameIndex : Disk → Disk → Type 0
SameIndex d e = (execution_id : String) → ids_on_disk execution_id d ≡ ids_on_disk execution_id e

module _ (c : Checkpoint) (d : Disk) where
  -- Nothing has changed, only the file of the checkpoint is in place, or its index as well.
  abbrev pub Partial : Disk → Type 0
  Partial e =
      (SameFiles e d × SameIndex e d)
      ⊎ ((SameFiles e (save_to_disk c d).1 × SameIndex e d)
          ⊎ (SameFiles e (save_to_disk c d).1 × SameIndex e (save_to_disk c d).1))

  files-save_document : SameFiles (save_document c d) (save_to_disk c d).1
  files-save_document id = get-save_document c id d ∙ sym (get-save_to_disk c id d)

  document-Partial : (e : Disk) → Cut (document_writes c) d e → Partial e
  unfolding document_writes save_document perform_all perform get_from_disk ids_on_disk load_index
  document-Partial e stopped = inl (λ id. refl, λ x. refl)
  document-Partial e (torn_document torn) = inl (λ id. refl, λ x. refl)
  document-Partial e (later stopped) = inl (λ id. refl, λ x. refl)
  document-Partial e (later (later stopped)) =
      inr (inl (files-save_document, λ x. ids-save_document c x d))

  index-Partial :
      (e : Disk)
      → Cut (index_writes (indexed c (load_index (save_document c d)))) (save_document c d) e
      → Partial e
  unfolding index_writes save_to_disk update_index perform_all perform get_from_disk ids_on_disk
      load_index
  index-Partial e stopped = inr (inl (files-save_document, λ x. ids-save_document c x d))
  index-Partial e (torn_index torn) = inr (inl (files-save_document, λ x. ids-save_document c x d))
  index-Partial e (later stopped) = inr (inl (files-save_document, λ x. ids-save_document c x d))
  index-Partial e (later (later stopped)) = inr (inr (λ id. refl, λ x. refl))

  Interrupted-Partial : (e : Disk) → Interrupted c d e → Partial e
  Interrupted-Partial e (inl cut) = document-Partial e cut
  Interrupted-Partial e (inr cut) = index-Partial e cut

any-add_to_set : (s : String) (set : List String) → any (str_eq s) (add_to_set s set) ≡ true
any-add_to_set s set = elim (Bool-cases (any (str_eq s) set)) [
  | inl e ↦ rw (e, e) refl
  | inr e ↦ rw e (any-last set)
]
  where
    any-last : (xs : List String) → any (str_eq s) (xs ++ s ∷ []) ≡ true
    any-last [] = rw eq_refl refl
    any-last (x ∷ xs) = ground (arith, any-last xs)

add_to_set-add_to_set :
    (s : String) (set : List String) → add_to_set s (add_to_set s set) ≡ add_to_set s set
add_to_set-add_to_set s set =
    ap (λ b. if b then add_to_set s set else add_to_set s set ++ s ∷ []) (any-add_to_set s set)

module _ (c : Checkpoint) (d e : Disk) where
  -- two disks that differ at most in the checkpoint are the same after it is saved
  files_again :
      SameFiles e d ⊎ SameFiles e (save_to_disk c d).1
      → SameFiles (save_to_disk c e).1 (save_to_disk c d).1
  files_again same id = elim (str_eq_cases c.checkpoint_id id) [
    | inl (b, p) ↦ rw (get-save_to_disk, get-save_to_disk, b) refl
    | inr (b, n) ↦ rw (get-save_to_disk c id e, get-save_to_disk c id d, b) (other b same)
  ]
    where
      other :
          str_eq c.checkpoint_id id ≡ false
          → SameFiles e d ⊎ SameFiles e (save_to_disk c d).1
          → get_from_disk id e ≡ get_from_disk id d
      other b (inl h) = h id
      other b (inr h) = h id ∙ get-save_to_disk c id d ∙ rw b refl

  index_again :
      SameIndex e d ⊎ SameIndex e (save_to_disk c d).1
      → SameIndex (save_to_disk c e).1 (save_to_disk c d).1
  index_again (inl h) x =
      rw (ids-save_to_disk c x e, ids-save_to_disk c x d, h c.execution_id, h x) refl
  index_again (inr h) x = elim (str_eq_cases c.execution_id x) [
    | inl (b, p) ↦
        rw
          (ids-save_to_disk c x e, h c.execution_id, ids-save_to_disk, ids-save_to_disk, eq_refl, b)
          (add_to_set-add_to_set c.checkpoint_id _)
    | inr (b, n) ↦ rw (ids-save_to_disk c x e, h x, ids-save_to_disk c x d, b) refl
  ]

-- A save that is cut off between two of its writes, or in the middle of one, which leaves anything
-- in the file that is being written, leaves, to `get` and to the index, either the directory as it
-- was, or the new checkpoint with the old index, or the finished save; no other checkpoint and no
-- execution is read in another way, and a second save of the checkpoint finishes the work.
pub Interrupted-Atomic :
    (c : Checkpoint) (d e : Disk)
    → Interrupted c d e
    → Partial c d e
      × SameFiles (save_to_disk c e).1 (save_to_disk c d).1
      × SameIndex (save_to_disk c e).1 (save_to_disk c d).1
Interrupted-Atomic c d e cut = again (Interrupted-Partial c d e cut)
  where
    again :
        Partial c d e
        → Partial c d e
          × SameFiles (save_to_disk c e).1 (save_to_disk c d).1
          × SameIndex (save_to_disk c e).1 (save_to_disk c d).1
    again (inl (f, i)) = (inl (f, i), files_again c d e (inl f), index_again c d e (inl i))
    again (inr (inl (f, i))) =
        (inr (inl (f, i)), files_again c d e (inr f), index_again c d e (inl i))
    again (inr (inr (f, i))) =
        (inr (inr (f, i)), files_again c d e (inr f), index_again c d e (inr i))
