-- ===== src/Marketplace/Artifacts/Consistent.antt =====
-- distribution/artifact_store.py: packages and their metadata stay together.
use kitematic.Base.{
  eq_refl, String, str_eq_cases, Bool, true, false, ◌≡◌, ◌⊎◌, refl, inl, inr, Option, none, some,
  List, [], ◌∷◌,
}
use kitematic.Base.Dict.{lookup, lookup-insert, lookup-erase, contains}
use kitematic.Marketplace.Manifest.{ExtensionManifest}
use kitematic.Marketplace.Artifacts.{
  ArtifactMetadata, ArtifactStore, Digest, artifact_id, store_artifact, retrieve, delete_artifact,
  get_metadata,
}

pub data ArtifactCall : Type 0 where
  storing : ExtensionManifest → String → ArtifactCall
  deleting : String → ArtifactCall

abbrev pub empty_store : ArtifactStore
empty_store = record { artifacts = []; metadata = [] }

module _ (sha : Digest) where
  unfoldable pub run_artifacts : List ArtifactCall → ArtifactStore → ArtifactStore
  run_artifacts [] s = s
  run_artifacts (storing m content ∷ calls) s =
      run_artifacts calls (store_artifact sha m content s).1
  run_artifacts (deleting id ∷ calls) s = run_artifacts calls (delete_artifact id s).1

  -- Neither a package nor metadata, or both, where the package has this identifier and the metadata
  -- its checksum.
  abbrev pub Together : String → Option String → Option ArtifactMetadata → Type 0
  Together id o m =
      ((o ≡ none) × (m ≡ none))
      ⊎ ((content : String) × (meta : ArtifactMetadata) × (o ≡ some content)
          × (m ≡ some meta)
          × (artifact_id sha content ≡ id)
          × (meta.checksum ≡ sha.hexdigest content))

  abbrev pub IsConsistent : ArtifactStore → Type 0
  IsConsistent s = (id : String) → Together id (retrieve id s) (get_metadata id s)

  store_artifact-IsConsistent :
      (m : ExtensionManifest) (content : String) (s : ArtifactStore)
      → IsConsistent s
      → IsConsistent (store_artifact sha m content s).1
  unfolding store_artifact retrieve get_metadata
  store_artifact-IsConsistent m content s h id = elim (str_eq_cases (artifact_id sha content) id) [
    | inl (e, same) ↦
        rw (lookup-insert, lookup-insert, e) (inr (content, _, refl, refl, same, refl))
    | inr (e, n) ↦ rw (lookup-insert, lookup-insert, e) (h id)
  ]

  delete_if-IsConsistent :
      (b : Bool) (id : String) (s : ArtifactStore)
      → contains id s.artifacts ≡ b
      → IsConsistent s
      → IsConsistent (delete_artifact id s).1
  unfolding delete_artifact retrieve get_metadata
  delete_if-IsConsistent false id s e h = rw e h
  delete_if-IsConsistent true id s e h = rw e λ x. elim (str_eq_cases id x) [
    | inl (b, same) ↦ rw (lookup-erase, lookup-erase, b) (inl (refl, refl))
    | inr (b, n) ↦ rw (lookup-erase, lookup-erase, b) (h x)
  ]

  run_artifacts-IsConsistent :
      (calls : List ArtifactCall) (s : ArtifactStore)
      → IsConsistent s
      → IsConsistent (run_artifacts calls s)
  unfolding run_artifacts
  run_artifacts-IsConsistent [] s h = h
  run_artifacts-IsConsistent (storing m content ∷ calls) s h =
      run_artifacts-IsConsistent calls _ (store_artifact-IsConsistent m content s h)
  run_artifacts-IsConsistent (deleting id ∷ calls) s h =
      run_artifacts-IsConsistent calls _ (delete_if-IsConsistent _ id s refl h)

  empty-IsConsistent : IsConsistent empty_store
  unfolding retrieve get_metadata lookup
  empty-IsConsistent id = inl (refl, refl)

  -- After any packages were stored and deleted, every identifier has a package and metadata or
  -- neither of them; the package is one with this identifier, and the metadata has its checksum.
  -- One more package is found under the identifier that storing it gives.
  pub run_artifacts-Together :
      (calls : List ArtifactCall)
      → IsConsistent (run_artifacts calls empty_store)
        × ((m : ExtensionManifest) (content : String)
            → let stored = store_artifact sha m content (run_artifacts calls empty_store) in
              retrieve stored.0 stored.1 ≡ some content)
  unfolding store_artifact retrieve
  run_artifacts-Together calls = (
    run_artifacts-IsConsistent calls empty_store empty-IsConsistent,
    λ m content. rw (lookup-insert, eq_refl) refl,
  )
