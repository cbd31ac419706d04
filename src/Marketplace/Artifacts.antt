-- ===== src/Marketplace/Artifacts.antt =====
-- control_plane/governance/marketplace/distribution/artifact_store.py: packages under the front of
-- their SHA-256 digest. The digest is a parameter: its first 16 digits, and all of them.
pub mod Consistent
use kitematic.Base.{String, Bool, true, false, Option, if◌then◌else◌}
use kitematic.Base.Dict.{Dict, lookup, insert, erase, contains}
use kitematic.Marketplace.Manifest.{ExtensionManifest}

pub record ArtifactMetadata : Type 0 where
  pub manifest_id : String
  pub version : String
  pub checksum : String

pub record ArtifactStore : Type 0 where
  pub artifacts : Dict String
  pub metadata : Dict ArtifactMetadata

-- `hashlib.sha256(data).hexdigest()`, and `[:16]` of it
pub record Digest : Type 0 where
  pub hexdigest : String → String
  pub shortened : String → String

module _ (sha : Digest) where
  unfoldable pub artifact_id : String → String
  artifact_id data_ = sha.shortened (sha.hexdigest data_)

  unfoldable pub store_artifact :
      ExtensionManifest → String → ArtifactStore → String × ArtifactStore
  unfolding artifact_id
  store_artifact manifest data_ s = (
    artifact_id data_,
    record {
      artifacts = insert (artifact_id data_) data_ s.artifacts;
      metadata =
          insert (artifact_id data_)
            (record {
              manifest_id = manifest.extension_id;
              version = manifest.version;
              checksum = sha.hexdigest data_;
            })
            s.metadata;
    },
  )

unfoldable pub retrieve : String → ArtifactStore → Option String
retrieve id s = lookup id s.artifacts

unfoldable pub delete_artifact : String → ArtifactStore → Bool × ArtifactStore
delete_artifact id s =
    if contains id s.artifacts
    then (true, record { artifacts = erase id s.artifacts; metadata = erase id s.metadata })
    else (false, s)

unfoldable pub get_metadata : String → ArtifactStore → Option ArtifactMetadata
get_metadata id s = lookup id s.metadata
