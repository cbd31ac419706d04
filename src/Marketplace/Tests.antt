-- ===== src/Marketplace/Tests.antt =====
-- Concrete extensions, and what the marketplace does with them.
use kitematic.Base.{
  ◌*◌, codes, ℕ, ◌≤◌, String, ◌≡◌, ◌↔◌, ◌⊎◌, refl, inl, inr, Option, none, some, List, [], ◌∷◌, map,
  select, length, arith, returned, Bool, true, false,
}
use kitematic.Base.Dict.{values}
use kitematic.Marketplace.Manifest.{
  ExtensionManifest, validate_extension_id, validate_version, version_matches,
}
use kitematic.Marketplace.Manifest.Identifiers.{IsIdentifier, validate_extension_id_iff}
use kitematic.Marketplace.Registry.{
  Filters, Listing, is_listed, list_results, status_of, under_review,
}
use kitematic.Marketplace.Registry.Listed.{
  Command, registering, unregistering, updating, run_commands, Gets, Filtered, Registers,
  run_commands-Listed,
}
use kitematic.Marketplace.Registry.Pages.{fetch_pages, fetch_pages-Filtered}
use kitematic.Marketplace.Reviews.{ReviewDecisionRecord, get_review, get_status}
use kitematic.Marketplace.Reviews.Recorded.{
  ReviewCall, submitting, deciding, run_calls, expected_from, run_calls-Recorded,
}
use kitematic.Marketplace.Artifacts.{Digest, store_artifact, retrieve}
use kitematic.Marketplace.Artifacts.Consistent.{
  ArtifactCall, storing, deleting, run_artifacts, empty_store, IsConsistent, run_artifacts-Together,
}

validate_extension_id_iff_example :
    validate_extension_id "pdf-reader" ≡ []
    ↔ (3 ≤ length (codes "pdf-reader"))
      × (length (codes "pdf-reader") ≤ 64)
      × IsIdentifier (codes "pdf-reader")
validate_extension_id_iff_example = validate_extension_id_iff "pdf-reader"

-- a last newline is accepted
accepts_newline : validate_extension_id "pdf-reader\n" ≡ []
unfolding validate_extension_id
accepts_newline = refl

rejects_hyphen : length (validate_extension_id "a-") ≡ 2
unfolding validate_extension_id
rejects_hyphen = refl

accepts_version : validate_version "1.20.3-rc.1+build" ≡ []
unfolding validate_version
accepts_version = refl

rejects_version : version_matches (codes "1.20") ≡ false
unfolding version_matches
rejects_version = refl

abbrev reader : ExtensionManifest
reader = record {
  extension_id = "pdf-reader";
  name = "PDF reader";
  version = "1.0.0";
  publisher_id = "acme";
  capabilities = "files.read" ∷ [];
}

abbrev some_commands : List Command
some_commands =
    registering reader "0a" "t0"
    ∷ registering reader "0b" "t1"
    ∷ updating "lst-0a" "UNDER_REVIEW" "t2"
    ∷ unregistering "lst-0b"
    ∷ []

abbrev of_acme : Filters
of_acme = record { by_type = ""; by_publisher = "acme"; by_status = "UNDER_REVIEW" }

is_a_status : status_of "UNDER_REVIEW" ≡ returned under_review
unfolding status_of
is_a_status = refl

run_commands-Listed_example :
    Gets (run_commands some_commands []) "lst-0a"
    × ((found : List Listing) × (list_results of_acme (values (run_commands some_commands []))
          ≡ returned found)
        × Filtered of_acme (values (run_commands some_commands [])) (map (λ l. l.of_data) found))
    × Registers reader "0c" "t9" (run_commands some_commands [])
run_commands-Listed_example =
    run_commands-Listed some_commands of_acme "lst-0a" reader "0c" "t9"
      (tt, (tt, ((under_review, is_a_status), (tt, tt)))) refl

one_listed : length (select (is_listed of_acme) (values (run_commands some_commands []))) ≤ 3 * 1
unfolding run_commands is_listed kitematic.Marketplace.Registry.unregister
    kitematic.Base.Dict.lookup kitematic.Marketplace.Registry.update_status
    kitematic.Marketplace.Registry.register kitematic.Base.Dict.insert kitematic.Base.Dict.erase
one_listed = omega arith

fetch_pages-Filtered_example :
    (found : List Listing) × (fetch_pages of_acme 1 3 0 (run_commands some_commands [])
      ≡ returned found)
    × Filtered of_acme (values (run_commands some_commands [])) (map (λ l. l.of_data) found)
fetch_pages-Filtered_example =
    fetch_pages-Filtered some_commands of_acme 1 3
      (tt, (tt, ((under_review, is_a_status), (tt, tt)))) refl one_listed

abbrev approval : ReviewDecisionRecord
approval = record { decision = "APPROVE"; reviewer_id = "r1"; reason = "fine"; timestamp = "t1" }

abbrev review_calls : List ReviewCall
review_calls = submitting "lst-0a" "u1" "t0" ∷ deciding "lst-0a" approval ∷ []

run_calls-Recorded_example :
    (get_review "lst-0a" (run_calls review_calls []) ≡ expected_from "lst-0a" none review_calls)
    × ((get_status "lst-0a" (run_calls review_calls []) ≡ none)
        ⊎ (get_status "lst-0a" (run_calls review_calls []) ≡ some "PENDING"))
run_calls-Recorded_example = run_calls-Recorded "lst-0a" review_calls

abbrev plain : Digest
plain = record { hexdigest = λ s. s; shortened = λ s. s }

abbrev artifact_calls : List ArtifactCall
artifact_calls = storing reader "bytes" ∷ storing reader "more" ∷ deleting "bytes" ∷ []

run_artifacts-Together_example :
    IsConsistent plain (run_artifacts plain artifact_calls empty_store)
    × ((m : ExtensionManifest) (content : String)
        → let stored =
            store_artifact plain m content (run_artifacts plain artifact_calls empty_store) in
          retrieve stored.0 stored.1 ≡ some content)
run_artifacts-Together_example = run_artifacts-Together plain artifact_calls
