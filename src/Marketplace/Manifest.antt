-- ===== src/Marketplace/Manifest.antt =====
-- control_plane/governance/marketplace/: domain/extension_manifest.py, model/invariants.py, and the
-- validation of loader/. A manifest has the fields that the code reads. The patterns are read as
-- scanners over code points; digits are those of ASCII, and `$` matches before a last newline.
pub mod Identifiers
use kitematic.Base.{
  zero, ◌<>◌, codes, ℕ, suc, String, Bool, true, false, ◌&&◌, ◌||◌, List, [], ◌∷◌, ◌++◌, length,
  ◌==◌, ltb, leb, if◌then◌else◌,
}
use kitematic.Base.Dict.{Dict, contains, lookup}
use kitematic.Kernel.Values.{Value}

pub record ExtensionManifest : Type 0 where
  pub extension_id : String
  pub name : String
  pub version : String
  pub publisher_id : String
  pub capabilities : List String

abbrev pub newline : ℕ
newline = 10

-- `[0-9]`, `[a-z0-9]` and `[a-z0-9.-]`
unfoldable pub is_digit : ℕ → Bool
is_digit c = leb b'0' c && leb c b'9'

unfoldable pub is_alphanumeric : ℕ → Bool
unfolding is_digit
is_alphanumeric c = (leb b'a' c && leb c b'z') || is_digit c

unfoldable pub is_label : ℕ → Bool
unfolding is_alphanumeric
is_label c = is_alphanumeric c || c == b'.' || c == b'-'

-- `$`
unfoldable pub at_end : List ℕ → Bool
at_end [] = true
at_end (c ∷ []) = c == newline
at_end (c ∷ d ∷ s) = false

-- the rest of an identifier, after a letter or digit or after a hyphen
unfoldable pub id_rest : Bool → List ℕ → Bool
unfolding is_alphanumeric at_end
id_rest ends [] = ends
id_rest ends (c ∷ s) =
    let letter = id_rest true s in
    let hyphen = id_rest false s in
    if is_alphanumeric c then letter else if c == b'-' then hyphen else ends && at_end (c ∷ s)

-- `^[a-z0-9][a-z0-9\-]*[a-z0-9]$|^[a-z0-9]$`
unfoldable pub id_matches : List ℕ → Bool
unfolding id_rest
id_matches [] = false
id_matches (c ∷ s) = is_alphanumeric c && id_rest true s

-- `[a-z0-9\.\-]+`, and then `(\+[a-z0-9\.\-]+)?` when a build may follow, and the end
unfoldable pub label_rest : (build seen : Bool) → List ℕ → Bool
unfolding is_label at_end
label_rest build seen [] = seen
label_rest build seen (c ∷ s) =
    let more = label_rest build true s in
    let build_label = label_rest false false s in
    if is_label c
    then more
    else seen && (if build && c == b'+' then build_label else at_end (c ∷ s))

-- what follows the three numbers
unfoldable pub suffix_matches : ℕ → List ℕ → Bool
unfolding label_rest at_end
suffix_matches c s =
    if c == b'-'
    then label_rest true false s
    else if c == b'+'
    then label_rest false false s
    else at_end (c ∷ s)

-- `\d+` and as many times `\.\d+` as there are dots to come
unfoldable pub numbers_match : ℕ → Bool → List ℕ → Bool
unfolding is_digit suffix_matches
numbers_match zero seen [] = seen
numbers_match (suc dots) seen [] = false
numbers_match zero seen (c ∷ s) =
    let more = numbers_match 0 true s in if is_digit c then more else seen && suffix_matches c s
numbers_match (suc dots) seen (c ∷ s) =
    let more = numbers_match (suc dots) true s in
    let next = numbers_match dots false s in if is_digit c then more else seen && c == b'.' && next

-- `^\d+\.\d+\.\d+(-[a-z0-9\.\-]+)?(\+[a-z0-9\.\-]+)?$`
unfoldable pub version_matches : List ℕ → Bool
unfolding numbers_match
version_matches s = numbers_match 2 false s

abbrev pub error_if : Bool → String → List String
error_if test text = if test then text ∷ [] else []

unfoldable pub validate_extension_id : String → List String
unfolding id_matches
validate_extension_id extension_id =
    error_if (ltb (length (codes extension_id)) 3) "Extension ID must be at least 3 characters"
    ++ error_if (ltb 64 (length (codes extension_id))) "Extension ID too long (max 64 chars)"
    ++ (if id_matches (codes extension_id)
        then []
        else "Extension ID must be lowercase alphanumeric with hyphens" ∷ [])

unfoldable pub validate_version : String → List String
unfolding version_matches
validate_version version =
    if version_matches (codes version) then [] else ("Invalid version format: " <> version) ∷ []

abbrev max_capabilities : ℕ
max_capabilities = 50

abbrev min_capabilities : ℕ
min_capabilities = 1

unfoldable pub validate_capabilities : List String → List String
validate_capabilities capabilities =
    error_if (ltb max_capabilities (length capabilities)) "Too many capabilities (max 50)"
    ++ error_if (ltb (length capabilities) min_capabilities) "Too few capabilities (min 1)"

-- `ExtensionManifest.validate`
unfoldable pub validate_manifest : ExtensionManifest → List String
unfolding validate_extension_id validate_version validate_capabilities
validate_manifest m =
    validate_extension_id m.extension_id
    ++ validate_version m.version
    ++ validate_capabilities m.capabilities

-- `ExtensionManifestValidator.validate`, which drops what it collects of the capabilities
unfoldable pub validator_validate : ExtensionManifest → List String
unfolding validate_extension_id validate_version
validator_validate m = validate_extension_id m.extension_id ++ validate_version m.version

unfoldable pub missing_fields : List String → Dict Value → List String
unfolding lookup
missing_fields [] manifest = []
missing_fields (field ∷ required) manifest =
    let rest = missing_fields required manifest in
    if contains field manifest then rest else ("Missing required field: " <> field) ∷ rest

-- whether there is no error, with the errors
abbrev with_verdict : List String → Bool × List String
with_verdict errors = (length errors == 0, errors)

-- `ExtensionLoader.validate_extension` and `DefaultManifestLoader.validate_manifest`
unfoldable pub validate_extension : Dict Value → Bool × List String
unfolding missing_fields
validate_extension manifest =
    with_verdict
      (missing_fields ("id" ∷ "name" ∷ "version" ∷ "type" ∷ "capabilities" ∷ []) manifest)

unfoldable pub validate_loaded : Dict Value → Bool × List String
unfolding missing_fields
validate_loaded manifest =
    with_verdict (missing_fields ("id" ∷ "name" ∷ "version" ∷ "type" ∷ []) manifest)
