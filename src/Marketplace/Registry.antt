-- ===== src/Marketplace/Registry.antt =====
-- control_plane/governance/marketplace/: registry/extension_registry.py, with the states of
-- domain/listing_status.py, and enterprise/private_marketplace.py. The `uuid4` of a new listing and
-- the time are arguments; limits and offsets are natural numbers.
pub mod Listed
pub mod Pages
use kitematic.Base.{
  ◌<>◌, ℕ, zero, suc, String, str_eq, is_empty, Bool, true, false, ◌&&◌, ◌||◌, not, Option, none,
  some, List, [], ◌∷◌, any, if◌then◌else◌, Outcome, returned, raised,
}
use kitematic.Base.Dict.{Dict, lookup, insert, erase, contains, values}
use kitematic.Marketplace.Manifest.{ExtensionManifest}

pub data ExtensionListingStatus : Type 0 where
  draft submitted under_review approved published deprecated removed : ExtensionListingStatus

-- What the registry keeps of a listing: its status is any text.
pub record ListingData : Type 0 where
  pub listing_id : String
  pub manifest : ExtensionManifest
  pub status : String
  pub publisher_id : String
  pub created_at : String
  pub updated_at : String

-- What it gives out.
pub record Listing : Type 0 where
  pub of_data : ListingData
  pub listing_status : ExtensionListingStatus

pub data ListingError : Type 0 where
  -- `ExtensionListingStatus(status)` of a text that is none
  not_a_status : String → ListingError
  -- `manifest.extension_type`, which no manifest has
  no_extension_type : ListingError

abbrev pub Listings : Type 0
Listings = Dict ListingData

abbrev pub prefixed : String → String → String
prefixed prefix hex = prefix <> hex

unfoldable pub register : ExtensionManifest → (hex now : String) → Listings → String × Listings
register manifest hex now listings = (
  prefixed "lst-" hex,
  insert (prefixed "lst-" hex)
      (record {
        listing_id = prefixed "lst-" hex;
        manifest = manifest;
        status = "DRAFT";
        publisher_id = manifest.publisher_id;
        created_at = now;
        updated_at = now;
      })
      listings,
)

unfoldable pub unregister : String → Listings → Bool × Listings
unregister listing_id listings =
    if contains listing_id listings then (true, erase listing_id listings) else (false, listings)

unfoldable pub status_of : String → Outcome ListingError ExtensionListingStatus
status_of status =
    if str_eq status "DRAFT"
    then returned draft
    else if str_eq status "SUBMITTED"
    then returned submitted
    else if str_eq status "UNDER_REVIEW"
    then returned under_review
    else if str_eq status "APPROVED"
    then returned approved
    else if str_eq status "PUBLISHED"
    then returned published
    else if str_eq status "DEPRECATED"
    then returned deprecated
    else if str_eq status "REMOVED"
    then returned removed
    else raised (not_a_status status)

unfoldable pub with_status :
    ListingData → Outcome ListingError ExtensionListingStatus → Outcome ListingError Listing
with_status d (raised e) = raised e
with_status d (returned s) = returned (record { of_data = d; listing_status = s })

unfoldable pub listing_from_data : ListingData → Outcome ListingError Listing
unfolding with_status status_of
listing_from_data d = with_status d (status_of d.status)

unfoldable pub found_listing : Option ListingData → Outcome ListingError (Option Listing)
unfolding listing_from_data
found_listing none = returned none
found_listing (some d) = some_listing (listing_from_data d)
  where
    some_listing : Outcome ListingError Listing → Outcome ListingError (Option Listing)
    some_listing (raised e) = raised e
    some_listing (returned l) = returned (some l)

unfoldable pub get_listing : String → Listings → Outcome ListingError (Option Listing)
unfolding found_listing lookup
get_listing listing_id listings = found_listing (lookup listing_id listings)

-- `if filter and value != filter: continue`
abbrev pub passes_filter : String → String → Bool
passes_filter filter value = is_empty filter || str_eq value filter

-- The filters that are given: an empty text is none.
pub record Filters : Type 0 where
  pub by_type : String
  pub by_publisher : String
  pub by_status : String

unfoldable pub is_listed : Filters → ListingData → Bool
is_listed f d = passes_filter f.by_publisher d.publisher_id && passes_filter f.by_status d.status

unfoldable pub listing_cons :
    Outcome ListingError Listing
    → Outcome ListingError (List Listing)
    → Outcome ListingError (List Listing)
listing_cons (raised e) rest = raised e
listing_cons (returned l) (raised e) = raised e
listing_cons (returned l) (returned ls) = returned (l ∷ ls)

unfoldable pub list_results : Filters → List ListingData → Outcome ListingError (List Listing)
unfolding is_listed listing_cons listing_from_data
list_results f [] = returned []
list_results f (d ∷ ds) =
    let rest = list_results f ds in
    if not (is_empty f.by_type)
    then raised no_extension_type
    else if is_listed f d
    then listing_cons (listing_from_data d) rest
    else rest

unfoldable pub drop : {A : Type 0} → ℕ → List A → List A
drop zero xs = xs
drop (suc n) [] = []
drop (suc n) (x ∷ xs) = drop n xs

unfoldable pub take : {A : Type 0} → ℕ → List A → List A
take zero xs = []
take (suc n) [] = []
take (suc n) (x ∷ xs) = x ∷ take n xs

-- `results[offset : offset + limit]`
unfoldable pub page :
    (limit offset : ℕ) → Outcome ListingError (List Listing) → Outcome ListingError (List Listing)
unfolding take drop
page limit offset (raised e) = raised e
page limit offset (returned ls) = returned (take limit (drop offset ls))

unfoldable pub list_listings :
    Filters → (limit offset : ℕ) → Listings → Outcome ListingError (List Listing)
unfolding page list_results
list_listings f limit offset listings = page limit offset (list_results f (values listings))

unfoldable pub status_updated :
    String → Option ListingData → (status now : String) → Listings → Bool × Listings
status_updated listing_id none status now listings = (false, listings)
status_updated listing_id (some d) status now listings =
    (true, insert listing_id (record d { status = status; updated_at = now }) listings)

unfoldable pub update_status : String → (status now : String) → Listings → Bool × Listings
unfolding status_updated lookup
update_status listing_id status now listings =
    status_updated listing_id (lookup listing_id listings) status now listings

-- enterprise/private_marketplace.py, with listings of any kind
pub record PrivateListing (A : Type 0) : Type 0 where
  pub listing : A
  pub added_at : String

unfoldable pub add_extension :
    {A : Type 0}
    → A
    → (hex now : String) → Dict (PrivateListing A)
    → String × Dict (PrivateListing A)
add_extension listing hex now extensions = (
  prefixed "prv-" hex,
  insert (prefixed "prv-" hex) (record { listing = listing; added_at = now }) extensions,
)

unfoldable pub remove_extension :
    {A : Type 0} → String → Dict (PrivateListing A) → Bool × Dict (PrivateListing A)
remove_extension listing_id extensions =
    if contains listing_id extensions
    then (true, erase listing_id extensions)
    else (false, extensions)
