-- ===== src/Marketplace/Registry/Listed.antt =====
-- registry/extension_registry.py: while statuses are those of `ExtensionListingStatus`, reading the
-- registry never raises, and a list has exactly the listings that pass the filters.
use kitematic.Base.{
  String, Bool, Bool-cases, true, false, ◌≡◌, refl, ◌⊎◌, ◌↔◌, inl, inr, eq_iff, arith, Option,
  Option-cases, none, some, List, [], ◌∷◌, map, select, All, if◌then◌else◌, returned,
}
use kitematic.Base.Dict.{erase, lookup, contains, values, lookup-insert_self}
use kitematic.Base.Entries.{All-insert, All-erase, All-lookup, All-values}
use kitematic.Marketplace.Manifest.{ExtensionManifest}
use kitematic.Marketplace.Registry.{
  ExtensionListingStatus, draft, ListingData, Listing, Listings, prefixed, register, unregister,
  status_of, with_status, listing_from_data, found_listing, get_listing, Filters, is_listed,
  listing_cons, list_results, status_updated, update_status,
}

pub data Command : Type 0 where
  registering : ExtensionManifest → (hex now : String) → Command
  unregistering : String → Command
  updating : (listing_id status now : String) → Command

unfoldable pub run_command : Command → Listings → Listings
run_command (registering manifest hex now) ls = (register manifest hex now ls).1
run_command (unregistering id) ls = (unregister id ls).1
run_command (updating id status now) ls = (update_status id status now ls).1

unfoldable pub run_commands : List Command → Listings → Listings
unfolding run_command
run_commands [] ls = ls
run_commands (c ∷ cs) ls = run_commands cs (run_command c ls)

abbrev pub IsStatus : String → Type 0
IsStatus status = (s : ExtensionListingStatus) × (status_of status ≡ returned s)

-- The command sets no status but those of `ExtensionListingStatus`.
abbrev pub SetsStatus : Command → Type 0
SetsStatus (updating id status now) = IsStatus status
SetsStatus _ = Unit

-- The listing stands under its identifier, has a status, and its publisher is that of its manifest.
abbrev pub IsFiled : String × ListingData → Type 0
IsFiled e =
    (e.1.listing_id ≡ e.0) × IsStatus e.1.status × (e.1.publisher_id ≡ e.1.manifest.publisher_id)

update_status-IsFiled :
    (id status now : String) (ls : Listings) (o : Option ListingData)
    → lookup id ls ≡ o
    → IsStatus status
    → All IsFiled ls
    → All IsFiled (status_updated id o status now ls).1
unfolding status_updated
update_status-IsFiled id status now ls none e s h = h
update_status-IsFiled id status now ls (some d) e s h =
    let (own, _, of_manifest) = All-lookup IsFiled id d ls h e in
    All-insert IsFiled id _ ls (own, s, of_manifest) h

run_command-IsFiled :
    (c : Command) (ls : Listings) → SetsStatus c → All IsFiled ls → All IsFiled (run_command c ls)
unfolding run_command register unregister update_status
run_command-IsFiled (registering manifest hex now) ls s h =
    All-insert IsFiled (prefixed "lst-" hex) _ ls (refl, (draft, draft_status), refl) h
  where
    draft_status : status_of "DRAFT" ≡ returned draft
    draft_status = unfold status_of in refl
run_command-IsFiled (unregistering id) ls s h = kept (contains id ls)
  where
    kept :
        (b : Bool)
        → All IsFiled (if◌then◌else◌ {A = Bool × Listings} b (true, erase id ls) (false, ls)).1
    kept true = All-erase IsFiled id ls h
    kept false = h
run_command-IsFiled (updating id status now) ls s h =
    update_status-IsFiled id status now ls (lookup id ls) refl s h

pub run_commands-IsFiled :
    (cs : List Command) (ls : Listings)
    → All SetsStatus cs
    → All IsFiled ls
    → All IsFiled (run_commands cs ls)
unfolding run_commands
run_commands-IsFiled [] ls s h = h
run_commands-IsFiled (c ∷ cs) ls (s, ss) h =
    run_commands-IsFiled cs (run_command c ls) ss (run_command-IsFiled c ls s h)

-- A listing that is given out is that of the data, with its status.
abbrev pub GivesOut : ListingData → Listing → Type 0
GivesOut d l = (l.of_data ≡ d) × (status_of d.status ≡ returned l.listing_status)

listing_from_data-GivesOut :
    (d : ListingData)
    → IsStatus d.status
    → (l : Listing) × (listing_from_data d ≡ returned l) × GivesOut d l
unfolding listing_from_data with_status
listing_from_data-GivesOut d (s, e) =
    (record { of_data = d; listing_status = s }, rw e refl, (refl, e))

listed_one :
    (f : Filters) (d : ListingData) (ds : List ListingData) (l : Listing) (found : List Listing)
    (b : Bool)
    → is_listed f d ≡ b
    → listing_from_data d ≡ returned l
    → l.of_data ≡ d
    → list_results f ds ≡ returned found
    → map (λ m. m.of_data) found ≡ select (is_listed f) ds
    → (more : List Listing) × ((if b
          then listing_cons (listing_from_data d) (list_results f ds)
          else list_results f ds)
        ≡ returned more)
      × (map (λ m. m.of_data) more
          ≡ (if b then d ∷ select (is_listed f) ds else select (is_listed f) ds))
unfolding listing_cons
listed_one f d ds l found true t e same r m = (l ∷ found, rw (e, r) refl, rw (same, m) refl)
listed_one f d ds l found false t e same r m = (found, r, m)

-- With no filter by type the results are the listings that pass the filters, in order.
pub list_results-select :
    (f : Filters) (ds : List ListingData)
    → f.by_type ≡ ""
    → All (λ d. IsStatus d.status) ds
    → (found : List Listing) × (list_results f ds ≡ returned found)
      × (map (λ l. l.of_data) found ≡ select (is_listed f) ds)
unfolding list_results
list_results-select f [] none_ h = ([], refl, refl)
list_results-select f (d ∷ ds) none_ (s, h) =
    let (l, e, (same, _)) = listing_from_data-GivesOut d s in
    let (found, r, m) = list_results-select f ds none_ h in
    elim (Bool-cases (is_listed f d)) [
      | inl b ↦ rw (none_, b) (listed_one f d ds l found true b e same r m)
      | inr b ↦ rw (none_, b) (listed_one f d ds l found false b e same r m)
    ]

-- What `get` gives for an identifier: nothing where there is no listing, and otherwise the listing.
abbrev pub Gets : Listings → String → Type 0
Gets ls id =
    ((lookup id ls ≡ none) × (get_listing id ls ≡ returned none))
    ⊎ ((d : ListingData) × (l : Listing) × (lookup id ls ≡ some d)
        × (d.listing_id ≡ id)
        × GivesOut d l
        × (get_listing id ls ≡ returned (some l)))

get_listing-Gets : (ls : Listings) (id : String) → All IsFiled ls → Gets ls id
unfolding get_listing found_listing
get_listing-Gets ls id h = elim (Option-cases (lookup id ls)) [
  | inl e ↦ inl (e, rw e refl)
  | inr (d, e) ↦
      let (own, s, _) = All-lookup IsFiled id d ls h e in
      let (l, r, g) = listing_from_data-GivesOut d s in inr (d, l, e, own, g, rw (e, r) refl)
]

-- The listing passes the filters by publisher and by status: each is empty, or it is the publisher
-- of the listing's manifest, or the listing's status.
abbrev pub Passes : Filters → ListingData → Type 0
Passes f d =
    ((f.by_publisher ≡ "") ⊎ (d.manifest.publisher_id ≡ f.by_publisher))
    × ((f.by_status ≡ "") ⊎ (d.status ≡ f.by_status))

-- `kept` are the listings that pass, in order, and no others.
abbrev pub Filtered : Filters → (all kept : List ListingData) → Type 0
Filtered f [] kept = kept ≡ []
Filtered f (d ∷ ds) kept =
    (Passes f d × ((rest : List ListingData) × (kept ≡ d ∷ rest) × Filtered f ds rest))
    ⊎ ((Passes f d → ⊥) × Filtered f ds kept)

is_listed-Passes :
    (f : Filters) (d : ListingData)
    → d.publisher_id ≡ d.manifest.publisher_id
    → (is_listed f d ≡ true) ↔ Passes f d
unfolding is_listed
is_listed-Passes f d e = rw e (
    ground (
      arith,
      eq_iff f.by_publisher "",
      eq_iff d.manifest.publisher_id f.by_publisher,
      eq_iff f.by_status "",
      eq_iff d.status f.by_status,
    ))

select-Filtered :
    (f : Filters) (ds : List ListingData)
    → All (λ d. d.publisher_id ≡ d.manifest.publisher_id) ds
    → Filtered f ds (select (is_listed f) ds)
select-Filtered f [] h = refl
select-Filtered f (d ∷ ds) (p, h) = elim (Bool-cases (is_listed f d)) [
  | inl b ↦
      rw b (
        inl ((is_listed-Passes f d p).0 b, (select (is_listed f) ds, refl, select-Filtered f ds h)))
  | inr b ↦ rw b (inr ((λ x. differ ((is_listed-Passes f d p).1 x) b), select-Filtered f ds h))
]
  where
    differ : is_listed f d ≡ true → is_listed f d ≡ false → ⊥
    differ a b = cc

-- The registry after any commands that set no other statuses than those of the enumeration.
module _ (cs : List Command) (s : All SetsStatus cs) where
  publishers-Filtered :
      (f : Filters)
      → Filtered f
          (values (run_commands cs []))
          (select (is_listed f) (values (run_commands cs [])))
  publishers-Filtered f = select-Filtered f (values (run_commands cs [])) (
      All-values (λ d. d.publisher_id ≡ d.manifest.publisher_id) (run_commands cs [])
        (publishers (run_commands cs []) (run_commands-IsFiled cs [] s tt)))
    where
      publishers :
          (ls : Listings)
          → All IsFiled ls
          → All (λ e. e.1.publisher_id ≡ e.1.manifest.publisher_id) ls
      publishers [] h = tt
      publishers (e ∷ ls) (p, h) = (p.2, publishers ls h)

  -- the results without a filter by type
  pub listed_results :
      (f : Filters)
      → f.by_type ≡ ""
      → (found : List Listing) × (list_results f (values (run_commands cs [])) ≡ returned found)
        × (map (λ l. l.of_data) found ≡ select (is_listed f) (values (run_commands cs [])))
        × Filtered f (values (run_commands cs [])) (map (λ l. l.of_data) found)
  listed_results f none_ =
      let h = run_commands-IsFiled cs [] s tt in
      let (found, r, m) = list_results-select f (values (run_commands cs [])) none_ (
        All-values (λ d. IsStatus d.status) (run_commands cs [])
          (statuses (run_commands cs []) h)) in
      (found, r, m, rw m (publishers-Filtered f))
    where
      statuses : (ls : Listings) → All IsFiled ls → All (λ e. IsStatus e.1.status) ls
      statuses [] h = tt
      statuses (e ∷ ls) (p, h) = (p.1, statuses ls h)

-- A manifest that is registered is given out as a draft of its publisher.
abbrev pub Registers : ExtensionManifest → (hex now : String) → Listings → Type 0
Registers manifest hex now ls =
    (l : Listing) × (get_listing (register manifest hex now ls).0 (register manifest hex now ls).1
      ≡ returned (some l))
    × (l.of_data.manifest ≡ manifest)
    × (l.of_data.publisher_id ≡ manifest.publisher_id)
    × (l.listing_status ≡ draft)

register-Registers :
    (manifest : ExtensionManifest) (hex now : String) (ls : Listings)
    → Registers manifest hex now ls
unfolding register get_listing found_listing listing_from_data with_status status_of
register-Registers manifest hex now ls = (
  record {
    of_data = record {
      listing_id = prefixed "lst-" hex;
      manifest = manifest;
      status = "DRAFT";
      publisher_id = manifest.publisher_id;
      created_at = now;
      updated_at = now;
    };
    listing_status = draft;
  },
  rw lookup-insert_self refl,
  refl,
  refl,
  refl,
)

-- After any registrations, removals and updates that set no other statuses than those of the
-- enumeration, `get` gives the listing with its identifier and its status, or none where there is
-- none. The results of a list without a filter by type are, in order, exactly the listings that pass
-- the other filters: those of the publisher, whom their manifests name, and of the status, where
-- these are given; and nothing raises. One more manifest that is registered is found under the
-- identifier that this gives, as a draft.
pub run_commands-Listed :
    (cs : List Command) (f : Filters) (id : String) (manifest : ExtensionManifest)
    (hex now : String)
    → All SetsStatus cs
    → f.by_type ≡ ""
    → Gets (run_commands cs []) id
      × ((found : List Listing) × (list_results f (values (run_commands cs [])) ≡ returned found)
          × Filtered f (values (run_commands cs [])) (map (λ l. l.of_data) found))
      × Registers manifest hex now (run_commands cs [])
run_commands-Listed cs f id manifest hex now s none_ =
    let (found, r, _, kept) = listed_results cs s f none_ in
    (
      get_listing-Gets (run_commands cs []) id (run_commands-IsFiled cs [] s tt),
      (found, r, kept),
      register-Registers manifest hex now (run_commands cs []),
    )
