-- ===== src/Marketplace/Registry/Pages.antt =====
-- registry/extension_registry.py: reading a list page by page.
use kitematic.Base.{
  ℕ, zero, suc, ◌+◌, ◌*◌, ◌≤◌, ◌≡◌, refl, ap, sym, ◌∙◌, List, [], ◌∷◌, ◌++◌, map, select, All,
  length, arith, Outcome, returned, raised,
}
use kitematic.Base.Dict.{values}
use kitematic.Marketplace.Registry.{
  Listing, ListingError, Listings, Filters, is_listed, take, drop, page, list_results,
  list_listings,
}
use kitematic.Marketplace.Registry.Listed.{
  Command, SetsStatus, Filtered, run_commands, listed_results,
}

abbrev appended :
    Outcome ListingError (List Listing)
    → Outcome ListingError (List Listing)
    → Outcome ListingError (List Listing)
appended (raised e) rest = raised e
appended (returned ls) (raised e) = raised e
appended (returned ls) (returned more) = returned (ls ++ more)

-- So many pages of `limit` listings, one after the other.
unfoldable pub fetch_pages :
    Filters → (limit pages offset : ℕ) → Listings → Outcome ListingError (List Listing)
unfolding list_listings
fetch_pages f limit zero offset ls = returned []
fetch_pages f limit (suc pages) offset ls =
    appended (list_listings f limit offset ls) (fetch_pages f limit pages (offset + limit) ls)

module _ {A : Type 0} where
  drop-long : (n : ℕ) (xs : List A) → length xs ≤ n → drop n xs ≡ []
  unfolding drop
  drop-long zero [] h = refl
  drop-long zero (x ∷ xs) h = absurd (omega arith)
  drop-long (suc n) [] h = refl
  drop-long (suc n) (x ∷ xs) h = drop-long n xs (omega arith)

  drop_nil : (n : ℕ) → ◌≡◌ {A = List A} (drop n []) []
  unfolding drop
  drop_nil zero = refl
  drop_nil (suc n) = refl

  take-append-drop : (n : ℕ) (xs : List A) → take n xs ++ drop n xs ≡ xs
  unfolding take drop
  take-append-drop zero xs = refl
  take-append-drop (suc n) [] = refl
  take-append-drop (suc n) (x ∷ xs) = ap (λ ys. x ∷ ys) (take-append-drop n xs)

  drop-drop : (n m : ℕ) (xs : List A) → drop m (drop n xs) ≡ drop (n + m) xs
  unfolding drop
  drop-drop zero m xs = ap (λ k. drop k xs) (omega arith)
  drop-drop (suc n) m [] = drop_nil m ∙ sym (drop_nil (suc n + m))
  drop-drop (suc n) m (x ∷ xs) =
      let e : suc (n + m) ≡ suc n + m = omega arith in
      drop-drop n m xs ∙ ap (λ k. drop k (x ∷ xs)) e

  page-and-rest :
      (limit offset : ℕ) (xs : List A)
      → take limit (drop offset xs) ++ drop (offset + limit) xs ≡ drop offset xs
  page-and-rest limit offset xs =
      ap (λ ys. take limit (drop offset xs) ++ ys) (sym (drop-drop offset limit xs))
      ∙ take-append-drop limit (drop offset xs)

fetch_pages-drop :
    (f : Filters) (limit pages offset : ℕ) (ls : Listings) (found : List Listing)
    → list_results f (values ls) ≡ returned found
    → length found ≤ offset + pages * limit
    → fetch_pages f limit pages offset ls ≡ returned (drop offset found)
unfolding fetch_pages list_listings page
fetch_pages-drop f limit zero offset ls found r h = rw (drop-long offset found (omega arith)) refl
fetch_pages-drop f limit (suc pages) offset ls found r h =
    rw (r, fetch_pages-drop f limit pages (offset + limit) ls found r (grind arith))
      (ap returned (page-and-rest limit offset found))

-- After any commands that set no other statuses than those of the enumeration, and without a filter
-- by type, enough pages of any size, one after the other, are exactly the listings that pass the
-- other filters, in order: none is lost or given twice between pages.
pub fetch_pages-Filtered :
    (cs : List Command) (f : Filters) (limit pages : ℕ)
    → All SetsStatus cs
    → f.by_type ≡ ""
    → length (select (is_listed f) (values (run_commands cs []))) ≤ pages * limit
    → (found : List Listing) × (fetch_pages f limit pages 0 (run_commands cs []) ≡ returned found)
      × Filtered f (values (run_commands cs [])) (map (λ l. l.of_data) found)
unfolding drop
fetch_pages-Filtered cs f limit pages s none_ enough =
    let (found, r, m, kept) = listed_results cs s f none_ in
    (found, fetch_pages-drop f limit pages 0 (run_commands cs []) found r (fits found m), kept)
  where
    length-map : (ls : List Listing) → length (map (λ l. l.of_data) ls) ≡ length ls
    length-map [] = refl
    length-map (l ∷ ls) = ap suc (length-map ls)

    fits :
        (found : List Listing)
        → map (λ l. l.of_data) found ≡ select (is_listed f) (values (run_commands cs []))
        → length found ≤ 0 + pages * limit
    fits found m = omega (arith, length-map found, ap length m, enough)
