-- ===== src/ControlPlane/Policy/Cache.antt =====
-- control_plane/policy/cache.py: decisions with the time at which each expires, in microseconds.
-- `fnmatch` of Python's library is a parameter of the invalidation.
use kitematic.Base.{
  leb→le, leb→lt, ◌<◌, ℕ, ◌+◌, ◌*◌, ◌≤◌, ◌≡◌, refl, String, eq_refl, Bool, true, false, not, Option,
  none, some, [], ◌∷◌, length, select, ltb, leb, if◌then◌else◌, arith,
}
use kitematic.Base.Dict.{Dict, lookup, contains, insert, erase}
use kitematic.ControlPlane.Policy.Rules.{Decision}

-- an entry is a decision and the time at which it expires
abbrev pub Entries : Type 0
Entries = Dict (Decision × ℕ)

abbrev pub by_lookup :
    String → (now : ℕ) → Entries → Option (Decision × ℕ) → Option Decision × Entries
by_lookup key now cache none = (none, cache)
by_lookup key now cache (some (value, expires)) =
    if leb expires now then (none, erase key cache) else (some value, cache)

-- `get`, which drops an entry that has expired
unfoldable pub get_cached : String → (now : ℕ) → Entries → Option Decision × Entries
get_cached key now cache = by_lookup key now cache (lookup key cache)

-- the entry that expires first, the earliest stored of several
unfoldable pub min_from : String × (Decision × ℕ) → Entries → String × (Decision × ℕ)
min_from e [] = e
min_from e (f ∷ cache) = min_from (if ltb f.1.1 e.1.1 then f else e) cache

unfoldable pub drop_oldest : Entries → Entries
unfolding min_from
drop_oldest [] = []
drop_oldest (e ∷ cache) = erase (min_from e cache).0 (e ∷ cache)

-- `set`: its limit and its time to live are constants
unfoldable pub set_cached : String → Decision → (now : ℕ) → Entries → Entries
unfolding drop_oldest
set_cached key value now cache =
    let room = if leb 10000 (length cache) then drop_oldest cache else cache in
    insert key (value, now + 300 * 1000000) room

unfoldable pub invalidate : (fnmatch : String → String → Bool) → Option String → Entries → Entries
invalidate fnmatch none cache = []
invalidate fnmatch (some pattern) cache = select (λ e. not (fnmatch e.0 pattern)) cache

length-insert-le :
    (k : String) (v : Decision × ℕ) (d : Entries) → length (insert k v d) ≤ length d + 1
unfolding insert
length-insert-le k v [] = omega arith
length-insert-le k v ((j, w) ∷ d) = ground (arith, length-insert-le k v d)

length-erase-le : (k : String) (d : Entries) → length (erase k d) ≤ length d
unfolding erase
length-erase-le k [] = omega arith
length-erase-le k ((j, w) ∷ d) = ground (arith, length-erase-le k d)

length-erase-lt :
    (k : String) (d : Entries) → contains k d ≡ true → length (erase k d) + 1 ≤ length d
unfolding erase lookup
length-erase-lt k [] h = cc
length-erase-lt k ((j, w) ∷ d) h = ground (arith, length-erase-lt k d, length-erase-le k d)

contains_first : (e : String × (Decision × ℕ)) (d : Entries) → contains e.0 (e ∷ d) ≡ true
unfolding lookup
contains_first e d = rw eq_refl refl

contains_later :
    (k : String) (e f : String × (Decision × ℕ)) (d : Entries) (test : Bool)
    → contains k ((if test then f else e) ∷ d) ≡ true
    → contains k (e ∷ f ∷ d) ≡ true
unfolding lookup
contains_later k e f d true h = ground arith
contains_later k e f d false h = ground arith

contains-min_from :
    (e : String × (Decision × ℕ)) (d : Entries) → contains (min_from e d).0 (e ∷ d) ≡ true
unfolding min_from
contains-min_from e [] = contains_first e []
contains-min_from e (f ∷ d) =
    contains_later _ e f d (ltb f.1.1 e.1.1)
      (contains-min_from (if ltb f.1.1 e.1.1 then f else e) d)

length-drop_oldest : (d : Entries) → 0 < length d → length (drop_oldest d) + 1 ≤ length d
unfolding drop_oldest
length-drop_oldest [] h = omega arith
length-drop_oldest (e ∷ d) h = length-erase-lt _ (e ∷ d) (contains-min_from e d)

-- The cache never holds more than 10,000 entries: storing one keeps the bound.
pub set_cached_le :
    (key : String) (value : Decision) (now : ℕ) (cache : Entries)
    → length cache ≤ 10000
    → length (set_cached key value now cache) ≤ 10000
unfolding set_cached
set_cached_le key value now cache h = by_room (leb 10000 (length cache)) refl
  where
    by_room :
        (full : Bool)
        → leb 10000 (length cache) ≡ full
        → length
            (insert key (value, now + 300 * 1000000) (if full then drop_oldest cache else cache))
          ≤ 10000
    by_room true e =
        let some_there = leb→le 10000 (length cache) e in
        omega (
          arith,
          length-insert-le key (value, now + 300 * 1000000) (drop_oldest cache),
          length-drop_oldest cache (omega arith),
        )
    by_room false e =
        let few = leb→lt 10000 (length cache) e in
        omega (arith, length-insert-le key (value, now + 300 * 1000000) cache)
