-- ===== src/Storage/Indexed.antt =====
-- What the stores in memory share (infrastructure/storage/checkpoint/in_memory.py and
-- infrastructure/storage/memory/in_memory.py): sets of identifiers, the items that they name, and
-- sorting.
use kitematic.Base.{
  In-append_left, In-append_right, arith, true, In, sym, ap, ◌∙◌, str_eq_cases, ◌≡◌, String, str_eq,
  Bool, Option, none, some, List, [], ◌∷◌, ◌++◌, any, All, All-append, inl, inr, refl,
  if◌then◌else◌, Outcome, returned, raised, Bool-cases,
}
use kitematic.Base.Dict.{Dict, lookup}

abbrev pub add_to_set : String → List String → List String
add_to_set s set = if any (str_eq s) set then set else set ++ s ∷ []

-- `store[id]` for each identifier; a `KeyError` names the first one that is not there
unfoldable pub fetched :
    {A : Type 0} → Option A → String → Outcome String (List A) → Outcome String (List A)
fetched none id rest = raised id
fetched (some a) id (raised missing) = raised missing
fetched (some a) id (returned found) = returned (a ∷ found)

unfoldable pub fetch_all : {A : Type 0} → List String → Dict A → Outcome String (List A)
unfolding fetched
fetch_all [] store = returned []
fetch_all (id ∷ ids) store = fetched (lookup id store) id (fetch_all ids store)

module _ {A : Type 0} (before : A → A → Bool) where
  unfoldable pub insert_ordered : A → List A → List A
  insert_ordered a [] = a ∷ []
  insert_ordered a (b ∷ bs) =
      let rest = insert_ordered a bs in if before a b then a ∷ b ∷ bs else b ∷ rest

  unfoldable pub sort_ordered : List A → List A
  unfolding insert_ordered
  sort_ordered [] = []
  sort_ordered (a ∷ rest) = insert_ordered a (sort_ordered rest)

pub All-add_to_set :
    (P : String → Type 0) (s : String) (set : List String)
    → P s
    → All P set
    → All P (add_to_set s set)
All-add_to_set P s set h hs = elim (Bool-cases (any (str_eq s) set)) [
  | inl e ↦ rw e hs
  | inr e ↦ rw e (All-append P set (s ∷ []) hs (h, tt))
]

any-In : (s : String) (set : List String) → any (str_eq s) set ≡ true → In s set
any-In s [] h = cc
any-In s (t ∷ set) h = elim (str_eq_cases s t) [
  | inl (e, same) ↦ inl same
  | inr (e, n) ↦ inr (any-In s set (ground arith))
]

pub In-add_to_set : (x s : String) (set : List String) → In x set → In x (add_to_set s set)
In-add_to_set x s set i = elim (Bool-cases (any (str_eq s) set)) [
  | inl e ↦ rw e i
  | inr e ↦ rw e (In-append_left x set (s ∷ []) i)
]

pub In-add_to_set_self : (s : String) (set : List String) → In s (add_to_set s set)
In-add_to_set_self s set = elim (Bool-cases (any (str_eq s) set)) [
  | inl e ↦ rw e (any-In s set e)
  | inr e ↦ rw e (In-append_right s set (s ∷ []) (inl refl))
]

-- every item that an identifier of the list names
abbrev pub HasAll : {A : Type 0} → List String → Dict A → List A → Type 0
HasAll {A} ids store found =
    (id : String) (a : A) → In id ids → lookup id store ≡ some a → In a found

-- Every identifier names an item with `Q`, and so they are fetched.
abbrev pub Names : {A : Type 0} → (A → Type 0) → Dict A → String → Type 0
Names {A} Q store id = (a : A) × (lookup id store ≡ some a) × Q a

some_eq : {A : Type 0} (a b : A) → ◌≡◌ {A = Option A} (some a) (some b) → a ≡ b
some_eq a b h = cc

HasAll-cons :
    {A : Type 0} (id : String) (ids : List String) (store : Dict A) (a : A) (found : List A)
    → lookup id store ≡ some a
    → HasAll ids store found
    → HasAll (id ∷ ids) store (a ∷ found)
HasAll-cons id ids store a found there all j b (inl same) k =
    inl (some_eq b a (sym k ∙ ap (λ x. lookup x store) same ∙ there))
HasAll-cons id ids store a found there all j b (inr i) k = inr (all j b i k)

pub fetch_all-returned :
    {A : Type 0} (Q : A → Type 0) (ids : List String) (store : Dict A)
    → All (Names Q store) ids
    → (found : List A) × (fetch_all ids store ≡ returned found)
      × All Q found
      × HasAll ids store found
unfolding fetch_all fetched
fetch_all-returned Q [] store h = ([], refl, tt, λ id a i e. elim i [ ])
fetch_all-returned Q (id ∷ ids) store ((a, there, q), hs) =
    let (found, e, qs, all) = fetch_all-returned Q ids store hs in
    (a ∷ found, rw (there, e) refl, (q, qs), HasAll-cons id ids store a found there all)
