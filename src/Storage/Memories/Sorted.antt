-- ===== src/Storage/Memories/Sorted.antt =====
-- `_sorted` of infrastructure/storage/memory/in_memory.py: an ordered list, or a `TypeError`.
use mathlib.Core.List.{Perm}
use kitematic.Storage.Memories.Ordered.{Ascending, AreDated, sort-Ascending, sort-Perm}
use kitematic.Storage.Indexed.{sort_ordered}
use kitematic.Base.{
  In, ◌≡◌, ◌⊎◌, inl, inr, refl, sym, ap, ◌∙◌, not, Bool, Bool-cases, true, false, List, [], ◌∷◌,
  any, Outcome, returned, raised, arith,
}
use kitematic.Storage.Memories.{
  MemoryItem, MemoryError, type_error, created_before, is_dated, is_mixed, sort_memories,
}

-- The memories in the order of their times of creation and, where these are the same or missing, of
-- their identifiers; or the `TypeError` of a comparison where some of them have a time of creation
-- and some have none.
abbrev pub Sorts : List MemoryItem → Outcome MemoryError (List MemoryItem) → Type 0
Sorts ms o =
    (((m n : MemoryItem) → In m ms → In n ms → is_dated m ≡ is_dated n)
      × ((listed : List MemoryItem) × (o ≡ returned listed) × Perm listed ms × Ascending listed))
    ⊎ ((m : MemoryItem) × (n : MemoryItem) × In m ms
        × In n ms
        × (is_dated m ≡ true)
        × (is_dated n ≡ false)
        × (o ≡ raised type_error))

AreDated-In :
    (b : Bool) (ms : List MemoryItem)
    → ((m : MemoryItem) → In m ms → is_dated m ≡ b)
    → AreDated b ms
AreDated-In b [] h = tt
AreDated-In b (m ∷ ms) h = (h m (inl refl), AreDated-In b ms (λ n i. h n (inr i)))

any-In :
    (test : MemoryItem → Bool) (ms : List MemoryItem)
    → any test ms ≡ true
    → (m : MemoryItem) × In m ms × (test m ≡ true)
any-In test [] h = cc
any-In test (m ∷ ms) h = elim (Bool-cases (test m)) [
  | inl e ↦ (m, inl refl, e)
  | inr e ↦ let (n, i, k) = any-In test ms (ground arith) in (n, inr i, k)
]

not_any :
    (test : MemoryItem → Bool) (ms : List MemoryItem) (m : MemoryItem)
    → any test ms ≡ false
    → In m ms
    → test m ≡ false
not_any test [] m h i = elim i [ ]
not_any test (n ∷ ms) m h (inl e) = ap test e ∙ ground arith
not_any test (n ∷ ms) m h (inr i) = not_any test ms m (ground arith) i

undated : (b : Bool) → not b ≡ true → b ≡ false
undated true h = cc
undated false h = refl

is_true : (b : Bool) → not b ≡ false → b ≡ true
is_true true h = refl
is_true false h = cc

module _ (ms : List MemoryItem) where
  -- memories of which all have a time of creation, or none
  uniform-Sorts :
      (b : Bool)
      → is_mixed ms ≡ false
      → ((m : MemoryItem) → In m ms → is_dated m ≡ b)
      → Sorts ms (sort_memories ms)
  unfolding sort_memories
  uniform-Sorts b e h = inl (
    λ m n i j. h m i ∙ sym (h n j),
    (
      sort_ordered created_before ms,
      rw e refl,
      sort-Perm ms,
      sort-Ascending b ms (AreDated-In b ms h),
    ),
  )

  pub sort_memories-Sorts : Sorts ms (sort_memories ms)
  unfolding sort_memories is_mixed
  sort_memories-Sorts = elim (Bool-cases (any is_dated ms)) [
    | inr e ↦ uniform-Sorts false (rw e refl) (λ m i. not_any is_dated ms m e i)
    | inl e ↦ elim (Bool-cases (any (λ m. not (is_dated m)) ms)) [
      | inr f ↦
          uniform-Sorts true (rw (e, f) refl)
            (λ m i. is_true (is_dated m) (not_any (λ x. not (is_dated x)) ms m f i))
      | inl f ↦
          let (m, i, k) = any-In is_dated ms e in
          let (n, j, l) = any-In (λ x. not (is_dated x)) ms f in
          inr (m, n, i, j, k, undated (is_dated n) l, rw (e, f) refl)
    ]
  ]
