-- ===== src/Storage/Memories/Ordered.antt =====
-- infrastructure/storage/memory/in_memory.py: the order in which memories are listed.
use mathlib.Core.List.{Perm}
use mathlib.Core.List.Perm
use kitematic.Base.{
  ℕ, ◌<◌, codes, ◌≡◌, ◌⊎◌, refl, inl, inr, Bool, Bool-cases, true, false, Option, none, some, List,
  [], ◌∷◌, All, arith,
}
use kitematic.Storage.Checkpoints.{codes_le}
use kitematic.Storage.Indexed.{insert_ordered, sort_ordered}
use kitematic.Storage.Memories.{MemoryItem, earlier, created_before, is_dated}

-- Both times are missing, or the first is the smaller one; and identifiers decide between equals.
abbrev pub TimesAscend : Option ℕ → Option ℕ → (ids_ascend : Bool) → Type 0
TimesAscend none none ids_ascend = ids_ascend ≡ true
TimesAscend (some t) (some u) ids_ascend = (t < u) ⊎ ((t ≡ u) × (ids_ascend ≡ true))
TimesAscend none (some u) ids_ascend = ⊥
TimesAscend (some t) none ids_ascend = ⊥

abbrev pub Precedes : MemoryItem → MemoryItem → Type 0
Precedes m n = TimesAscend m.created_at n.created_at (codes_le (codes m.item_id) (codes n.item_id))

-- Each memory precedes the next.
abbrev pub Ascending : List MemoryItem → Type 0
Ascending [] = Unit
Ascending (m ∷ []) = Unit
Ascending (m ∷ n ∷ ms) = Precedes m n × Ascending (n ∷ ms)

codes_le_total : (s t : List ℕ) → codes_le s t ≡ false → codes_le t s ≡ true
unfolding codes_le
codes_le_total [] t h = cc
codes_le_total (c ∷ s) [] h = refl
codes_le_total (c ∷ s) (d ∷ t) h = ground (arith, codes_le_total s t)

earlier-TimesAscend : (t u : Option ℕ) (ids : Bool) → earlier t u ids ≡ true → TimesAscend t u ids
unfolding earlier
earlier-TimesAscend none none ids h = h
earlier-TimesAscend (some t) (some u) ids h = ground arith
earlier-TimesAscend none (some u) ids h = cc
earlier-TimesAscend (some t) none ids h = cc

later-TimesAscend :
    (t u : Option ℕ) (ids back : Bool)
    → (ids ≡ false → back ≡ true)
    → elim t [ none ↦ false | some x ↦ true ] ≡ elim u [ none ↦ false | some x ↦ true ]
    → earlier t u ids ≡ false
    → TimesAscend u t back
unfolding earlier
later-TimesAscend none none ids back f same h = f h
later-TimesAscend (some t) (some u) ids back f same h = ground (arith, f)
later-TimesAscend none (some u) ids back f same h = cc
later-TimesAscend (some t) none ids back f same h = cc

before-Precedes : (m n : MemoryItem) → created_before m n ≡ true → Precedes m n
unfolding created_before
before-Precedes m n h = earlier-TimesAscend m.created_at n.created_at _ h

not_before-Precedes :
    (m n : MemoryItem) → is_dated m ≡ is_dated n → created_before m n ≡ false → Precedes n m
unfolding created_before
not_before-Precedes m n same h =
    later-TimesAscend m.created_at n.created_at _ _
      (codes_le_total (codes m.item_id) (codes n.item_id)) same h

-- The memories have all a time of creation, or none of them has.
abbrev pub AreDated : Bool → List MemoryItem → Type 0
AreDated b ms = All (λ m. is_dated m ≡ b) ms

module _ (b : Bool) (a : MemoryItem) (own : is_dated a ≡ b) where
  insert-AreDated :
      (ms : List MemoryItem) → AreDated b ms → AreDated b (insert_ordered created_before a ms)
  unfolding insert_ordered
  insert-AreDated [] h = (own, tt)
  insert-AreDated (m ∷ ms) (h, hs) = elim (Bool-cases (created_before a m)) [
    | inl e ↦ rw e (own, (h, hs))
    | inr e ↦ rw e (h, insert-AreDated ms hs)
  ]

  insert_after :
      (m : MemoryItem) (ms : List MemoryItem)
      → Precedes m a
      → AreDated b ms
      → Ascending (m ∷ ms)
      → Ascending (m ∷ insert_ordered created_before a ms)
  unfolding insert_ordered
  insert_after m [] p d h = (p, tt)
  insert_after m (n ∷ ms) p (d, ds) (q, h) = elim (Bool-cases (created_before a n)) [
    | inl e ↦ rw e (p, (before-Precedes a n e, h))
    | inr e ↦ rw e (q, insert_after n ms (not_before-Precedes a n (same d) e) ds h)
  ]
    where
      same : is_dated n ≡ b → is_dated a ≡ is_dated n
      same k = cc (own, k)

  insert-Ascending :
      (ms : List MemoryItem)
      → AreDated b ms
      → Ascending ms
      → Ascending (insert_ordered created_before a ms)
  unfolding insert_ordered
  insert-Ascending [] d h = tt
  insert-Ascending (m ∷ ms) (d, ds) h = elim (Bool-cases (created_before a m)) [
    | inl e ↦ rw e (before-Precedes a m e, h)
    | inr e ↦ rw e (insert_after m ms (not_before-Precedes a m (same d) e) ds h)
  ]
    where
      same : is_dated m ≡ b → is_dated a ≡ is_dated m
      same k = cc (own, k)

sort-AreDated :
    (b : Bool) (ms : List MemoryItem) → AreDated b ms → AreDated b (sort_ordered created_before ms)
unfolding sort_ordered
sort-AreDated b [] h = tt
sort-AreDated b (m ∷ ms) (h, hs) = insert-AreDated b m h _ (sort-AreDated b ms hs)

pub sort-Ascending :
    (b : Bool) (ms : List MemoryItem) → AreDated b ms → Ascending (sort_ordered created_before ms)
unfolding sort_ordered
sort-Ascending b [] h = tt
sort-Ascending b (m ∷ ms) (h, hs) =
    insert-Ascending b m h _ (sort-AreDated b ms hs) (sort-Ascending b ms hs)

insert-Perm :
    (a : MemoryItem) (ms : List MemoryItem) → Perm (insert_ordered created_before a ms) (a ∷ ms)
unfolding insert_ordered
insert-Perm a [] = Perm.refl _
insert-Perm a (m ∷ ms) = elim (Bool-cases (created_before a m)) [
  | inl e ↦ rw e (Perm.refl _)
  | inr e ↦ rw e (Perm.trans (Perm.cons m (insert-Perm a ms)) (Perm.swap _ _ ms))
]

pub sort-Perm : (ms : List MemoryItem) → Perm (sort_ordered created_before ms) ms
unfolding sort_ordered
sort-Perm [] = Perm.refl _
sort-Perm (m ∷ ms) = Perm.trans (insert-Perm m _) (Perm.cons m (sort-Perm ms))
