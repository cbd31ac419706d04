-- ===== src/ControlPlane/Policy/Decisions.antt =====
-- Which rule decides (control_plane/policy/engine.py), and what a wildcard matches.
use kitematic.Base.{
  ℕ, ◌≤◌, ◌<◌, ◌≡◌, ◌⊎◌, inl, inr, refl, ap, String, Bool, true, false, List, [], ◌∷◌, ◌++◌, select,
  All, leb, arith, if◌then◌else◌,
}
use kitematic.ControlPlane.Policy.Rules.{
  PolicyRule, applies, insert_by_priority, sort_by_priority, Decision, no_rule, decided_by,
  decision_of, decide,
}

-- `best` is the first rule of the list with the lowest number of priority.
abbrev pub IsFirst : PolicyRule → List PolicyRule → Type 0
IsFirst best rules =
    (before : List PolicyRule) × (after : List PolicyRule) × (rules ≡ before ++ best ∷ after)
    × All (λ r. best.priority < r.priority) before
    × All (λ r. best.priority ≤ r.priority) after

All-le :
    (p : ℕ) (best : PolicyRule) (before after : List PolicyRule)
    → p ≤ best.priority
    → All (λ r. best.priority < r.priority) before
    → All (λ r. best.priority ≤ r.priority) after
    → All (λ r. p ≤ r.priority) (before ++ best ∷ after)
All-le p best [] [] h b a = (h, tt)
All-le p best [] (r ∷ after) h b (l, a) = (h, tail_le (r ∷ after) (l, a))
  where
    tail_le :
        (rules : List PolicyRule)
        → All (λ r. best.priority ≤ r.priority) rules
        → All (λ r. p ≤ r.priority) rules
    tail_le [] a = tt
    tail_le (r ∷ rules) (l, a) = (omega arith, tail_le rules a)
All-le p best (r ∷ before) after h (l, b) a = (omega arith, All-le p best before after h b a)

-- The rules sorted begin with their first one, and nothing is sorted to nothing.
Heads : List PolicyRule → List PolicyRule → Type 0
Heads rules [] = rules ≡ []
Heads rules (best ∷ _) = IsFirst best rules

insert_by_priority-Heads :
    (r : PolicyRule) (rules sorted : List PolicyRule)
    → Heads rules sorted
    → Heads (r ∷ rules) (insert_by_priority r sorted)
unfolding insert_by_priority Heads
insert_by_priority-Heads r rules [] h = ([], [], ap (λ rs. r ∷ rs) h, tt, tt)
insert_by_priority-Heads r rules (best ∷ sorted) (before, after, e, low, high) =
    by_test (leb r.priority best.priority) refl
  where
    by_test :
        (test : Bool)
        → leb r.priority best.priority ≡ test
        → Heads (r ∷ rules) (if test then r ∷ best ∷ sorted else best ∷ insert_by_priority r sorted)
    by_test true h =
        ([], rules, refl, tt, rw e (All-le r.priority best before after (ground arith) low high))
    by_test false h = (r ∷ before, after, ap (λ rs. r ∷ rs) e, (ground arith, low), high)

sort_by_priority-Heads : (rules : List PolicyRule) → Heads rules (sort_by_priority rules)
unfolding sort_by_priority Heads
sort_by_priority-Heads [] = refl
sort_by_priority-Heads (r ∷ rules) =
    insert_by_priority-Heads r rules (sort_by_priority rules) (sort_by_priority-Heads rules)

-- The decision of the rules for a resource: without a rule that applies it is ALLOW, and otherwise
-- it is that of the first of those with the lowest number of priority.
abbrev pub IsDecision : List PolicyRule → Decision → Type 0
IsDecision matching d =
    ((matching ≡ []) × (d ≡ no_rule))
    ⊎ ((best : PolicyRule) × (d ≡ decided_by best) × IsFirst best matching)

decision_of-IsDecision :
    (matching sorted : List PolicyRule)
    → Heads matching sorted
    → IsDecision matching (decision_of sorted)
unfolding decision_of Heads
decision_of-IsDecision matching [] h = inl (h, refl)
decision_of-IsDecision matching (best ∷ _) h = inr (best, refl, h)

-- The engine decides for a resource, among the active rules whose target matches it, by the first
-- one with the lowest number of priority; without any such rule it allows.
pub decide-IsDecision :
    (rules : List PolicyRule) (resource : String)
    → IsDecision (select (applies resource) rules) (decide rules resource)
unfolding decide
decide-IsDecision rules resource =
    decision_of-IsDecision _ _ (sort_by_priority-Heads (select (applies resource) rules))
