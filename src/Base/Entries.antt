-- ===== src/Base/Entries.antt =====
-- Predicates at the entries of a dict.
use mathlib.Core.Path.{◌≡◌, refl, sym, subst}
use mathlib.Core.Option.{Option, some}
use mathlib.Core.List.{[], ◌∷◌}
use mathlib.Core.Logic.{inl, inr}
use native.Mathlib.Omega.{arith}
use kitematic.Base.Tests.{Bool-cases}
use kitematic.Base.Lists.{All}
use kitematic.Base.Text.{String, str_eq, str_eq_cases}
use kitematic.Base.Dict.{Dict, lookup, insert, erase, values}

module _ {V : Type 0} (P : String × V → Type 0) where
  pub All-insert : (k : String) (v : V) (d : Dict V) → P (k, v) → All P d → All P (insert k v d)
  unfolding insert
  All-insert k v [] p h = (p, tt)
  All-insert k v ((j, w) ∷ d) p (q, h) = elim (str_eq_cases j k) [
    | inl (e, same) ↦ rw e (p, h)
    | inr (e, n) ↦ rw e (q, All-insert k v d p h)
  ]

  pub All-erase : (k : String) (d : Dict V) → All P d → All P (erase k d)
  unfolding erase
  All-erase k [] h = tt
  All-erase k ((j, w) ∷ d) (q, h) = elim (Bool-cases (str_eq j k)) [
    | inl e ↦ rw e (All-erase k d h)
    | inr e ↦ rw e (q, All-erase k d h)
  ]

  pub All-lookup : (k : String) (v : V) (d : Dict V) → All P d → lookup k d ≡ some v → P (k, v)
  unfolding lookup
  All-lookup k v [] h e = cc
  All-lookup k v ((j, w) ∷ d) (q, h) e = elim (str_eq_cases j k) [
    | inl (b, same) ↦
        let found : ◌≡◌ {A = Option V} (some w) (some v) = rw (sym e, b) refl in
        subst P (entry_eq j k w v same found) q
    | inr (b, n) ↦ All-lookup k v d h (ground (arith, b, e))
  ]
    where
      entry_eq :
          (j k : String) (w v : V)
          → j ≡ k
          → ◌≡◌ {A = Option V} (some w) (some v)
          → ◌≡◌ {A = String × V} (j, w) (k, v)
      entry_eq j k w v p q = cc

pub All-values : {V : Type 0} (Q : V → Type 0) (d : Dict V) → All (λ e. Q e.1) d → All Q (values d)
All-values Q [] h = tt
All-values Q (e ∷ d) (q, h) = (q, All-values Q d h)
