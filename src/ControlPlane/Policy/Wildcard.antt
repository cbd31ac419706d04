-- ===== src/ControlPlane/Policy/Wildcard.antt =====
-- Which resources a target with a wildcard matches (`_target_matches` of
-- control_plane/policy/engine.py), on the codes of the texts.
use mathlib.Core.Path.{subst}
use kitematic.Base.{
  ℕ, ◌≡◌, ◌↔◌, ◌⊎◌, ◌∙◌, inl, inr, refl, sym, ap, true, false, some, List, [], ◌∷◌, ◌++◌, ◌||◌,
  same_list, starts_with, arith, Bool-cases,
}
use kitematic.ControlPlane.Policy.Rules.{wildcard_prefix, codes_match}

same_list_self : (s : List ℕ) → same_list s s ≡ true
unfolding same_list
same_list_self [] = refl
same_list_self (c ∷ s) = ground (arith, same_list_self s)

eq-of-same_list : (s t : List ℕ) → same_list s t ≡ true → s ≡ t
unfolding same_list
eq-of-same_list [] [] h = refl
eq-of-same_list [] (d ∷ t) h = cc
eq-of-same_list (c ∷ s) [] h = cc
eq-of-same_list (c ∷ s) (d ∷ t) h =
    cons_eq c d s t (ground arith) (eq-of-same_list s t (ground arith))
  where
    cons_eq : (c d : ℕ) (s t : List ℕ) → c ≡ d → s ≡ t → c ∷ s ≡ d ∷ t
    cons_eq c d s t h k = cc

starts_with-of-eq : (prefix rest : List ℕ) → starts_with prefix (prefix ++ rest) ≡ true
unfolding starts_with
starts_with-of-eq [] rest = refl
starts_with-of-eq (c ∷ prefix) rest = ground (arith, starts_with-of-eq prefix rest)

eq-of-starts_with :
    (prefix s : List ℕ) → starts_with prefix s ≡ true → (rest : List ℕ) × (s ≡ prefix ++ rest)
unfolding starts_with
eq-of-starts_with [] s h = (s, refl)
eq-of-starts_with (c ∷ prefix) [] h = absurd (ground arith)
eq-of-starts_with (c ∷ prefix) (d ∷ s) h =
    let (rest, e) = eq-of-starts_with prefix s (ground arith) in
    (rest, cons_eq c d s (prefix ++ rest) (ground arith) e)
  where
    cons_eq : (c d : ℕ) (s t : List ℕ) → c ≡ d → s ≡ t → d ∷ s ≡ c ∷ t
    cons_eq c d s t h k = cc

-- the two codes of ".*"
abbrev pub wildcard : List ℕ
wildcard = 46 ∷ 42 ∷ []

longer_than_wildcard :
    (c : ℕ) (prefix : List ℕ) → same_list (c ∷ (prefix ++ wildcard)) wildcard ≡ false
unfolding same_list
longer_than_wildcard c [] = ground arith
longer_than_wildcard c (d ∷ []) = ground arith
longer_than_wildcard c (d ∷ e ∷ prefix) = ground arith

not_star : (prefix : List ℕ) → same_list (prefix ++ wildcard) (42 ∷ []) ≡ false
unfolding same_list
not_star [] = refl
not_star (c ∷ []) = ground arith
not_star (c ∷ d ∷ prefix) = ground arith

wildcard_prefix-append : (prefix : List ℕ) → wildcard_prefix (prefix ++ wildcard) ≡ some prefix
unfolding wildcard_prefix
wildcard_prefix-append [] = unfold same_list in refl
wildcard_prefix-append (c ∷ prefix) =
    rw (longer_than_wildcard c prefix, wildcard_prefix-append prefix) refl

append_code : (prefix rest : List ℕ) (c : ℕ) → (prefix ++ c ∷ []) ++ rest ≡ prefix ++ c ∷ rest
append_code [] rest c = refl
append_code (d ∷ prefix) rest c = ap (λ s. d ∷ s) (append_code prefix rest c)

-- A target that ends in ".*" matches exactly the resource that is its prefix, and the resources
-- that go on behind the prefix with a dot: "a.*" matches "a" and "a.b", not "ab".
pub codes_match_iff :
    (prefix resource : List ℕ)
    → (codes_match (prefix ++ wildcard) resource ≡ true)
      ↔ ((resource ≡ prefix) ⊎ ((rest : List ℕ) × (resource ≡ prefix ++ 46 ∷ rest)))
unfolding codes_match
codes_match_iff prefix resource =
    rw (not_star, wildcard_prefix-append) (λ h. matched h, λ h. matches h)
  where
    matched :
        (same_list resource prefix || starts_with (prefix ++ 46 ∷ []) resource) ≡ true
        → (resource ≡ prefix) ⊎ ((rest : List ℕ) × (resource ≡ prefix ++ 46 ∷ rest))
    matched h = elim (Bool-cases (same_list resource prefix)) [
      | inl e ↦ inl (eq-of-same_list resource prefix e)
      | inr e ↦
          let (rest, f) = eq-of-starts_with (prefix ++ 46 ∷ []) resource (ground arith) in
          inr (rest, f ∙ append_code prefix rest 46)
    ]

    matches :
        (resource ≡ prefix) ⊎ ((rest : List ℕ) × (resource ≡ prefix ++ 46 ∷ rest))
        → (same_list resource prefix || starts_with (prefix ++ 46 ∷ []) resource) ≡ true
    matches (inl e) = rw e (rw same_list_self refl)
    matches (inr (rest, e)) =
        let begins =
          subst (λ s. starts_with (prefix ++ 46 ∷ []) s ≡ true) (append_code prefix rest 46 ∙ sym e)
            (starts_with-of-eq (prefix ++ 46 ∷ []) rest) in
        ground arith
