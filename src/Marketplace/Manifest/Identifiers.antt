-- ===== src/Marketplace/Manifest/Identifiers.antt =====
-- What domain/extension_manifest.py accepts as the identifier of an extension.
use kitematic.Base.{
  codes, ℕ, String, Bool, Bool-cases, true, false, ◌||◌, ◌≡◌, ◌↔◌, ◌⊎◌, ◌≤◌, refl, ap, inl, inr,
  List, [], ◌∷◌, ◌++◌, length, All, arith, ◌==◌,
}
use kitematic.Marketplace.Manifest.{
  newline, is_digit, is_alphanumeric, at_end, id_rest, id_matches, validate_extension_id,
}

-- the end of the text, or a last newline
abbrev pub IsTail : List ℕ → Type 0
IsTail s = (s ≡ []) ⊎ (s ≡ newline ∷ [])

abbrev pub IsInner : ℕ → Type 0
IsInner c = (is_alphanumeric c || c == b'-') ≡ true

-- A letter or digit, perhaps letters, digits and hyphens that end with a letter or digit, and the end.
abbrev pub IsIdentifier : List ℕ → Type 0
IsIdentifier s =
    (first : ℕ) × (rest : List ℕ) × (s ≡ first ∷ rest)
    × (is_alphanumeric first ≡ true)
    × (IsTail rest
        ⊎ ((inner : List ℕ) × (last : ℕ) × (tail : List ℕ) × (rest ≡ inner ++ last ∷ tail)
            × All IsInner inner
            × (is_alphanumeric last ≡ true)
            × IsTail tail))

-- letters, digits and hyphens that end with a letter or digit, and the end
abbrev Inner : List ℕ → Type 0
Inner s =
    (inner : List ℕ) × (last : ℕ) × (tail : List ℕ) × (s ≡ inner ++ last ∷ tail)
    × All IsInner inner
    × (is_alphanumeric last ≡ true)
    × IsTail tail

at_end-IsTail : (s : List ℕ) → at_end s ≡ true → IsTail s
unfolding at_end
at_end-IsTail [] h = inl refl
at_end-IsTail (c ∷ []) h = inr (ap (λ x. x ∷ []) (ground arith))
at_end-IsTail (c ∷ d ∷ s) h = cc

Inner-cons : (c : ℕ) (s : List ℕ) → IsInner c → Inner s → Inner (c ∷ s)
Inner-cons c s i (inner, last, tail, e, hs, l, t) =
    (c ∷ inner, last, tail, ap (λ x. c ∷ x) e, (i, hs), l, t)

id_rest-Inner :
    (ends : Bool) (s : List ℕ) → id_rest ends s ≡ true → ((ends ≡ true) × IsTail s) ⊎ Inner s
unfolding id_rest
id_rest-Inner ends [] h = inl (h, inl refl)
id_rest-Inner ends (c ∷ s) h =
    by_code (Bool-cases (is_alphanumeric c)) (Bool-cases (c == b'-')) (λ k. id_rest-Inner true s k)
      (λ k. id_rest-Inner false s k)
  where
    by_code :
        (is_alphanumeric c ≡ true) ⊎ (is_alphanumeric c ≡ false)
        → ((c == b'-') ≡ true) ⊎ ((c == b'-') ≡ false)
        → (id_rest true s ≡ true → ((true ≡ true) × IsTail s) ⊎ Inner s)
        → (id_rest false s ≡ true → ((false ≡ true) × IsTail s) ⊎ Inner s)
        → ((ends ≡ true) × IsTail (c ∷ s)) ⊎ Inner (c ∷ s)
    by_code (inl l) _ more _ = elim (more (ground (arith, l, h))) [
      | inl (_, t) ↦ inr ([], c, s, refl, tt, l, t)
      | inr i ↦ inr (Inner-cons c s (rw l refl) i)
    ]
    by_code (inr n) (inl y) _ more = elim (more (ground (arith, n, y, h))) [
      | inl (f, t) ↦ cc
      | inr i ↦ inr (Inner-cons c s (ground (arith, n, y)) i)
    ]
    by_code (inr n) (inr x) _ _ =
        let (e, t) : (ends ≡ true) × (at_end (c ∷ s) ≡ true) = ground (arith, n, x, h) in
        inl (e, at_end-IsTail (c ∷ s) t)

id_rest-tail : (tail : List ℕ) → IsTail tail → id_rest true tail ≡ true
unfolding id_rest is_alphanumeric is_digit at_end
id_rest-tail tail (inl e) = rw e refl
id_rest-tail tail (inr e) = rw e refl

id_rest_complete :
    (inner : List ℕ) (ends : Bool) (last : ℕ) (tail : List ℕ)
    → All IsInner inner
    → is_alphanumeric last ≡ true
    → IsTail tail
    → id_rest ends (inner ++ last ∷ tail) ≡ true
unfolding id_rest
id_rest_complete [] ends last tail h l t = rw l (id_rest-tail tail t)
id_rest_complete (c ∷ inner) ends last tail (i, hs) l t = ground (
  arith,
  i,
  id_rest_complete inner true last tail hs l t,
  id_rest_complete inner false last tail hs l t,
)

id_matches-IsIdentifier : (s : List ℕ) → id_matches s ≡ true → IsIdentifier s
unfolding id_matches
id_matches-IsIdentifier [] h = cc
id_matches-IsIdentifier (c ∷ s) h =
    let (a, r) : (is_alphanumeric c ≡ true) × (id_rest true s ≡ true) = ground (arith, h) in
    elim (id_rest-Inner true s r) [
      | inl (_, t) ↦ (c, s, refl, a, inl t)
      | inr i ↦ (c, s, refl, a, inr i)
    ]

IsIdentifier-id_matches : (s : List ℕ) → IsIdentifier s → id_matches s ≡ true
unfolding id_matches
IsIdentifier-id_matches s (c, rest, e, a, inl t) = rw (e, a) (id_rest-tail rest t)
IsIdentifier-id_matches s (c, rest, e, a, inr (inner, last, tail, f, hs, l, t)) =
    rw (e, a, f) (id_rest_complete inner true last tail hs l t)

-- An identifier has no errors exactly if it has 3 to 64 characters, a letter or digit at its start,
-- then letters, digits and hyphens, and a letter or digit at its end, before which `$` may stand
-- with one more newline: the characters counted include this newline.
pub validate_extension_id_iff :
    (s : String)
    → validate_extension_id s ≡ []
      ↔ (3 ≤ length (codes s)) × (length (codes s) ≤ 64) × IsIdentifier (codes s)
unfolding validate_extension_id
validate_extension_id_iff s = (
  λ h.
      let (low, high, m) : (3 ≤ length (codes s))
          × (length (codes s) ≤ 64)
          × (id_matches (codes s) ≡ true) =
        ground (arith, h) in
      (low, high, id_matches-IsIdentifier (codes s) m),
  λ (low, high, i). ground (arith, low, high, IsIdentifier-id_matches (codes s) i),
)
