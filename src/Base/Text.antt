-- ===== src/Base/Text.antt =====
-- Python's `str`: equality, truth value, concatenation, decimal numbers, and the two searches that
-- the code makes. Lower case is that of ASCII; other characters stay as they are.
pub mod Decimal
use Prim.Native.Nat.{ℕ, zero, suc, ◌+◌, ◌/◌, ◌%◌}
use Prim.Native.Char.{Char, code}
pub use Prim.Native.String.{String, ◌++◌ as ◌<>◌}
unfoldable pub use text.Mathlib.Text.{◌==◌ as str_eq}
pub use text.Mathlib.TextEquality.{eq_iff}
pub use text.Mathlib.TextPositions.{eq_refl}
use mathlib.Core.Path.{◌≡◌, ap}
use mathlib.Core.Logic.{◌≢◌, ◌⊎◌, inl, inr}
use mathlib.Core.Bool.{Bool, true, false, ◌&&◌, ◌||◌}
use mathlib.Core.List.{List, [], ◌∷◌, map}
use native.Mathlib.Omega.{arith}
use kitematic.Base.Tests.{ltb, leb, ◌==◌, if◌then◌else◌, Bool-cases}

-- `not s`
abbrev pub is_empty : String → Bool
is_empty s = str_eq s ""

pub str_eq_cases :
    (s t : String) → ((str_eq s t ≡ true) × (s ≡ t)) ⊎ ((str_eq s t ≡ false) × (s ≢ t))
str_eq_cases s t = elim (Bool-cases (str_eq s t)) [
  | inl e ↦ inl (e, (eq_iff s t).0 e)
  | inr e ↦ inr (e, λ p. ground (arith, eq_iff s t))
]

abbrev pub codes : String → List ℕ
codes String.[] = []
codes (String.◌∷◌ c s) = code c ∷ codes s

-- A text that has a first character is not empty.
pub is_empty-cons : (c : Char) (s : String) → is_empty (String.◌∷◌ c s) ≡ false
is_empty-cons c s = elim (str_eq_cases (String.◌∷◌ c s) "") [
  | inl (e, same) ↦ let n : code c ∷ codes s ≡ [] = ap codes same in cc
  | inr (e, n) ↦ e
]

digit : ℕ → String
digit n =
    if n == 0
    then "0"
    else if n == 1
    then "1"
    else if n == 2
    then "2"
    else if n == 3
    then "3"
    else if n == 4
    then "4"
    else if n == 5
    then "5"
    else if n == 6
    then "6"
    else if n == 7
    then "7"
    else if n == 8
    then "8"
    else "9"

show_from : ℕ → ℕ → String
show_from zero n = ""
show_from (suc fuel) n =
    let front = show_from fuel (n / 10) in if ltb n 10 then digit n else front <> digit (n % 10)

-- `str(n)`
unfoldable pub show : ℕ → String
unfolding digit show_from
show n = show_from (suc n) n

repr_items : List String → String
repr_items [] = ""
repr_items (s ∷ []) = "'" <> s <> "'"
repr_items (s ∷ t ∷ rest) = "'" <> s <> "', " <> repr_items (t ∷ rest)

-- `str` of a list of texts that hold no quote and no backslash
unfoldable pub repr_list : List String → String
unfolding repr_items
repr_list xs = "[" <> repr_items xs <> "]"

lower_code : ℕ → ℕ
lower_code c = if leb b'A' c && leb c b'Z' then c + 32 else c

-- `s.lower()`, as code points
unfoldable pub lower : String → List ℕ
unfolding lower_code
lower s = map lower_code (codes s)

-- `s.startswith(prefix)`, on codes
unfoldable pub starts_with : (prefix s : List ℕ) → Bool
starts_with [] s = true
starts_with (c ∷ p) [] = false
starts_with (c ∷ p) (d ∷ s) = c == d && starts_with p s

-- whether the first is part of the second
unfoldable pub contains_codes : List ℕ → List ℕ → Bool
unfolding starts_with
contains_codes p [] = starts_with p []
contains_codes p (d ∷ s) = starts_with p (d ∷ s) || contains_codes p s

-- `keyword in s`
unfoldable pub contains_text : String → List ℕ → Bool
unfolding starts_with contains_codes
contains_text keyword s = contains_codes (codes keyword) s

-- `s == t`, on codes
unfoldable pub same_list : List ℕ → List ℕ → Bool
same_list [] [] = true
same_list [] (d ∷ s) = false
same_list (c ∷ p) [] = false
same_list (c ∷ p) (d ∷ s) = c == d && same_list p s

-- `s == word`
unfoldable pub same_codes : String → List ℕ → Bool
unfolding same_list
same_codes word s = same_list (codes word) s
