-- ===== src/Base/Strip.antt =====
-- `s.strip()` and `c.isspace()`, on code points.
use Prim.Native.Char.{code, Char}
use kitematic.Base.Tests.{leb, ◌==◌, if◌then◌else◌}
use kitematic.Base.Lists.{any}
use kitematic.Base.Text.{String, is_empty, is_empty-cons}
use Prim.Native.Nat.{ℕ}
use mathlib.Core.Path.{◌≡◌, refl, ap, ◌∙◌}
use mathlib.Core.Bool.{Bool, true, false, ◌&&◌, ◌||◌}
use mathlib.Core.List.{[], ◌∷◌}

-- `c.isspace()`
unfoldable pub is_space : ℕ → Bool
is_space c =
    (leb 9 c && leb c 13)
    || (leb 28 c && leb c 32)
    || any (λ d. c == d) (133 ∷ 160 ∷ 5760 ∷ 8232 ∷ 8233 ∷ 8239 ∷ 8287 ∷ 12288 ∷ [])
    || (leb 8192 c && leb c 8202)

unfoldable pub strip_left : String → String
strip_left String.[] = ""
strip_left (String.◌∷◌ c s) =
    let rest = strip_left s in if is_space (code c) then rest else String.◌∷◌ c s

unfoldable pub strip_right : String → String
strip_right String.[] = ""
strip_right (String.◌∷◌ c s) =
    let rest = strip_right s in if is_empty rest && is_space (code c) then "" else String.◌∷◌ c rest

-- `s.strip()`
unfoldable pub strip : String → String
strip s = strip_left (strip_right s)

strip_left_other :
    (c : Char) (s : String)
    → is_space (code c) ≡ false
    → strip_left (String.◌∷◌ c s) ≡ String.◌∷◌ c s
unfolding strip_left
strip_left_other c s h = rw h refl

strip_right_other :
    (c : Char) (s : String)
    → is_space (code c) ≡ false
    → strip_right (String.◌∷◌ c s) ≡ String.◌∷◌ c (strip_right s)
unfolding strip_right
strip_right_other c s h =
    elim (is_empty (strip_right s))
      as (λ b.
        (if b && is_space (code c) then "" else String.◌∷◌ c (strip_right s))
        ≡ String.◌∷◌ c (strip_right s)) [ true ↦ rw h refl | false ↦ refl ]

-- Stripping leaves a text that starts with a character other than space.
pub strip-nonempty :
    (c : Char) (s : String) → is_space (code c) ≡ false → is_empty (strip (String.◌∷◌ c s)) ≡ false
unfolding strip
strip-nonempty c s h =
    ap (λ t. is_empty (strip_left t)) (strip_right_other c s h)
    ∙ ap (λ t. is_empty t) (strip_left_other c (strip_right s) h)
    ∙ is_empty-cons c (strip_right s)
