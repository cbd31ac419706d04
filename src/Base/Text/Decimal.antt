-- ===== src/Base/Text/Decimal.antt =====
-- The decimal text of a number tells the number.
use Prim.Native.Nat.{ℕ, zero, suc, ◌+◌, ◌-◌, ◌*◌, ◌/◌, ◌%◌, ◌<◌}
use mathlib.Core.Path.{◌≡◌, refl, sym, ap, ◌∙◌}
use mathlib.Core.Logic.{inl, inr}
use mathlib.Core.List.{List, [], ◌∷◌, ◌++◌}
use native.Mathlib.Omega.{arith}
use text.Mathlib.TextLemmas.{nil-append, cons-append}
use Prim.Native.Char.{code}
use kitematic.Base.Tests.{ltb, Bool-cases, ltb→lt}
use kitematic.Base.Text.{String, ◌<>◌, codes, show, digit, show_from}

codes-append : (s t : String) → codes (s <> t) ≡ codes s ++ codes t
codes-append String.[] t = ap codes (nil-append t)
codes-append (String.◌∷◌ c s) t = rw cons-append (ap (λ xs. code c ∷ xs) (codes-append s t))

-- the number that digits stand for, after a number that was read
read : ℕ → List ℕ → ℕ
read acc [] = acc
read acc (c ∷ s) = read (acc * 10 + (c - 48)) s

read-append : (acc : ℕ) (xs ys : List ℕ) → read acc (xs ++ ys) ≡ read (read acc xs) ys
unfolding read
read-append acc [] ys = refl
read-append acc (x ∷ xs) ys = read-append (acc * 10 + (x - 48)) xs ys

read-digit : (n acc : ℕ) → n < 10 → read acc (codes (digit n)) ≡ acc * 10 + n
unfolding read digit
read-digit zero acc h = refl
read-digit (suc zero) acc h = refl
read-digit (suc (suc zero)) acc h = refl
read-digit (suc (suc (suc zero))) acc h = refl
read-digit (suc (suc (suc (suc zero)))) acc h = refl
read-digit (suc (suc (suc (suc (suc zero))))) acc h = refl
read-digit (suc (suc (suc (suc (suc (suc zero)))))) acc h = refl
read-digit (suc (suc (suc (suc (suc (suc (suc zero))))))) acc h = refl
read-digit (suc (suc (suc (suc (suc (suc (suc (suc zero)))))))) acc h = refl
read-digit (suc (suc (suc (suc (suc (suc (suc (suc (suc zero))))))))) acc h = refl
read-digit (suc (suc (suc (suc (suc (suc (suc (suc (suc (suc n)))))))))) acc h =
    absurd (omega arith)

read-show_from : (fuel n : ℕ) → n < fuel → read 0 (codes (show_from fuel n)) ≡ n
unfolding show_from
read-show_from zero n h = absurd (omega arith)
read-show_from (suc fuel) n h = elim (Bool-cases (ltb n 10)) [
  | inl small ↦ rw small (read-digit n 0 (ltb→lt n 10 small) ∙ omega arith)
  | inr large ↦
      rw (large, codes-append, read-append)
        (read-digit (n % 10) _ (omega arith)
          ∙ omega (arith, read-show_from fuel (n / 10) (ground arith)))
]

pub show_inj : (m n : ℕ) → show m ≡ show n → m ≡ n
unfolding show
show_inj m n e =
    sym (read-show_from (suc m) m (omega arith))
    ∙ ap (λ s. read 0 (codes s)) e
    ∙ read-show_from (suc n) n (omega arith)
