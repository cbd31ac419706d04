-- ===== src/Base/Lists.antt =====
-- Lists over the native numbers.
use Prim.Native.Nat.{ℕ, suc, ◌+◌, ◌≤◌}
use mathlib.Core.Path.{◌≡◌, refl, sym, ap, ◌∙◌, subst}
use mathlib.Core.Logic.{◌⊎◌, inl, inr}
use mathlib.Core.Bool.{Bool, true, false, ◌&&◌, ◌||◌}
use mathlib.Core.List.{List, [], ◌∷◌, ◌++◌}
use native.Mathlib.Omega.{arith}
use kitematic.Base.Tests.{if◌then◌else◌}

module _ {ℓ} {A : Type ℓ} where
  abbrev pub length : List A → ℕ
  length [] = 0
  length (_ ∷ xs) = suc (length xs)

  -- `[x for x in xs if p(x)]`
  abbrev pub select : (A → Bool) → List A → List A
  select p [] = []
  select p (x ∷ xs) = let rest = select p xs in if p x then x ∷ rest else rest

  -- `any(p(x) for x in xs)` and `all(p(x) for x in xs)`
  abbrev pub any : (A → Bool) → List A → Bool
  any p [] = false
  any p (x ∷ xs) = p x || any p xs

  abbrev pub all : (A → Bool) → List A → Bool
  all p [] = true
  all p (x ∷ xs) = p x && all p xs

  pub length-append : (xs ys : List A) → length (xs ++ ys) ≡ length xs + length ys
  length-append [] ys = omega arith
  length-append (x ∷ xs) ys = omega (arith, length-append xs ys)

  pub length-select-le : (p : A → Bool) (xs : List A) → length (select p xs) ≤ length xs
  length-select-le p [] = omega arith
  length-select-le p (x ∷ xs) = ground (arith, length-select-le p xs)

-- A predicate at every element.
abbrev pub All {ℓ κ} : {A : Type ℓ} → (A → Type κ) → List A → Type κ
All P [] = Unit
All P (x ∷ xs) = P x × All P xs

-- Nothing, at any level.
pub data Never {ℓ} : Type ℓ where

-- An element of a list.
abbrev pub In {ℓ} : {A : Type ℓ} → A → List A → Type ℓ
In x [] = Never
In x (y ∷ xs) = (x ≡ y) ⊎ In x xs

pub All-append {ℓ κ} :
    {A : Type ℓ} (P : A → Type κ) (xs ys : List A) → All P xs → All P ys → All P (xs ++ ys)
All-append P [] ys h k = k
All-append P (x ∷ xs) ys (h, hs) k = (h, All-append P xs ys hs k)

pub All-imp {ℓ κ μ} :
    {A : Type ℓ} (P : A → Type κ) (Q : A → Type μ) (xs : List A)
    → ((x : A) → P x → Q x)
    → All P xs
    → All Q xs
All-imp P Q [] f h = tt
All-imp P Q (x ∷ xs) f (h, hs) = (f x h, All-imp P Q xs f hs)

pub All-In {ℓ κ} : {A : Type ℓ} (P : A → Type κ) (x : A) (xs : List A) → All P xs → In x xs → P x
All-In P x [] h i = elim i [ ]
All-In P x (y ∷ xs) (h, hs) (inl e) = subst P (sym e) h
All-In P x (y ∷ xs) (h, hs) (inr i) = All-In P x xs hs i

In-select_if {ℓ} :
    {A : Type ℓ} (p : A → Bool) (x y : A) (xs rest : List A) (b : Bool)
    → p y ≡ b
    → (In x rest → In x xs × (p x ≡ true))
    → In x (if b then y ∷ rest else rest)
    → In x (y ∷ xs) × (p x ≡ true)
In-select_if p x y xs rest true e f (inl same) = (inl same, ap p same ∙ e)
In-select_if p x y xs rest true e f (inr i) = let (j, t) = f i in (inr j, t)
In-select_if p x y xs rest false e f i = let (j, t) = f i in (inr j, t)

-- What a selection holds is in the list, and passes the test.
pub In-select {ℓ} :
    {A : Type ℓ} (p : A → Bool) (x : A) (xs : List A) → In x (select p xs) → In x xs × (p x ≡ true)
In-select p x [] i = elim i [ ]
In-select p x (y ∷ xs) i = In-select_if p x y xs (select p xs) (p y) refl (In-select p x xs) i

pub In-append_left {ℓ} : {A : Type ℓ} (x : A) (xs ys : List A) → In x xs → In x (xs ++ ys)
In-append_left x [] ys i = elim i [ ]
In-append_left x (y ∷ xs) ys (inl e) = inl e
In-append_left x (y ∷ xs) ys (inr i) = inr (In-append_left x xs ys i)

pub In-append_right {ℓ} : {A : Type ℓ} (x : A) (xs ys : List A) → In x ys → In x (xs ++ ys)
In-append_right x [] ys i = i
In-append_right x (y ∷ xs) ys i = inr (In-append_right x xs ys i)

kept_if {ℓ} :
    {A : Type ℓ} (x y : A) (rest : List A) (b : Bool)
    → In x rest
    → In x (if b then y ∷ rest else rest)
kept_if x y rest true i = inr i
kept_if x y rest false i = i

-- What is in the list and passes the test is selected.
pub In-kept {ℓ} :
    {A : Type ℓ} (p : A → Bool) (x : A) (xs : List A) → In x xs → p x ≡ true → In x (select p xs)
In-kept p x [] i h = elim i [ ]
In-kept p x (y ∷ xs) (inl same) h =
    subst (λ b. In x (if b then y ∷ select p xs else select p xs)) (sym (sym (ap p same) ∙ h))
      (inl same)
In-kept p x (y ∷ xs) (inr i) h = kept_if x y (select p xs) (p y) (In-kept p x xs i h)
