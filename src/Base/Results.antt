-- ===== src/Base/Results.antt =====
-- What a call that may raise an exception gives: a value, or the exception `E`.
use mathlib.Core.Path.{◌≡◌, refl}
use mathlib.Core.Bool.{Bool}
use kitematic.Base.Tests.{if◌then◌else◌}

pub data Outcome {ℓ κ} (E : Type ℓ) (A : Type κ) : Type (ℓ ⊔ κ) where
  returned : A → Outcome E A
  raised : E → Outcome E A

infixl 5 ◌>>=◌ ◌>>◌
abbrev pub ◌>>=◌ {ℓ κ μ} :
    {E : Type ℓ} {A : Type κ} {B : Type μ} → Outcome E A → (A → Outcome E B) → Outcome E B
returned a >>= f = f a
raised e >>= f = raised e

abbrev pub ◌>>◌ {ℓ κ} : {E : Type ℓ} {B : Type κ} → Outcome E (Unit {0}) → Outcome E B → Outcome E B
m >> k = m >>= λ _. k

-- `if test: raise e`
abbrev pub raise_if {ℓ} : {E : Type ℓ} → Bool → E → Outcome E (Unit {0})
raise_if test e = if test then raised e else returned tt

-- A chain that returns has a first part that returns.
pub bind-returned {ℓ κ μ} :
    {E : Type ℓ} {A : Type κ} {B : Type μ} (m : Outcome E A) (f : A → Outcome E B) {b : B}
    → m >>= f ≡ returned b
    → (a : A) × (m ≡ returned a) × (f a ≡ returned b)
bind-returned (returned a) f h = (a, refl, h)
bind-returned (raised e) f h = cc
