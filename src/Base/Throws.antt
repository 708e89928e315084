-- ===== src/Base/Throws.antt =====
-- Code that throws: a value or the error thrown.
use mathlib.Core.Path.{◌≡◌, refl}
use mathlib.Core.Logic.{◌⊎◌, inl, inr}
use mathlib.Core.Bool.{Bool, true, false}
use mathlib.Core.Option.{Option, none, some}

pub data Result {ℓ κ} (E : Type ℓ) (A : Type κ) : Type (ℓ ⊔ κ) where
  ok : A → Result E A
  err : E → Result E A

-- `if (!test) throw error;`
abbrev pub require {ℓ} : {E : Type ℓ} → Bool → E → Result E (Unit {0})
require false thrown = err thrown
require true thrown = ok tt

-- `if (value === undefined) throw error;`
abbrev pub or_throw {ℓ κ} : {E : Type ℓ} {A : Type κ} → Option A → E → Result E A
or_throw (some value) thrown = ok value
or_throw none thrown = err thrown

-- What follows a statement runs unless the statement throws.
infixl 5 ◌>>=◌
abbrev pub ◌>>=◌ {ℓ κ μ} :
    {E : Type ℓ} {A : Type κ} {B : Type μ} → Result E A → (A → Result E B) → Result E B
(err thrown) >>= next = err thrown
(ok value) >>= next = next value

pub Result-cases {ℓ κ} :
    {E : Type ℓ} {A : Type κ} (r : Result E A)
    → ((value : A) × (r ≡ ok value)) ⊎ ((thrown : E) × (r ≡ err thrown))
Result-cases (err thrown) = inr (thrown, refl)
Result-cases (ok value) = inl (value, refl)

infixl 5 ◌>>◌
abbrev pub ◌>>◌ {ℓ κ} : {E : Type ℓ} {B : Type κ} → Result E (Unit {0}) → Result E B → Result E B
first >> second = first >>= λ _. second
