-- ===== src/Common/Results.antt =====
-- Go's pair of a value and an error, over an error type of the component's own.
use mathlib.Core.Path.{◌≡◌, refl}
use mathlib.Core.Logic.{◌⊎◌, inl, inr}
use mathlib.Core.Bool.{Bool, true, false}

pub data Result {ℓ κ} (E : Type κ) (A : Type ℓ) : Type (ℓ ⊔ κ) where
  ok : A → Result E A
  err : E → Result E A

-- An early return of the error `e`, unless `b` holds.
abbrev pub guard {ι} : {E : Type ι} → Bool → E → Result E (Unit {0})
guard b e = elim b [ true ↦ ok tt | false ↦ err e ]

infixl 5 ◌>>=◌ ◌>>◌
-- `if err != nil { return nil, err }`
abbrev pub ◌>>=◌ {ℓ κ ι} :
    {E : Type ι} {A : Type ℓ} {B : Type κ} → Result E A → (A → Result E B) → Result E B
r >>= go_on = elim r [ err e ↦ err e | ok a ↦ go_on a ]

abbrev pub ◌>>◌ {κ ι} : {E : Type ι} {B : Type κ} → Result E (Unit {0}) → Result E B → Result E B
first >> second = elim first [ err e ↦ err e | ok _ ↦ second ]

-- To split on a computed result and keep the equation.
pub Result-cases {ℓ κ} :
    {E : Type κ} {A : Type ℓ} (r : Result E A) → ((a : A) × (r ≡ ok a)) ⊎ ((e : E) × (r ≡ err e))
Result-cases (ok a) = inl (a, refl)
Result-cases (err e) = inr (e, refl)
