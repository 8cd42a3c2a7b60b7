-- ===== src/Prelude/Result.antt =====
-- What a Go function with an error result does: it returns a value, returns an error, or panics.
use mathlib.Core.Path.{◌≡◌, refl}
use mathlib.Core.Logic.{◌⊎◌, inl, inr}
use mathlib.Core.Bool.{Bool, true, false}

pub data Result {ℓ κ} (E : Type ℓ) (A : Type κ) : Type (ℓ ⊔ κ) where
  ok : A → Result E A
  err : E → Result E A
  panicked : Result E A

abbrev pub is_ok {ℓ κ} : {E : Type ℓ} {A : Type κ} → Result E A → Bool
is_ok (ok a) = true
is_ok (err e) = false
is_ok panicked = false

-- To split on what a call returned and keep the equation.
pub Result-cases {ℓ} :
    {E : Type ℓ} (r : Result E (Unit {0}))
    → (r ≡ ok tt) ⊎ (((e : E) × (r ≡ err e)) ⊎ (r ≡ panicked))
Result-cases (ok a) = inl refl
Result-cases (err e) = inr (inl (e, refl))
Result-cases panicked = inr (inr refl)
