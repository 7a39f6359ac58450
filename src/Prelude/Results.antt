-- ===== src/Prelude/Results.antt =====
-- Go's pair of a value and an error, as a value.
use mathlib.Core.Path.{◌≡◌, refl}
use mathlib.Core.Logic.{◌⊎◌, inl, inr}
use mathlib.Core.Bool.{Bool, true, false}

pub data Result {ℓ κ} (E : Type κ) (A : Type ℓ) : Type (ℓ ⊔ κ) where
  ok : A → Result E A
  err : E → Result E A

abbrev pub is_ok {ℓ κ} : {E : Type κ} {A : Type ℓ} → Result E A → Bool
is_ok (ok a) = true
is_ok (err e) = false

pub Result-cases {ℓ κ} :
    {E : Type κ} {A : Type ℓ} (r : Result E A) → ((a : A) × (r ≡ ok a)) ⊎ ((e : E) × (r ≡ err e))
Result-cases (ok a) = inl (a, refl)
Result-cases (err e) = inr (e, refl)

pub ok_inj {ℓ κ} : {E : Type κ} {A : Type ℓ} {a b : A} → Path (Result E A) (ok a) (ok b) → a ≡ b
ok_inj h = cc
