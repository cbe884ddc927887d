-- ===== src/Prelude/Results.antt =====
-- Go's `(value, error)` results: a value or an error, never both.
use mathlib.Core.Path.{◌≡◌, refl}
use mathlib.Core.Logic.{◌⊎◌, inl, inr}

pub data Result {ℓ κ} (E : Type κ) (A : Type ℓ) : Type (ℓ ⊔ κ) where
  ok : A → Result E A
  err : E → Result E A

pub Result-cases {ℓ κ} :
    {E : Type κ} {A : Type ℓ} (r : Result E A) → ((e : E) × (r ≡ err e)) ⊎ ((a : A) × (r ≡ ok a))
Result-cases (ok a) = inr (a, refl)
Result-cases (err e) = inl (e, refl)

pub result_cases {ℓ κ μ ν} :
    {E : Type κ} {A : Type ℓ} {B : Type μ} (P : B → Type ν) (r : Result E A) {f : E → B} {s : A → B}
    → ((e : E) → r ≡ err e → P (f e))
    → ((a : A) → r ≡ ok a → P (s a))
    → P (elim r [ err e ↦ f e | ok a ↦ s a ])
result_cases P (ok a) g k = k a refl
result_cases P (err e) g k = g e refl
