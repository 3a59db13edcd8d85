-- ===== src/Prelude/Results.antt =====
-- Python code that may raise, as a value: the exception's kind or the result.
use mathlib.Core.Path.{◌≡◌, refl}
use mathlib.Core.Bool.{Bool, true, false}
use mathlib.Core.Logic.{◌⊎◌, inl, inr}

pub data Result {ℓ} (E : Type 0) (A : Type ℓ) : Type ℓ where
  ok : A → Result E A
  err : E → Result E A

-- `abbrev`, so that a step that returned computes wherever it stands.
infixl 5 ◌>>=◌ ◌>>◌
abbrev pub ◌>>=◌ {ℓ κ} :
    {E : Type 0} {A : Type ℓ} {B : Type κ} → Result E A → (A → Result E B) → Result E B
◌>>=◌ (ok result) next = next result
◌>>=◌ (err raised) next = err raised

abbrev pub ◌>>◌ {ℓ} : {E : Type 0} {B : Type ℓ} → Result E (Unit {0}) → Result E B → Result E B
step >> rest = step >>= λ _. rest

-- `if not test: raise e`.
abbrev pub require : {E : Type 0} → Bool → E → Result E (Unit {0})
require true e = ok tt
require false e = err e

pub Result-cases {ℓ} :
    {E : Type 0} {A : Type ℓ} (r : Result E A) → ((a : A) × (r ≡ ok a)) ⊎ ((e : E) × (r ≡ err e))
Result-cases (ok a) = inl (a, refl)
Result-cases (err e) = inr (e, refl)

-- A sequence that returned: its first step did, and so did the rest at what that gave.
pub bind-eq-ok {ℓ κ} :
    {E : Type 0} {A : Type ℓ} {B : Type κ} (step : Result E A) (next : A → Result E B) {final : B}
    → (step >>= next) ≡ ok final
    → (middle : A) × (next middle ≡ ok final) × (step ≡ ok middle)
bind-eq-ok (err raised) next returned = cc
bind-eq-ok (ok middle) next returned = (middle, returned, refl)

-- The exceptions of the language that the program meets.
pub data PyError : Type 0 where
  key_error type_error value_error attribute_error index_error assertion_error : PyError
