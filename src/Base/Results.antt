-- ===== src/Base/Results.antt =====
-- What a Go function that may fail returns: a value, an error, or a run-time panic that no caller
-- recovers from (an index out of range, a nil dereference).
use mathlib.Core.Path.{◌≡◌, refl}
use mathlib.Core.Option.{Option, none, some}
use mathlib.Core.Logic.{◌⊎◌, inl, inr}

pub data Result {ℓ κ} (E : Type ℓ) (A : Type κ) : Type (ℓ ⊔ κ) where
  ok : A → Result E A
  err : E → Result E A
  panic : Result E A

infixl 5 ◌>>=◌
-- What follows runs on a value alone.
abbrev pub ◌>>=◌ {ℓ κ μ} :
    {E : Type ℓ} {A : Type κ} {B : Type μ} → Result E A → (A → Result E B) → Result E B
panic >>= next = panic
err failure >>= next = err failure
ok value >>= next = next value

-- An index expression: out of range it panics.
abbrev pub or_panic {ℓ κ} : {E : Type ℓ} {A : Type κ} → Option A → Result E A
or_panic (some a) = ok a
or_panic none = panic

-- A sequence that returned a value had a value to go on with.
pub bind-ok {ℓ κ μ} :
    {E : Type ℓ} {A : Type κ} {B : Type μ} (first : Result E A) (next : A → Result E B) {result : B}
    → (first >>= next) ≡ ok result
    → (value : A) × (first ≡ ok value) × (next value ≡ ok result)
bind-ok panic next returned = cc
bind-ok (err failure) next returned = cc
bind-ok (ok value) next returned = (value, refl, returned)

-- To split on a result and keep the equation.
pub Result-cases {ℓ κ} :
    {E : Type ℓ} {A : Type κ} (r : Result E A)
    → (r ≡ panic) ⊎ (((a : A) × (r ≡ ok a)) ⊎ ((e : E) × (r ≡ err e)))
Result-cases panic = inl refl
Result-cases (ok a) = inr (inl (a, refl))
Result-cases (err e) = inr (inr (e, refl))
