-- ===== src/Prelude/Errors.antt =====
-- Exceptions as values: what a Python call that may raise returns. The constructors of `Error` are
-- the exceptions that the modelled code raises or lets through.
use mathlib.Core.Path.{◌≡◌, refl}
use mathlib.Core.Bool.{Bool, true, false}
use mathlib.Core.Logic.{◌⊎◌, inl, inr}

pub data Error : Type 0 where
  value_error runtime_error index_error key_error type_error overflow_error stop_iteration
        attribute_error zero_division_error :
      Error
  page_allocation_error : Error

pub data Result {ℓ} (A : Type ℓ) : Type ℓ where
  ok : A → Result A
  err : Error → Result A

abbrev pub is_ok {ℓ} : {A : Type ℓ} → Result A → Bool
is_ok (ok value) = true
is_ok (err error) = false

-- The call goes on with the value, or the exception passes through.
infixl 5 ◌>>=◌
abbrev pub ◌>>=◌ {ℓ κ} : {A : Type ℓ} {B : Type κ} → Result A → (A → Result B) → Result B
ok value >>= next = next value
err error >>= next = err error

pub Result-cases {ℓ} :
    {A : Type ℓ} (r : Result A) → ((e : Error) × (r ≡ err e)) ⊎ ((a : A) × (r ≡ ok a))
Result-cases (err e) = inl (e, refl)
Result-cases (ok a) = inr (a, refl)

pub >>=-eq-ok {ℓ κ} :
    {A : Type ℓ} {B : Type κ} (r : Result A) (next : A → Result B) {out : B}
    → (r >>= next) ≡ ok out
    → (value : A) × (r ≡ ok value) × (next value ≡ ok out)
>>=-eq-ok (err error) next e = cc
>>=-eq-ok (ok value) next e = (value, refl, e)
