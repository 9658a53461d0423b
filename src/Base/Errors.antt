-- ===== src/Base/Errors.antt =====
-- A Go function's `(value, error)`: the value, or the error with no value.
use mathlib.Core.Path.{◌≡◌, refl}
use mathlib.Core.Bool.{Bool, true, false}
use mathlib.Core.Option.{Option, none, some}

pub data Result {ℓ} (E : Type 0) (A : Type ℓ) : Type ℓ where
  ok : A → Result E A
  err : E → Result E A

infixl 5 ◌>>=◌ ◌>>◌
abbrev pub ◌>>=◌ {ℓ κ} :
    {E : Type 0} {A : Type ℓ} {B : Type κ} → Result E A → (A → Result E B) → Result E B
ok a >>= f = f a
err e >>= f = err e

abbrev pub ◌>>◌ {ℓ} : {E : Type 0} {B : Type ℓ} → Result E (Unit {0}) → Result E B → Result E B
m >> k = m >>= λ _. k

-- `if !test { return err }`
abbrev pub guard : {E : Type 0} → Bool → E → Result E (Unit {0})
guard true e = ok tt
guard false e = err e

-- A call whose absent result is reported as `e`.
abbrev pub required {ℓ} : {E : Type 0} {A : Type ℓ} → Option A → E → Result E A
required none e = err e
required (some a) e = ok a

-- The value of the first call of a chain that gives a result.
pub first_value {ℓ κ} :
    {E : Type 0} {A : Type ℓ} {B : Type κ} {result : B} (call : Result E A) (next : A → Result E B)
    → (call >>= next) ≡ ok result
    → (value : A) × (call ≡ ok value) × (next value ≡ ok result)
first_value (err e) next chain = absurd (cc)
first_value (ok value) next chain = (value, refl, chain)
