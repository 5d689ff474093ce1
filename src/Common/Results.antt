-- ===== src/Common/Results.antt =====
-- Fallible code: a value or the error that was thrown.
use mathlib.Core.Path.{◌≡◌, refl}

pub data Result {ℓ} (Thrown Value : Type ℓ) : Type ℓ where
  err : Thrown → Result Thrown Value
  ok : Value → Result Thrown Value

infixl 5 ◌>>=◌
-- An error ends the chain.
abbrev pub ◌>>=◌ {ℓ} :
    {Thrown Value Other : Type ℓ}
    → Result Thrown Value
    → (Value → Result Thrown Other)
    → Result Thrown Other
err problem >>= next = err problem
ok value >>= next = next value

-- A chain that succeeds has an intermediate value.
pub >>=-eq-ok {ℓ} :
    {Thrown Value Other : Type ℓ} (first : Result Thrown Value) (next : Value → Result Thrown Other)
    {last : Other}
    → (first >>= next) ≡ ok last
    → (value : Value) × (first ≡ ok value) × (next value ≡ ok last)
>>=-eq-ok (err problem) next e = absurd (cc)
>>=-eq-ok (ok value) next e = (value, refl, e)
