-- ===== src/Prelude/Fallible.antt =====
-- A value, or the exception that was raised.
use mathlib.Core.Path.{◌≡◌, refl}

pub data Result {ℓ} (E A : Type ℓ) : Type ℓ where
  ok : A → Result E A
  err : E → Result E A

infixl 5 ◌>>=◌
abbrev pub ◌>>=◌ {ℓ} : {E A B : Type ℓ} → Result E A → (A → Result E B) → Result E B
ok a >>= f = f a
err e >>= f = err e

-- A bind that succeeds: the rest ran on what the first part gave.
pub >>=-eq-ok {ℓ} :
    {E A B : Type ℓ} {last : B} (first : Result E A) (rest : A → Result E B)
    → (first >>= rest) ≡ ok last
    → (given : A) × (rest given ≡ ok last) × (first ≡ ok given)
>>=-eq-ok (err raised) rest e = cc
>>=-eq-ok (ok given) rest e = (given, e, refl)
