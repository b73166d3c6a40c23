-- ===== src/Base/Faults.antt =====
-- The result of code that can have undefined behaviour, or whose loop can run out of fuel.
use mathlib.Core.Path.{◌≡◌, refl}
use mathlib.Core.Option.{Option, none, some}

-- `fault` is undefined behaviour of the C++ code, such as a read out of bounds. `out_of_fuel` is
-- no result of the code: the fuel given to a loop of the model ran out.
pub data Outcome {ℓ} (A : Type ℓ) : Type ℓ where
  ok : A → Outcome A
  fault out_of_fuel : Outcome A

infixl 5 ◌>>=◌
abbrev pub ◌>>=◌ {ℓ κ} : {A : Type ℓ} {B : Type κ} → Outcome A → (A → Outcome B) → Outcome B
ok a >>= f = f a
fault >>= f = fault
out_of_fuel >>= f = out_of_fuel

-- What is absent is a read out of bounds.
abbrev pub defined {ℓ} : {A : Type ℓ} → Option A → Outcome A
defined (some a) = ok a
defined none = fault

pub >>=-eq-ok {ℓ κ} :
    {A : Type ℓ} {B : Type κ} (first : Outcome A) (next : A → Outcome B) {result : B}
    → (first >>= next) ≡ ok result
    → (a : A) × (first ≡ ok a) × (next a ≡ ok result)
>>=-eq-ok (ok a) next e = (a, refl, e)
>>=-eq-ok fault next e = cc
>>=-eq-ok out_of_fuel next e = cc
