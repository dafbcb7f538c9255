-- ===== src/Prelude/Results.antt =====
-- How a call of the C++ code ends: with a value, or by one of the ways in which it does not return.

-- A failed `assert`, a read outside the allocated memory, the end of a loop's fuel, a use of an object
-- that is not there, and a call of `abort`.
pub data Fault : Type 0 where
  assertion out_of_bounds out_of_fuel dangling aborted : Fault

pub data Result {ℓ} (A : Type ℓ) : Type ℓ where
  ok : A → Result A
  fault : Fault → Result A

infixl 5 ◌>>=◌
abbrev pub ◌>>=◌ {ℓ κ} : {A : Type ℓ} {B : Type κ} → Result A → (A → Result B) → Result B
ok a >>= f = f a
fault e >>= f = fault e
