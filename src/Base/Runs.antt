-- ===== src/Base/Runs.antt =====
-- How a run of the C++ code can end, and the chaining of such runs by `do`.
use mathlib.Core.Bool.{Bool, true, false}
use mathlib.Core.Option.{Option, none, some}

-- `fault` is undefined behaviour (an access out of bounds, a null pointer) or a failed `assert`;
-- `starved` is a coroutine that waits for a chunk which never comes; `thrown` an exception;
-- `no_fuel` a loop that is not over after the rounds it was given.
pub data Error : Type 0 where
  fault starved thrown no_fuel : Error

pub data Outcome {ℓ} (A : Type ℓ) : Type ℓ where
  err : Error → Outcome A
  ok : A → Outcome A

module _ {ℓ κ} {A : Type ℓ} {B : Type κ} where
  infixl 5 ◌>>=◌ ◌>>◌
  abbrev pub ◌>>=◌ : Outcome A → (A → Outcome B) → Outcome B
  err why >>= next = err why
  ok value >>= next = next value

  abbrev pub ◌>>◌ : Outcome A → Outcome B → Outcome B
  first >> second = first >>= λ value. second

abbrev pub assert : Bool → Outcome (Unit {0})
assert true = ok tt
assert false = err fault

abbrev pub deref {ℓ} : {A : Type ℓ} → Option A → Outcome A
deref none = err fault
deref (some a) = ok a
