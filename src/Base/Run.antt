-- ===== src/Base/Run.antt =====
-- Runs of code that may go wrong: what C++ leaves undefined, a failed `kassert`, a loop
-- without end, a key that a map does not hold, and the end of fuel.

pub data Fault : Type 0 where
  division_by_zero : Fault
  out_of_bounds : Fault
  null_pointer : Fault
  use_after_free : Fault
  assertion_failed : Fault
  endless_loop : Fault
  missing_key : Fault
  out_of_fuel : Fault

pub data Run {ℓ} (A : Type ℓ) : Type ℓ where
  ok : A → Run A
  fault : Fault → Run A

infixl 5 ◌>>=◌
abbrev pub ◌>>=◌ {ℓ κ} : {A : Type ℓ} {B : Type κ} → Run A → (A → Run B) → Run B
ok a >>= f = f a
fault e >>= f = fault e
