-- ===== src/Common/Run.antt =====
-- Runs of C code.
use mathlib.Core.Bool.{Bool, true, false}
use mathlib.Core.Option.{Option, none, some}

-- `aborted` is a failed assertion or a panic; `fault` is undefined behaviour, such as a
-- read of memory that is not there; `out_of_fuel` is a loop cut off.
pub data Run {ℓ} (A : Type ℓ) : Type ℓ where
  ok : A → Run A
  aborted : Run A
  fault : Run A
  out_of_fuel : Run A

infixl 5 ◌>>=◌ ◌>>◌
abbrev pub ◌>>=◌ {ℓ κ} : {A : Type ℓ} {B : Type κ} → Run A → (A → Run B) → Run B
ok a >>= f = f a
aborted >>= f = aborted
fault >>= f = fault
out_of_fuel >>= f = out_of_fuel

abbrev pub ◌>>◌ {ℓ} : {B : Type ℓ} → Run (Unit {0}) → Run B → Run B
m >> k = m >>= λ _. k

-- `SLAB_assert` and `RTREE_assert`, and with the test negated `SLAB_panic`
abbrev pub assert : Bool → Run (Unit {0})
assert true = ok tt
assert false = aborted

-- `none` is undefined behaviour
abbrev pub or_fault {ℓ} : {A : Type ℓ} → Option A → Run A
or_fault none = fault
or_fault (some a) = ok a
