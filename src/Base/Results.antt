-- ===== src/Base/Results.antt =====
-- The outcome of a kernel routine: its value, or the way in which it stops the system.
-- `assert_failed` is assertion_failure() of lib/misc.c, `panicked` is panic() of kernel/main.c,
-- `spins` is a loop that never ends, and `wild` an access outside every object.
use mathlib.Core.Bool.{Bool, true, false}

pub data Fault : Type 0 where
  assert_failed panicked spins wild : Fault

pub data Result {ℓ} (A : Type ℓ) : Type ℓ where
  err : Fault → Result A
  ok : A → Result A

-- `assert(exp)`
abbrev pub assert : Bool → Result (Unit {0})
assert false = err Fault.assert_failed
assert true = ok tt

infixl 5 ◌>>=◌ ◌>>◌
abbrev pub ◌>>=◌ {ℓ κ} : {A : Type ℓ} {B : Type κ} → Result A → (A → Result B) → Result B
err fault >>= rest = err fault
ok value >>= rest = rest value

abbrev pub ◌>>◌ {ℓ} : {B : Type ℓ} → Result (Unit {0}) → Result B → Result B
first >> rest = first >>= λ _. rest
