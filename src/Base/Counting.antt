-- ===== src/Base/Counting.antt =====
-- How many numbers below a bound pass a test.
use mathlib.Core.Path.{subst}
use native.Mathlib.Decide.{ℕ_discrete}
use Prim.Native.Nat.{ℕ, zero, suc, ◌+◌, ◌≤◌, ◌<◌}
use mathlib.Core.Path.{◌≡◌}
use mathlib.Core.Bool.{Bool, true, false}
use native.Mathlib.Decide.{ℕ_discrete}
use native.Mathlib.Omega.{arith}
use kusa_os.Base.Tests.{if◌then◌else◌}

pub count : ℕ → (ℕ → Bool) → ℕ
count zero P = 0
count (suc n) P = count n P + (if P n then 1 else 0)

pub count-le : (n : ℕ) (P : ℕ → Bool) → count n P ≤ n
unfolding count
count-le zero P = omega arith
count-le (suc n) P = ground (arith, count-le n P)

module _ (P Q : ℕ → Bool) (sub : (x : ℕ) → P x ≡ true → Q x ≡ true) where
  count_mono : (n : ℕ) → count n P ≤ count n Q
  unfolding count
  count_mono zero = omega arith
  count_mono (suc n) = ground (arith, count_mono n, sub n)

  -- One number more passes the weaker test.
  pub count-lt : (n x : ℕ) → x < n → P x ≡ false → Q x ≡ true → count n P + 1 ≤ count n Q
  unfolding count
  count-lt zero x h p q = elim h [ ]
  count-lt (suc n) x h p q = elim (ℕ_discrete x n) [
    | yes e ↦ ground (arith, count_mono n, e)
    | no ne ↦ ground (arith, sub n, count-lt n x (omega arith) p q)
  ]

-- What holds of p and of the f numbers after it
pub range_suc {ℓ} :
    (P : ℕ → Type ℓ) (p f : ℕ)
    → P p
    → ((i : ℕ) → p + 1 ≤ i → i < p + 1 + f → P i)
    → (i : ℕ) → p ≤ i
    → i < p + suc f
    → P i
range_suc P p f here rest i le lt = elim (ℕ_discrete p i) [
  | yes q ↦ subst P q here
  | no ne ↦ rest i (omega (arith, ne)) (omega arith)
]
