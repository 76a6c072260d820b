-- ===== src/Common/Count.antt =====
-- How many of the first `n` elements of an array pass a test.
use Prim.Native.Nat.{ℕ, zero, suc, ◌+◌, ◌<◌, ◌≤◌}
use mathlib.Core.Path.{◌≡◌, refl, ap}
use mathlib.Core.Logic.{inl, inr}
use mathlib.Core.Bool.{Bool, true, false}
use native.Mathlib.Omega.{arith}
use xdp_gradient_aggregation.Common.Tests.{to_nat, Bool-cases, ==_iff, ◌==◌}

unfoldable pub count : ℕ → (ℕ → Bool) → ℕ
count zero p = 0
count (suc n) p = to_nat (p n) + count n p

pub count-le : (n : ℕ) (p : ℕ → Bool) → count n p ≤ n
unfolding count
count-le zero p = omega arith
count-le (suc n) p = ground (arith, count-le n p)

pub count_zero : (n : ℕ) (p : ℕ → Bool) → ((i : ℕ) → i < n → p i ≡ false) → count n p ≡ 0
unfolding count
count_zero zero p h = refl
count_zero (suc n) p h = ground (arith, h n, count_zero n p (λ i lt. h i (omega arith)))

pub count_pos : (n : ℕ) (p : ℕ → Bool) (i : ℕ) → i < n → p i ≡ true → 0 < count n p
unfolding count
count_pos zero p i lt h = absurd (omega arith)
count_pos (suc n) p i lt h = ground (arith, count_pos n p i)

pub count_congr : (n : ℕ) (p q : ℕ → Bool) → ((i : ℕ) → i < n → p i ≡ q i) → count n p ≡ count n q
unfolding count
count_congr zero p q h = refl
count_congr (suc n) p q h = ground (arith, h n, count_congr n p q (λ i lt. h i (omega arith)))

-- Changing the test at one index below `n` moves the count by the change there.
pub count-change :
    (n : ℕ) (p q : ℕ → Bool) (i : ℕ)
    → i < n
    → ((j : ℕ) → (j == i) ≡ false → q j ≡ p j)
    → count n q + to_nat (p i) ≡ count n p + to_nat (q i)
unfolding count
count-change zero p q i lt h = absurd (omega arith)
count-change (suc n) p q i lt h = elim (Bool-cases (n == i)) [
  | inl here ↦
      let same : n ≡ i = (==_iff n i).0 here in
      let rest = count_congr n q p (λ j l. h j (ground arith)) in rw (← same) (omega (arith, rest))
  | inr apart ↦
      let lower : i < n = ground arith in
      let top = ap to_nat (h n apart) in omega (arith, count-change n p q i lower h, top)
]
