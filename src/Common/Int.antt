-- ===== src/Common/Int.antt =====
-- Signed numbers, and the signed reading of 32 bits.
use Prim.Native.Nat.{ℕ, suc, ◌+◌, ◌-◌, ◌*◌, ◌%◌, ◌^◌, ◌<◌, ◌≤◌}
use mathlib.Core.Path.{◌≡◌}
use native.Mathlib.Omega.{arith}
use xdp_gradient_aggregation.Common.Tests.{ltb, leb, if◌then◌else◌}

-- `negsuc n` is -(n + 1).
pub data ℤ : Type 0 where
  pos negsuc : ℕ → ℤ

abbrev pub pos_part : ℤ → ℕ
pos_part (pos n) = n
pos_part (negsuc n) = 0

abbrev pub neg_part : ℤ → ℕ
neg_part (pos n) = 0
neg_part (negsuc n) = suc n

infixl 65 ◌+ℤ◌
unfoldable pub ◌+ℤ◌ : ℤ → ℤ → ℤ
a +ℤ b =
    let p = pos_part a + pos_part b in
    let n = neg_part a + neg_part b in if leb n p then pos (p - n) else negsuc (n - p - 1)

pub +ℤ_parts :
    (a b : ℤ)
    → pos_part (a +ℤ b) + neg_part a + neg_part b ≡ neg_part (a +ℤ b) + pos_part a + pos_part b
unfolding ◌+ℤ◌
+ℤ_parts a b = ground arith

-- `(int32_t)x` on a word.
abbrev pub i32 : ℕ → ℤ
i32 x = if ltb x (2 ^ 31) then pos x else negsuc (2 ^ 32 - 1 - x)

pub i32_parts :
    (x : ℕ)
    → x < 2 ^ 32
    → x + neg_part (i32 x) ≡ pos_part (i32 x) + 2 ^ 32 * (if ltb x (2 ^ 31) then 0 else 1)
i32_parts x h = ground arith

abbrev pub magnitude : ℤ → ℕ
magnitude a = pos_part a + neg_part a

-- A word stands for the number in range that it is congruent to.
pub i32_unique :
    (x k : ℕ) (a : ℤ)
    → x + neg_part a ≡ pos_part a + 2 ^ 32 * k
    → magnitude a < 2 ^ 31
    → i32 (x % 2 ^ 32) ≡ a
i32_unique x k a same small = ground (arith, same, small)

pub magnitude_add : (a b : ℤ) → magnitude (a +ℤ b) ≤ magnitude a + magnitude b
unfolding ◌+ℤ◌
magnitude_add a b = ground arith
