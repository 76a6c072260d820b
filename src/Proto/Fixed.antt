-- ===== src/Proto/Fixed.antt =====
-- protocol/grad_proto.h: the Q16.16 numbers, and the check that a sum of them fits.
pub mod Exact
use xdp_gradient_aggregation.Common.{ℕ, ◌+◌, ◌-◌, ◌*◌, ◌%◌, ◌^◌, Bool, ◌&&◌, ℤ, pos, negsuc}
use xdp_gradient_aggregation.Double.{Double, of_int, multiply, divide, negate, less_than, truncate}

-- `(double)(1 << NETSUM_Q_FRAC_BITS)`
abbrev pub scale : Double
scale = of_int (pos (2 ^ 16))

-- The whole number that the cast to int32_t is given; C leaves the cast undefined out of range.
unfoldable pub netsum_to_fixed : Double → ℤ
unfolding multiply truncate of_int
netsum_to_fixed v = truncate (multiply v scale)

unfoldable pub netsum_to_double : ℤ → Double
unfolding divide of_int
netsum_to_double fixed = divide (of_int fixed) scale

unfoldable pub netsum_sum_fits_i32 : (num_workers : ℕ) → (max_abs : Double) → Bool
unfolding multiply of_int less_than
netsum_sum_fits_i32 num_workers max_abs =
    let max_fixed_sum = multiply (multiply (of_int (pos num_workers)) max_abs) scale in
    less_than max_fixed_sum (of_int (pos 2147483647))
    && less_than (of_int (negsuc 2147483647)) (negate max_fixed_sum)

-- The 32 bits of an int32_t, as `(uint32_t)` reads them.
abbrev pub word : ℤ → ℕ
word (pos n) = n % 2 ^ 32
word (negsuc n) = 2 ^ 32 - 1 - n % 2 ^ 32
