-- ===== src/Libc.antt =====
-- What the programs take from the C library: what its functions make of a string of any kind.
use xdp_gradient_aggregation.Common.{ℕ, Bool, Option, Array, ℤ}
use xdp_gradient_aggregation.Double.{Double}

pub record Libc (Str : Type 0) : Type 0 where
  -- sscanf with six `%x` between colons; `none` if it does not return 6
  pub sscanf_mac : Str → Option (Array ℕ)
  -- inet_pton, with the address in network byte order; `none` if it does not return 1
  pub inet_pton : Str → Option ℕ
  -- atoi, as the bits of its int
  pub atoi : Str → ℕ
  pub atol : Str → ℤ
  -- strtoul in base 10
  pub strtoul : Str → ℕ
  pub atof : Str → Double
  -- whether strcmp finds the string to be "agg"
  pub is_agg : Str → Bool
