-- ===== src/Double.antt =====
-- IEEE 754 double precision, as the C code uses it: a sign and a whole number of units of 2^-1074,
-- the smallest positive double. Each operation rounds to the nearest double, to the even one of two
-- that are equally near. The values are finite: there is no bound on the exponent.
pub mod Round
use xdp_gradient_aggregation.Common.{
  ℕ, zero, suc, ◌+◌, ◌-◌, ◌*◌, ◌/◌, ◌%◌, ◌^◌, ◌<◌, ◌≡◌, Bool, true, false, not, ◌&&◌, ◌||◌, ◌==◌,
  ltb, if◌then◌else◌, ℤ, pos, negsuc,
}

-- The smallest power of two above `u` of which 2^53 exceed `k`.
unfoldable pub ulp_from : (fuel u k : ℕ) → ℕ
ulp_from zero u k = u
ulp_from (suc fuel) u k = elim (ltb k (2 ^ 53 * u)) [ true ↦ u | false ↦ ulp_from fuel (2 * u) k ]

-- The distance of the doubles around `k` units.
unfoldable pub ulp : ℕ → ℕ
unfolding ulp_from
ulp k = ulp_from k 1 k

-- p / d, to the nearest whole number, to the even one of two.
unfoldable pub nearest : (p d : ℕ) → ℕ
nearest p d =
    if ltb d (2 * (p % d)) || (2 * (p % d) == d && p / d % 2 == 1) then p / d + 1 else p / d

-- p / q, to the nearest double.
unfoldable pub round_quotient : (p q : ℕ) → ℕ
unfolding ulp nearest
round_quotient p q = let u = ulp (p / q) in nearest p (q * u) * u

-- How many units 1.0 has.
unfoldable pub unit : ℕ
unit = 2 ^ 1074

pub record Double : Type 0 where
  pub is_negative : Bool
  pub units : ℕ

unfoldable pub of_int : ℤ → Double
of_int (pos n) = record { is_negative = false; units = n * unit }
of_int (negsuc n) = record { is_negative = true; units = suc n * unit }

abbrev differ : Bool → Bool → Bool
differ true b = not b
differ false b = b

unfoldable pub multiply : Double → Double → Double
unfolding round_quotient
multiply a b = record {
  is_negative = differ a.is_negative b.is_negative;
  units = round_quotient (a.units * b.units) unit;
}

-- The divisor is not zero.
unfoldable pub divide : Double → Double → Double
unfolding round_quotient
divide a b = record {
  is_negative = differ a.is_negative b.is_negative;
  units = round_quotient (a.units * unit) b.units;
}

abbrev pub negate : Double → Double
negate a = record a { is_negative = not a.is_negative }

unfoldable pub subtract : Double → Double → Double
unfolding round_quotient
subtract a b =
    if differ a.is_negative b.is_negative
    then record { is_negative = a.is_negative; units = round_quotient (a.units + b.units) 1 }
    else if ltb a.units b.units
    then record { is_negative = not a.is_negative; units = round_quotient (b.units - a.units) 1 }
    else record {
      is_negative = a.is_negative && ltb b.units a.units;
      units = round_quotient (a.units - b.units) 1;
    }

-- `a < b`: the two zeros are equal.
unfoldable pub less_than : Double → Double → Bool
less_than a b =
    if a.is_negative
    then (if b.is_negative then ltb b.units a.units else ltb 0 (a.units + b.units))
    else not b.is_negative && ltb a.units b.units

-- `(int32_t)a` before it is cut to 32 bits: towards zero.
unfoldable pub truncate : Double → ℤ
truncate a = let n = a.units / unit in if not a.is_negative || n == 0 then pos n else negsuc (n - 1)
