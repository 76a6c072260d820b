-- ===== src/Worker/Range.antt =====
-- worker/worker.c: the range of the gradients that a worker makes up.
use xdp_gradient_aggregation.Common.{
  ℕ, zero, suc, ◌-◌, ◌*◌, ◌%◌, ◌^◌, ◌<◌, ◌≤◌, ◌≡◌, refl, false, Option-cases, inl, inr, some, pos,
  arith,
}
use mathlib.Core.Path.{subst}
use native.Mathlib.Nat
use xdp_gradient_aggregation.Double.{
  Double, unit, round_quotient, of_int, multiply, divide, subtract,
}
use xdp_gradient_aggregation.Double.Round.{IsDouble, round_quotient-le, round_quotient-IsDouble}
use xdp_gradient_aggregation.Worker.Packets.{gradient_at}
use xdp_gradient_aggregation.Worker.{Options, xorshift, xorshift_double, next_value}

pub some_units : 0 < unit
unfolding unit
some_units = omega arith

units-IsDouble : (n : ℕ) → n < 2 ^ 53 → IsDouble (n * unit)
unfolding unit
units-IsDouble n short = record { mantissa = n; exponent = 1074; short = short; value = refl }

unit-IsDouble : IsDouble unit
unit-IsDouble = subst IsDouble (Nat.one-mul unit) (units-IsDouble 1 (omega arith))

-- The fraction, which lies in [0, 2).
fraction-le : (n : ℕ) → n < 2000000 → round_quotient (n * unit * unit) (1000000 * unit) ≤ 2 * unit
fraction-le n lt =
    let some : 0 < 1000000 * unit = omega (arith, some_units) in
    round_quotient-le (n * unit * unit) (1000000 * unit) some (2 * unit)
      (units-IsDouble 2 (omega arith))
      (omega (
        arith,
        Nat.mul_assoc n unit unit,
        Nat.mul-mul-mul_comm 2 unit 1000000 unit,
        Nat.mul-le-mul_right {m = n} {n = 2000000} (unit * unit) (omega (arith, lt)),
      ))

at_most_one : (x : ℕ) → x ≤ unit → round_quotient x 1 ≤ unit
at_most_one x le = round_quotient-le x 1 (omega arith) unit unit-IsDouble (rw (Nat.mul-one unit) le)

subtract_one-le :
    (a : ℕ)
    → a ≤ 2 * unit
    → (subtract (record { is_negative = false; units = a }) (of_int (pos 1))).units ≤ unit
unfolding subtract of_int
subtract_one-le a le = ground (
  arith,
  le,
  at_most_one (1 * unit - a) (omega (arith, Nat.one-mul unit)),
  at_most_one (a - 1 * unit) (omega (arith, le, Nat.one-mul unit)),
)

xorshift_double-le : (state : ℕ) → (xorshift_double state).units ≤ unit
unfolding xorshift_double divide of_int
xorshift_double-le state =
    subtract_one-le (round_quotient (xorshift state % 2000000 * unit * unit) (1000000 * unit))
      (fraction-le (xorshift state % 2000000) (omega arith))

multiply-le : (a m : Double) → a.units ≤ unit → IsDouble m.units → (multiply a m).units ≤ m.units
unfolding multiply
multiply-le a m le d =
    round_quotient-le (a.units * m.units) unit some_units m.units d
      (rw (Nat.mul_comm m.units unit) (Nat.mul-le-mul_right m.units le))

multiply-IsDouble : (a m : Double) → IsDouble (multiply a m).units
unfolding multiply
multiply-IsDouble a m = round_quotient-IsDouble (a.units * m.units) unit some_units

-- The gradients are doubles, and none exceeds max_abs_grad.
pub record IsBounded (o : Options) : Type 0 where
  pub not_negative : o.max_abs_grad.is_negative ≡ false
  pub max_abs_grad : IsDouble o.max_abs_grad.units
  pub fixed_value :
      (v : Double) → o.fixed_value ≡ some v → IsDouble v.units × (v.units ≤ o.max_abs_grad.units)

next_value-le :
    (o : Options) (state : ℕ)
    → IsBounded o
    → IsDouble (next_value o state).0.units × ((next_value o state).0.units ≤ o.max_abs_grad.units)
unfolding next_value
next_value-le o state bounded = elim (Option-cases o.fixed_value) [
  | inl (v, e) ↦ rw (next_value, e) (bounded.fixed_value v e)
  | inr e ↦
      rw (next_value, e)
        (
          multiply-IsDouble (xorshift_double state) o.max_abs_grad,
          multiply-le (xorshift_double state) o.max_abs_grad (xorshift_double-le state)
              bounded.max_abs_grad,
        )
]

pub gradient_at-le :
    (o : Options) (state j : ℕ)
    → IsBounded o
    → IsDouble (gradient_at o state j).units
      × ((gradient_at o state j).units ≤ o.max_abs_grad.units)
unfolding gradient_at
gradient_at-le o state zero bounded = next_value-le o state bounded
gradient_at-le o state (suc j) bounded = gradient_at-le o (next_value o state).1 j bounded
