-- ===== src/Proto/Fixed/Exact.antt =====
-- protocol/grad_proto.h: what the conversions keep, and what netsum_sum_fits_i32 is enough for.
use xdp_gradient_aggregation.Common.{
  ℕ, suc, ◌+◌, ◌*◌, ◌/◌, ◌^◌, ◌<◌, ◌≤◌, ◌≡◌, refl, sym, ap, ◌∙◌, true, false, ℤ, pos, negsuc,
  magnitude, arith,
}
use mathlib.Core.Path.{subst}
use native.Mathlib.Nat
use xdp_gradient_aggregation.Double.{
  Double, unit, round_quotient, of_int, multiply, divide, less_than, truncate,
}
use xdp_gradient_aggregation.Double.Round.{
  IsDouble, round_quotient-near, round_quotient-exact, shifted-IsDouble,
}
use xdp_gradient_aggregation.Proto.Fixed.{
  scale, netsum_to_fixed, netsum_to_double, netsum_sum_fits_i32,
}

-- How many units 2^-16 has.
unfoldable pub step : ℕ
step = 2 ^ 1058

unit-split : unit ≡ step * 2 ^ 16
unfolding unit step
unit-split = refl

some_steps : 2 ^ 60 ≤ step
unfolding step
some_steps = omega arith

some_units : 0 < unit
some_units = omega (arith, unit-split, some_steps)

scale-units : scale.units ≡ 2 ^ 16 * unit
unfolding of_int
scale-units = refl

some_scale : 0 < scale.units
some_scale = omega (arith, scale-units, some_units)

magnitude-truncate : (a : Double) → magnitude (truncate a) ≡ a.units / unit
unfolding truncate
magnitude-truncate a = ground arith

-- Scaling a double by a power of two is exact.
scaled : (v : Double) → IsDouble v.units → (multiply v scale).units ≡ v.units * 2 ^ 16
unfolding multiply
scaled v d =
    round_quotient-exact (v.units * scale.units) unit some_units (v.units * 2 ^ 16)
      (shifted-IsDouble v.units 16 d) (rw scale-units (sym (Nat.mul_assoc v.units (2 ^ 16) unit)))

of_int-units : (x : ℤ) → (of_int x).units ≡ magnitude x * unit
unfolding of_int
of_int-units (pos n) = ground arith
of_int-units (negsuc n) = ground arith

pub magnitude-netsum_to_fixed :
    (v : Double) → IsDouble v.units → magnitude (netsum_to_fixed v) ≡ v.units * 2 ^ 16 / unit
unfolding netsum_to_fixed
magnitude-netsum_to_fixed v d =
    magnitude-truncate (multiply v scale) ∙ ap (λ (t : ℕ). t / unit) (scaled v d)

step-IsDouble : (m : ℕ) → m ≤ 2 ^ 31 → IsDouble (m * step)
unfolding step
step-IsDouble m le = record {
  mantissa = m;
  exponent = 1058;
  short = omega (arith, le);
  value = refl;
}

netsum_to_double-units :
    (x : ℤ) → magnitude x ≤ 2 ^ 31 → (netsum_to_double x).units ≡ magnitude x * step
unfolding netsum_to_double divide
netsum_to_double-units x le =
    round_quotient-exact ((of_int x).units * unit) scale.units some_scale (magnitude x * step)
      (step-IsDouble (magnitude x) le)
      (ap (λ (t : ℕ). t * unit)
          (of_int-units x
            ∙ ap (λ (t : ℕ). magnitude x * t) unit-split
            ∙ sym (Nat.mul_assoc (magnitude x) step (2 ^ 16)))
        ∙ Nat.mul_assoc (magnitude x * step) (2 ^ 16) unit
        ∙ ap (λ (t : ℕ). magnitude x * step * t) (sym scale-units))

-- A whole number of units of 1.0 stands for that number.
truncate-exact :
    (x : ℤ) (a : Double)
    → a.is_negative ≡ (of_int x).is_negative
    → a.units ≡ magnitude x * unit
    → truncate a ≡ x
unfolding truncate of_int
truncate-exact (pos n) a sign e =
    let whole : a.units / unit ≡ n =
      Nat.div-eq_of_eq-mul_left some_units (e ∙ ap (λ (t : ℕ). t * unit) (omega arith)) in
    ground (arith, sign, whole)
truncate-exact (negsuc n) a sign e =
    let whole : a.units / unit ≡ suc n =
      Nat.div-eq_of_eq-mul_left some_units (e ∙ ap (λ (t : ℕ). t * unit) (omega arith)) in
    ground (arith, sign, whole)

sign-kept : (x : ℤ) → (multiply (netsum_to_double x) scale).is_negative ≡ (of_int x).is_negative
unfolding multiply netsum_to_double divide of_int
sign-kept (pos n) = refl
sign-kept (negsuc n) = refl

-- An integer of magnitude at most 2^31, so every int32_t, is the same after netsum_to_double and
-- netsum_to_fixed.
pub netsum_to_fixed-netsum_to_double :
    (x : ℤ) → magnitude x ≤ 2 ^ 31 → netsum_to_fixed (netsum_to_double x) ≡ x
unfolding netsum_to_fixed
netsum_to_fixed-netsum_to_double x le =
    let v = netsum_to_double x in
    let units = netsum_to_double-units x le in
    let d : IsDouble v.units = subst IsDouble (sym units) (step-IsDouble (magnitude x) le) in
    truncate-exact x (multiply v scale) (sign-kept x) (
      scaled v d
      ∙ ap (λ (t : ℕ). t * 2 ^ 16) units
      ∙ Nat.mul_assoc (magnitude x) step (2 ^ 16)
      ∙ ap (λ (t : ℕ). magnitude x * t) (sym unit-split))

-- A double that netsum_to_fixed converts to a number of magnitude at most 2^31 has a magnitude
-- that is at least that of the number read back by netsum_to_double, and exceeds it by less than
-- 2^-16.
pub netsum_to_double-netsum_to_fixed :
    (v : Double)
    → IsDouble v.units
    → magnitude (netsum_to_fixed v) ≤ 2 ^ 31
    → ((netsum_to_double (netsum_to_fixed v)).units ≤ v.units)
      × (v.units < (netsum_to_double (netsum_to_fixed v)).units + step)
netsum_to_double-netsum_to_fixed v d le =
    let q = magnitude (netsum_to_fixed v) in
    let e = magnitude-netsum_to_fixed v d in
    let low : q * unit ≤ v.units * 2 ^ 16 = rw e (Nat.div-mul-le_self (v.units * 2 ^ 16) unit) in
    let high : v.units * 2 ^ 16 < q * unit + unit = rw e (Nat.lt-div-mul-add some_units) in
    let split : q * unit ≡ q * step * 2 ^ 16 =
      ap (λ (t : ℕ). q * t) unit-split ∙ sym (Nat.mul_assoc q step (2 ^ 16)) in
    let units = netsum_to_double-units (netsum_to_fixed v) le in
    (omega (arith, low, split, units), omega (arith, high, split, units, unit-split))

-- The rounded sum is below 2^31 where the check passes.
fits-below :
    (n : ℕ) (m : Double)
    → m.is_negative ≡ false
    → netsum_sum_fits_i32 n m ≡ true
    → (multiply (multiply (of_int (pos n)) m) scale).units < 2147483647 * unit
unfolding netsum_sum_fits_i32 less_than of_int multiply
fits-below n m sign fits = ground (arith, sign, fits)

-- A whole number of units exceeds what it is rounded to by little.
whole-near :
    (x p : ℕ)
    → p ≡ x * unit
    → (w : ℕ) × (2 * x ≤ 2 * round_quotient p unit + w)
      × (2 ^ 52 * w ≤ 2 ^ 52 + round_quotient p unit)
whole-near x p e =
    let r = round_quotient p unit in
    let (w, near, wide) = round_quotient-near p unit some_units in
    let both : 2 * x * unit ≤ (2 * r + w) * unit = omega (
      arith,
      near,
      e,
      Nat.mul_assoc 2 x unit,
      Nat.add-mul (2 * r) w unit,
      Nat.mul_assoc 2 r unit,
    ) in
    (w, Nat.le_of_mul-le-mul_right both some_units, wide)

fits-exact :
    (n : ℕ) (m : Double)
    → m.is_negative ≡ false
    → netsum_sum_fits_i32 n m ≡ true
    → n * m.units * 2 ^ 16 < 2 ^ 31 * unit
unfolding multiply of_int
fits-exact n m sign fits =
    let below = fits-below n m sign fits in
    let a = multiply (of_int (pos n)) m in
    let (w, near, wide) =
      whole-near (n * m.units) (n * unit * m.units) (Nat.mul_right_comm n unit m.units) in
    let (w', near', wide') =
      whole-near (a.units * 2 ^ 16) (a.units * scale.units)
        (ap (λ (t : ℕ). a.units * t) scale-units ∙ sym (Nat.mul_assoc a.units (2 ^ 16) unit)) in
    omega (arith, below, near, wide, near', wide', unit-split, some_steps)

-- bound
pub netsum_sum_fits_i32-fits :
    (n : ℕ) (m v : Double)
    → m.is_negative ≡ false
    → netsum_sum_fits_i32 n m ≡ true
    → IsDouble v.units
    → v.units ≤ m.units
    → n * magnitude (netsum_to_fixed v) < 2 ^ 31
netsum_sum_fits_i32-fits n m v sign fits d le =
    let q = magnitude (netsum_to_fixed v) in
    let low : q * unit ≤ v.units * 2 ^ 16 =
      rw (magnitude-netsum_to_fixed v d) (Nat.div-mul-le_self (v.units * 2 ^ 16) unit) in
    let scaled_le : n * (q * unit) ≤ n * (m.units * 2 ^ 16) =
      Nat.mul-le-mul_left n (Nat.le_trans low (Nat.mul-le-mul_right (2 ^ 16) le)) in
    Nat.lt_of_mul-lt-mul_right unit (
      omega (
        arith,
        scaled_le,
        fits-exact n m sign fits,
        Nat.mul_assoc n q unit,
        Nat.mul_assoc n m.units (2 ^ 16),
      ))

-- netsum_sum_fits_i32 holds of every number of workers and every negative max_abs, however large.
pub netsum_sum_fits_i32-negative :
    (n : ℕ) (m : Double) → m.is_negative ≡ true → netsum_sum_fits_i32 n m ≡ true
unfolding netsum_sum_fits_i32 less_than of_int multiply
netsum_sum_fits_i32-negative n m sign = ground (arith, sign, some_units)
