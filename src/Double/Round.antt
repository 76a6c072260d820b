-- ===== src/Double/Round.antt =====
-- How near round_quotient comes, and the quotients that it leaves alone.
use xdp_gradient_aggregation.Common.{
  ℕ, zero, suc, ◌+◌, ◌*◌, ◌/◌, ◌^◌, ◌<◌, ◌≤◌, ◌≡◌, ◌⊎◌, inl, inr, refl, sym, ap, ◌∙◌, Bool-cases,
  ltb, arith,
}
use Prim.Native.Nat.{◌∣◌}
use mathlib.Core.Path.{subst}
use native.Mathlib.Nat
use xdp_gradient_aggregation.Double.{ulp_from, ulp, nearest, round_quotient}

-- A number of units that is a double: 53 bits and an exponent.
pub record IsDouble (n : ℕ) : Type 0 where
  pub mantissa : ℕ
  pub exponent : ℕ
  pub short : mantissa < 2 ^ 53
  pub value : n ≡ mantissa * 2 ^ exponent

nearest-near : (p d : ℕ) → 0 < d → 2 * p ≤ 2 * (nearest p d * d) + d
unfolding nearest
nearest-near p d h =
    ground (arith, Nat.div-add-mod' p d, Nat.mod-lt p h, Nat.add-mul (p / d) 1 d, Nat.one-mul d)

div-le-nearest : (p d : ℕ) → p / d ≤ nearest p d
unfolding nearest
div-le-nearest p d = ground arith

nearest-le : (p d c : ℕ) → 0 < d → p ≤ c * d → nearest p d ≤ c
unfolding nearest
nearest-le p d c h le =
    let whole = Nat.div-add-mod' p d in
    let below : p / d ≤ c = Nat.div-le_of_le-mul d (rw (Nat.mul_comm d c) le) in
    elim (Nat.eq-or-lt_of_le below) [
      | inl e ↦ ground (arith, whole, ap (λ (t : ℕ). t * d) e, le, h)
      | inr lt ↦ ground (arith, lt)
    ]

nearest-exact : (c d : ℕ) → 0 < d → nearest (c * d) d ≡ c
unfolding nearest
nearest-exact c d h = ground (arith, Nat.mul-div_cancel c h, Nat.mul-mod_left c d)

ulp_from-above : (fuel u k : ℕ) → 0 < u → k < 2 ^ 53 * (u + fuel) → k < 2 ^ 53 * ulp_from fuel u k
unfolding ulp_from
ulp_from-above zero u k h lt = omega (arith, lt)
ulp_from-above (suc fuel) u k h lt = ground (arith, lt, ulp_from-above fuel (2 * u) k)

ulp_from-below : (fuel u k : ℕ) → (ulp_from fuel u k ≡ u) ⊎ (2 ^ 52 * ulp_from fuel u k ≤ k)
unfolding ulp_from
ulp_from-below zero u k = inl refl
ulp_from-below (suc fuel) u k = elim (Bool-cases (ltb k (2 ^ 53 * u))) [
  | inl small ↦ rw (ulp_from, small) (inl refl)
  | inr large ↦
      rw (ulp_from, large)
        (elim (ulp_from-below fuel (2 * u) k) [
          | inl e ↦ inr (ground (arith, e, large))
          | inr le ↦ inr le
        ])
]

ulp_from-pos : (fuel u k : ℕ) → 0 < u → 0 < ulp_from fuel u k
unfolding ulp_from
ulp_from-pos zero u k h = h
ulp_from-pos (suc fuel) u k h = ground (arith, ulp_from-pos fuel (2 * u) k)

ulp_from-dvd : (fuel u k j : ℕ) → k < 2 ^ 53 * (u * 2 ^ j) → ulp_from fuel u k ∣ u * 2 ^ j
unfolding ulp_from
ulp_from-dvd zero u k j lt = Nat.dvd-mul_right u (2 ^ j)
ulp_from-dvd (suc fuel) u k zero lt = elim (Bool-cases (ltb k (2 ^ 53 * u))) [
  | inl small ↦ rw (ulp_from, small) (Nat.dvd-mul_right u 1)
  | inr large ↦ absurd (ground (arith, lt, large))
]
ulp_from-dvd (suc fuel) u k (suc j) lt = elim (Bool-cases (ltb k (2 ^ 53 * u))) [
  | inl small ↦ rw (ulp_from, small) (Nat.dvd-mul_right u (2 ^ suc j))
  | inr large ↦
      let moved : 2 * u * 2 ^ j ≡ u * 2 ^ suc j =
        rw (Nat.pow-succ' 2 j) (rw (Nat.mul_comm 2 u) (Nat.mul_assoc u 2 (2 ^ j))) in
      rw (ulp_from, large) (rw (← moved) (ulp_from-dvd fuel (2 * u) k j (rw moved lt)))
]

ulp-pos : (k : ℕ) → 0 < ulp k
unfolding ulp
ulp-pos k = ulp_from-pos k 1 k (omega arith)

ulp-dvd : (k n : ℕ) → IsDouble n → k ≤ n → ulp k ∣ n
unfolding ulp
ulp-dvd k n d le =
    let short : d.mantissa * 2 ^ d.exponent < 2 ^ 53 * 2 ^ d.exponent =
      Nat.mul-lt-mul_of_pos_right d.short (Nat.one-le-pow d.exponent 2 (omega arith)) in
    let lt : k < 2 ^ 53 * (1 * 2 ^ d.exponent) =
      rw (Nat.one-mul (2 ^ d.exponent)) (omega (arith, le, d.value, short)) in
    let divides = ulp_from-dvd k 1 k d.exponent lt in
    rw d.value (
      Nat.dvd-mul_left_of_dvd (ulp_from k 1 k) (rw (Nat.one-mul (2 ^ d.exponent)) at divides)
        d.mantissa)

regroup : (n q u : ℕ) → n * (q * u) ≡ n * u * q
regroup n q u = rw (Nat.mul_comm q u) (sym (Nat.mul_assoc n u q))

ulp_from-pow : (fuel i k : ℕ) → (j : ℕ) × (ulp_from fuel (2 ^ i) k ≡ 2 ^ j)
unfolding ulp_from
ulp_from-pow zero i k = (i, refl)
ulp_from-pow (suc fuel) i k = elim (Bool-cases (ltb k (2 ^ 53 * 2 ^ i))) [
  | inl small ↦ rw (ulp_from, small) (i, refl)
  | inr large ↦
      let (j, e) = ulp_from-pow fuel (suc i) k in
      rw (ulp_from, large) (j, rw (← Nat.pow-succ' 2 i) e)
]

pow-add : (i k : ℕ) → 2 ^ (i + k) ≡ 2 ^ i * 2 ^ k
pow-add i zero = ap (λ (t : ℕ). 2 ^ t) (Nat.add-zero i) ∙ sym (Nat.mul-one (2 ^ i))
pow-add i (suc k) =
    ap (λ (t : ℕ). 2 ^ t) (Nat.add-suc i k)
    ∙ Nat.pow-suc 2 (i + k)
    ∙ ap (λ (t : ℕ). t * 2) (pow-add i k)
    ∙ Nat.mul_assoc (2 ^ i) (2 ^ k) 2
    ∙ ap (λ (t : ℕ). 2 ^ i * t) (sym (Nat.pow-suc 2 k))

-- A double that is scaled by a power of two is a double.
pub shifted-IsDouble : (n k : ℕ) → IsDouble n → IsDouble (n * 2 ^ k)
shifted-IsDouble n k d = record {
  mantissa = d.mantissa;
  exponent = d.exponent + k;
  short = d.short;
  value =
      ap (λ (t : ℕ). t * 2 ^ k) d.value
      ∙ Nat.mul_assoc d.mantissa (2 ^ d.exponent) (2 ^ k)
      ∙ ap (λ (t : ℕ). d.mantissa * t) (sym (pow-add d.exponent k));
}

-- A number of units of the last place that takes 53 bits, or one more.
short-IsDouble : (n j : ℕ) → n ≤ 2 ^ 53 → IsDouble (n * 2 ^ j)
short-IsDouble n j le = elim (Nat.eq-or-lt_of_le le) [
  | inr lt ↦ record { mantissa = n; exponent = j; short = lt; value = refl }
  | inl e ↦ record {
    mantissa = 2 ^ 52;
    exponent = suc j;
    short = omega arith;
    value = rw (e, Nat.pow-succ' 2 j) (Nat.mul_assoc (2 ^ 52) 2 (2 ^ j));
  }
]

module _ (p q : ℕ) (some_q : 0 < q) where
  abbrev u : ℕ
  u = ulp (p / q)

  divisor-pos : 0 < q * u
  divisor-pos = Nat.one-le-mul some_q (ulp-pos (p / q))

  -- As many units of the last place as n has.
  module _ (n : ℕ) (d : IsDouble n) where
    abbrev count : ℕ
    count = n / u

    scaled : p ≤ n * q → (count * u ≡ n) × (count * (q * u) ≡ n * q)
    scaled le =
        let below : p / q ≤ n = Nat.div-le_of_le-mul q (rw (Nat.mul_comm q n) le) in
        let whole : count * u ≡ n = Nat.div-mul_cancel u (ulp-dvd (p / q) n d below) in
        (whole, regroup count q u ∙ ap (λ (t : ℕ). t * q) whole)

    -- A quotient that is at most a double is at most that when it is rounded.
    pub round_quotient-le : p ≤ n * q → round_quotient p q ≤ n
    unfolding round_quotient
    round_quotient-le le =
        let (whole, product) = scaled le in
        rw (← whole)
          (Nat.mul-le-mul_right u (nearest-le p (q * u) count divisor-pos (rw product le)))

    -- A quotient that is a double is not rounded.
    pub round_quotient-exact : p ≡ n * q → round_quotient p q ≡ n
    unfolding round_quotient
    round_quotient-exact e =
        let (whole, product) = scaled (Nat.le_of_eq e) in
        ap (λ (t : ℕ). nearest t (q * u) * u) (e ∙ sym product)
        ∙ ap (λ (t : ℕ). t * u) (nearest-exact count (q * u) divisor-pos)
        ∙ whole

  -- A quotient exceeds what it is rounded to by at most half a unit of the last place, which is one
  -- part in 2^52 of that or the smallest double.
  pub round_quotient-near :
      (w : ℕ) × (2 * p ≤ 2 * (round_quotient p q * q) + w * q)
      × (2 ^ 52 * w ≤ 2 ^ 52 + round_quotient p q)
  unfolding round_quotient ulp
  round_quotient-near =
      let n = nearest p (q * u) in
      let near = nearest-near p (q * u) divisor-pos in
      let wide : 2 ^ 52 * u ≤ 2 ^ 52 + n * u = elim (ulp_from-below (p / q) 1 (p / q)) [
        | inl one ↦ omega (arith, one)
        | inr le ↦
            let many : 2 ^ 52 ≤ n =
              Nat.le_trans ((Nat.le-div_iff_mul-le (ulp-pos (p / q))).1 le)
                (rw (Nat.div-div-eq-div-mul p q u) (div-le-nearest p (q * u))) in
            Nat.le_trans (Nat.mul-le-mul_right u many) (Nat.le-add_left (n * u) (2 ^ 52))
      ] in
      (u, omega (arith, near, regroup n q u, Nat.mul_comm q u), wide)

  -- What a quotient is rounded to is a double.
  pub round_quotient-IsDouble : IsDouble (round_quotient p q)
  unfolding round_quotient ulp
  round_quotient-IsDouble =
      let k = p / q in
      let above : k < 2 ^ 53 * u = ulp_from-above k 1 k (omega arith) (omega arith) in
      let within : p ≤ 2 ^ 53 * (q * u) =
        rw (regroup (2 ^ 53) q u) (Nat.le_of_lt ((Nat.div-lt_iff_lt-mul some_q).0 above)) in
      let most : nearest p (q * u) ≤ 2 ^ 53 = nearest-le p (q * u) (2 ^ 53) divisor-pos within in
      let (j, e) = ulp_from-pow k 0 k in
      subst (λ t. IsDouble (nearest p (q * u) * t)) (sym e)
        (short-IsDouble (nearest p (q * u)) j most)
