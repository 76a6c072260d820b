-- ===== src/Common/Bits.antt =====
-- Shifts, masks and `|` of disjoint fields as arithmetic, at every width.
use Prim.Native.Nat.{
  ℕ, zero, suc, ◌+◌, ◌-◌, ◌*◌, ◌/◌, ◌%◌, ◌^◌, ◌<◌, ◌≤◌, min, max, bit_and, bit_or, digits, bitwise,
  bit_and-bitwise, bit_or-bitwise,
}
use mathlib.Core.Path.{◌≡◌, refl, ap, ap₂, ◌∙◌, sym}
use native.Mathlib.Nat.{pow-suc, one-le-pow, div-add-mod', mod-lt, div-div-eq-div-mul}
use native.Mathlib.Omega.{arith}

-- `x << k` before it is cut to a width, and `x >> k`.
infixl 75 ◌<<<◌ ◌>>>◌
abbrev pub ◌<<<◌ : ℕ → ℕ → ℕ
x <<< k = x * 2 ^ k

abbrev pub ◌>>>◌ : ℕ → ℕ → ℕ
x >>> k = x / 2 ^ k

-- The casts to the unsigned types.
abbrev pub u8 : ℕ → ℕ
u8 x = x % 2 ^ 8

abbrev pub u16 : ℕ → ℕ
u16 x = x % 2 ^ 16

abbrev pub u32 : ℕ → ℕ
u32 x = x % 2 ^ 32

abbrev pub u64 : ℕ → ℕ
u64 x = x % 2 ^ 64

module _ (rest : ℕ → ℕ) (op : ℕ → ℕ → ℕ) where
  digits-zero : (n b : ℕ) → digits rest op n 0 b ≡ rest b
  digits-zero zero b = refl
  digits-zero (suc n) b = refl

  -- The fuel of `digits` does not matter once it reaches the number.
  digits_ext : (a b n m : ℕ) → a ≤ n → a ≤ m → digits rest op n a b ≡ digits rest op m a b
  digits_ext zero b n m p q = digits-zero n b ∙ sym (digits-zero m b)
  digits_ext (suc a) b zero m p q = absurd (omega arith)
  digits_ext (suc a) b (suc n) zero p q = absurd (omega arith)
  digits_ext (suc a) b (suc n) (suc m) p q =
      ap (λ (t : ℕ). t * 2 + op (suc a % 2) (b % 2))
        (digits_ext (suc a / 2) (b / 2) n m (omega arith) (omega arith))

  -- The lowest digit, split off.
  bitwise-low :
      (a b : ℕ)
      → 0 < a
      → bitwise rest op a b ≡ bitwise rest op (a / 2) (b / 2) * 2 + op (a % 2) (b % 2)
  bitwise-low zero b pos = absurd (omega arith)
  bitwise-low (suc a) b pos =
      ap (λ (t : ℕ). t * 2 + op (suc a % 2) (b % 2))
        (digits_ext (suc a / 2) (b / 2) a (suc a / 2) (omega arith) (omega arith))

pub or-low : (a b : ℕ) → bit_or a b ≡ bit_or (a / 2) (b / 2) * 2 + max (a % 2) (b % 2)
or-low zero b = omega (arith, bit_or-bitwise 0 b, bit_or-bitwise 0 (b / 2))
or-low (suc a) b = omega (
  arith,
  bitwise-low (λ y. y) max (suc a) b (omega arith),
  bit_or-bitwise (suc a) b,
  bit_or-bitwise (suc a / 2) (b / 2),
)

and-low : (a b : ℕ) → bit_and a b ≡ bit_and (a / 2) (b / 2) * 2 + min (a % 2) (b % 2)
and-low zero b = omega (arith, bit_and-bitwise 0 b, bit_and-bitwise 0 (b / 2))
and-low (suc a) b = omega (
  arith,
  bitwise-low (λ y. 0) min (suc a) b (omega arith),
  bit_and-bitwise (suc a) b,
  bit_and-bitwise (suc a / 2) (b / 2),
)

or_below : (n a : ℕ) → a < n → bit_or a 0 ≡ a
or_below zero a h = absurd (omega arith)
or_below (suc n) zero h = refl
or_below (suc n) (suc a) h = omega (arith, or-low (suc a) 0, or_below n (suc a / 2) (omega arith))

and_below : (n a : ℕ) → a < n → bit_and a 0 ≡ 0
and_below zero a h = absurd (omega arith)
and_below (suc n) zero h = refl
and_below (suc n) (suc a) h =
    omega (arith, and-low (suc a) 0, and_below n (suc a / 2) (omega arith))

shift-suc : (q k : ℕ) → q <<< suc k ≡ (q <<< k) * 2
shift-suc q k = omega (arith, ap (λ (t : ℕ). q * t) (pow-suc 2 k))

-- `(q << k) | r` is a sum where `r` fits `k` bits.
pub or_fields : (k q r : ℕ) → r < 2 ^ k → bit_or (q <<< k) r ≡ (q <<< k) + r
or_fields zero q r h =
    let whole : q <<< 0 ≡ q = omega arith in
    let none_left : r ≡ 0 = omega arith in
    rw (whole, none_left) (omega (arith, or_below (suc q) q (omega arith)))
or_fields (suc k) q r h =
    let half : (q <<< suc k) / 2 ≡ q <<< k = omega (arith, shift-suc q k) in
    let ih = or_fields k q (r / 2) (omega (arith, pow-suc 2 k)) in
    omega (arith, or-low (q <<< suc k) r, ap (λ (t : ℕ). bit_or t (r / 2)) half, ih, shift-suc q k)

and_fields : (k q r : ℕ) → r < 2 ^ k → bit_and ((q <<< k) + r) (2 ^ k - 1) ≡ r
and_fields zero q r h =
    let none_left : r ≡ 0 = omega arith in
    rw none_left (and_below (suc ((q <<< 0) + 0)) ((q <<< 0) + 0) (omega arith))
and_fields (suc k) q r h =
    let half : ((q <<< suc k) + r) / 2 ≡ (q <<< k) + r / 2 = omega (arith, shift-suc q k) in
    let mask : (2 ^ suc k - 1) / 2 ≡ 2 ^ k - 1 = omega (arith, pow-suc 2 k) in
    let odd : (2 ^ suc k - 1) % 2 ≡ 1 = omega (arith, pow-suc 2 k, one-le-pow k 2) in
    let ih = and_fields k q (r / 2) (omega (arith, pow-suc 2 k)) in
    omega (
      arith,
      and-low ((q <<< suc k) + r) (2 ^ suc k - 1),
      ap₂ bit_and half mask,
      odd,
      ih,
      shift-suc q k,
    )

-- `x & (2^k - 1)` is the remainder by `2^k`.
pub and_mask : (k x : ℕ) → bit_and x (2 ^ k - 1) ≡ x % 2 ^ k
and_mask k x =
    let split : (x / 2 ^ k) * 2 ^ k + x % 2 ^ k ≡ x = div-add-mod' x (2 ^ k) in
    ap (λ t. bit_and t (2 ^ k - 1)) (sym split)
    ∙ and_fields k (x / 2 ^ k) (x % 2 ^ k) (mod-lt x (one-le-pow k 2 (omega arith)))

-- A mask that starts at bit `k` works on `x >> k`.
pub and_shift : (k x m : ℕ) → bit_and x (m <<< k) ≡ bit_and (x / 2 ^ k) m <<< k
and_shift zero x m =
    let whole : m <<< 0 ≡ m = omega arith in
    let same : x / 2 ^ 0 ≡ x = omega arith in rw (whole, same) (omega arith)
and_shift (suc k) x m =
    let half : (m <<< suc k) / 2 ≡ m <<< k = omega (arith, shift-suc m k) in
    let down : x / 2 / 2 ^ k ≡ x / 2 ^ suc k =
      div-div-eq-div-mul x 2 (2 ^ k) ∙ ap (λ (t : ℕ). x / t) (omega (arith, pow-suc 2 k)) in
    omega (
      arith,
      and-low x (m <<< suc k),
      ap (λ (t : ℕ). bit_and (x / 2) t) half,
      and_shift k (x / 2) m,
      ap (λ (t : ℕ). bit_and t m <<< k) down,
      shift-suc (bit_and (x / 2 ^ suc k) m) k,
      shift-suc m k,
    )
