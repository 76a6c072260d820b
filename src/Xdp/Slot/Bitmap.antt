-- ===== src/Xdp/Slot/Bitmap.antt =====
-- xdp_agg/xdp_agg.c: `seen_worker` as a set of workers.
use Prim.Native.Nat.{max}
use native.Mathlib.Nat.{pow-suc, one-le-pow, pow-le-pow_right, zero-div, div-div-eq-div-mul}
use native.Mathlib.Decide.{ℕ_discrete}
use xdp_gradient_aggregation.Common.{
  ℕ, zero, suc, ◌/◌, ◌%◌, ◌^◌, ◌<◌, ◌≤◌, ◌≡◌, refl, sym, ap, ◌∙◌, false, not, ◌||◌, ◌==◌, to_nat,
  Array, bit_and, bit_or, u8, ◌<<<◌, arith, or-low, and_mask, and_shift,
}
use xdp_gradient_aggregation.Xdp.Slot.{worker_bit, has_seen, mark_seen}

abbrev bit : ℕ → ℕ → ℕ
bit x k = x / 2 ^ k % 2

half-div : (x k : ℕ) → x / 2 ^ suc k ≡ x / 2 / 2 ^ k
half-div x k =
    ap (λ (d : ℕ). x / d) (omega (arith, pow-suc 2 k)) ∙ sym (div-div-eq-div-mul x 2 (2 ^ k))

bit-or : (k x y : ℕ) → bit (bit_or x y) k ≡ max (bit x k) (bit y k)
bit-or zero x y = omega (arith, or-low x y)
bit-or (suc k) x y =
    let half : bit_or x y / 2 ≡ bit_or (x / 2) (y / 2) = omega (arith, or-low x y) in
    let whole = half-div (bit_or x y) k ∙ ap (λ (t : ℕ). t / 2 ^ k) half in
    omega (arith, whole, half-div x k, half-div y k, bit-or k (x / 2) (y / 2))

bit-pow : (a b : ℕ) → bit (2 ^ a) b ≡ to_nat (a == b)
bit-pow zero zero = refl
bit-pow zero (suc b) = ground (arith, half-div 1 b, zero-div (2 ^ b))
bit-pow (suc a) zero = ground (arith, pow-suc 2 a)
bit-pow (suc a) (suc b) =
    let half : 2 ^ suc a / 2 ≡ 2 ^ a = omega (arith, pow-suc 2 a) in
    let down = half-div (2 ^ suc a) b ∙ ap (λ (t : ℕ). t / 2 ^ b) half in
    ground (arith, down, bit-pow a b)

test-bit : (x k : ℕ) → not (bit_and x (1 <<< k) == 0) ≡ (bit x k == 1)
test-bit x k =
    let shifted = and_shift k x 1 ∙ ap (λ (t : ℕ). t <<< k) (and_mask 1 (x / 2 ^ k)) in
    elim (ℕ_discrete (bit x k) 1) [
      | yes on ↦
          let set : bit_and x (1 <<< k) ≡ 2 ^ k =
            shifted ∙ ap (λ (t : ℕ). t <<< k) on ∙ omega arith in
          ground (arith, set, on, one-le-pow k 2 (omega arith))
      | no off ↦
          let none_set : bit x k ≡ 0 = omega arith in
          let clear : bit_and x (1 <<< k) ≡ 0 =
            shifted ∙ ap (λ (t : ℕ). t <<< k) none_set ∙ omega arith in
          ground (arith, clear, none_set)
    ]

pow-lt : (k : ℕ) → k < 8 → 2 ^ k ≤ 128
pow-lt k h =
    let le : k ≤ 7 = omega arith in let pos : 0 < 2 = omega arith in pow-le-pow_right pos le

worker_bit_pow : (w : ℕ) → worker_bit w ≡ 2 ^ (w % 8)
worker_bit_pow w = omega (arith, pow-lt (w % 8) (omega arith))

has_seen-bit : (seen : Array ℕ) (w : ℕ) → has_seen seen w ≡ (bit (seen (w / 8)) (w % 8) == 1)
unfolding has_seen
has_seen-bit seen w =
    ap (λ (m : ℕ). not (bit_and (seen (w / 8)) m == 0)) (worker_bit_pow w ∙ omega arith)
    ∙ test-bit (seen (w / 8)) (w % 8)

-- A byte keeps its eight bits.
bit-u8 : (x k : ℕ) → k < 8 → bit (u8 x) k ≡ bit x k
bit-u8 x zero h = omega arith
bit-u8 x (suc zero) h = omega arith
bit-u8 x (suc (suc zero)) h = omega arith
bit-u8 x (suc (suc (suc zero))) h = omega arith
bit-u8 x (suc (suc (suc (suc zero)))) h = omega arith
bit-u8 x (suc (suc (suc (suc (suc zero))))) h = omega arith
bit-u8 x (suc (suc (suc (suc (suc (suc zero)))))) h = omega arith
bit-u8 x (suc (suc (suc (suc (suc (suc (suc zero))))))) h = omega arith
bit-u8 x (suc (suc (suc (suc (suc (suc (suc (suc k)))))))) h = absurd (omega arith)

-- The bit of `v` in the byte that marking `w` writes.
bit-marked :
    (byte w v : ℕ)
    → bit (u8 (bit_or byte (worker_bit w))) (v % 8)
      ≡ max (bit byte (v % 8)) (to_nat (w % 8 == v % 8))
bit-marked byte w v =
    bit-u8 (bit_or byte (worker_bit w)) (v % 8) (omega arith)
    ∙ ap (λ (m : ℕ). bit (bit_or byte m) (v % 8)) (worker_bit_pow w)
    ∙ bit-or (v % 8) byte (2 ^ (w % 8))
    ∙ ap (λ (t : ℕ). max (bit byte (v % 8)) t) (bit-pow (w % 8) (v % 8))

-- After mark_seen of worker w in the bitmap, has_seen holds of w and of the workers that it held
-- of before, and of no other.
pub has_seen-mark_seen :
    (seen : Array ℕ) (w v : ℕ) → has_seen (mark_seen seen w) v ≡ (v == w || has_seen seen v)
unfolding mark_seen
has_seen-mark_seen seen w v =
    let after = has_seen-bit (mark_seen seen w) v in
    let before = has_seen-bit seen v in
    let marked = bit-marked (seen (w / 8)) w v in
    elim (ℕ_discrete (v / 8) (w / 8)) [
      | yes same ↦
          let byte : mark_seen seen w (v / 8) ≡ u8 (bit_or (seen (w / 8)) (worker_bit w)) =
            ground arith in
          let old : seen (v / 8) ≡ seen (w / 8) = ap seen same in
          ground (
            arith,
            after,
            before,
            marked,
            byte,
            ap (λ (b : ℕ). bit b (v % 8)) old,
            ap (λ (b : ℕ). bit b (v % 8)) byte,
          )
      | no ne ↦
          let byte : mark_seen seen w (v / 8) ≡ seen (v / 8) = ground arith in
          ground (arith, after, before, ap (λ (b : ℕ). bit b (v % 8)) byte)
    ]

pub has_seen_empty : (w : ℕ) → has_seen (λ b. 0) w ≡ false
has_seen_empty w = ground (arith, has_seen-bit (λ b. 0) w, zero-div (2 ^ (w % 8)))
