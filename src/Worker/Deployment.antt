-- ===== src/Worker/Deployment.antt =====
-- worker/worker.c and userspace_agg/agg.c together: what netsum_sum_fits_i32 promises for a round.
use xdp_gradient_aggregation.Common.{
  ℕ, suc, ◌*◌, ◌/◌, ◌^◌, ◌<◌, ◌≤◌, ◌≡◌, refl, ap, ap₂, ◌∙◌, true, false, List, [], ◌∷◌, length,
  arith, ℤ, pos, negsuc, ◌+ℤ◌, i32, u32, magnitude,
}
use native.Mathlib.Nat
use xdp_gradient_aggregation.Proto.{Buf}
use xdp_gradient_aggregation.Proto.Fixed.{word, netsum_to_fixed, netsum_sum_fits_i32}
use xdp_gradient_aggregation.Proto.Fixed.Exact.{magnitude-netsum_to_fixed, netsum_sum_fits_i32-fits}
use xdp_gradient_aggregation.Double.{Double, unit}
use xdp_gradient_aggregation.Agg.Packet.{Clock, decode, value_of}
use xdp_gradient_aggregation.Agg.Packet.History.{Contribution, contributed}
use xdp_gradient_aggregation.Agg.Packet.Round.{Message, AreNew, sum_at}
use xdp_gradient_aggregation.Agg.Packet.Signed.{signed_sum, AreWithin, sum_at_exact}
use xdp_gradient_aggregation.Worker.{Options, build}
use xdp_gradient_aggregation.Worker.Packets.{
  IsSound, word_lt, gradient_at, decode-build, value_of-build,
}
use xdp_gradient_aggregation.Worker.Range.{some_units, IsBounded, gradient_at-le}

-- One packet of a worker: its options, the round and the state of the generator that it is built
-- in, the buffer before it, and what agg.c's clock says when it arrives.
pub record Turn : Type 0 where
  pub options : Options
  pub round : ℕ
  pub state : ℕ
  pub buffer : Buf
  pub clock : Clock

abbrev pub packet : Turn → Buf
packet t = (build t.options t.round t.state t.buffer).1

-- What agg.c reads of it.
abbrev pub message : Turn → Message
message t = record { clock = t.clock; packet = decode (packet t); values = value_of (packet t) }

abbrev pub messages : List Turn → List Message
messages [] = []
messages (t ∷ ts) = message t ∷ messages ts

-- The sum of the gradients at the index, each converted to Q16.16.
unfoldable pub exact_sum : ℕ → List Turn → ℤ
exact_sum i [] = pos 0
exact_sum i (t ∷ ts) = netsum_to_fixed (gradient_at t.options t.state i) +ℤ exact_sum i ts

-- Workers that were started for one deployment: with sound options, one length, one fan-in and one
-- bound on the gradients, and none twice nor in `h`.
abbrev pub AreDeployed : (n len : ℕ) (max_abs : Double) → List Contribution → List Turn → Type 0
AreDeployed n len max_abs h [] = Unit {0}
AreDeployed n len max_abs h (t ∷ ts) =
    IsSound t.options
    × IsBounded t.options
    × (t.options.num_workers ≡ n)
    × (t.options.chunk_len ≡ len)
    × (t.options.max_abs_grad ≡ max_abs)
    × (contributed t.options.worker_id h ≡ false)
    × AreDeployed n len max_abs ((t.options.worker_id, value_of (packet t)) ∷ h) ts

i32-word : (x : ℤ) → magnitude x < 2 ^ 31 → i32 (word x) ≡ x
i32-word (pos n) small = ground arith
i32-word (negsuc n) small = ground arith

-- The largest magnitude of a converted gradient.
abbrev bound : Double → ℕ
bound max_abs = max_abs.units * 2 ^ 16 / unit

pub messages-AreNew :
    (n len : ℕ) (max_abs : Double) (h : List Contribution) (ts : List Turn)
    → AreDeployed n len max_abs h ts
    → AreNew len h (messages ts)
messages-AreNew n len max_abs h [] all = tt
messages-AreNew n len max_abs h (t ∷ ts) (sound, bounded, few, same, limit, new, rest) =
    let e = decode-build t.options sound t.round t.state t.buffer in
    rw e (
      same,
      new,
      messages-AreNew n len max_abs ((t.options.worker_id, value_of (packet t)) ∷ h) ts rest,
    )

module _ (n len : ℕ) (max_abs : Double) (i : ℕ) (lt : i < len) (small : n * bound max_abs < 2 ^ 31)
    (some_n : 0 < n) where
  bound-lt : bound max_abs < 2 ^ 31
  bound-lt =
      Nat.lt_of_le_of_lt
        (rw (Nat.one-mul (bound max_abs)) at (Nat.mul-le-mul_right (bound max_abs) some_n)) small

  fixed-le :
      (t : Turn)
      → IsBounded t.options
      → t.options.max_abs_grad ≡ max_abs
      → magnitude (netsum_to_fixed (gradient_at t.options t.state i)) ≤ bound max_abs
  fixed-le t bounded limit =
      let v = gradient_at t.options t.state i in
      let (d, le) = gradient_at-le t.options t.state i bounded in
      let scaled : v.units * 2 ^ 16 ≤ max_abs.units * 2 ^ 16 =
        Nat.mul-le-mul_right (2 ^ 16)
          (Nat.le_trans le (Nat.le_of_eq (ap (λ (w : Double). w.units) limit))) in
      rw (magnitude-netsum_to_fixed v d) (
        (Nat.le-div_iff_mul-le some_units).1
          (Nat.le_trans (Nat.div-mul-le_self (v.units * 2 ^ 16) unit) scaled))

  -- What agg.c reads at the index is the gradient's fixed-point number.
  read :
      (t : Turn)
      → IsSound t.options
      → IsBounded t.options
      → t.options.chunk_len ≡ len
      → t.options.max_abs_grad ≡ max_abs
      → (value_of (packet t) i < 2 ^ 32)
        × (i32 (value_of (packet t) i) ≡ netsum_to_fixed (gradient_at t.options t.state i))
  read t sound bounded same limit =
      let x = netsum_to_fixed (gradient_at t.options t.state i) in
      let e = value_of-build t.options sound t.round t.state t.buffer i (rw same lt) in
      let low = fixed-le t bounded limit in
      (rw e (word_lt x), ap (λ (b : ℕ). i32 b) e ∙ i32-word x (omega (arith, low, bound-lt)))

  messages-AreWithin :
      (h : List Contribution) (ts : List Turn)
      → AreDeployed n len max_abs h ts
      → AreWithin (bound max_abs) i (messages ts) × (signed_sum i (messages ts) ≡ exact_sum i ts)
  unfolding signed_sum exact_sum
  messages-AreWithin h [] all = (tt, refl)
  messages-AreWithin h (t ∷ ts) (sound, bounded, few, same, limit, new, rest) =
      let (fits, e) = read t sound bounded same limit in
      let (within, sums) =
        messages-AreWithin ((t.options.worker_id, value_of (packet t)) ∷ h) ts rest in
      ((fits, rw e (fixed-le t bounded limit), within), ap₂ ◌+ℤ◌ e sums)

pub length-messages : (ts : List Turn) → length (messages ts) ≡ length ts
length-messages [] = refl
length-messages (t ∷ ts) = ap suc (length-messages ts)

-- The sums modulo 2^32 of what agg.c reads, as int32_t.
pub deployed-exact :
    (t : Turn) (ts : List Turn) (i : ℕ)
    → AreDeployed (length (t ∷ ts)) t.options.chunk_len t.options.max_abs_grad [] (t ∷ ts)
    → netsum_sum_fits_i32 (length (t ∷ ts)) t.options.max_abs_grad ≡ true
    → i < t.options.chunk_len
    → i32 (u32 (sum_at i (messages (t ∷ ts)))) ≡ exact_sum i (t ∷ ts)
deployed-exact t ts i all fits lt =
    let n = length (t ∷ ts) in
    let m = t.options.max_abs_grad in
    let (sound, bounded, few, same, limit, new, rest) = all in
    let small : n * bound m < 2 ^ 31 = rw (magnitude-netsum_to_fixed m bounded.max_abs_grad) at (
      netsum_sum_fits_i32-fits n m m bounded.not_negative fits bounded.max_abs_grad
        (Nat.le_refl m.units)) in
    let (within, sums) =
      messages-AreWithin n t.options.chunk_len m i lt small (omega arith) [] (t ∷ ts) all in
    sum_at_exact (bound m) i (messages (t ∷ ts)) within (rw (length-messages (t ∷ ts)) small) ∙ sums
