-- ===== src/Agg/Packet/Signed.antt =====
-- A round of userspace_agg/agg.c in signed numbers: when the 32 bits hold the sum itself.
use xdp_gradient_aggregation.Common.{
  ℕ, suc, ◌+◌, ◌*◌, ◌^◌, ◌<◌, ◌≤◌, ◌≡◌, refl, ap, ◌∙◌, arith, List, [], ◌∷◌, length, ltb, u32,
  if◌then◌else◌, ℤ, pos, pos_part, neg_part, ◌+ℤ◌, +ℤ_parts, i32, i32_unique, magnitude,
  magnitude_add, i32_parts,
}
use native.Mathlib.Nat.{mul-suc, mul_comm}
use xdp_gradient_aggregation.Proto.{max_chunk_len}
use xdp_gradient_aggregation.Agg.{Slot}
use xdp_gradient_aggregation.Agg.Packet.History.{Represents}
use xdp_gradient_aggregation.Agg.Packet.Round.{Message, feed, AreNew, sum_at, feed-IsRound}

-- The sum of the values at the index, as the int32_t that they are.
unfoldable pub signed_sum : ℕ → List Message → ℤ
signed_sum i [] = pos 0
signed_sum i (m ∷ ms) = i32 (m.values i) +ℤ signed_sum i ms

-- The values at the index are words, of magnitude at most `b`.
abbrev pub AreWithin : (b i : ℕ) → List Message → Type 0
AreWithin b i [] = Unit {0}
AreWithin b i (m ∷ ms) =
    (m.values i < 2 ^ 32) × (magnitude (i32 (m.values i)) ≤ b) × AreWithin b i ms

abbrev negatives : ℕ → List Message → ℕ
negatives i [] = 0
negatives i (m ∷ ms) = (if ltb (m.values i) (2 ^ 31) then 0 else 1) + negatives i ms

-- Each negative value stands 2^32 above itself.
sum_at-signed :
    (b i : ℕ) (ms : List Message)
    → AreWithin b i ms
    → sum_at i ms + neg_part (signed_sum i ms)
      ≡ pos_part (signed_sum i ms) + 2 ^ 32 * negatives i ms
unfolding signed_sum
sum_at-signed b i [] within = refl
sum_at-signed b i (m ∷ ms) (word, small, rest) =
    let tail = sum_at-signed b i ms rest in
    let parts = +ℤ_parts (i32 (m.values i)) (signed_sum i ms) in
    omega (arith, tail, parts, i32_parts (m.values i) word)

signed_sum-magnitude :
    (b i : ℕ) (ms : List Message) → AreWithin b i ms → magnitude (signed_sum i ms) ≤ length ms * b
unfolding signed_sum
signed_sum-magnitude b i [] within = omega arith
signed_sum-magnitude b i (m ∷ ms) (word, small, rest) =
    let tail = signed_sum-magnitude b i ms rest in
    omega (
      arith,
      tail,
      small,
      magnitude_add (i32 (m.values i)) (signed_sum i ms),
      mul-suc b (length ms),
      mul_comm b (suc (length ms)),
      mul_comm b (length ms),
    )

-- The sum modulo 2^32, read as int32_t.
pub sum_at_exact :
    (b i : ℕ) (ms : List Message)
    → AreWithin b i ms
    → length ms * b < 2 ^ 31
    → i32 (u32 (sum_at i ms)) ≡ signed_sum i ms
sum_at_exact b i ms within fits =
    i32_unique (sum_at i ms) (negatives i ms) (signed_sum i ms) (sum_at-signed b i ms within)
      (omega (arith, signed_sum-magnitude b i ms within, fits))

-- The sums are exact as signed numbers when they fit: to a slot of agg.c with nothing accepted, n
-- workers (n below 2^16, the fan-in of the first packet) contribute once each with one length; if
-- the values at an index below the length and below 64 are words that read as int32_t have a
-- magnitude of at most b, and n times b is below 2^31, the slot's sum there, read as int32_t, is
-- the sum of the values.
pub feed-signed :
    (m : Message) (ms : List Message) (s : Slot) (b i : ℕ)
    → Represents [] s
    → m.packet.num_workers ≡ length (m ∷ ms)
    → length (m ∷ ms) < 2 ^ 16
    → AreNew m.packet.chunk_len [] (m ∷ ms)
    → AreWithin b i (m ∷ ms)
    → length (m ∷ ms) * b < 2 ^ 31
    → i < m.packet.chunk_len
    → i < max_chunk_len
    → i32 ((feed s (m ∷ ms)).1.sum i) ≡ signed_sum i (m ∷ ms)
feed-signed m ms s b i r e few new within fits lt most =
    let round = feed-IsRound m ms s r e few new in
    ap i32 (round.sum i lt most) ∙ sum_at_exact b i (m ∷ ms) within fits
