-- ===== src/Proto/ByteOrder.antt =====
-- The byte swaps that xdp_agg/bpf_compat.h writes out, against those of <arpa/inet.h>.
use xdp_gradient_aggregation.Common.{
  ℕ, ◌+◌, ◌*◌, ◌/◌, ◌%◌, ◌^◌, ◌<◌, ◌≡◌, arith, bit_and, bit_or, ◌<<<◌, u32, or_fields, and_mask,
  and_shift,
}
use xdp_gradient_aggregation.Proto.{ntohs, ntohl, bpf_ntohs, bpf_ntohl}

-- The two 16-bit swaps agree on every uint16_t.
pub bpf_ntohs-eq-ntohs : (v : ℕ) → v < 2 ^ 16 → bpf_ntohs v ≡ ntohs v
unfolding bpf_ntohs ntohs
bpf_ntohs-eq-ntohs v h = rw (or_fields 8 v (v / 2 ^ 8) (omega arith)) (omega arith)

byte_mask : (k v : ℕ) → bit_and v (255 <<< k) ≡ (v / 2 ^ k % 2 ^ 8) <<< k
byte_mask k v = rw (and_shift k v 255, and_mask 8 (v / 2 ^ k))

or_bytes :
    (a b c d : ℕ)
    → a < 2 ^ 8
    → b < 2 ^ 8
    → c < 2 ^ 8
    → d < 2 ^ 8
    → bit_or (bit_or (bit_or (a <<< 24) (b <<< 16)) (c <<< 8)) d
      ≡ a * 2 ^ 24 + b * 2 ^ 16 + c * 2 ^ 8 + d
or_bytes a b c d ha hb hc hd =
    let first = or_fields 24 a (b <<< 16) (omega arith) in
    let second = or_fields 16 (a * 2 ^ 8 + b) (c <<< 8) (omega arith) in
    let third = or_fields 8 (a * 2 ^ 16 + b * 2 ^ 8 + c) d (omega arith) in
    let two : (a <<< 24) + (b <<< 16) ≡ (a * 2 ^ 8 + b) <<< 16 = omega arith in
    let three : ((a * 2 ^ 8 + b) <<< 16) + (c <<< 8) ≡ (a * 2 ^ 16 + b * 2 ^ 8 + c) <<< 8 =
      omega arith in
    rw (first, two, second, three, third) (omega arith)

-- On 32-bit values the shifts and masks of netsum_bpf_ntohl reverse the bytes as ntohl does on a
-- little-endian host.
pub bpf_ntohl-eq-ntohl : (v : ℕ) → v < 2 ^ 32 → bpf_ntohl v ≡ ntohl v
unfolding bpf_ntohl ntohl
bpf_ntohl-eq-ntohl v h =
    let lowest : bit_and v 0xff <<< 24 ≡ (v % 2 ^ 8) <<< 24 = omega (arith, byte_mask 0 v) in
    let first : u32 (bit_and v 0xff <<< 24) ≡ (v % 2 ^ 8) <<< 24 = omega (arith, lowest) in
    let second : u32 (bit_and v 0xff00 <<< 8) ≡ (v / 2 ^ 8 % 2 ^ 8) <<< 16 =
      omega (arith, byte_mask 8 v) in
    let third : bit_and v 0xff0000 / 2 ^ 8 ≡ (v / 2 ^ 16 % 2 ^ 8) <<< 8 =
      omega (arith, byte_mask 16 v) in
    let fourth : bit_and v 0xff000000 / 2 ^ 24 ≡ v / 2 ^ 24 % 2 ^ 8 =
      omega (arith, byte_mask 24 v) in
    rw (first, second, third, fourth)
      (or_bytes (v % 2 ^ 8) (v / 2 ^ 8 % 2 ^ 8) (v / 2 ^ 16 % 2 ^ 8) (v / 2 ^ 24 % 2 ^ 8)
        (omega arith) (omega arith) (omega arith) (omega arith))

-- A swap undoes a swap.
pub ntohs-ntohs : (v : ℕ) → v < 2 ^ 16 → ntohs (ntohs v) ≡ v
unfolding ntohs
ntohs-ntohs v h = omega arith

pub ntohl-ntohl : (v : ℕ) → v < 2 ^ 32 → ntohl (ntohl v) ≡ v
unfolding ntohl
ntohl-ntohl v h = omega arith

pub ntohs-lt : (v : ℕ) → ntohs v < 2 ^ 16
unfolding ntohs
ntohs-lt v = omega arith

pub ntohl-lt : (v : ℕ) → ntohl v < 2 ^ 32
unfolding ntohl
ntohl-lt v = omega arith
