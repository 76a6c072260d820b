-- ===== src/Parse/Agree.antt =====
-- The two parsers of fuzz/parse_shared.h against each other, what they read of the input, and the
-- bounds of what they accept.
use xdp_gradient_aggregation.Common.{
  ℕ, ◌+◌, ◌*◌, ◌^◌, ◌<◌, ◌≤◌, ◌≡◌, arith, ltb, Bool-cases, inl, inr,
}
use xdp_gradient_aggregation.Proto.{Buf, hdr_at, hdr_size, max_chunk_len, load16}
use xdp_gradient_aggregation.Proto.ByteOrder.{bpf_ntohs-eq-ntohs}
use xdp_gradient_aggregation.Proto.Layout.{IsBytes, AgreeBelow, hdr_at-AgreeBelow}
use xdp_gradient_aggregation.Parse.{
  accept, agg_parse_stateless, xdp_parse_stateless, max_tracked_workers,
}

load16-lt : (b : Buf) (o : ℕ) → IsBytes b → load16 b o < 2 ^ 16
unfolding load16
load16-lt b o h = omega (arith, h o, h (o + 1))

-- On every input of bytes, of any length, the two parsers of parse_shared.h give the same verdict
-- and the same three fields.
pub agg-eq-xdp :
    (packet : Buf) (n : ℕ)
    → IsBytes packet
    → agg_parse_stateless packet n ≡ xdp_parse_stateless packet n
unfolding agg_parse_stateless xdp_parse_stateless hdr_at
agg-eq-xdp packet n h = rw (
  bpf_ntohs-eq-ntohs (load16 packet 12) (load16-lt packet 12 h),
  bpf_ntohs-eq-ntohs (load16 packet 14) (load16-lt packet 14 h),
  bpf_ntohs-eq-ntohs (load16 packet 16) (load16-lt packet 16 h),
)

-- The result of agg_parse_stateless is the same for two buffers that agree on the first n bytes:
-- it does not depend on a byte behind them.
pub agg-AgreeBelow :
    (b c : Buf) (n : ℕ) → AgreeBelow n b c → agg_parse_stateless b n ≡ agg_parse_stateless c n
unfolding agg_parse_stateless
agg-AgreeBelow b c n h = elim (Bool-cases (ltb n hdr_size)) [
  | inl short ↦ rw short
  | inr long ↦ rw (hdr_at-AgreeBelow b c (λ i lt. h i (ground arith)))
]

-- What agg_parse_stateless accepts has its header and payload within the input, at most 64 values,
-- a worker below 256 and a fan-in from 1 to 256.
pub agg_accepts :
    (packet : Buf) (n : ℕ)
    → (agg_parse_stateless packet n).verdict ≡ accept
    → let r = agg_parse_stateless packet n in
      (hdr_size + r.chunk_len * 4 ≤ n)
      × (r.chunk_len ≤ max_chunk_len)
      × (r.worker_id < max_tracked_workers)
      × (1 ≤ r.num_workers)
      × (r.num_workers ≤ max_tracked_workers)
unfolding agg_parse_stateless
agg_accepts packet n e = ground arith
