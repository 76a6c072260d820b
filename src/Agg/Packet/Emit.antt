-- ===== src/Agg/Packet/Emit.antt =====
-- The aggregated packet of userspace_agg/agg.c, as a receiver of the same protocol reads it.
use xdp_gradient_aggregation.Common.{ℕ, ◌^◌, ◌<◌, ◌≤◌, ◌≡◌, true, arith, ap, ◌∙◌}
use xdp_gradient_aggregation.Proto.{
  Buf, GradHdr, hdr_at, put_hdr, ntohs, ntohl, hdr_size, max_chunk_len,
}
use xdp_gradient_aggregation.Proto.ByteOrder.{ntohs-ntohs, ntohl-ntohl, ntohs-lt, ntohl-lt}
use xdp_gradient_aggregation.Proto.Layout.{hdr_at-put_hdr, hdr_at-put_values, value_at-put_values}
use xdp_gradient_aggregation.Agg.{Slot}
use xdp_gradient_aggregation.Agg.Packet.{Packet, decode, value_of, is_well_formed, emit, out_len}

-- The key fits its three fields.
pub record KeyFits (p : Packet) : Type 0 where
  pub job_id : p.job_id < 2 ^ 32
  pub round : p.round < 2 ^ 32
  pub chunk_id : p.chunk_id < 2 ^ 32

pub decode-KeyFits : (b : Buf) → KeyFits (decode b)
unfolding decode
decode-KeyFits b = record { job_id = ntohl-lt _; round = ntohl-lt _; chunk_id = ntohl-lt _ }

-- The header that the receiver of a slot's sum reads.
abbrev pub summary : Packet → Slot → Packet
summary p s = record {
  job_id = p.job_id;
  round = p.round;
  chunk_id = p.chunk_id;
  worker_id = 0;
  num_workers = 1;
  chunk_len = s.chunk_len;
}

module _ (p : Packet) (s : Slot) (out : Buf) where
  abbrev wire : GradHdr
  wire = record {
    job_id = ntohl p.job_id;
    round = ntohl p.round;
    chunk_id = ntohl p.chunk_id;
    worker_id = ntohs 0;
    num_workers = ntohs 1;
    chunk_len = ntohs s.chunk_len;
    flags = ntohs 0;
  }

  hdr_at-emit : hdr_at (emit p s out) 0 ≡ wire
  unfolding emit
  hdr_at-emit =
      hdr_at-put_values ntohl s.sum s.chunk_len 0 hdr_size (put_hdr out 0 wire) (omega arith)
      ∙ hdr_at-put_hdr out 0 wire (record {
        job_id = ntohl-lt _;
        round = ntohl-lt _;
        chunk_id = ntohl-lt _;
        worker_id = ntohs-lt _;
        num_workers = ntohs-lt _;
        chunk_len = ntohs-lt _;
        flags = ntohs-lt _;
      })

  -- For a key that fits its fields and a length below 2^16, the header of the emitted packet
  -- decodes to the key, worker 0 of 1 and the slot's length.
  pub decode-emit : KeyFits p → s.chunk_len < 2 ^ 16 → decode (emit p s out) ≡ summary p s
  unfolding decode
  decode-emit k l = rw hdr_at-emit (
      ground (
        arith,
        ntohl-ntohl p.job_id,
        ntohl-ntohl p.round,
        ntohl-ntohl p.chunk_id,
        ntohs-ntohs 0,
        ntohs-ntohs 1,
        ntohs-ntohs s.chunk_len,
        k.job_id,
        k.round,
        k.chunk_id,
      ))

  -- A receiver that decodes the packet that agg.c emits reads back each sum of the slot that fits
  -- 32 bits, at each index below the slot's length.
  pub value_of-emit :
      (i : ℕ) → i < s.chunk_len → s.sum i < 2 ^ 32 → value_of (emit p s out) i ≡ s.sum i
  unfolding value_of emit
  value_of-emit i lt fits =
      ap ntohl (
        value_at-put_values ntohl hdr_size s.sum s.chunk_len 0 i (put_hdr out 0 wire) (omega arith)
          (omega arith) (ntohl-lt (s.sum i)))
      ∙ ntohl-ntohl (s.sum i) fits

  -- For a key that fits its fields and a length of at most 64, the emitted packet of out_len bytes
  -- passes the checks that agg.c makes of its own input.
  pub emit-is_well_formed :
      KeyFits p
      → s.chunk_len ≤ max_chunk_len
      → is_well_formed (decode (emit p s out)) (out_len s) ≡ true
  unfolding is_well_formed
  emit-is_well_formed k l = rw (decode-emit k (omega arith)) (ground arith)
