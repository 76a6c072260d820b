-- ===== src/Parse.antt =====
-- fuzz/parse_shared.h: the stateless admission checks of the two aggregators, in the order in
-- which each applies them, over the first bytes of a buffer.
pub mod Agree
use xdp_gradient_aggregation.Common.{ℕ, ◌+◌, ◌*◌, Bool, ◌||◌, ltb, leb, ◌==◌, if◌then◌else◌}
use xdp_gradient_aggregation.Proto.{
  Buf, GradHdr, hdr_at, hdr_size, max_chunk_len, ntohs, ntohl, bpf_ntohs, bpf_ntohl, value_at,
}

-- FUZZ_AGG_MAX_TRACKED_WORKERS and FUZZ_XDP_MAX_TRACKED_WORKERS_BITMAP_BYTES.
abbrev pub max_tracked_workers : ℕ
max_tracked_workers = 256

abbrev pub bitmap_bytes : ℕ
bitmap_bytes = 32

pub data Verdict : Type 0 where
  accept reject : Verdict

pub record ParseResult : Type 0 where
  pub verdict : Verdict
  pub chunk_len : ℕ
  pub worker_id : ℕ
  pub num_workers : ℕ

-- `netsum_reject`
abbrev pub rejected : ParseResult
rejected = record { verdict = reject; chunk_len = 0; worker_id = 0; num_workers = 0 }

unfoldable pub agg_parse_stateless : Buf → ℕ → ParseResult
agg_parse_stateless packet n =
    let hdr = hdr_at packet 0 in
    let worker_id = ntohs hdr.worker_id in
    let num_workers = ntohs hdr.num_workers in
    let chunk_len = ntohs hdr.chunk_len in
    if ltb n hdr_size
    then rejected
    else if ltb max_chunk_len chunk_len
    then rejected
    else if ltb n (hdr_size + chunk_len * 4)
    then rejected
    else if leb max_tracked_workers worker_id
    then rejected
    else if num_workers == 0 || ltb max_tracked_workers num_workers
    then rejected
    else record {
      verdict = accept;
      chunk_len = chunk_len;
      worker_id = worker_id;
      num_workers = num_workers;
    }

unfoldable pub xdp_parse_stateless : Buf → ℕ → ParseResult
xdp_parse_stateless packet len =
    let hdr = hdr_at packet 0 in
    let chunk_len = bpf_ntohs hdr.chunk_len in
    let worker_id = bpf_ntohs hdr.worker_id in
    let num_workers_hdr = bpf_ntohs hdr.num_workers in
    if ltb len hdr_size
    then rejected
    else if ltb max_chunk_len chunk_len
    then rejected
    else if ltb len (hdr_size + chunk_len * 4)
    then rejected
    else if leb (bitmap_bytes * 8) worker_id
    then rejected
    else if num_workers_hdr == 0 || ltb (bitmap_bytes * 8) num_workers_hdr
    then rejected
    else record {
      verdict = accept;
      chunk_len = chunk_len;
      worker_id = worker_id;
      num_workers = num_workers_hdr;
    }
