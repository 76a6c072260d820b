-- ===== src/Tests/Protocol.antt =====
-- The theorems on protocol/grad_proto.h and fuzz/parse_shared.h at concrete inputs.
use xdp_gradient_aggregation.Common.{◌≡◌, refl, ◌==◌, if◌then◌else◌, arith}
use xdp_gradient_aggregation.Proto.{Buf, GradHdr, hdr_at, load16, load32, ntohs}
use xdp_gradient_aggregation.Parse.{accept, agg_parse_stateless, xdp_parse_stateless}
use xdp_gradient_aggregation.Parse.Agree.{agg-eq-xdp}

-- A packet from worker 1 of 2, with one value.
unfoldable packet : Buf
packet i = if i == 13 then 1 else if i == 15 then 2 else if i == 17 then 1 else 0

agg-eq-xdp_example : agg_parse_stateless packet 24 ≡ xdp_parse_stateless packet 24
unfolding packet
agg-eq-xdp_example = agg-eq-xdp packet 24 (λ i. ground arith)

accepted : (agg_parse_stateless packet 24).verdict ≡ accept
unfolding packet agg_parse_stateless hdr_at load16 load32 ntohs
accepted = refl

abbrev header : GradHdr
header = record {
  job_id = 7;
  round = 70000;
  chunk_id = 3;
  worker_id = 1;
  num_workers = 2;
  chunk_len = 500;
  flags = 0;
}
