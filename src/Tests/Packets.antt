-- ===== src/Tests/Packets.antt =====
-- Datagrams of protocol/grad_proto.h that the tests of all programs use.
use xdp_gradient_aggregation.Common.{ℕ, ◌+◌, ◌*◌, Array}
use xdp_gradient_aggregation.Proto.{Buf, hdr_size, ntohs, ntohl, put_hdr, put_values}
use xdp_gradient_aggregation.Agg.Packet.{Packet}

-- The datagram that a worker sends for the header and the values.
unfoldable pub datagram : Packet → Array ℕ → Buf
datagram p values = put_values ntohl hdr_size values p.chunk_len 0 (
    put_hdr (λ i. 0) 0
      (record {
        job_id = ntohl p.job_id;
        round = ntohl p.round;
        chunk_id = ntohl p.chunk_id;
        worker_id = ntohs p.worker_id;
        num_workers = ntohs p.num_workers;
        chunk_len = ntohs p.chunk_len;
        flags = 0;
      }))

-- Round 1 of job 7 has two workers and chunks of two values.
abbrev pub from_worker : ℕ → Packet
from_worker w = record {
  job_id = 7;
  round = 1;
  chunk_id = 0;
  worker_id = w;
  num_workers = 2;
  chunk_len = 2;
}

abbrev pub values : ℕ → Array ℕ
values w i = w * 10 + i
