-- ===== src/Proto.antt =====
-- protocol/grad_proto.h: the wire header, the layout of a packet and byte order, with the
-- conversions of xdp_agg/bpf_compat.h. A packet buffer is an array of bytes, and the host is
-- little-endian, as bpf_compat.h assumes.
pub mod Fixed
pub mod ByteOrder
pub mod Layout
use xdp_gradient_aggregation.Common.{
  ℕ, zero, suc, ◌+◌, ◌*◌, ◌/◌, ◌%◌, ◌^◌, ◌<◌, bit_and, bit_or, Array, update, u8, u16, u32, ◌<<<◌,
  ◌>>>◌,
}

abbrev pub Buf : Type 0
Buf = Array ℕ

-- NETSUM_PORT, NETSUM_MAX_CHUNK_LEN, NETSUM_HDR_SIZE and NETSUM_MAX_PACKET_SIZE.
abbrev pub port : ℕ
port = 9876

abbrev pub max_chunk_len : ℕ
max_chunk_len = 64

abbrev pub hdr_size : ℕ
hdr_size = 20

abbrev pub max_packet_size : ℕ
max_packet_size = hdr_size + max_chunk_len * 4

-- `struct grad_hdr`. As it stands in memory its fields are in network byte order.
pub record GradHdr : Type 0 where
  pub job_id : ℕ
  pub round : ℕ
  pub chunk_id : ℕ
  pub worker_id : ℕ
  pub num_workers : ℕ
  pub chunk_len : ℕ
  pub flags : ℕ

-- Loads and stores of the host.
unfoldable pub load16 : Buf → ℕ → ℕ
load16 b o = b o + b (o + 1) * 2 ^ 8

unfoldable pub load32 : Buf → ℕ → ℕ
load32 b o = b o + b (o + 1) * 2 ^ 8 + b (o + 2) * 2 ^ 16 + b (o + 3) * 2 ^ 24

unfoldable pub store16 : Buf → ℕ → ℕ → Buf
store16 b o v = update (update b o (u8 v)) (o + 1) (u8 (v >>> 8))

unfoldable pub store32 : Buf → ℕ → ℕ → Buf
store32 b o v =
    update (update (update (update b o (u8 v)) (o + 1) (u8 (v >>> 8))) (o + 2) (u8 (v >>> 16)))
      (o + 3) (u8 (v >>> 24))

-- `ntohs` and `ntohl` of <arpa/inet.h> on a little-endian host; `htons` and `htonl` are the same.
unfoldable pub ntohs : ℕ → ℕ
ntohs v = v % 2 ^ 8 * 2 ^ 8 + v / 2 ^ 8 % 2 ^ 8

unfoldable pub ntohl : ℕ → ℕ
ntohl v =
    v % 2 ^ 8 * 2 ^ 24
    + v / 2 ^ 8 % 2 ^ 8 * 2 ^ 16
    + v / 2 ^ 16 % 2 ^ 8 * 2 ^ 8
    + v / 2 ^ 24 % 2 ^ 8

-- The conversions that xdp_agg.c calls, written with shifts and masks.
unfoldable pub bpf_ntohs : ℕ → ℕ
bpf_ntohs v = u16 (bit_or (v <<< 8) (v >>> 8))

unfoldable pub bpf_ntohl : ℕ → ℕ
bpf_ntohl v =
    bit_or
      (bit_or (bit_or (u32 (bit_and v 0x000000ff <<< 24)) (u32 (bit_and v 0x0000ff00 <<< 8)))
        (bit_and v 0x00ff0000 >>> 8))
      (bit_and v 0xff000000 >>> 24)

-- The header at offset `o`, as the pointer cast reads it.
unfoldable pub hdr_at : Buf → ℕ → GradHdr
hdr_at b o = record {
  job_id = load32 b o;
  round = load32 b (o + 4);
  chunk_id = load32 b (o + 8);
  worker_id = load16 b (o + 12);
  num_workers = load16 b (o + 14);
  chunk_len = load16 b (o + 16);
  flags = load16 b (o + 18);
}

-- The assignments to the seven fields of a header at offset `o`.
unfoldable pub put_hdr : Buf → ℕ → GradHdr → Buf
put_hdr b o h =
    let b = store32 b o h.job_id in
    let b = store32 b (o + 4) h.round in
    let b = store32 b (o + 8) h.chunk_id in
    let b = store16 b (o + 12) h.worker_id in
    let b = store16 b (o + 14) h.num_workers in
    let b = store16 b (o + 16) h.chunk_len in store16 b (o + 18) h.flags

-- `values[i]` for the payload at offset `o`, as loaded.
unfoldable pub value_at : Buf → ℕ → ℕ → ℕ
value_at b o i = load32 b (o + 4 * i)

-- `for (i = 0; i < n; i++) values[i] = swap(sum[i])`, from round `i` on.
unfoldable pub put_values : (ℕ → ℕ) → ℕ → Array ℕ → (left i : ℕ) → Buf → Buf
put_values swap o sum zero i b = b
put_values swap o sum (suc left) i b =
    put_values swap o sum left (i + 1) (store32 b (o + 4 * i) (swap (sum i)))
