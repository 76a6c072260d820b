-- ===== src/Xdp/Frame.antt =====
-- xdp_agg/xdp_agg.c: the headers of a frame, the checks on them, and the rewriting of a frame that
-- is sent on. A frame is an array of bytes and the number of them, which stands for `data_end`.
pub mod Checksum
use xdp_gradient_aggregation.Common.{
  ℕ, zero, suc, ◌+◌, ◌-◌, ◌*◌, ◌/◌, ◌%◌, ◌^◌, Bool, true, false, not, ◌==◌, ltb, leb, if◌then◌else◌,
  Array, update, bit_and, u16, u32, ◌≡◌, refl, ◌⊎◌, inl, inr,
}
use xdp_gradient_aggregation.Proto.{
  Buf, load16, load32, store16, store32, hdr_at, value_at, bpf_ntohs, bpf_ntohl, port,
  max_chunk_len,
}

-- Where the headers start: struct ethhdr has 14 bytes, iphdr 20, udphdr 8 and grad_hdr 20.
abbrev pub ip_at : ℕ
ip_at = 14

abbrev pub udp_at : ℕ
udp_at = 34

abbrev pub grad_at : ℕ
grad_at = 42

abbrev pub values_at : ℕ
values_at = 62

-- MAX_TRACKED_WORKERS_BITMAP_BYTES
abbrev pub bitmap_bytes : ℕ
bitmap_bytes = 32

abbrev pub eth_p_ip : ℕ
eth_p_ip = 0x0800

abbrev pub ipproto_udp : ℕ
ipproto_udp = 17

pub data Parsed : Type 0 where
  pass drop gradient : Parsed

pub Parsed-cases : (r : Parsed) → (r ≡ pass) ⊎ (r ≡ drop) ⊎ (r ≡ gradient)
Parsed-cases pass = inl refl
Parsed-cases drop = inr (inl refl)
Parsed-cases gradient = inr (inr refl)

-- From the start of the program to the check of the worker.
unfoldable pub parse : Buf → ℕ → Parsed
parse frame len =
    let hdr = hdr_at frame grad_at in
    let chunk_len = bpf_ntohs hdr.chunk_len in
    if ltb len ip_at
    then pass
    else if not (bpf_ntohs (load16 frame 12) == eth_p_ip)
    then pass
    else if ltb len udp_at
    then pass
    else if not (bit_and (frame ip_at) 0x0f == 5)
    then pass
    else if not (frame (ip_at + 9) == ipproto_udp)
    then pass
    else if ltb len grad_at
    then pass
    else if not (bpf_ntohs (load16 frame (udp_at + 2)) == port)
    then pass
    else if ltb len values_at
    then pass
    else if ltb max_chunk_len chunk_len
    then drop
    else if ltb len (values_at + chunk_len * 4)
    then drop
    else if leb (bitmap_bytes * 8) (bpf_ntohs hdr.worker_id)
    then drop
    else gradient

-- `struct netsum_config`; the address and the port are in network byte order.
pub record Config : Type 0 where
  pub ps_mac : Array ℕ
  pub ps_ip : ℕ
  pub ps_port : ℕ
  pub max_slots_per_job : ℕ

-- The loop of ip_checksum over the halfwords of the header at `o`, without the checksum itself.
unfoldable pub checksum_from : Buf → (o left i sum : ℕ) → ℕ
checksum_from frame o zero i sum = sum
checksum_from frame o (suc left) i sum =
    checksum_from frame o left (i + 1)
      (if i == 5 then sum else u32 (sum + load16 frame (o + 2 * i)))

-- One folding of the carries.
abbrev pub fold : ℕ → ℕ
fold sum = u32 (sum % 2 ^ 16 + sum / 2 ^ 16)

-- `(uint16_t)~sum`
abbrev pub complement16 : ℕ → ℕ
complement16 sum = u16 (2 ^ 32 - 1 - sum)

unfoldable pub ip_checksum : Buf → ℕ → ℕ
unfolding checksum_from
ip_checksum frame o = complement16 (fold (fold (checksum_from frame o 10 0 0)))

-- `for (i = 0; i < 6; i++) eth->h_dest[i] = mac[i]`
unfoldable pub put_mac : Array ℕ → Buf → Buf
put_mac mac frame i = if ltb i 6 then mac i else frame i

-- The assignments to the headers of a frame that is sent on, but for the last.
unfoldable pub readdress : Config → (final_chunk_len : ℕ) → Buf → Buf
readdress cfg final_chunk_len frame =
    let f = store16 frame (grad_at + 12) (bpf_ntohs 0) in
    let f = store16 f (grad_at + 14) (bpf_ntohs 1) in
    let f = store16 f (grad_at + 16) (bpf_ntohs final_chunk_len) in
    let f = put_mac cfg.ps_mac f in
    let f = store32 f (ip_at + 16) cfg.ps_ip in
    let f = store16 f (udp_at + 2) cfg.ps_port in
    let f = store16 f (udp_at + 6) 0 in store16 f (ip_at + 10) 0

-- With `iph->check = ip_checksum(iph)`.
unfoldable pub retarget : Config → (final_chunk_len : ℕ) → Buf → Buf
retarget cfg final_chunk_len frame =
    let f = readdress cfg final_chunk_len frame in store16 f (ip_at + 10) (ip_checksum f ip_at)
