-- ===== src/Xdp/Program/Sent.antt =====
-- The datagram in a frame that xdp_agg/xdp_agg.c sends on, as a receiver reads it.
use xdp_gradient_aggregation.Common.{
  ℕ, zero, suc, ◌+◌, ◌*◌, ◌^◌, ◌<◌, ◌≤◌, ◌≡◌, refl, sym, ap, ◌∙◌, Array, arith, u8, ◌>>>◌, inl,
}
use xdp_gradient_aggregation.Proto.{
  Buf, load16, load32, store16, store32, hdr_at, value_at, put_values, bpf_ntohs, bpf_ntohl, ntohs,
  ntohl, max_chunk_len,
}
use xdp_gradient_aggregation.Proto.ByteOrder.{
  bpf_ntohs-eq-ntohs, bpf_ntohl-eq-ntohl, ntohs-ntohs, ntohl-ntohl, ntohs-lt, ntohl-lt,
}
use xdp_gradient_aggregation.Proto.Layout.{value_at-put_values, load32-put_values_apart}
use xdp_gradient_aggregation.Agg.Packet.{Packet, decode, value_of}
use xdp_gradient_aggregation.Xdp.Frame.{Config, values_at, grad_at, put_mac, readdress, retarget}
use xdp_gradient_aggregation.Xdp.Slot.{GradSlot, write_back_from, write_back}
use xdp_gradient_aggregation.Xdp.Slot.Refine.{payload, value_at-payload}
use xdp_gradient_aggregation.Xdp.Program.Bounds.{retarget-above}

-- Where the payload lies in the frame, the write-back loop stores the first `n` sums.
write_back_from-put_values :
    (sum : Array ℕ) (len n left k i : ℕ) (frame : Buf)
    → i + k ≡ n
    → k ≤ left
    → values_at + 4 * n ≤ len
    → write_back_from sum len n left i frame ≡ put_values bpf_ntohl values_at sum k i frame
unfolding write_back_from put_values
write_back_from-put_values sum len n zero zero i frame e le whole = refl
write_back_from-put_values sum len n zero (suc k) i frame e le whole = absurd (omega arith)
write_back_from-put_values sum len n (suc left) zero i frame e le whole = ground arith
write_back_from-put_values sum len n (suc left) (suc k) i frame e le whole =
    let rest =
      write_back_from-put_values sum len n left k (i + 1)
        (store32 frame (values_at + 4 * i) (bpf_ntohl (sum i))) (omega arith) (omega arith) whole in
    ground (arith, rest)

-- A packet that stands for a whole round of the key of `p`.
abbrev pub summary : Packet → ℕ → Packet
summary p chunk_len = record p { worker_id = 0; num_workers = 1; chunk_len = chunk_len }

module _ (cfg : Config) (s : GradSlot) (len : ℕ) (frame : Buf) (small : s.chunk_len ≤ max_chunk_len)
    (whole : values_at + 4 * s.chunk_len ≤ len) where
  abbrev sent : Buf
  sent = retarget cfg s.chunk_len (write_back s len frame)

  write_back-put_values :
      write_back s len frame ≡ put_values bpf_ntohl values_at s.sum s.chunk_len 0 frame
  unfolding write_back
  write_back-put_values =
      write_back_from-put_values s.sum len s.chunk_len max_chunk_len s.chunk_len 0 frame
        (omega arith) small whole

  value_at-sent :
      (i : ℕ) → i < s.chunk_len → s.sum i < 2 ^ 32 → value_at sent values_at i ≡ bpf_ntohl (s.sum i)
  unfolding value_at load32
  value_at-sent i lt fits =
      let above : (k : ℕ) → values_at ≤ k → sent k ≡ write_back s len frame k =
        λ k le. retarget-above cfg s.chunk_len k (write_back s len frame) le in
      let same : value_at sent values_at i ≡ value_at (write_back s len frame) values_at i = omega (
        arith,
        above (values_at + 4 * i) (omega arith),
        above (values_at + 4 * i + 1) (omega arith),
        above (values_at + 4 * i + 2) (omega arith),
        above (values_at + 4 * i + 3) (omega arith),
      ) in
      let swapped : bpf_ntohl (s.sum i) < 2 ^ 32 =
        omega (arith, bpf_ntohl-eq-ntohl (s.sum i) fits, ntohl-lt (s.sum i)) in
      same
      ∙ ap (λ (f : Buf). value_at f values_at i) write_back-put_values
      ∙ value_at-put_values bpf_ntohl values_at s.sum s.chunk_len 0 i frame (omega arith)
          (omega arith) swapped

  -- A receiver of the frame that xdp_agg.c sends on for a slot, with a length of at most 64 and
  -- the payload in the frame, reads back each sum below the length that fits 32 bits.
  pub value_of-retarget :
      (i : ℕ)
      → i < s.chunk_len
      → s.sum i < 2 ^ 32
      → value_of (payload (retarget cfg s.chunk_len (write_back s len frame))) i ≡ s.sum i
  unfolding value_of
  value_of-retarget i lt fits =
      ap ntohl (
        sym (value_at-payload sent i) ∙ value_at-sent i lt fits ∙ bpf_ntohl-eq-ntohl (s.sum i) fits)
      ∙ ntohl-ntohl (s.sum i) fits

  sent-key : (j : ℕ) → grad_at ≤ j → j < grad_at + 12 → sent j ≡ write_back s len frame j
  unfolding retarget readdress put_mac store16 store32
  sent-key j le lt = ground arith

  kept : (o : ℕ) → o ≤ 8 → load32 (payload sent) o ≡ load32 (payload frame) o
  unfolding load32
  kept o le =
      let p = grad_at + o in
      let below : load32 (write_back s len frame) p ≡ load32 frame p =
        ap (λ (f : Buf). load32 f p) write_back-put_values
        ∙ load32-put_values_apart bpf_ntohl values_at s.sum s.chunk_len 0 frame p
            (inl (omega arith)) in
      let new : (k j : ℕ) → j ≡ p + k → k < 4 → sent j ≡ write_back s len frame (p + k) =
        λ k j e lt. ap sent e ∙ sent-key (p + k) (omega arith) (omega arith) in
      let old : (k j : ℕ) → j ≡ p + k → frame j ≡ frame (p + k) = λ k j e. ap frame e in
      omega (
        arith,
        below,
        sent-key p (omega arith) (omega arith),
        new 1 (grad_at + (o + 1)) (omega arith) (omega arith),
        new 2 (grad_at + (o + 2)) (omega arith) (omega arith),
        new 3 (grad_at + (o + 3)) (omega arith) (omega arith),
        old 1 (grad_at + (o + 1)) (omega arith),
        old 2 (grad_at + (o + 2)) (omega arith),
        old 3 (grad_at + (o + 3)) (omega arith),
      )

  halfword : (v : ℕ) → v < 2 ^ 16 → u8 v + u8 (v >>> 8) * 2 ^ 8 ≡ v
  halfword v h = omega arith

  swapped-lt : (v : ℕ) → v < 2 ^ 16 → bpf_ntohs v < 2 ^ 16
  swapped-lt v h = omega (arith, bpf_ntohs-eq-ntohs v h, ntohs-lt v)

  new_worker_id : load16 (payload sent) 12 ≡ bpf_ntohs 0
  unfolding load16 retarget readdress put_mac store16 store32
  new_worker_id = halfword (bpf_ntohs 0) (swapped-lt 0 (omega arith))

  new_num_workers : load16 (payload sent) 14 ≡ bpf_ntohs 1
  unfolding load16 retarget readdress put_mac store16 store32
  new_num_workers = halfword (bpf_ntohs 1) (swapped-lt 1 (omega arith))

  new_chunk_len : load16 (payload sent) 16 ≡ bpf_ntohs s.chunk_len
  unfolding load16 retarget readdress put_mac store16 store32
  new_chunk_len = halfword (bpf_ntohs s.chunk_len) (swapped-lt s.chunk_len (omega arith))

  reads : (v : ℕ) → v < 2 ^ 16 → ntohs (bpf_ntohs v) ≡ v
  reads v h = ap ntohs (bpf_ntohs-eq-ntohs v h) ∙ ntohs-ntohs v h

  -- The header in the frame that xdp_agg.c sends on for a slot, for a length of at most 64 and the
  -- payload in the frame, decodes to the key that the frame came with, worker 0 of 1 and the
  -- slot's length.
  pub decode-retarget :
      decode (payload (retarget cfg s.chunk_len (write_back s len frame)))
      ≡ summary (decode (payload frame)) s.chunk_len
  unfolding decode hdr_at
  decode-retarget = rw (
    kept 0 (omega arith),
    kept 4 (omega arith),
    kept 8 (omega arith),
    new_worker_id,
    new_num_workers,
    new_chunk_len,
    reads 0 (omega arith),
    reads 1 (omega arith),
    reads s.chunk_len (omega arith),
  )
