-- ===== src/Agg/Packet/Fresh.antt =====
-- What the handling of a packet in userspace_agg/agg.c reads of the receive buffer.
use xdp_gradient_aggregation.Common.{
  ℕ, ◌+◌, ◌*◌, ◌<◌, ◌≤◌, ◌≡◌, refl, true, Array, arith, ap, if◌then◌else◌, fun_ext, Bool-cases, inl,
  inr, Option, none, some,
}
use xdp_gradient_aggregation.Proto.{Buf, hdr_size, ntohl}
use xdp_gradient_aggregation.Proto.Layout.{AgreeBelow, hdr_at-AgreeBelow, value_at-AgreeBelow}
use xdp_gradient_aggregation.Agg.{Slot, Tables}
use xdp_gradient_aggregation.Agg.Packet.{
  Packet, Clock, decode, value_of, is_well_formed, latch, absorb, judge, mismatch, duplicate,
  contribute, handle, process_packet,
}
use xdp_gradient_aggregation.Agg.Packet.Sum.{accumulate_congr}

pub decode-AgreeBelow : (b c : Buf) → AgreeBelow hdr_size b c → decode b ≡ decode c
unfolding decode
decode-AgreeBelow b c h = rw (hdr_at-AgreeBelow b c h)

-- A payload that was checked lies within the packet.
pub payload_within :
    (p : Packet) (n : ℕ) → is_well_formed p n ≡ true → hdr_size + p.chunk_len * 4 ≤ n
unfolding is_well_formed
payload_within p n e = ground arith

module _ (clock : Clock) (p : Packet) (v w : Array ℕ)
    (same : (i : ℕ) → i < p.chunk_len → v i ≡ w i) where
  absorb_congr : absorb clock p v ≡ absorb clock p w
  unfolding absorb
  absorb_congr = fun_ext (λ s. rw (accumulate_congr v w p.chunk_len s.sum same))

  contribute_congr : (s : Slot) → contribute clock p v s ≡ contribute clock p w s
  unfolding contribute
  contribute_congr s =
      ap
        (λ (add : Slot → Slot). elim (latch clock p s) [
          | none ↦ (mismatch, s)
          | some s ↦ if s.seen_worker p.worker_id then (duplicate, s) else judge (add s)
        ])
        absorb_congr

  handle_congr :
      (r : Option ℕ × Tables) (out : Buf) → handle clock p v r out ≡ handle clock p w r out
  unfolding handle
  handle_congr (none, t) out = refl
  handle_congr (some i, t) out = rw (contribute_congr (t.slots i))

-- What agg.c does with a packet of at least a header's bytes, its tables, its event and its output
-- buffer, is the same for two input buffers that agree on the bytes received: bytes left by an
-- earlier packet have no effect.
pub process_packet-AgreeBelow :
    (quota : ℕ) (clock : Clock) (b c : Buf) (n : ℕ) (t : Tables) (out : Buf)
    → hdr_size ≤ n
    → AgreeBelow n b c
    → process_packet quota clock b n t out ≡ process_packet quota clock c n t out
unfolding process_packet value_of
process_packet-AgreeBelow quota clock b c n t out le h =
    let same = decode-AgreeBelow b c (λ i lt. h i (omega arith)) in
    rw same (elim (Bool-cases (is_well_formed (decode c) n)) [
      | inr bad ↦ rw bad
      | inl good ↦
          let fits = payload_within (decode c) n good in
          rw good (
            handle_congr clock (decode c) (value_of b) (value_of c)
              (λ i lt. ap ntohl (value_at-AgreeBelow b c hdr_size n i h (omega arith))) _ out)
    ])
