-- ===== src/Paramserver/Whole.antt =====
-- paramserver/paramserver.c: a datagram that stands for a whole round, at the slot table.
use xdp_gradient_aggregation.Common.{
  ℕ, ◌≤◌, ◌≡◌, refl, ap, ◌∙◌, Bool, true, update, update_same, Array, u32, arith,
}
use xdp_gradient_aggregation.Proto.{Buf, max_chunk_len}
use xdp_gradient_aggregation.Probe.{vacant}
use xdp_gradient_aggregation.Agg.Packet.{Packet, decode, value_of}
use xdp_gradient_aggregation.Agg.Round.Emits.{Carries}
use xdp_gradient_aggregation.Paramserver.{
  Slot, Clock, Key, fresh_slot, probe_slot, find_or_create_slot, is_tracked, contribute, handle,
  process_packet,
}
use xdp_gradient_aggregation.Paramserver.Pipeline.{IsFresh, HoldsRound, served_whole}

fresh_slot-IsFresh : (key : Key) → IsFresh (fresh_slot key)
fresh_slot-IsFresh key = record { received = refl; waiting = refl; sum = refl; seen = refl }

module _ (clock : Clock) (agg_mode : Bool) (b : Buf) (slots : Array Slot) (i : ℕ)
    (absent : probe_slot slots ((decode b).job_id, (decode b).round, (decode b).chunk_id)
      ≡ vacant i)
    (tracked : is_tracked (decode b) ≡ true) where
  abbrev key : Key
  key = ((decode b).job_id, (decode b).round, (decode b).chunk_id)

  -- The packet is contributed to a new slot.
  process_packet_new :
      ((process_packet clock agg_mode b slots).0
        ≡ (contribute clock agg_mode (decode b) (value_of b) (fresh_slot key)).0)
      × ((process_packet clock agg_mode b slots).1 i
          ≡ (contribute clock agg_mode (decode b) (value_of b) (fresh_slot key)).1)
  unfolding process_packet find_or_create_slot handle
  process_packet_new =
      let here : update slots i (fresh_slot key) i ≡ fresh_slot key =
        update_same slots i (fresh_slot key) in
      rw (process_packet, tracked, find_or_create_slot, absent)
        (
          ap (λ (s : Slot). (contribute clock agg_mode (decode b) (value_of b) s).0) here,
          update_same (update slots i (fresh_slot key)) i
                (contribute clock agg_mode (decode b) (value_of b)
                  (update slots i (fresh_slot key) i)).1
              ∙ ap (λ (s : Slot). (contribute clock agg_mode (decode b) (value_of b) s).1) here,
        )

accepts_short : (p : Packet) → p.chunk_len ≤ max_chunk_len → p.worker_id ≡ 0 → is_tracked p ≡ true
unfolding is_tracked
accepts_short p le first = ground (arith, le, first)

-- The datagram of a whole round completes a new slot, which then holds the sums.
pub carried-HoldsRound :
    (clock : Clock) (agg_mode : Bool) (datagram : Buf) (slots : Array Slot) (k : ℕ)
    (job_id round chunk_id len : ℕ) (sums : Array ℕ)
    → len ≤ max_chunk_len
    → probe_slot slots (job_id, round, chunk_id) ≡ vacant k
    → Carries job_id round chunk_id len sums datagram
    → HoldsRound len
        (λ j. u32 (sums j))
        (
          (process_packet clock agg_mode datagram slots).0,
          (process_packet clock agg_mode datagram slots).1 k,
        )
carried-HoldsRound clock agg_mode datagram slots k job_id round chunk_id len sums most absent
      carries =
    let p = decode datagram in
    let h = carries.header in
    let tracked : is_tracked p ≡ true =
      accepts_short p (rw h most) (ap (λ (q : Packet). q.worker_id) h) in
    let there : probe_slot slots (p.job_id, p.round, p.chunk_id) ≡ vacant k =
      ap (λ (q : Packet). probe_slot slots (q.job_id, q.round, q.chunk_id)) h ∙ absent in
    let (event, slot) = process_packet_new clock agg_mode datagram slots k there tracked in
    let new = fresh_slot (p.job_id, p.round, p.chunk_id) in
    let holds =
      served_whole clock agg_mode datagram len (λ j. u32 (sums j)) new
        (fresh_slot-IsFresh (p.job_id, p.round, p.chunk_id)) (ap (λ (q : Packet). q.num_workers) h)
        (ap (λ (q : Packet). q.chunk_len) h) most (λ j lt small. carries.values j lt) in
    record {
      event = event ∙ holds.event;
      sum = λ j lt small. ap (λ (s : Slot). s.sum j) slot ∙ holds.sum j lt small;
    }
