-- ===== src/Agg/Packet/Isolated.antt =====
-- What one packet of userspace_agg/agg.c does to the slots of other keys.
use xdp_gradient_aggregation.Common.{
  ℕ, ◌≡◌, ◌≢◌, refl, ◌∙◌, true, false, Bool-cases, inl, inr, Option, none, some, Array, update,
  update_ne, arith,
}
use xdp_gradient_aggregation.Proto.{Buf}
use xdp_gradient_aggregation.Probe.{Probe-cases}
use xdp_gradient_aggregation.Agg.{Slot, JobEntry, Tables}
use xdp_gradient_aggregation.Agg.Jobs.{find_or_create_job}
use xdp_gradient_aggregation.Agg.Slots.{
  has_key, probe_slot, grant_slot, create_from, create_slot, find_or_create_slot,
}
use xdp_gradient_aggregation.Agg.Slots.Probing.{probe_slot-vacant}
use xdp_gradient_aggregation.Agg.Slots.Key.{find_or_create_slot-IsSlotOf}
use xdp_gradient_aggregation.Agg.Slots.Reap.{slots-free_slot}
use xdp_gradient_aggregation.Agg.Packet.{
  Packet, Clock, Verdict, mismatch, duplicate, partial, complete, decode, value_of, is_well_formed,
  contribute, settle, handle, process_packet,
}

module _ (quota job_id round chunk_id : ℕ) where
  create_from_other :
      (v i : ℕ) (slots : Array Slot) (r : Option ℕ × Array JobEntry)
      → i ≢ v
      → (create_from quota job_id round chunk_id v slots r).1.slots i ≡ slots i
  unfolding create_from grant_slot
  create_from_other v i slots (none, jobs) ne = ground arith
  create_from_other v i slots (some j, jobs) ne = ground arith

  find_or_create_slot_other :
      (i : ℕ) (t : Tables)
      → (t.slots i).in_use ≡ true
      → (find_or_create_slot quota job_id round chunk_id t).1.slots i ≡ t.slots i
  unfolding find_or_create_slot create_slot
  find_or_create_slot_other i t used =
      elim (Probe-cases (probe_slot t.slots job_id round chunk_id)) [
        | inl (v, e) ↦
            let free = probe_slot-vacant t.slots job_id round chunk_id v e in
            rw (find_or_create_slot, e)
              (create_from_other v i t.slots (find_or_create_job job_id t.jobs)
                (λ same. let there = rw (← same) at free.1 in ground (arith, there, used)))
        | inr (inl (k, f)) ↦ rw (find_or_create_slot, f)
        | inr (inr full) ↦ rw (find_or_create_slot, full)
      ]

settle_other :
    (p : Packet) (k i : ℕ) (r : Verdict × Slot) (t : Tables) (out : Buf)
    → i ≢ k
    → (settle p k r t out).tables.slots i ≡ t.slots i
unfolding settle
settle_other p k i (mismatch, s) t out ne = update_ne t.slots k i s ne
settle_other p k i (duplicate, s) t out ne = update_ne t.slots k i s ne
settle_other p k i (partial, s) t out ne = update_ne t.slots k i s ne
settle_other p k i (complete, s) t out ne =
    rw (slots-free_slot k (record t { slots = update t.slots k s })) (ground arith)

handle_other :
    (clock : Clock) (p : Packet) (v : Array ℕ) (i : ℕ) (r : Option ℕ × Tables) (out : Buf)
    → ((k : ℕ) → r.0 ≡ some k → i ≢ k)
    → (handle clock p v r out).tables.slots i ≡ r.1.slots i
unfolding handle
handle_other clock p v i (none, t) out ne = refl
handle_other clock p v i (some k, t) out ne =
    settle_other p k i (contribute clock p v (t.slots k)) t out (ne k refl)

-- A packet of agg.c leaves every slot in use whose job, round or chunk is not the packet's as it
-- was, whatever becomes of the packet.
pub process_packet_other :
    (quota : ℕ) (clock : Clock) (b : Buf) (n : ℕ) (t : Tables) (out : Buf) (i : ℕ)
    → (t.slots i).in_use ≡ true
    → has_key (decode b).job_id (decode b).round (decode b).chunk_id (t.slots i) ≡ false
    → (process_packet quota clock b n t out).tables.slots i ≡ t.slots i
unfolding process_packet
process_packet_other quota clock b n t out i used other =
    elim (Bool-cases (is_well_formed (decode b) n)) [
      | inr bad ↦ rw bad
      | inl good ↦
          let p = decode b in
          let r = find_or_create_slot quota p.job_id p.round p.chunk_id t in
          let kept = find_or_create_slot_other quota p.job_id p.round p.chunk_id i t used in
          let apart : (k : ℕ) → r.0 ≡ some k → i ≢ k = λ k e same.
            let keyed = (find_or_create_slot-IsSlotOf quota p.job_id p.round p.chunk_id t k e).2 in
            let here = rw (← same, kept) at keyed in ground (arith, here, other) in
          rw good (handle_other clock p (value_of b) i r out apart ∙ kept)
    ]
