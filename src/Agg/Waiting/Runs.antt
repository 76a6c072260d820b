-- ===== src/Agg/Waiting/Runs.antt =====
-- userspace_agg/agg.c: every slot in use waits for more workers, through whole runs.
use xdp_gradient_aggregation.Common.{
  ◌*◌, ℕ, ◌<◌, ◌≡◌, ◌≢◌, ◌⊎◌, refl, ap, ◌∙◌, true, ◌==◌, Option, none, some, List, Array, update,
  arith, Bool-cases, inl, inr,
}
use xdp_gradient_aggregation.Proto.{Buf}
use xdp_gradient_aggregation.Agg.{Slot, Tables, slot_capacity}
use xdp_gradient_aggregation.Agg.Slots.{free_slot, is_expired, reap_expired_slots}
use xdp_gradient_aggregation.Agg.Slots.Key.{find_or_create_slot-IsSlotOf}
use xdp_gradient_aggregation.Agg.Slots.Reap.{slots-free_slot, reap_expired_slots_lem}
use xdp_gradient_aggregation.Agg.Packet.{
  Packet, Clock, Verdict, mismatch, duplicate, partial, complete, decode, value_of, is_well_formed,
  contribute, settle, handle, process_packet,
}
use xdp_gradient_aggregation.Agg.Loop.{Config, Input, run}
use xdp_gradient_aggregation.Agg.Loop.Kept.{run-kept}
use xdp_gradient_aggregation.Agg.Run.{start}
use xdp_gradient_aggregation.Agg.Waiting.{
  Waits, AllWait, Fits, is_well_formed-Fits, contribute-Waits, contribute-Waits_first, Opens,
  find_or_create_slot-Opens,
}

-- All slots but `i` wait.
abbrev OthersWait : ℕ → Tables → Type 0
OthersWait i t = (k : ℕ) → k < slot_capacity → k ≢ i → (t.slots k).in_use ≡ true → Waits (t.slots k)

stored-AllWait :
    (i : ℕ) (s : Slot) (t : Tables) (bad : Verdict)
    → bad ≢ complete
    → OthersWait i t
    → (bad ≡ complete) ⊎ Waits s
    → AllWait (record t { slots = update t.slots i s })
stored-AllWait i s t bad ne others w k lt used = elim (Bool-cases (k == i)) [
  | inr apart ↦
      rw (update, apart) (others k lt (ground (arith, apart)) (rw (update, apart) at used))
  | inl here ↦ elim w [ inl e ↦ absurd (ne e) | inr waits ↦ rw (update, here) waits ]
]

settle-AllWait :
    (p : Packet) (i : ℕ) (r : Verdict × Slot) (t : Tables) (out : Buf)
    → OthersWait i t
    → (r.0 ≡ complete) ⊎ Waits r.1
    → AllWait (settle p i r t out).tables
unfolding settle
settle-AllWait p i (mismatch, s) t out others w k lt used =
    stored-AllWait i s t mismatch (λ e. ground (arith, e)) others w k lt used
settle-AllWait p i (duplicate, s) t out others w k lt used =
    stored-AllWait i s t duplicate (λ e. ground (arith, e)) others w k lt used
settle-AllWait p i (partial, s) t out others w k lt used =
    stored-AllWait i s t partial (λ e. ground (arith, e)) others w k lt used
settle-AllWait p i (complete, s) t out others w k lt used =
    let stored : Tables = record t { slots = update t.slots i s } in
    let freed = ap (λ (a : Array Slot). a k) (slots-free_slot i stored) in
    elim (Bool-cases (k == i)) [
      | inl here ↦ absurd (ground (arith, freed, here, used))
      | inr apart ↦
          let same : (free_slot i stored).slots k ≡ t.slots k = freed ∙ rw (update, apart) refl in
          rw same (others k lt (ground (arith, apart)) (rw same at used))
    ]

handle-AllWait :
    (clock : Clock) (p : Packet) (v : Array ℕ) (job_id round chunk_id : ℕ) (t : Tables)
    (r : Option ℕ × Tables) (out : Buf)
    → Fits p
    → AllWait t
    → Opens job_id round chunk_id t r
    → ((i : ℕ) → r.0 ≡ some i → (i < slot_capacity) × ((r.1.slots i).in_use ≡ true))
    → AllWait (handle clock p v r out).tables
unfolding handle
handle-AllWait clock p v job_id round chunk_id t (none, t') out fits all opens slot k lt used =
    elim (opens k) [ inl same ↦ rw same (all k lt (rw same at used)) | inr (e, new) ↦ absurd (cc) ]
handle-AllWait clock p v job_id round chunk_id t (some i, t') out fits all opens slot k lt used =
    settle-AllWait p i (contribute clock p v (t'.slots i)) t' out
      (λ k lt ne used. elim (opens k) [
        | inl same ↦ rw same (all k lt (rw same at used))
        | inr (e, new) ↦ absurd (ne (ground (arith, e)))
      ])
      (elim (opens i) [
        | inl same ↦ rw same (
            contribute-Waits clock p v fits (t.slots i)
              (all i (slot i refl).0 (rw same at ((slot i refl).1))))
        | inr (e, new) ↦ rw new (contribute-Waits_first clock p v fits job_id round chunk_id)
      ])
      k lt used

process_packet-AllWait :
    (quota : ℕ) (clock : Clock) (b : Buf) (n : ℕ) (t : Tables) (out : Buf)
    → AllWait t
    → AllWait (process_packet quota clock b n t out).tables
unfolding process_packet
process_packet-AllWait quota clock b n t out all = elim (Bool-cases (is_well_formed (decode b) n)) [
  | inr bad ↦ rw (process_packet, bad) all
  | inl good ↦
      let p = decode b in
      let known = find_or_create_slot-IsSlotOf quota p.job_id p.round p.chunk_id t in
      rw (process_packet, good)
        (handle-AllWait clock p (value_of b) p.job_id p.round p.chunk_id t _ out
          (is_well_formed-Fits p n good) all
          (find_or_create_slot-Opens quota p.job_id p.round p.chunk_id t)
          (λ i e. ((known i e).0, (known i e).1)))
]

reap-AllWait :
    (now slot_ttl_ms : ℕ) (t : Tables) → AllWait t → AllWait (reap_expired_slots now slot_ttl_ms t)
reap-AllWait now slot_ttl_ms t all i lt used =
    let after = reap_expired_slots_lem now slot_ttl_ms i t lt in
    elim (Bool-cases (is_expired now (slot_ttl_ms * 1000) (t.slots i))) [
      | inl old ↦ absurd (ground (arith, after, old, used))
      | inr young ↦ let same = rw young at after in rw same (all i lt (rw same at used))
    ]

-- From the empty tables, after any sequence of iterations of the main loop of agg.c, no slot in
-- use is empty or complete: it has accepted at least one contribution and fewer than its fan-in,
-- the fan-in is at most 256 and the length at most 64, and it has marked as many workers below 256
-- as it has accepted.
pub run-Waits :
    (config : Config) (inputs : List Input) (now i : ℕ)
    → i < slot_capacity
    → ((run config inputs (start now)).1.tables.slots i).in_use ≡ true
    → Waits ((run config inputs (start now)).1.tables.slots i)
run-Waits config inputs now =
    run-kept config AllWait (λ reap_now t. reap-AllWait reap_now config.slot_ttl_ms t)
      (process_packet-AllWait config.job_quota) inputs (start now)
      (λ i lt used. absurd (ground arith))
