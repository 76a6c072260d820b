-- ===== src/Agg/Waiting.antt =====
-- userspace_agg/agg.c: every slot in use waits for more workers.
pub mod Runs
use xdp_gradient_aggregation.Common.{
  ℕ, suc, ◌+◌, ◌^◌, ◌<◌, ◌≤◌, ◌≡◌, ◌≢◌, ◌⊎◌, refl, sym, ap, ◌∙◌, Bool, true, false, not, ◌==◌, ◌||◌,
  ltb, leb, Option, none, some, List, Array, update, count, count-change, count-le, count_zero,
  to_nat, arith, Bool-cases, inl, inr, if◌then◌else◌, u16,
}
use xdp_gradient_aggregation.Proto.{Buf, max_chunk_len}
use xdp_gradient_aggregation.Probe.{Probe-cases}
use xdp_gradient_aggregation.Agg.{
  Slot, JobEntry, Tables, empty_tables, slot_capacity, max_tracked_workers,
}
use xdp_gradient_aggregation.Agg.Jobs.{find_or_create_job}
use xdp_gradient_aggregation.Agg.Slots.{
  admit_job, probe_slot, fresh_slot, at_quota, grant_slot, create_from, create_slot,
  find_or_create_slot, free_slot, is_expired, reap_expired_slots,
}
use xdp_gradient_aggregation.Agg.Slots.Key.{find_or_create_slot-IsSlotOf}
use xdp_gradient_aggregation.Agg.Slots.Reap.{slots-free_slot, reap_expired_slots_lem}
use xdp_gradient_aggregation.Agg.Packet.{
  Packet, Clock, Verdict, mismatch, duplicate, partial, complete, decode, value_of, is_well_formed,
  latch, absorb, judge, contribute, settle, handle, process_packet,
}
use xdp_gradient_aggregation.Agg.Packet.History.{
  latched, contribute-first, contribute-mismatch, contribute-duplicate, contribute-next,
}
use native.Mathlib.Decide.{ℕ_discrete}
use xdp_gradient_aggregation.Agg.Loop.{Config, Input, Process, run}
use xdp_gradient_aggregation.Agg.Loop.Kept.{run-kept}
use xdp_gradient_aggregation.Agg.Run.{start}

-- The slot has accepted at least one worker, and as many as it has marked, and waits for more.
pub record Waits (s : Slot) : Type 0 where
  pub some_seen : 0 < s.contributions_received
  pub some_left : s.contributions_received < s.num_workers_expected
  pub fan_in : s.num_workers_expected ≤ max_tracked_workers
  pub length : s.chunk_len ≤ max_chunk_len
  pub marked : count max_tracked_workers s.seen_worker ≡ s.contributions_received

-- Each slot in use waits.
abbrev pub AllWait : Tables → Type 0
AllWait t = (i : ℕ) → i < slot_capacity → (t.slots i).in_use ≡ true → Waits (t.slots i)

-- The checks of a packet.
pub record Fits (p : Packet) : Type 0 where
  len : p.chunk_len ≤ max_chunk_len
  worker : p.worker_id < max_tracked_workers
  pos : 0 < p.num_workers
  few : p.num_workers ≤ max_tracked_workers

pub is_well_formed-Fits : (p : Packet) (n : ℕ) → is_well_formed p n ≡ true → Fits p
unfolding is_well_formed
is_well_formed-Fits p n e = record {
  len = ground arith;
  worker = ground arith;
  pos = ground arith;
  few = ground arith;
}

judge_waits :
    (s : Slot) → ltb s.contributions_received s.num_workers_expected ≡ true → judge s ≡ (partial, s)
unfolding judge
judge_waits s h = rw h

-- A contribution to a slot that waits, or to a new one, completes it or leaves it to wait.
module _ (clock : Clock) (p : Packet) (v : Array ℕ) (fits : Fits p) where
  count-absorb :
      (s : Slot)
      → s.seen_worker p.worker_id ≡ false
      → count max_tracked_workers (absorb clock p v s).seen_worker
        ≡ suc (count max_tracked_workers s.seen_worker)
  unfolding absorb
  count-absorb s new =
      let change =
        count-change max_tracked_workers s.seen_worker (update s.seen_worker p.worker_id true)
          p.worker_id fits.worker (λ j ne. rw ne) in
      let here : update s.seen_worker p.worker_id true p.worker_id ≡ true = ground arith in
      omega (arith, change, ap to_nat new, ap to_nat here)

  -- An accepted contribution, to a slot with its length and fan-in.
  accepted-Waits :
      (s : Slot)
      → s.chunk_len ≤ max_chunk_len
      → s.num_workers_expected ≤ max_tracked_workers
      → count max_tracked_workers s.seen_worker ≡ s.contributions_received
      → s.seen_worker p.worker_id ≡ false
      → ((judge (absorb clock p v s)).0 ≡ complete) ⊎ Waits (judge (absorb clock p v s)).1
  accepted-Waits s len few marked new =
      let added = count-absorb s new in
      let most = count-le max_tracked_workers s.seen_worker in
      let s' = absorb clock p v s in
      let one_more : s'.contributions_received ≡ suc s.contributions_received =
        unfold absorb in omega (arith, marked, most) in
      let kept : (s'.chunk_len ≡ s.chunk_len) × (s'.num_workers_expected ≡ s.num_workers_expected) =
        unfold absorb in (refl, refl) in
      elim (Bool-cases (ltb s'.contributions_received s'.num_workers_expected)) [
        | inr all ↦ inl (unfold judge in ground (arith, all))
        | inl left ↦ inr (
            rw (judge_waits s' left) (record {
              some_seen = omega (arith, one_more);
              some_left = ground (arith, left);
              fan_in = omega (arith, kept, few);
              length = omega (arith, kept, len);
              marked = omega (arith, added, marked, one_more);
            }))
      ]

  pub contribute-Waits :
      (s : Slot)
      → Waits s
      → ((contribute clock p v s).0 ≡ complete) ⊎ Waits (contribute clock p v s).1
  contribute-Waits s w =
      let started : s.contributions_received ≢ 0 = omega (arith, w.some_seen) in
      elim (ℕ_discrete s.chunk_len p.chunk_len) [
        | no other ↦ inr (rw (contribute-mismatch clock p v s started other) w)
        | yes same ↦ elim (Bool-cases (s.seen_worker p.worker_id)) [
          | inl old ↦ inr (rw (contribute-duplicate clock p v s started same old) w)
          | inr new ↦
              rw (contribute-next clock p v s started same new)
                (accepted-Waits s w.length w.fan_in w.marked new)
        ]
      ]

  pub contribute-Waits_first :
      (job_id round chunk_id : ℕ)
      → let r = contribute clock p v (fresh_slot job_id round chunk_id) in
        (r.0 ≡ complete) ⊎ Waits r.1
  contribute-Waits_first job_id round chunk_id =
      let s = fresh_slot job_id round chunk_id in
      rw (contribute-first clock p v s refl refl) (
        accepted-Waits (latched clock p s) fits.len fits.few
          (count_zero max_tracked_workers (λ w. false) (λ i lt. refl)) refl)

-- A slot that find_or_create_slot leaves is as before, or it is the new one that it returns.
abbrev pub Opens : (job_id round chunk_id : ℕ) → Tables → Option ℕ × Tables → Type 0
Opens job_id round chunk_id t r =
    (k : ℕ)
    → (r.1.slots k ≡ t.slots k)
      ⊎ ((r.0 ≡ some k) × (r.1.slots k ≡ fresh_slot job_id round chunk_id))

module _ (quota job_id round chunk_id : ℕ) where
  filled-Opens :
      (i : ℕ) (t : Tables) (jobs : Array JobEntry)
      → Opens job_id round chunk_id t (
        some i,
        record { slots = update t.slots i (fresh_slot job_id round chunk_id); jobs = jobs },
      )
  filled-Opens i t jobs k = elim (Bool-cases (k == i)) [
    | inl here ↦ inr (ground (arith, here), rw (update, here) refl)
    | inr apart ↦ inl (rw (update, apart) refl)
  ]

  grant_slot-Opens :
      (i j : ℕ) (t : Tables) (jobs : Array JobEntry)
      → Opens job_id round chunk_id t (grant_slot quota job_id round chunk_id i j t.slots jobs)
  unfolding grant_slot
  grant_slot-Opens i j t jobs k = elim (Bool-cases (at_quota quota (jobs j))) [
    | inl full ↦ rw full (inl refl)
    | inr room ↦ rw room (filled-Opens i t (update jobs j (admit_job (jobs j))) k)
  ]

  create_slot-Opens :
      (i : ℕ) (t : Tables)
      → Opens job_id round chunk_id t (create_slot quota job_id round chunk_id i t)
  unfolding create_slot
  create_slot-Opens i t = by_job (find_or_create_job job_id t.jobs)
    where
      by_job :
          (r : Option ℕ × Array JobEntry)
          → Opens job_id round chunk_id t (create_from quota job_id round chunk_id i t.slots r)
      by_job (none, jobs) k = filled-Opens i t jobs k
      by_job (some j, jobs) k = grant_slot-Opens i j t jobs k

  pub find_or_create_slot-Opens :
      (t : Tables)
      → Opens job_id round chunk_id t (find_or_create_slot quota job_id round chunk_id t)
  unfolding find_or_create_slot
  find_or_create_slot-Opens t = elim (Probe-cases (probe_slot t.slots job_id round chunk_id)) [
    | inl (i, v) ↦ rw (find_or_create_slot, v) (create_slot-Opens i t)
    | inr (inl (i, f)) ↦ rw (find_or_create_slot, f) (λ k. inl refl)
    | inr (inr full) ↦ rw (find_or_create_slot, full) (λ k. inl refl)
  ]
