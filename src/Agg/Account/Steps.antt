-- ===== src/Agg/Account/Steps.antt =====
-- The functions of userspace_agg/agg.c that change the tables, and the accounting.
use xdp_gradient_aggregation.Common.{
  ℕ, zero, suc, ◌+◌, ◌*◌, ◌<◌, ◌≤◌, ◌≡◌, refl, true, false, Array, update, arith, sym, ◌∙◌,
  Bool-cases, inl, inr,
}
use xdp_gradient_aggregation.Probe.{Probe-cases}
use xdp_gradient_aggregation.Agg.{Slot, JobEntry, Tables, job_capacity, slot_capacity}
use xdp_gradient_aggregation.Agg.Jobs.{
  probe_job, fresh_job, find_or_create_job-vacant, find_or_create_job-found,
  find_or_create_job-exhausted,
}
use xdp_gradient_aggregation.Agg.Jobs.Reach.{probe_job-found, probe_job-vacant}
use xdp_gradient_aggregation.Agg.Held.{held-fill, held-free, held-le, held_pos, held-keep}
use xdp_gradient_aggregation.Agg.Slots.{
  probe_slot, fresh_slot, grant_slot, create_slot, find_or_create_slot, free_slot, reap_slot,
  reap_from, reap_expired_slots, admit_job, reject_job, release_job, at_quota, is_expired,
}
use xdp_gradient_aggregation.Agg.Slots.Probing.{probe_slot-vacant}
use xdp_gradient_aggregation.Agg.Account.{
  IsAccounted, track-IsAccounted, recount-IsAccounted, untracked-IsAccounted,
}

module _ {quota : ℕ} {t : Tables} (acc : IsAccounted quota t) where
  -- A tracked job takes the free entry `i`, or is refused it at its quota.
  module _ (j i : ℕ) (s : Slot) (lt : j < job_capacity) (used : (t.jobs j).in_use ≡ true) where
    admit-IsAccounted :
        i < slot_capacity
        → (t.slots i).in_use ≡ false
        → s.in_use ≡ true
        → s.job_id ≡ (t.jobs j).job_id
        → at_quota quota (t.jobs j) ≡ false
        → IsAccounted quota
            (record { slots = update t.slots i s; jobs = update t.jobs j (admit_job (t.jobs j)) })
    admit-IsAccounted lti free su same room =
        let count = acc.counted j lt used in
        let most = held-le t.slots (t.jobs j).job_id in
        recount-IsAccounted acc (update t.slots i s) j (admit_job (t.jobs j)) lt used used refl
          (ground (arith, held-fill t.slots i s (t.jobs j).job_id lti free su))
          (λ pos. ground arith) (λ id ne. ground (arith, held-fill t.slots i s id lti free su))

    reject-IsAccounted :
        IsAccounted quota
          (record { slots = t.slots; jobs = update t.jobs j (reject_job (t.jobs j)) })
    reject-IsAccounted =
        recount-IsAccounted acc t.slots j (reject_job (t.jobs j)) lt used used refl
          (acc.counted j lt used) (λ pos. acc.within pos j lt used) (λ id ne. refl)

    release-IsAccounted :
        i < slot_capacity
        → (t.slots i).in_use ≡ true
        → s.in_use ≡ false
        → (t.slots i).job_id ≡ (t.jobs j).job_id
        → IsAccounted quota
            (record { slots = update t.slots i s; jobs = update t.jobs j (release_job (t.jobs j)) })
    release-IsAccounted lti su free same =
        let count = acc.counted j lt used in
        recount-IsAccounted acc (update t.slots i s) j (release_job (t.jobs j)) lt used
          (ground arith) (ground arith)
          (ground (arith, held-free t.slots i s (t.jobs j).job_id lti su free))
          (λ pos. ground (arith, acc.within pos j lt used))
          (λ id ne. ground (arith, held-free t.slots i s id lti su free))

module _ (quota job_id round chunk_id i : ℕ) where
  -- The same for a job that has an entry `j`.
  tracked-IsAccounted :
      (slots : Array Slot) (jobs : Array JobEntry) (j : ℕ)
      → IsAccounted quota (record { slots = slots; jobs = jobs })
      → j < job_capacity
      → (jobs j).in_use ≡ true
      → (jobs j).job_id ≡ job_id
      → i < slot_capacity
      → (slots i).in_use ≡ false
      → IsAccounted quota (grant_slot quota job_id round chunk_id i j slots jobs).1
  unfolding grant_slot
  tracked-IsAccounted slots jobs j acc lt used same lti free =
      elim (Bool-cases (at_quota quota (jobs j))) [
        | inl full ↦ rw full (reject-IsAccounted acc j i (fresh_slot job_id round chunk_id) lt used)
        | inr room ↦ rw room (
            admit-IsAccounted acc j i (fresh_slot job_id round chunk_id) lt used lti free refl
              (sym same) room)
      ]

  create_slot-IsAccounted :
      (t : Tables)
      → IsAccounted quota t
      → i < slot_capacity
      → (t.slots i).in_use ≡ false
      → IsAccounted quota (create_slot quota job_id round chunk_id i t).1
  unfolding create_slot
  create_slot-IsAccounted t acc lti free = elim (Probe-cases (probe_job t.jobs job_id)) [
    | inl (j, v) ↦
        rw (create_slot, find_or_create_job-vacant job_id t.jobs v)
          (tracked-IsAccounted t.slots (update t.jobs j (fresh_job job_id)) j
            (track-IsAccounted acc job_id j v) (probe_job-vacant t.jobs job_id j v).0 (ground arith)
            (ground arith) lti free)
    | inr (inl (j, f)) ↦
        let (lt, used, same) = probe_job-found t.jobs job_id j f in
        rw (create_slot, find_or_create_job-found job_id t.jobs f)
          (tracked-IsAccounted t.slots t.jobs j acc lt used same lti free)
    | inr (inr full) ↦
        rw (create_slot, find_or_create_job-exhausted job_id t.jobs full)
          (untracked-IsAccounted acc _ job_id full (λ k ne.
            ground (arith, held-fill t.slots i (fresh_slot job_id round chunk_id) k lti free refl)))
  ]

-- find_or_create_slot keeps the accounting, whether it finds, creates or refuses.
pub find_or_create_slot-IsAccounted :
    (quota job_id round chunk_id : ℕ) (t : Tables)
    → IsAccounted quota t
    → IsAccounted quota (find_or_create_slot quota job_id round chunk_id t).1
unfolding find_or_create_slot
find_or_create_slot-IsAccounted quota job_id round chunk_id t acc =
    elim (Probe-cases (probe_slot t.slots job_id round chunk_id)) [
      | inl (i, v) ↦
          let (lt, free) = probe_slot-vacant t.slots job_id round chunk_id i v in
          rw (find_or_create_slot, v)
            (create_slot-IsAccounted quota job_id round chunk_id i t acc lt free)
      | inr (inl (i, f)) ↦ rw (find_or_create_slot, f) acc
      | inr (inr full) ↦ rw (find_or_create_slot, full) acc
    ]

-- free_slot keeps the accounting of a slot in use.
pub free_slot-IsAccounted :
    (quota i : ℕ) (t : Tables)
    → IsAccounted quota t
    → i < slot_capacity
    → (t.slots i).in_use ≡ true
    → IsAccounted quota (free_slot i t)
unfolding free_slot
free_slot-IsAccounted quota i t acc lt used =
    let id = (t.slots i).job_id in
    let s = record (t.slots i) { in_use = false } in
    elim (Probe-cases (probe_job t.jobs id)) [
      | inl (j, v) ↦ absurd (omega (arith, acc.untracked id j v, held_pos t.slots i lt used))
      | inr (inl (j, f)) ↦
          let (ltj, usedj, same) = probe_job-found t.jobs id j f in
          rw (free_slot, find_or_create_job-found id t.jobs f, find_or_create_job-found id t.jobs f)
            (release-IsAccounted acc j i s ltj usedj lt used refl (sym same))
      | inr (inr full) ↦
          rw
            (
              free_slot,
              find_or_create_job-exhausted id t.jobs full,
              find_or_create_job-exhausted id t.jobs full,
            )
            (untracked-IsAccounted acc _ id full
              (λ k ne. ground (arith, held-free t.slots i s k lt used refl)))
    ]

-- A write to a slot that keeps its use and its job keeps the accounting.
pub write-IsAccounted :
    (quota i : ℕ) (s : Slot) (t : Tables)
    → IsAccounted quota t
    → i < slot_capacity
    → s.in_use ≡ (t.slots i).in_use
    → s.job_id ≡ (t.slots i).job_id
    → IsAccounted quota (record t { slots = update t.slots i s })
write-IsAccounted quota i s t acc lt used same = record {
  reachable = acc.reachable;
  counted = λ x ltx ux. acc.counted x ltx ux ∙ sym (held-keep t.slots i s _ lt used same);
  untracked = λ id x v. held-keep t.slots i s id lt used same ∙ acc.untracked id x v;
  within = acc.within;
}

reap_slot-IsAccounted :
    (quota now ttl i : ℕ) (t : Tables)
    → IsAccounted quota t
    → i < slot_capacity
    → IsAccounted quota (reap_slot now ttl i t)
unfolding reap_slot
reap_slot-IsAccounted quota now ttl i t acc lt =
    elim (Bool-cases (is_expired now ttl (t.slots i))) [
      | inl old ↦ rw (reap_slot, old) (free_slot-IsAccounted quota i t acc lt (ground arith))
      | inr young ↦ rw (reap_slot, young) acc
    ]

reap_from-IsAccounted :
    (quota now ttl left i : ℕ) (t : Tables)
    → IsAccounted quota t
    → i + left ≤ slot_capacity
    → IsAccounted quota (reap_from now ttl left i t)
unfolding reap_from
reap_from-IsAccounted quota now ttl zero i t acc le = acc
reap_from-IsAccounted quota now ttl (suc left) i t acc le =
    reap_from-IsAccounted quota now ttl left (i + 1) (reap_slot now ttl i t)
      (reap_slot-IsAccounted quota now ttl i t acc (omega arith)) (omega arith)

-- The reaper keeps the accounting: each eviction is taken off its job's counter.
pub reap_expired_slots-IsAccounted :
    (quota now slot_ttl_ms : ℕ) (t : Tables)
    → IsAccounted quota t
    → IsAccounted quota (reap_expired_slots now slot_ttl_ms t)
unfolding reap_expired_slots
reap_expired_slots-IsAccounted quota now slot_ttl_ms t acc =
    reap_from-IsAccounted quota now (slot_ttl_ms * 1000) slot_capacity 0 t acc (omega arith)
