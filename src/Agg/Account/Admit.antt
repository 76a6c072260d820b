-- ===== src/Agg/Account/Admit.antt =====
-- The admission of userspace_agg/agg.c: which job gets a new slot.
use xdp_gradient_aggregation.Common.{
  ℕ, ◌^◌, ◌<◌, ◌≡◌, ◌≢◌, ap, ◌∙◌, true, false, Bool-cases, inl, inr, ltb, if◌then◌else◌, none, some,
  Array, update, arith,
}
use xdp_gradient_aggregation.Probe.{vacant, exhausted, Probe-cases}
use xdp_gradient_aggregation.Agg.{Slot, JobEntry, Tables}
use xdp_gradient_aggregation.Agg.Held.{held}
use xdp_gradient_aggregation.Agg.Jobs.{
  probe_job, fresh_job, find_or_create_job-vacant, find_or_create_job-found,
}
use xdp_gradient_aggregation.Agg.Jobs.Reach.{probe_job-found}
use xdp_gradient_aggregation.Agg.Slots.{
  probe_slot, at_quota, grant_slot, create_from, create_slot, find_or_create_slot,
}
use xdp_gradient_aggregation.Agg.Account.{IsAccounted}

module _ (quota job_id round chunk_id i : ℕ) where
  -- An entry whose counter is `n` decides by `n`.
  grant_slot_by :
      (j n : ℕ) (slots : Array Slot) (jobs : Array JobEntry)
      → 0 < quota
      → quota < 2 ^ 32
      → (jobs j).concurrent_slots ≡ n
      → (grant_slot quota job_id round chunk_id i j slots jobs).0
        ≡ (if ltb n quota then some i else none)
  unfolding grant_slot
  grant_slot_by j n slots jobs pos small e = elim (Bool-cases (at_quota quota (jobs j))) [
    | inl full ↦
        let most : ltb n quota ≡ false = ground (arith, full, e) in rw (grant_slot, full, most)
    | inr room ↦
        let more : ltb n quota ≡ true = ground (arith, room, e) in rw (grant_slot, room, more)
  ]

  -- Where the accounting holds and the quota is set and fits 32 bits, a job that has an entry, or
  -- that the job table has room for, is given the vacant entry of its key exactly when it holds
  -- fewer slots in use than the quota, and is refused otherwise.
  pub find_or_create_slot-held :
      (t : Tables)
      → IsAccounted quota t
      → 0 < quota
      → quota < 2 ^ 32
      → probe_slot t.slots job_id round chunk_id ≡ vacant i
      → probe_job t.jobs job_id ≢ exhausted
      → (find_or_create_slot quota job_id round chunk_id t).0
        ≡ (if ltb (held t.slots job_id) quota then some i else none)
  unfolding find_or_create_slot create_slot create_from
  find_or_create_slot-held t acc pos small free room =
      elim (Probe-cases (probe_job t.jobs job_id)) [
        | inl (j, v) ↦
            rw (find_or_create_slot, free, find_or_create_job-vacant job_id t.jobs v)
              (grant_slot_by j (held t.slots job_id) t.slots (update t.jobs j (fresh_job job_id))
                pos small (ground (arith, acc.untracked job_id j v)))
        | inr (inl (j, f)) ↦
            let (lt, used, same) = probe_job-found t.jobs job_id j f in
            rw (find_or_create_slot, free, find_or_create_job-found job_id t.jobs f)
              (grant_slot_by j (held t.slots job_id) t.slots t.jobs pos small
                (acc.counted j lt used ∙ ap (λ (x : ℕ). held t.slots x) same))
        | inr (inr full) ↦ absurd (room full)
      ]
