-- ===== src/Agg/Slots/Key.antt =====
-- What find_or_create_slot of userspace_agg/agg.c returns.
use xdp_gradient_aggregation.Common.{
  ℕ, ◌<◌, ◌≡◌, ==_refl, true, Option, none, some, Array, update, arith, Bool-cases, inl, inr,
}
use xdp_gradient_aggregation.Probe.{Probe-cases}
use xdp_gradient_aggregation.Agg.{Slot, JobEntry, Tables, slot_capacity}
use xdp_gradient_aggregation.Agg.Jobs.{find_or_create_job}
use xdp_gradient_aggregation.Agg.Slots.{
  has_key, probe_slot, fresh_slot, at_quota, grant_slot, create_from, create_slot,
  find_or_create_slot,
}
use xdp_gradient_aggregation.Agg.Slots.Probing.{probe_slot-found, probe_slot-vacant}

-- A slot that was returned is an entry of the table, in use for the key.
abbrev pub IsSlotOf : ℕ → ℕ → ℕ → Option ℕ × Tables → Type 0
IsSlotOf job_id round chunk_id r =
    (i : ℕ)
    → r.0 ≡ some i
    → (i < slot_capacity)
      × ((r.1.slots i).in_use ≡ true)
      × (has_key job_id round chunk_id (r.1.slots i) ≡ true)

module _ (quota job_id round chunk_id : ℕ) where
  fresh-has_key : has_key job_id round chunk_id (fresh_slot job_id round chunk_id) ≡ true
  fresh-has_key = ground (arith, ==_refl job_id, ==_refl round, ==_refl chunk_id)

  filled-IsSlotOf :
      (i k : ℕ) (slots : Array Slot)
      → i < slot_capacity
      → some i ≡ some k
      → (k < slot_capacity)
        × ((update slots i (fresh_slot job_id round chunk_id) k).in_use ≡ true)
        × (has_key job_id round chunk_id (update slots i (fresh_slot job_id round chunk_id) k)
            ≡ true)
  filled-IsSlotOf i k slots lt e = ground (arith, fresh-has_key)

  grant_slot-IsSlotOf :
      (i j : ℕ) (slots : Array Slot) (jobs : Array JobEntry)
      → i < slot_capacity
      → IsSlotOf job_id round chunk_id (grant_slot quota job_id round chunk_id i j slots jobs)
  unfolding grant_slot
  grant_slot-IsSlotOf i j slots jobs lt k = elim (Bool-cases (at_quota quota (jobs j))) [
    | inl full ↦ rw full (λ e. cc)
    | inr room ↦ rw room (filled-IsSlotOf i k slots lt)
  ]

  create_slot-IsSlotOf :
      (i : ℕ) (t : Tables)
      → i < slot_capacity
      → IsSlotOf job_id round chunk_id (create_slot quota job_id round chunk_id i t)
  unfolding create_slot
  create_slot-IsSlotOf i t lt = by_job (find_or_create_job job_id t.jobs)
    where
      by_job :
          (r : Option ℕ × Array JobEntry)
          → IsSlotOf job_id round chunk_id (create_from quota job_id round chunk_id i t.slots r)
      by_job (none, jobs) k = filled-IsSlotOf i k t.slots lt
      by_job (some j, jobs) k = grant_slot-IsSlotOf i j t.slots jobs lt k

  -- A slot that find_or_create_slot of agg.c returns is an entry of the table, in use, and has the
  -- job, round and chunk that were asked for.
  pub find_or_create_slot-IsSlotOf :
      (t : Tables)
      → IsSlotOf job_id round chunk_id (find_or_create_slot quota job_id round chunk_id t)
  unfolding find_or_create_slot
  find_or_create_slot-IsSlotOf t = elim (Probe-cases (probe_slot t.slots job_id round chunk_id)) [
    | inl (i, v) ↦
        rw (find_or_create_slot, v)
          (create_slot-IsSlotOf i t (probe_slot-vacant t.slots job_id round chunk_id i v).0)
    | inr (inl (i, f)) ↦
        let known = probe_slot-found t.slots job_id round chunk_id i f in
        rw (find_or_create_slot, f) (λ k e. ground arith)
    | inr (inr full) ↦ rw (find_or_create_slot, full) (λ k e. cc)
  ]
