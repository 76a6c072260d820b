-- ===== src/Agg/Account.antt =====
-- The accounting of the fairness quota of userspace_agg/agg.c: each job's `concurrent_slots` against
-- the slots that it holds, and the quota.
pub mod Steps
pub mod Admit
use xdp_gradient_aggregation.Common.{
  ℕ, ◌+◌, ◌<◌, ◌≤◌, ◌≡◌, ◌≢◌, refl, ◌==◌, ==_iff, Bool, true, false, Option, none, some, Array,
  update, u32, arith, ap, sym, ◌∙◌, Bool-cases, inl, inr,
}
use xdp_gradient_aggregation.Probe.{Probe, vacant, found, exhausted}
use xdp_gradient_aggregation.Agg.{Slot, JobEntry, Tables, job_capacity, empty_tables}
use xdp_gradient_aggregation.Agg.Jobs.{probe_job, fresh_job}
use xdp_gradient_aggregation.Agg.Jobs.Reach.{
  IsReachable, probe_job-found, probe_job-vacant, probe_job-update, found-fresh, vacant_old,
  fresh-IsReachable,
}
use xdp_gradient_aggregation.Agg.Held.{held, held-empty}

pub record IsAccounted (quota : ℕ) (t : Tables) : Type 0 where
  pub reachable : IsReachable t.jobs
  -- the counter of a job is the number of its slots
  pub counted :
      (i : ℕ)
      → i < job_capacity
      → (t.jobs i).in_use ≡ true
      → (t.jobs i).concurrent_slots ≡ held t.slots (t.jobs i).job_id
  -- a job that the table has room for, and no entry of, holds nothing
  pub untracked : (id x : ℕ) → probe_job t.jobs id ≡ vacant x → held t.slots id ≡ 0
  -- no job is over the quota
  pub within :
      0 < quota
      → (i : ℕ) → i < job_capacity
      → (t.jobs i).in_use ≡ true
      → (t.jobs i).concurrent_slots ≤ u32 quota

pub empty-IsAccounted : (quota : ℕ) → IsAccounted quota empty_tables
empty-IsAccounted quota = record {
  reachable = λ i lt used. cc;
  counted = λ i lt used. cc;
  untracked = λ id x e. held-empty id;
  within = λ pos i lt used. cc;
}

module _ {quota : ℕ} {t : Tables} (acc : IsAccounted quota t) where
  -- A new entry starts at 0, which is what its job holds.
  pub track-IsAccounted :
      (id i : ℕ)
      → probe_job t.jobs id ≡ vacant i
      → IsAccounted quota (record t { jobs = update t.jobs i (fresh_job id) })
  track-IsAccounted id i free = record {
    reachable = fresh-IsReachable t.jobs id i free acc.reachable;
    counted = λ x lt used. elim (Bool-cases (x == i)) [
      | inl e ↦ rw e (sym (acc.untracked id i free))
      | inr ne ↦ rw ne (acc.counted x lt (rw ne at used))
    ];
    untracked = λ k x e. let (y, old) = vacant_old t.jobs id i free k x e in acc.untracked k y old;
    within = λ pos x lt used. elim (Bool-cases (x == i)) [
      | inl e ↦ rw e (omega arith)
      | inr ne ↦ rw ne (acc.within pos x lt (rw ne at used))
    ];
  }

  -- Two entries in use have different jobs.
  entries_differ :
      (x j : ℕ)
      → x < job_capacity
      → j < job_capacity
      → (t.jobs x).in_use ≡ true
      → (t.jobs j).in_use ≡ true
      → (x == j) ≡ false
      → (t.jobs x).job_id ≢ (t.jobs j).job_id
  entries_differ x j ltx ltj ux uj ne same =
      let at_x = acc.reachable x ltx ux in
      let at_j = acc.reachable j ltj uj in let also_j = rw same at at_x in ground arith

  -- The slots of one tracked job change, and its counter with them.
  pub recount-IsAccounted :
      (slots : Array Slot) (j : ℕ) (e : JobEntry)
      → j < job_capacity
      → (t.jobs j).in_use ≡ true
      → e.in_use ≡ true
      → e.job_id ≡ (t.jobs j).job_id
      → e.concurrent_slots ≡ held slots (t.jobs j).job_id
      → (0 < quota → e.concurrent_slots ≤ u32 quota)
      → ((id : ℕ) → id ≢ (t.jobs j).job_id → held slots id ≡ held t.slots id)
      → IsAccounted quota (record { slots = slots; jobs = update t.jobs j e })
  recount-IsAccounted slots j e lt used eu eid count bound others = record {
    reachable = λ x ltx ux. elim (Bool-cases (x == j)) [
      | inl h ↦
          let same = (==_iff x j).0 h in
          rw (probe_job-update t.jobs j e _ (eu ∙ sym used) eid, h, same, eid)
            (acc.reachable j lt used)
      | inr ne ↦
          rw (probe_job-update t.jobs j e _ (eu ∙ sym used) eid, ne)
            (acc.reachable x ltx (rw ne at ux))
    ];
    counted = λ x ltx ux. elim (Bool-cases (x == j)) [
      | inl h ↦ rw (h, eid) count
      | inr ne ↦ rw ne (
          acc.counted x ltx (rw ne at ux)
          ∙ sym (others _ (entries_differ x j ltx lt (rw ne at ux) used ne)))
    ];
    untracked = λ id x v.
        let old = sym (probe_job-update t.jobs j e id (eu ∙ sym used) eid) ∙ v in
        let apart : id ≢ (t.jobs j).job_id = λ same.
          let here = acc.reachable j lt used in let there = rw (← same) at here in ground arith in
        others id apart ∙ acc.untracked id x old;
    within = λ pos x ltx ux. elim (Bool-cases (x == j)) [
      | inl h ↦ rw h (bound pos)
      | inr ne ↦ rw ne (acc.within pos x ltx (rw ne at ux))
    ];
  }

  -- The slots of a job change that the full table has no entry for.
  pub untracked-IsAccounted :
      (slots : Array Slot) (id : ℕ)
      → probe_job t.jobs id ≡ exhausted
      → ((k : ℕ) → k ≢ id → held slots k ≡ held t.slots k)
      → IsAccounted quota (record { slots = slots; jobs = t.jobs })
  untracked-IsAccounted slots id full others = record {
    reachable = acc.reachable;
    counted = λ x lt used.
        let apart : (t.jobs x).job_id ≢ id = λ same.
          let here = acc.reachable x lt used in let there = rw same at here in ground arith in
        acc.counted x lt used ∙ sym (others _ apart);
    untracked = λ k x v.
        let apart : k ≢ id = λ same. let there = rw same at v in ground arith in
        others k apart ∙ acc.untracked k x v;
    within = acc.within;
  }
