-- ===== src/Agg/Jobs.antt =====
-- userspace_agg/agg.c: job_hash and find_or_create_job. A pointer into `g_jobs` is its index.
pub mod Reach
use xdp_gradient_aggregation.Common.{
  ℕ, ◌+◌, ◌-◌, ◌*◌, ◌^◌, ◌%◌, ◌<◌, ◌≡◌, bit_and, bit_xor, Bool, true, ◌==◌, Option, none, some,
  Array, update, u32, ◌>>>◌, arith, and_mask,
}
use xdp_gradient_aggregation.Probe.{Probe, vacant, found, exhausted, probe_from}
use xdp_gradient_aggregation.Agg.{JobEntry, job_capacity}

unfoldable pub job_hash : ℕ → ℕ
job_hash job_id =
    let h = bit_xor job_id (job_id >>> 16) in
    let h = u32 (h * 0x85ebca6b) in
    let h = bit_xor h (h >>> 13) in let h = u32 (h * 0xc2b2ae35) in bit_xor h (h >>> 16)

-- `(h + probe) & (JOB_TABLE_CAPACITY - 1)`; the sum of a uint32_t and a small size_t does not wrap.
unfoldable pub job_index : ℕ → ℕ → ℕ
job_index job_id k = bit_and (job_hash job_id + k) (job_capacity - 1)

-- The loop of find_or_create_job over the table.
unfoldable pub probe_job : Array JobEntry → ℕ → Probe
probe_job jobs job_id =
    probe_from (job_index job_id) (λ i. (jobs i).in_use) (λ i. (jobs i).job_id == job_id)
      job_capacity 0

abbrev pub fresh_job : ℕ → JobEntry
fresh_job job_id = record {
  in_use = true;
  job_id = job_id;
  concurrent_slots = 0;
  admitted_count = 0;
  rejected_count = 0;
}

-- The entry's index, `none` for NULL, and the table with the entry.
unfoldable pub find_or_create_job : ℕ → Array JobEntry → Option ℕ × Array JobEntry
find_or_create_job job_id jobs = elim (probe_job jobs job_id) [
  | vacant i ↦ (some i, update jobs i (fresh_job job_id))
  | found i ↦ (some i, jobs)
  | exhausted ↦ (none, jobs)
]

pub job_index-mod : (job_id k : ℕ) → job_index job_id k ≡ (job_hash job_id + k) % job_capacity
unfolding job_index
job_index-mod job_id k = and_mask 8 (job_hash job_id + k)

pub job_index-lt : (job_id k : ℕ) → job_index job_id k < job_capacity
job_index-lt job_id k = omega (arith, job_index-mod job_id k)

-- The three ways in which find_or_create_job ends.
module _ (job_id : ℕ) (jobs : Array JobEntry) where
  pub find_or_create_job-vacant :
      {i : ℕ}
      → probe_job jobs job_id ≡ vacant i
      → find_or_create_job job_id jobs ≡ (some i, update jobs i (fresh_job job_id))
  unfolding find_or_create_job
  find_or_create_job-vacant v = rw (find_or_create_job, v)

  pub find_or_create_job-found :
      {i : ℕ} → probe_job jobs job_id ≡ found i → find_or_create_job job_id jobs ≡ (some i, jobs)
  unfolding find_or_create_job
  find_or_create_job-found f = rw (find_or_create_job, f)

  pub find_or_create_job-exhausted :
      probe_job jobs job_id ≡ exhausted → find_or_create_job job_id jobs ≡ (none, jobs)
  unfolding find_or_create_job
  find_or_create_job-exhausted e = rw (find_or_create_job, e)
