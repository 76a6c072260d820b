-- ===== src/Agg/Jobs/Reach.antt =====
-- The job table of userspace_agg/agg.c as a map. Entries are never removed.
use xdp_gradient_aggregation.Common.{
  ℕ, ◌<◌, ◌≡◌, ◌==◌, ==_iff, true, false, Array, update, arith, fun_ext, Bool-cases, inl, inr,
}
use xdp_gradient_aggregation.Probe.{vacant, found, probe_from, probe-found, probe-vacant}
use xdp_gradient_aggregation.Probe.Extend.{Extends, found-Extends, found_fill, vacant-Extends}
use xdp_gradient_aggregation.Agg.{JobEntry, job_capacity}
use xdp_gradient_aggregation.Agg.Jobs.{job_index, job_index-lt, probe_job, fresh_job}

abbrev pub IsReachable : Array JobEntry → Type 0
IsReachable jobs =
    (i : ℕ) → i < job_capacity → (jobs i).in_use ≡ true → probe_job jobs (jobs i).job_id ≡ found i

pub probe_job-found :
    (jobs : Array JobEntry) (id i : ℕ)
    → probe_job jobs id ≡ found i
    → (i < job_capacity) × ((jobs i).in_use ≡ true) × ((jobs i).job_id ≡ id)
unfolding probe_job
probe_job-found jobs id i e =
    let (lt, used, same) =
      probe-found (job_index id) (λ i. (jobs i).in_use) (λ i. (jobs i).job_id == id)
        (job_index-lt id) job_capacity 0 i e in
    (lt, used, (==_iff (jobs i).job_id id).0 same)

pub probe_job-vacant :
    (jobs : Array JobEntry) (id i : ℕ)
    → probe_job jobs id ≡ vacant i
    → (i < job_capacity) × ((jobs i).in_use ≡ false)
unfolding probe_job
probe_job-vacant jobs id i e =
    probe-vacant (job_index id) (λ i. (jobs i).in_use) (λ i. (jobs i).job_id == id)
      (job_index-lt id) job_capacity 0 i e

-- A change of the counters of an entry moves no entry.
pub probe_job-update :
    (jobs : Array JobEntry) (j : ℕ) (e : JobEntry) (id : ℕ)
    → e.in_use ≡ (jobs j).in_use
    → e.job_id ≡ (jobs j).job_id
    → probe_job (update jobs j e) id ≡ probe_job jobs id
unfolding probe_job
probe_job-update jobs j e id used same =
    let u : (λ (i : ℕ). (update jobs j e i).in_use) ≡ (λ (i : ℕ). (jobs i).in_use) =
      fun_ext (λ i. ground arith) in
    let k : (λ (i : ℕ). (update jobs j e i).job_id == id) ≡ (λ (i : ℕ). (jobs i).job_id == id) =
      fun_ext (λ i. ground arith) in
    λ i. probe_from (job_index id) (u i) (k i) job_capacity 0

-- A job that the table has no entry for gets the vacancy that its probe met.
module _ (jobs : Array JobEntry) (id i : ℕ) (free : probe_job jobs id ≡ vacant i) where
  extends :
      (k : ℕ)
      → Extends
          (λ x. (jobs x).in_use)
          (λ x. (jobs x).job_id == k)
          (λ x. (update jobs i (fresh_job id) x).in_use)
          (λ x. (update jobs i (fresh_job id) x).job_id == k)
  extends k x used = ground (arith, probe_job-vacant jobs id i free)

  pub found-fresh : probe_job (update jobs i (fresh_job id)) id ≡ found i
  unfolding probe_job
  found-fresh =
      found_fill (job_index id) (λ x. (jobs x).in_use) (λ x. (jobs x).job_id == id)
        (λ x. (update jobs i (fresh_job id) x).in_use)
        (λ x. (update jobs i (fresh_job id) x).job_id == id) (extends id) job_capacity 0 i free
        (ground arith) (ground arith)

  pub found_old :
      (k x : ℕ) → probe_job jobs k ≡ found x → probe_job (update jobs i (fresh_job id)) k ≡ found x
  unfolding probe_job
  found_old k x e =
      found-Extends (job_index k) (λ x. (jobs x).in_use) (λ x. (jobs x).job_id == k)
        (λ x. (update jobs i (fresh_job id) x).in_use)
        (λ x. (update jobs i (fresh_job id) x).job_id == k) (extends k) job_capacity 0 x e

  pub vacant_old :
      (k x : ℕ)
      → probe_job (update jobs i (fresh_job id)) k ≡ vacant x
      → (y : ℕ) × (probe_job jobs k ≡ vacant y)
  unfolding probe_job
  vacant_old k x e =
      vacant-Extends (job_index k) (λ x. (jobs x).in_use) (λ x. (jobs x).job_id == k)
        (λ x. (update jobs i (fresh_job id) x).in_use)
        (λ x. (update jobs i (fresh_job id) x).job_id == k) (extends k) job_capacity 0 x e

  pub fresh-IsReachable : IsReachable jobs → IsReachable (update jobs i (fresh_job id))
  fresh-IsReachable r x lt used = elim (Bool-cases (x == i)) [
    | inl e ↦ let same = (==_iff x i).0 e in rw (e, same) found-fresh
    | inr ne ↦ rw ne (found_old (jobs x).job_id x (r x lt (rw ne at used)))
  ]
