-- ===== src/Xdp/Maps.antt =====
-- The BPF hash maps of xdp_agg/xdp_agg.c. The kernel implements them, so they are a parameter, with
-- the laws that the helpers document; and the counters that the program keeps in them.
pub mod List
use xdp_gradient_aggregation.Common.{
  ℕ, ◌+◌, ◌-◌, ◌≡◌, ◌≢◌, Bool, ltb, if◌then◌else◌, Option, none, some, u32, u64,
}

pub record MapOps (K V : Type 0) : Type 1 where
  pub Map : Type 0
  -- bpf_map_lookup_elem
  pub lookup : Map → K → Option V
  -- bpf_map_update_elem with BPF_NOEXIST; `none` for an error
  pub insert : Map → K → V → Option Map
  -- a write through the pointer that a lookup returned
  pub store : Map → K → V → Map
  -- bpf_map_delete_elem
  pub erase : Map → K → Map
  pub lookup-insert :
      (m : Map) (k : K) (v : V) (m' : Map) → insert m k v ≡ some m' → lookup m' k ≡ some v
  pub lookup-insert_ne :
      (m : Map) (k j : K) (v : V) (m' : Map)
      → insert m k v ≡ some m'
      → j ≢ k
      → lookup m' j ≡ lookup m j
  pub lookup-store :
      (m : Map) (k : K) (u v : V) → lookup m k ≡ some u → lookup (store m k v) k ≡ some v
  pub lookup-store_ne : (m : Map) (k j : K) (v : V) → j ≢ k → lookup (store m k v) j ≡ lookup m j
  pub lookup-erase : (m : Map) (k : K) → lookup (erase m k) k ≡ none
  pub lookup-erase_ne : (m : Map) (k j : K) → j ≢ k → lookup (erase m k) j ≡ lookup m j

-- What stays of a map after an update whose return value is not read.
abbrev pub or_kept {ℓ} : {M : Type ℓ} → M → Option M → M
or_kept m none = m
or_kept m (some m') = m'

-- STAT_DROPPED_NO_CONFIG and STAT_DROPPED_FAIRNESS_QUOTA.
abbrev pub stat_no_config : ℕ
stat_no_config = 0

abbrev pub stat_fairness_quota : ℕ
stat_fairness_quota = 1

module _ (ops : MapOps ℕ ℕ) where
  open ops use {Map, lookup, insert, store}

  -- Under BPF_ANY, an update of a key that was not found inserts it.
  unfoldable pub bump_stat : ℕ → Map → Map
  bump_stat stat_key m = elim (lookup m stat_key) [
    | some cnt ↦ store m stat_key (u64 (cnt + 1))
    | none ↦ or_kept m (insert m stat_key 1)
  ]

  -- The value of a job's entry is its `concurrent_slots`.
  unfoldable pub job_quota_increment : ℕ → Map → Map
  job_quota_increment job_id m = elim (lookup m job_id) [
    | some n ↦ store m job_id (u32 (n + 1))
    | none ↦ elim (insert m job_id 1) [
      | some m' ↦ m'
      | none ↦ elim (lookup m job_id) [ some n ↦ store m job_id (u32 (n + 1)) | none ↦ m ]
    ]
  ]

  unfoldable pub job_quota_decrement : ℕ → Map → Map
  job_quota_decrement job_id m = elim (lookup m job_id) [
    | some n ↦ if ltb 0 n then store m job_id (n - 1) else m
    | none ↦ m
  ]
