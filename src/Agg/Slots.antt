-- ===== src/Agg/Slots.antt =====
-- userspace_agg/agg.c: slot_key, find_or_create_slot, free_slot and reap_expired_slots. A pointer
-- into `g_slots` is its index. `quota` is g_job_quota, with 0 for any value that is not positive.
pub mod Probing
pub mod Key
pub mod Reap
use xdp_gradient_aggregation.Common.{
  ℕ, zero, suc, ◌+◌, ◌-◌, ◌*◌, ◌/◌, ◌^◌, ◌%◌, ◌<◌, ◌≡◌, bit_and, bit_xor, Bool, true, false, ◌&&◌,
  ◌==◌, ltb, leb, if◌then◌else◌, Option, none, some, List, [], ◌∷◌, Array, update, u8, u32, u64,
  ◌>>>◌, arith, and_mask, ◌∙◌,
}
use xdp_gradient_aggregation.Probe.{Probe, vacant, found, exhausted, probe_from}
use xdp_gradient_aggregation.Agg.{Slot, zero_slot, JobEntry, Tables, slot_capacity}
use xdp_gradient_aggregation.Agg.Jobs.{find_or_create_job}

-- The four bytes of a uint32_t in memory.
abbrev pub bytes32 : ℕ → List ℕ → List ℕ
bytes32 v rest = u8 v ∷ u8 (v >>> 8) ∷ u8 (v >>> 16) ∷ u8 (v >>> 24) ∷ rest

unfoldable pub fnv_from : ℕ → List ℕ → ℕ
fnv_from h [] = h
fnv_from h (b ∷ bytes) = fnv_from (u64 (bit_xor h b * 1099511628211)) bytes

-- FNV-1a over the three fields.
unfoldable pub slot_key : ℕ → ℕ → ℕ → ℕ
unfolding fnv_from
slot_key job_id round chunk_id =
    fnv_from 1469598103934665603 (bytes32 job_id (bytes32 round (bytes32 chunk_id [])))

-- `(h + probe) & (SLOT_TABLE_CAPACITY - 1)`
unfoldable pub slot_index : ℕ → ℕ → ℕ
slot_index h k = bit_and (u64 (h + k)) (slot_capacity - 1)

abbrev pub has_key : ℕ → ℕ → ℕ → Slot → Bool
has_key job_id round chunk_id s = s.job_id == job_id && (s.round == round && s.chunk_id == chunk_id)

-- The loop of find_or_create_slot over the table.
unfoldable pub probe_slot : Array Slot → ℕ → ℕ → ℕ → Probe
probe_slot slots job_id round chunk_id =
    probe_from (slot_index (slot_key job_id round chunk_id)) (λ i. (slots i).in_use)
      (λ i. has_key job_id round chunk_id (slots i)) slot_capacity 0

abbrev pub fresh_slot : ℕ → ℕ → ℕ → Slot
fresh_slot job_id round chunk_id = record zero_slot {
  in_use = true;
  job_id = job_id;
  round = round;
  chunk_id = chunk_id;
}

-- The counters of a job when a slot is admitted, refused and freed.
abbrev pub admit_job : JobEntry → JobEntry
admit_job j = record j {
  concurrent_slots = u32 (j.concurrent_slots + 1);
  admitted_count = u32 (j.admitted_count + 1);
}

abbrev pub reject_job : JobEntry → JobEntry
reject_job j = record j { rejected_count = u32 (j.rejected_count + 1) }

abbrev pub release_job : JobEntry → JobEntry
release_job j =
    if ltb 0 j.concurrent_slots then record j { concurrent_slots = j.concurrent_slots - 1 } else j

abbrev pub at_quota : ℕ → JobEntry → Bool
at_quota quota j = ltb 0 quota && leb (u32 quota) j.concurrent_slots

-- The admission of a new slot in the free entry `i`, for the job of entry `j`.
unfoldable pub grant_slot :
    (quota job_id round chunk_id i j : ℕ) → Array Slot → Array JobEntry → Option ℕ × Tables
grant_slot quota job_id round chunk_id i j slots jobs =
    if at_quota quota (jobs j)
    then (none, record { slots = slots; jobs = update jobs j (reject_job (jobs j)) })
    else (
      some i,
      record {
        slots = update slots i (fresh_slot job_id round chunk_id);
        jobs = update jobs j (admit_job (jobs j));
      },
    )

-- The branch that creates a slot in the free entry `i`, behind find_or_create_job: without an
-- entry for the job there is no quota.
unfoldable pub create_from :
    (quota job_id round chunk_id i : ℕ) → Array Slot → Option ℕ × Array JobEntry → Option ℕ × Tables
unfolding grant_slot
create_from quota job_id round chunk_id i slots (none, jobs) =
    (some i, record { slots = update slots i (fresh_slot job_id round chunk_id); jobs = jobs })
create_from quota job_id round chunk_id i slots (some j, jobs) =
    grant_slot quota job_id round chunk_id i j slots jobs

unfoldable pub create_slot : (quota job_id round chunk_id i : ℕ) → Tables → Option ℕ × Tables
unfolding create_from
create_slot quota job_id round chunk_id i t =
    create_from quota job_id round chunk_id i t.slots (find_or_create_job job_id t.jobs)

unfoldable pub find_or_create_slot : (quota job_id round chunk_id : ℕ) → Tables → Option ℕ × Tables
unfolding create_slot
find_or_create_slot quota job_id round chunk_id t =
    elim (probe_slot t.slots job_id round chunk_id) [
      | vacant i ↦ create_slot quota job_id round chunk_id i t
      | found i ↦ (some i, t)
      | exhausted ↦ (none, t)
    ]

unfoldable pub free_slot : ℕ → Tables → Tables
free_slot i t =
    let (job, jobs) = find_or_create_job (t.slots i).job_id t.jobs in
    let slots = update t.slots i (record (t.slots i) { in_use = false }) in
    elim job [
      | none ↦ record { slots = slots; jobs = jobs }
      | some j ↦ record { slots = slots; jobs = update jobs j (release_job (jobs j)) }
    ]

-- `now - last_touched_micros >= ttl_micros`, without the negative differences of a clock that
-- was set back.
abbrev pub is_expired : ℕ → ℕ → Slot → Bool
is_expired now ttl_micros s = s.in_use && leb (s.last_touched_micros + ttl_micros) now

-- The body of the scan at entry `i`.
unfoldable pub reap_slot : ℕ → ℕ → ℕ → Tables → Tables
reap_slot now ttl_micros i t = if is_expired now ttl_micros (t.slots i) then free_slot i t else t

unfoldable pub reap_from : ℕ → ℕ → (left i : ℕ) → Tables → Tables
reap_from now ttl_micros zero i t = t
reap_from now ttl_micros (suc left) i t =
    reap_from now ttl_micros left (i + 1) (reap_slot now ttl_micros i t)

unfoldable pub reap_expired_slots : ℕ → ℕ → Tables → Tables
unfolding reap_from reap_slot
reap_expired_slots now slot_ttl_ms t = reap_from now (slot_ttl_ms * 1000) slot_capacity 0 t

pub slot_index-mod : (h k : ℕ) → slot_index h k ≡ (h + k) % slot_capacity
unfolding slot_index
slot_index-mod h k = omega (arith, and_mask 16 (u64 (h + k)))

pub slot_index-lt : (h k : ℕ) → slot_index h k < slot_capacity
slot_index-lt h k = omega (arith, slot_index-mod h k)
