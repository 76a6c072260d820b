-- ===== src/Agg.antt =====
-- userspace_agg/agg.c: the state of the process. The children follow the file: the job table, the
-- slot table, the reaper, one packet, and the main loop.
pub mod Round
pub mod Main
pub mod Exit
pub mod Jobs
pub mod Held
pub mod Account
pub mod Slots
pub mod Packet
pub mod Loop
pub mod Run
pub mod Orphan
pub mod Waiting
use xdp_gradient_aggregation.Common.{ℕ, ◌^◌, Bool, true, false, Array}

-- SLOT_TABLE_CAPACITY, JOB_TABLE_CAPACITY and MAX_TRACKED_WORKERS.
abbrev pub slot_capacity : ℕ
slot_capacity = 65536

abbrev pub job_capacity : ℕ
job_capacity = 256

abbrev pub max_tracked_workers : ℕ
max_tracked_workers = 256

-- `slot_t`. A sum is the bit pattern of its int32_t.
pub record Slot : Type 0 where
  pub in_use : Bool
  pub job_id : ℕ
  pub round : ℕ
  pub chunk_id : ℕ
  pub num_workers_expected : ℕ
  pub contributions_received : ℕ
  pub sum : Array ℕ
  pub chunk_len : ℕ
  pub seen_worker : Array Bool
  pub first_seen_micros : ℕ
  pub last_touched_micros : ℕ

-- A slot whose bytes are all 0, as in the initial table and after `memset`.
abbrev pub zero_slot : Slot
zero_slot = record {
  in_use = false;
  job_id = 0;
  round = 0;
  chunk_id = 0;
  num_workers_expected = 0;
  contributions_received = 0;
  sum = λ i. 0;
  chunk_len = 0;
  seen_worker = λ w. false;
  first_seen_micros = 0;
  last_touched_micros = 0;
}

-- `job_entry_t`
pub record JobEntry : Type 0 where
  pub in_use : Bool
  pub job_id : ℕ
  pub concurrent_slots : ℕ
  pub admitted_count : ℕ
  pub rejected_count : ℕ

abbrev pub zero_job : JobEntry
zero_job = record {
  in_use = false;
  job_id = 0;
  concurrent_slots = 0;
  admitted_count = 0;
  rejected_count = 0;
}

-- `g_slots` and `g_jobs`
pub record Tables : Type 0 where
  pub slots : Array Slot
  pub jobs : Array JobEntry

abbrev pub empty_tables : Tables
empty_tables = record { slots = λ i. zero_slot; jobs = λ i. zero_job }
