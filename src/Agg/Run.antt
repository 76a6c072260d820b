-- ===== src/Agg/Run.antt =====
-- Whole runs of userspace_agg/agg.c: the accounting of the quota through every step of the loop.
use xdp_gradient_aggregation.Common.{
  ℕ, ◌^◌, ◌<◌, ◌≤◌, ◌≡◌, refl, true, Option, none, some, List, Array, update, arith, Bool-cases,
  inl, inr,
}
use xdp_gradient_aggregation.Proto.{Buf}
use xdp_gradient_aggregation.Probe.{found}
use xdp_gradient_aggregation.Agg.{Slot, Tables, empty_tables, slot_capacity}
use xdp_gradient_aggregation.Agg.Held.{held}
use xdp_gradient_aggregation.Agg.Jobs.{probe_job}
use xdp_gradient_aggregation.Agg.Jobs.Reach.{probe_job-found}
use xdp_gradient_aggregation.Agg.Slots.Key.{find_or_create_slot-IsSlotOf}
use xdp_gradient_aggregation.Agg.Account.{IsAccounted, empty-IsAccounted}
use xdp_gradient_aggregation.Agg.Account.Steps.{
  find_or_create_slot-IsAccounted, free_slot-IsAccounted, write-IsAccounted,
  reap_expired_slots-IsAccounted,
}
use xdp_gradient_aggregation.Agg.Packet.{
  Packet, Clock, Verdict, mismatch, duplicate, partial, complete, decode, value_of, is_well_formed,
  latch, absorb, judge, contribute, settle, handle, process_packet,
}
use xdp_gradient_aggregation.Agg.Loop.Kept.{run-kept}
use xdp_gradient_aggregation.Agg.Loop.{Config, Input, Process, run}

abbrev pub SameKey : Slot → Slot → Type 0
SameKey s' s =
    (s'.in_use ≡ s.in_use)
    × (s'.job_id ≡ s.job_id)
    × (s'.round ≡ s.round)
    × (s'.chunk_id ≡ s.chunk_id)

-- A contribution keeps the use and the key of its slot.
pub contribute-SameKey :
    (clock : Clock) (p : Packet) (v : Array ℕ) (s : Slot) → SameKey (contribute clock p v s).1 s
unfolding contribute latch absorb judge
contribute-SameKey clock p v s = ground arith

module _ (quota : ℕ) where
  settle-IsAccounted :
      (p : Packet) (i : ℕ) (r : Verdict × Slot) (t : Tables) (out : Buf)
      → IsAccounted quota t
      → i < slot_capacity
      → (t.slots i).in_use ≡ true
      → SameKey r.1 (t.slots i)
      → IsAccounted quota (settle p i r t out).tables
  unfolding settle
  settle-IsAccounted p i (mismatch, s) t out acc lt used k =
      write-IsAccounted quota i s t acc lt k.0 k.1
  settle-IsAccounted p i (duplicate, s) t out acc lt used k =
      write-IsAccounted quota i s t acc lt k.0 k.1
  settle-IsAccounted p i (partial, s) t out acc lt used k =
      write-IsAccounted quota i s t acc lt k.0 k.1
  settle-IsAccounted p i (complete, s) t out acc lt used k =
      free_slot-IsAccounted quota i (record t { slots = update t.slots i s })
        (write-IsAccounted quota i s t acc lt k.0 k.1) lt (ground arith)

  handle-IsAccounted :
      (clock : Clock) (p : Packet) (v : Array ℕ) (r : Option ℕ × Tables) (out : Buf)
      → IsAccounted quota r.1
      → ((i : ℕ) → r.0 ≡ some i → (i < slot_capacity) × ((r.1.slots i).in_use ≡ true))
      → IsAccounted quota (handle clock p v r out).tables
  unfolding handle
  handle-IsAccounted clock p v (none, t) out acc slot = acc
  handle-IsAccounted clock p v (some i, t) out acc slot =
      settle-IsAccounted p i (contribute clock p v (t.slots i)) t out acc (slot i refl).0
        (slot i refl).1 (contribute-SameKey clock p v (t.slots i))

  -- A packet keeps the accounting, on every branch.
  pub process_packet-IsAccounted :
      (clock : Clock) (b : Buf) (n : ℕ) (t : Tables) (out : Buf)
      → IsAccounted quota t
      → IsAccounted quota (process_packet quota clock b n t out).tables
  unfolding process_packet
  process_packet-IsAccounted clock b n t out acc = elim (Bool-cases (is_well_formed (decode b) n)) [
    | inr bad ↦ rw (process_packet, bad) acc
    | inl good ↦
        let p = decode b in
        let kept = find_or_create_slot-IsAccounted quota p.job_id p.round p.chunk_id t acc in
        let known = find_or_create_slot-IsSlotOf quota p.job_id p.round p.chunk_id t in
        rw (process_packet, good)
          (handle-IsAccounted clock p (value_of b) _ out kept
            (λ i e. ((known i e).0, (known i e).1)))
  ]

module _ (config : Config) where
  -- Every run of the main loop of agg.c keeps the accounting of the job table: entries are where
  -- their probe finds them, each counter is the number of the job's slots in use, jobs without an
  -- entry that there is room for hold none, and under a quota no counter is above it.
  pub run-IsAccounted :
      (inputs : List Input) (s : Process)
      → IsAccounted config.job_quota s.tables
      → IsAccounted config.job_quota (run config inputs s).1.tables
  run-IsAccounted =
      run-kept config (IsAccounted config.job_quota)
        (λ now t. reap_expired_slots-IsAccounted config.job_quota now config.slot_ttl_ms t)
        (process_packet-IsAccounted config.job_quota)

-- main before the loop.
abbrev pub start : (now : ℕ) → Process
start now = record {
  tables = empty_tables;
  in_packet = λ i. 0;
  out_packet = λ i. 0;
  packets_in = 0;
  packets_out = 0;
  last_reap_micros = now;
}

-- From the empty tables, with a job quota between 1 and 2^32 - 1, after any sequence of iterations
-- of the main loop, a job that the job table has an entry for holds at most the quota's number of
-- slots in use.
pub held-run_le_quota :
    (config : Config) (inputs : List Input) (now id i : ℕ)
    → 0 < config.job_quota
    → config.job_quota < 2 ^ 32
    → probe_job (run config inputs (start now)).1.tables.jobs id ≡ found i
    → held (run config inputs (start now)).1.tables.slots id ≤ config.job_quota
held-run_le_quota config inputs now id i pos small f =
    let acc = run-IsAccounted config inputs (start now) (empty-IsAccounted config.job_quota) in
    let (lt, used, same) = probe_job-found _ id i f in
    let within = acc.within pos i lt used in
    let counted = rw same at (acc.counted i lt used) in omega (arith, within, counted)
