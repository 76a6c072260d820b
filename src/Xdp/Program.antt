-- ===== src/Xdp/Program.antt =====
-- xdp_agg/xdp_agg.c: netsum_xdp_aggregate, from the lookup of the packet's slot on.
pub mod Bounds
pub mod Isolated
pub mod Quota
pub mod Sent
use xdp_gradient_aggregation.Common.{
  ℕ, ◌*◌, Bool, true, false, ◌||◌, ◌==◌, ltb, leb, if◌then◌else◌, Option, none, some,
}
use xdp_gradient_aggregation.Proto.{Buf, hdr_at, bpf_ntohs, bpf_ntohl}
use xdp_gradient_aggregation.Xdp.Maps.{
  MapOps, bump_stat, job_quota_increment, job_quota_decrement, stat_no_config, stat_fairness_quota,
}
use xdp_gradient_aggregation.Xdp.Frame.{
  Parsed, pass, drop, gradient, parse, Config, grad_at, bitmap_bytes, retarget,
}
use xdp_gradient_aggregation.Xdp.Slot.{
  GradSlot, fresh_slot, Verdict, mismatch, duplicate, partial, complete, contribute, write_back,
}

-- `struct grad_slot_key`
pub record Key : Type 0 where
  pub job_id : ℕ
  pub round : ℕ
  pub chunk_id : ℕ

unfoldable pub key_of : Buf → Key
key_of frame =
    let hdr = hdr_at frame grad_at in
    record {
      job_id = bpf_ntohl hdr.job_id;
      round = bpf_ntohl hdr.round;
      chunk_id = bpf_ntohl hdr.chunk_id;
    }

-- The maps that the program writes.
pub record State (Slots Quotas Stats : Type 0) : Type 0 where
  pub slot_map : Slots
  pub job_quota_map : Quotas
  pub drop_stats : Stats

-- What the two lookups in config_map find: userspace may write it between them.
pub record Configs : Type 0 where
  pub precheck : Option Config
  pub completion : Option Config

pub data Action : Type 0 where
  xdp_pass xdp_drop xdp_tx : Action

pub record Outcome (S : Type 0) : Type 0 where
  pub action : Action
  pub frame : Buf
  pub state : S

module _ (quota_ops : MapOps ℕ ℕ) where
  unfoldable pub over_quota : Option Config → ℕ → quota_ops.Map → Bool
  over_quota none job_id quotas = false
  over_quota (some cfg) job_id quotas =
      if ltb 0 cfg.max_slots_per_job
      then elim (quota_ops.lookup quotas job_id) [
        | some concurrent_slots ↦ leb cfg.max_slots_per_job concurrent_slots
        | none ↦ false
      ]
      else false

module _ (slot_ops : MapOps Key GradSlot) (quota_ops stat_ops : MapOps ℕ ℕ) where
  abbrev pub Maps : Type 0
  Maps = State slot_ops.Map quota_ops.Map stat_ops.Map

  -- The second lookup, after the attempt to create the slot.
  unfoldable pub created : Key → (won : Bool) → Maps → Option GradSlot × Maps
  created key won st = elim (slot_ops.lookup st.slot_map key) [
    | none ↦ (none, st)
    | some slot ↦
        if won
        then (
          some slot,
          record st { job_quota_map = job_quota_increment quota_ops key.job_id st.job_quota_map },
        )
        else (some slot, st)
  ]

  unfoldable pub create_slot : Key → GradSlot → Maps → Option GradSlot × Maps
  unfolding created
  create_slot key fresh st = elim (slot_ops.insert st.slot_map key fresh) [
    | some m ↦ created key true (record st { slot_map = m })
    | none ↦ created key false st
  ]

  -- The branch for a key with no slot; `none` where it drops the packet.
  unfoldable pub admit :
      Option Config → Key → (chunk_len num_workers : ℕ) → Maps → Option GradSlot × Maps
  unfolding create_slot
  admit precheck key chunk_len num_workers st =
      if num_workers == 0 || ltb (bitmap_bytes * 8) num_workers
      then (none, st)
      else if over_quota quota_ops precheck key.job_id st.job_quota_map
      then (none, record st { drop_stats = bump_stat stat_ops stat_fairness_quota st.drop_stats })
      else create_slot key (fresh_slot chunk_len num_workers) st

  unfoldable pub find_or_admit :
      Option Config → Key → (chunk_len num_workers : ℕ) → Maps → Option GradSlot × Maps
  unfolding admit
  find_or_admit precheck key chunk_len num_workers st = elim (slot_ops.lookup st.slot_map key) [
    | some slot ↦ (some slot, st)
    | none ↦ admit precheck key chunk_len num_workers st
  ]

  unfoldable pub tear_down : Key → Maps → Maps
  tear_down key st = record st {
    slot_map = slot_ops.erase st.slot_map key;
    job_quota_map = job_quota_decrement quota_ops key.job_id st.job_quota_map;
  }

  -- From the second lookup of the configuration on.
  unfoldable pub send : Option Config → Key → (final_chunk_len : ℕ) → Buf → Maps → Outcome Maps
  unfolding tear_down
  send none key final_chunk_len frame st =
      let torn = tear_down key st in
      record {
        action = xdp_drop;
        frame = frame;
        state = record torn { drop_stats = bump_stat stat_ops stat_no_config torn.drop_stats };
      }
  send (some cfg) key final_chunk_len frame st = record {
    action = xdp_tx;
    frame = retarget cfg final_chunk_len frame;
    state = tear_down key st;
  }

  -- From the lock to the end, on the result of the contribution.
  unfoldable pub settle :
      Option Config → Key → Buf → (len : ℕ) → Verdict × GradSlot → Maps → Outcome Maps
  unfolding send
  settle completion key frame len (v, s) st =
      let stored = record st { slot_map = slot_ops.store st.slot_map key s } in
      elim v [
        | mismatch ↦ record { action = xdp_drop; frame = frame; state = st }
        | duplicate ↦ record { action = xdp_drop; frame = frame; state = st }
        | partial ↦ record { action = xdp_drop; frame = frame; state = stored }
        | complete ↦ send completion key s.chunk_len (write_back s len frame) stored
      ]

  -- From the result of the lookup or the creation on.
  unfoldable pub handle :
      Option Config
      → Key
      → (worker_id chunk_len : ℕ) → Buf
      → (len : ℕ) → Option GradSlot × Maps
      → Outcome Maps
  unfolding settle
  handle completion key worker_id chunk_len frame len (none, st) = record {
    action = xdp_drop;
    frame = frame;
    state = st;
  }
  handle completion key worker_id chunk_len frame len (some s, st) =
      settle completion key frame len (contribute frame len chunk_len worker_id s) st

  unfoldable pub aggregate : Configs → Buf → (len : ℕ) → Maps → Outcome Maps
  unfolding handle
  aggregate cfg frame len st =
      let hdr = hdr_at frame grad_at in
      let chunk_len = bpf_ntohs hdr.chunk_len in
      let key = key_of frame in
      handle cfg.completion key (bpf_ntohs hdr.worker_id) chunk_len frame len
        (find_or_admit cfg.precheck key chunk_len (bpf_ntohs hdr.num_workers) st)

  -- The whole program.
  unfoldable pub netsum_xdp_aggregate : Configs → Buf → (len : ℕ) → Maps → Outcome Maps
  unfolding aggregate
  netsum_xdp_aggregate cfg frame len st = elim (parse frame len) [
    | pass ↦ record { action = xdp_pass; frame = frame; state = st }
    | drop ↦ record { action = xdp_drop; frame = frame; state = st }
    | gradient ↦ aggregate cfg frame len st
  ]
