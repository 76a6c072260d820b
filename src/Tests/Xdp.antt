-- ===== src/Tests/Xdp.antt =====
-- The theorems on xdp_agg/xdp_agg.c at concrete inputs, with the maps of Xdp/Maps/List.antt.
use xdp_gradient_aggregation.Common.{
  ℕ, ◌-◌, ◌≡◌, refl, ==_refl, ◌==◌, ◌&&◌, ltb, if◌then◌else◌, Bool, true, false, none, some, [],
  ◌∷◌, arith, update, ◌%◌,
}
use xdp_gradient_aggregation.Proto.{
  Buf, hdr_at, put_hdr, put_values, value_at, load16, load32, store16, store32, ntohs, ntohl,
  bpf_ntohs, bpf_ntohl,
}
use xdp_gradient_aggregation.Agg.{Slot, zero_slot}
use xdp_gradient_aggregation.Agg.Packet as Agg
use xdp_gradient_aggregation.Agg.Packet.{Packet, Clock, value_of}
use xdp_gradient_aggregation.Xdp.Maps.{MapOps}
use xdp_gradient_aggregation.Xdp.Maps.List.{list_maps, find, add}
use xdp_gradient_aggregation.Xdp.Frame.{Config, parse, fold, retarget}
use xdp_gradient_aggregation.Xdp.Frame.Checksum.{header_sum, retarget_checksum}
use xdp_gradient_aggregation.Xdp.Slot.{GradSlot, fresh_slot, has_seen, mark_seen, contribute}
use xdp_gradient_aggregation.Xdp.Slot.Bitmap.{has_seen-mark_seen, has_seen_empty}
use xdp_gradient_aggregation.Xdp.Slot.Refine.{payload, Simulates, SameStep, contribute-SameStep}
use xdp_gradient_aggregation.Xdp.Program.{
  Key, key_of, Configs, find_or_admit, over_quota, xdp_tx, Maps, netsum_xdp_aggregate,
}
use xdp_gradient_aggregation.Xdp.Program.Bounds.{netsum_xdp_aggregate_above}
use xdp_gradient_aggregation.Xdp.Program.Isolated.{
  netsum_xdp_aggregate_other, netsum_xdp_aggregate_gone,
}
use xdp_gradient_aggregation.Xdp.Program.Quota.{IsWithin, netsum_xdp_aggregate-IsWithin}
use xdp_gradient_aggregation.Common.{◌+◌}
use xdp_gradient_aggregation.Tests.Packets.{datagram, from_worker, values}

abbrev pub same_key : Key → Key → Bool
same_key j k = j.job_id == k.job_id && (j.round == k.round && j.chunk_id == k.chunk_id)

pub same_key-eq : (j k : Key) → same_key j k ≡ true → j ≡ k
same_key-eq j k e = ground arith

pub same_key_refl : (k : Key) → same_key k k ≡ true
same_key_refl k = ground (arith, ==_refl k.job_id, ==_refl k.round, ==_refl k.chunk_id)

pub same_num-eq : (j k : ℕ) → (j == k) ≡ true → j ≡ k
same_num-eq j k e = ground arith

abbrev pub slots : MapOps Key GradSlot
slots = list_maps same_key same_key-eq same_key_refl 65536

abbrev pub quotas : MapOps ℕ ℕ
quotas = list_maps (λ j k. j == k) same_num-eq ==_refl 256

abbrev pub stats : MapOps ℕ ℕ
stats = list_maps (λ j k. j == k) same_num-eq ==_refl 4

abbrev empty : Maps slots quotas stats
empty = record { slot_map = []; job_quota_map = []; drop_stats = [] }

abbrev pub config : Config
config = record { ps_mac = λ i. 2; ps_ip = 0x0200000a; ps_port = 20771; max_slots_per_job = 1 }

abbrev pub configs : Configs
configs = record { precheck = some config; completion = some config }

-- The frame that carries the datagram of one worker of one.
abbrev sole : Packet
sole = record (from_worker 3) { num_workers = 1 }

unfoldable frame : Packet → Buf
frame p i =
    if i == 12
    then 8
    else if i == 14
    then 0x45
    else if i == 23
    then 17
    else if i == 36
    then 0x26
    else if i == 37
    then 0x94
    else if ltb i 42
    then 0
    else datagram p (values 3) (i - 42)

netsum_xdp_aggregate_above_example :
    (netsum_xdp_aggregate slots quotas stats configs (frame sole) 70 empty).frame 70 ≡ frame sole 70
netsum_xdp_aggregate_above_example =
    netsum_xdp_aggregate_above slots quotas stats configs (frame sole) 70 empty 70 (omega arith)

frame-key : key_of (frame sole) ≡ record { job_id = 7; round = 1; chunk_id = 0 }
unfolding key_of frame datagram hdr_at put_hdr put_values load16 load32 store16 store32 ntohs ntohl
    bpf_ntohl
frame-key = refl

abbrev other_key : Key
other_key = record { job_id = 7; round = 2; chunk_id = 0 }

abbrev two_rounds : Maps slots quotas stats
two_rounds = record empty { slot_map = (other_key, fresh_slot 2 2) ∷ [] }

netsum_xdp_aggregate_other_example :
    slots.lookup
      (netsum_xdp_aggregate slots quotas stats configs (frame sole) 70 two_rounds).state.slot_map
      other_key
    ≡ slots.lookup two_rounds.slot_map other_key
netsum_xdp_aggregate_other_example =
    netsum_xdp_aggregate_other slots quotas stats configs (frame sole) 70 two_rounds other_key
      (λ e. ground (arith, e, frame-key))

sent_on : (netsum_xdp_aggregate slots quotas stats configs (frame sole) 70 empty).action ≡ xdp_tx
unfolding netsum_xdp_aggregate parse key_of frame datagram hdr_at put_hdr put_values value_at load16
    load32 store16 store32 ntohs ntohl bpf_ntohs bpf_ntohl find_or_admit find over_quota add
    contribute has_seen
sent_on = refl

netsum_xdp_aggregate_gone_example :
    slots.lookup
      (netsum_xdp_aggregate slots quotas stats configs (frame sole) 70 empty).state.slot_map
      (key_of (frame sole))
    ≡ none
netsum_xdp_aggregate_gone_example =
    netsum_xdp_aggregate_gone slots quotas stats configs (frame sole) 70 empty sent_on

empty-IsWithin : IsWithin quotas 1 []
unfolding find
empty-IsWithin id n e = absurd (ground (arith, e))

netsum_xdp_aggregate-IsWithin_example :
    IsWithin quotas 1
      (netsum_xdp_aggregate slots quotas stats configs (frame sole) 70 empty).state.job_quota_map
netsum_xdp_aggregate-IsWithin_example =
    netsum_xdp_aggregate-IsWithin slots quotas stats config (some config) (frame sole) 70 empty
      (omega arith) empty-IsWithin

retarget_checksum_example : fold (fold (header_sum (retarget config 2 (frame sole)))) ≡ 0xffff
unfolding frame
retarget_checksum_example = retarget_checksum config 2 (frame sole) (λ i le lt. ground arith)

abbrev ramp : Buf
ramp i = i % 256

abbrev clock : Clock
clock = record { first_seen = 100; touched = 100 }

-- Worker 5 of two workers has contributed.
abbrev kernel_slot : GradSlot
kernel_slot = record (fresh_slot 2 2) {
  contributions_received = 1;
  seen_worker = mark_seen (λ b. 0) 5;
}

abbrev user_slot : Slot
user_slot = record zero_slot {
  chunk_len = 2;
  num_workers_expected = 2;
  contributions_received = 1;
  seen_worker = update (λ w. false) 5 true;
}

one-Simulates : Simulates kernel_slot user_slot
one-Simulates = record {
  sum = refl;
  chunk_len = refl;
  num_workers_expected = refl;
  contributions_received = refl;
  seen = λ w. ground (arith, has_seen-mark_seen (λ b. 0) 5 w, has_seen_empty w);
}

contribute-SameStep_example :
    SameStep
      (contribute ramp 70 2 3 kernel_slot)
      (Agg.contribute clock (from_worker 3) (value_of (payload ramp)) user_slot)
contribute-SameStep_example =
    contribute-SameStep ramp 70 clock (from_worker 3) kernel_slot user_slot (λ i. omega arith)
      (omega arith) one-Simulates (omega arith) (omega arith) (omega arith)

abbrev summed : GradSlot
summed = record (fresh_slot 2 2) { sum = λ i. 40 + i; contributions_received = 2 }
