-- ===== src/Tests/Agg.antt =====
-- The theorems on userspace_agg/agg.c at concrete inputs.
use xdp_gradient_aggregation.Common.{
  ℕ, ◌^◌, ◌-◌, i32, ◌+◌, ◌≤◌, ◌≡◌, refl, true, false, some, [], ◌∷◌, update, arith,
}
use xdp_gradient_aggregation.Proto.{
  Buf, hdr_at, put_hdr, put_values, load16, load32, store16, store32, ntohs, ntohl,
}
use xdp_gradient_aggregation.Probe.{found, probe_from}
use xdp_gradient_aggregation.Agg.{Slot, zero_slot, empty_tables}
use xdp_gradient_aggregation.Agg.Held.{held}
use xdp_gradient_aggregation.Agg.Jobs.{probe_job, job_hash, job_index, find_or_create_job}
use xdp_gradient_aggregation.Agg.Slots.{find_or_create_slot, probe_slot, slot_key, slot_index}
use xdp_gradient_aggregation.Agg.Account.{IsAccounted, empty-IsAccounted}
use xdp_gradient_aggregation.Agg.Packet.{Clock, process_packet, decode, is_well_formed, contribute}
use xdp_gradient_aggregation.Agg.Loop.{Config, Input, receive, run}
use xdp_gradient_aggregation.Agg.Run.{start, held-run_le_quota, run-IsAccounted}
use xdp_gradient_aggregation.Agg.Packet.History.{
  Represents, Contributes, fresh-Represents, contribute-Contributes, contributed,
}
use xdp_gradient_aggregation.Agg.Packet.Round.{Message, feed, sum_at, feed-Perm}
use xdp_gradient_aggregation.Agg.Packet.Fresh.{process_packet-AgreeBelow}
use xdp_gradient_aggregation.Agg.Waiting.{Waits}
use xdp_gradient_aggregation.Agg.Waiting.Runs.{run-Waits}
use xdp_gradient_aggregation.Agg.Packet.Signed.{signed_sum, feed-signed}
use mathlib.Core.List.{Permᴰ}
use xdp_gradient_aggregation.Agg.Main.{Before, main}
use xdp_gradient_aggregation.Agg.Exit.{IsServed, main-IsServed}
use xdp_gradient_aggregation.Tests.Fuzz.{libc}
use xdp_gradient_aggregation.Common.{pos}
use xdp_gradient_aggregation.Common.{◌*◌}
use xdp_gradient_aggregation.Probe.{vacant}
use xdp_gradient_aggregation.Agg.Round as Round
use xdp_gradient_aggregation.Agg.Round.{Arrival, HaveKey, events, round_events}
use xdp_gradient_aggregation.Agg.Round.Emits.{Carries}
use xdp_gradient_aggregation.Agg.Round.Whole.{run-Carries}
use xdp_gradient_aggregation.Agg.Packet.Round.{AreNew}
use xdp_gradient_aggregation.Tests.Packets.{datagram, from_worker, values}

abbrev clock : Clock
clock = record { first_seen = 100; touched = 100 }

abbrev config : Config
config = record { max_packets = 0; job_quota = 2; slot_ttl_ms = 0 }

abbrev input : ℕ → Input
input w = record {
  now = 100;
  reap_now = 100;
  dump_requested = false;
  received = some (datagram (from_worker w) (values w), 28);
  clock = clock;
  sent = true;
}

tracked : probe_job (run config (input 0 ∷ []) (start 0)).1.tables.jobs 7 ≡ found 196
unfolding run receive probe_from contribute process_packet datagram decode hdr_at put_hdr put_values
    load16 load32 store16 store32 ntohs ntohl is_well_formed find_or_create_slot find_or_create_job
    probe_slot probe_job job_index job_hash slot_key slot_index
tracked = refl

held-run_le_quota_example : held (run config (input 0 ∷ []) (start 0)).1.tables.slots 7 ≤ 2
held-run_le_quota_example =
    held-run_le_quota config (input 0 ∷ []) 0 7 196 (omega arith) (omega arith) tracked

run-IsAccounted_example : IsAccounted 2 (run config (input 0 ∷ input 1 ∷ []) (start 0)).1.tables
run-IsAccounted_example =
    run-IsAccounted config (input 0 ∷ input 1 ∷ []) (start 0) (empty-IsAccounted 2)

abbrev message : ℕ → Message
message w = record { clock = clock; packet = from_worker w; values = values w }

empty-Represents : Represents [] zero_slot
empty-Represents = fresh-Represents zero_slot refl refl refl

feed-Perm_example :
    (feed zero_slot (message 0 ∷ message 1 ∷ [])).1.sum 1
    ≡ (feed zero_slot (message 1 ∷ message 0 ∷ [])).1.sum 1
unfolding contributed
feed-Perm_example =
    feed-Perm (message 0) (message 1) (message 1 ∷ []) (message 0 ∷ []) zero_slot zero_slot
      empty-Represents empty-Represents ∣ Permᴰ.swap refl refl ∣₁ refl refl (omega arith)
      (omega arith) (refl, refl, (refl, refl, tt)) (refl, refl, (refl, refl, tt)) 1 (omega arith)
      (omega arith) (omega arith)

contribute-Contributes_example :
    Contributes clock
      (from_worker 0)
      (values 0)
      []
      zero_slot
      (contribute clock (from_worker 0) (values 0) zero_slot)
contribute-Contributes_example =
    contribute-Contributes clock (from_worker 0) (values 0) [] zero_slot empty-Represents
      (omega arith)

-- A buffer that still holds a byte of a longer packet.
abbrev sent : Buf
sent = datagram (from_worker 0) (values 0)

abbrev stale : Buf
stale = update (datagram (from_worker 0) (values 0)) 40 9

process_packet-AgreeBelow_example :
    process_packet 2 clock stale 28 empty_tables (λ i. 0)
    ≡ process_packet 2 clock sent 28 empty_tables (λ i. 0)
process_packet-AgreeBelow_example =
    process_packet-AgreeBelow 2 clock stale sent 28 empty_tables (λ i. 0) (omega arith)
      (λ i lt. ground arith)

abbrev two_values : Slot
two_values = record zero_slot { chunk_len = 2; sum = λ i. 40 + i }

occupied : ((run config (input 0 ∷ []) (start 0)).1.tables.slots 39013).in_use ≡ true
unfolding run receive probe_from contribute process_packet datagram decode hdr_at put_hdr put_values
    load16 load32 store16 store32 ntohs ntohl is_well_formed find_or_create_slot find_or_create_job
    probe_slot probe_job job_index job_hash slot_key slot_index
occupied = refl

run-Waits_example : Waits ((run config (input 0 ∷ []) (start 0)).1.tables.slots 39013)
run-Waits_example = run-Waits config (input 0 ∷ []) 0 39013 (omega arith) occupied

-- Worker 0 sends -3 and worker 1 sends 5.
abbrev signed : ℕ → ℕ → Message
signed w v = record (message w) { values = λ i. v }

feed-signed_example :
    i32 ((feed zero_slot (signed 0 (2 ^ 32 - 3) ∷ signed 1 5 ∷ [])).1.sum 1)
    ≡ signed_sum 1 (signed 0 (2 ^ 32 - 3) ∷ signed 1 5 ∷ [])
unfolding contributed
feed-signed_example =
    feed-signed (signed 0 (2 ^ 32 - 3)) (signed 1 5 ∷ []) zero_slot 5 1 empty-Represents refl
      (omega arith) (refl, refl, (refl, refl, tt))
      (omega arith, omega arith, (omega arith, omega arith, tt)) (omega arith) (omega arith)
      (omega arith)

abbrev before : Before
before = record {
  setup = record { in_sock = true; bound = true; out_sock = true };
  now = 0;
  in_packet = λ i. 9;
  out_packet = λ i. 9;
}

-- Two packets, no quota, and slots that expire after 100 ms.
main-IsServed_example :
    IsServed
      (pos 2)
      100
      (input 0 ∷ input 1 ∷ [])
      (main libc before (9001 ∷ 1 ∷ 9000 ∷ 2 ∷ 0 ∷ 100 ∷ []) (input 0 ∷ input 1 ∷ []))
main-IsServed_example =
    main-IsServed libc before 9001 1 9000 (2 ∷ 0 ∷ 100 ∷ []) (input 0 ∷ input 1 ∷ []) 1 refl refl

abbrev arrival : ℕ → Arrival
arrival w = record {
  datagram = datagram (from_worker w) (values w);
  size = 28;
  clock = clock;
  now = 100;
  reap_now = 100;
  dump_requested = true;
  sent = true;
}

absent : probe_slot empty_tables.slots 7 1 0 ≡ vacant 39013
unfolding probe_slot probe_from slot_key slot_index
absent = refl

granted : (find_or_create_slot 2 7 1 0 empty_tables).0 ≡ some 39013
unfolding find_or_create_slot find_or_create_job probe_job probe_slot probe_from slot_key slot_index
    job_hash job_index
granted = refl

arrival-HaveKey : HaveKey 7 1 0 (arrival 0 ∷ arrival 1 ∷ [])
unfolding datagram decode hdr_at put_hdr put_values load16 load32 store16 store32 ntohs ntohl
    is_well_formed
arrival-HaveKey = (refl, refl, refl, refl, (refl, refl, refl, refl, tt))

two_workers :
    ((decode (arrival 0).datagram).num_workers ≡ 2)
    × AreNew
        (decode (arrival 0).datagram).chunk_len
        []
        (Round.messages (arrival 0 ∷ arrival 1 ∷ []))
unfolding datagram decode hdr_at put_hdr put_values load16 load32 store16 store32 ntohs ntohl
    contributed
two_workers = (refl, (refl, refl, (refl, refl, tt)))

run-Carries_example :
    (d : Buf) × (events
        (run (Round.config 2) (Round.inputs (arrival 0 ∷ arrival 1 ∷ [])) (start 0)).0
      ≡ round_events 2 d (20 + (decode (arrival 0).datagram).chunk_len * 4))
    × Carries 7 1 0
        (decode (arrival 0).datagram).chunk_len
        (λ j. sum_at j (Round.messages (arrival 0 ∷ arrival 1 ∷ [])))
        d
run-Carries_example =
    run-Carries 2 7 1 0 39013 (arrival 0) (arrival 1 ∷ []) (start 0) absent granted arrival-HaveKey
      two_workers.0 two_workers.1
