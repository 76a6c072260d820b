-- ===== src/Tests/Tables.antt =====
-- The theorems on the tables of userspace_agg/agg.c at concrete inputs.
use xdp_gradient_aggregation.Common.{ℕ, ◌≡◌, ◌≢◌, refl, true, false, some, update, arith}
use xdp_gradient_aggregation.Proto.{
  Buf, hdr_at, put_hdr, put_values, load16, load32, store16, store32, ntohs, ntohl,
}
use xdp_gradient_aggregation.Probe.{vacant}
use xdp_gradient_aggregation.Common.{none}
use xdp_gradient_aggregation.Probe.{found, probe_from}
use xdp_gradient_aggregation.Agg.{zero_slot, Tables, empty_tables}
use xdp_gradient_aggregation.Agg.Held.{held}
use xdp_gradient_aggregation.Agg.Jobs.{probe_job, job_hash, job_index}
use xdp_gradient_aggregation.Agg.Slots.{
  find_or_create_slot, free_slot, has_key, probe_slot, slot_key, slot_index,
}
use xdp_gradient_aggregation.Agg.Account.{empty-IsAccounted}
use xdp_gradient_aggregation.Agg.Packet.{Clock, process_packet, decode}
use xdp_gradient_aggregation.Agg.Packet.Isolated.{process_packet_other}
use xdp_gradient_aggregation.Agg.Account.Admit.{find_or_create_slot-held}
use xdp_gradient_aggregation.Agg.Slots.Reap.{reap_expired_slots_lem}
use xdp_gradient_aggregation.Agg.Slots.{is_expired, reap_expired_slots}
use xdp_gradient_aggregation.Common.{ltb, if◌then◌else◌}
use xdp_gradient_aggregation.Agg.Orphan.{find_or_create_slot-free_slot}
use xdp_gradient_aggregation.Tests.Packets.{datagram, from_worker, values}

abbrev clock : Clock
clock = record { first_seen = 100; touched = 100 }

-- Two slots whose keys have the same home entry.
abbrev crowded : Tables
crowded = record empty_tables {
  slots =
      update
        (update (λ i. zero_slot) 52322
          (record zero_slot { in_use = true; job_id = 1; round = 128; chunk_id = 0 }))
        52323
        (record zero_slot {
          in_use = true;
          job_id = 1;
          round = 77;
          chunk_id = 29;
          contributions_received = 1;
        });
}

crowded-found : probe_slot crowded.slots 1 77 29 ≡ found 52323
unfolding probe_slot probe_from slot_key slot_index
crowded-found = refl

home : slot_index (slot_key 1 77 29) 0 ≡ 52322
unfolding slot_key slot_index
home = refl

abbrev freed : Tables
freed = free_slot 52322 crowded

find_or_create_slot-free_slot_example :
    ((find_or_create_slot 0 1 77 29 freed).0 ≡ some 52322)
    × ((find_or_create_slot 0 1 77 29 freed).1.slots 52323 ≡ crowded.slots 52323)
    × ((crowded.slots 52323).in_use ≡ true)
    × (has_key 1 77 29 (crowded.slots 52323) ≡ true)
    × (◌≢◌ {A = ℕ} 52322 52323)
find_or_create_slot-free_slot_example =
    find_or_create_slot-free_slot 1 77 29 52323 52322 0 crowded crowded-found (omega arith) home
      (λ m le. let first : m ≡ 0 = omega arith in rw (first, home) (omega arith))

abbrev next_packet : Buf
next_packet = datagram (record (from_worker 0) { round = 2 }) (values 0)

-- A slot of round 1 beside a packet of round 2.
abbrev one_slot : Tables
one_slot = record empty_tables {
  slots = update (λ i. zero_slot) 39013 (record zero_slot { in_use = true; job_id = 7; round = 1 });
}

another_round :
    has_key
      (decode next_packet).job_id
      (decode next_packet).round
      (decode next_packet).chunk_id
      (one_slot.slots 39013)
    ≡ false
unfolding datagram decode hdr_at put_hdr put_values load16 load32 store16 store32 ntohs ntohl
another_round = refl

process_packet_other_example :
    (process_packet 2 clock next_packet 28 one_slot (λ i. 0)).tables.slots 39013
    ≡ one_slot.slots 39013
process_packet_other_example =
    process_packet_other 2 clock next_packet 28 one_slot (λ i. 0) 39013 refl another_round

nothing_found : probe_slot empty_tables.slots 7 1 0 ≡ vacant 39013
unfolding probe_slot probe_from slot_key slot_index
nothing_found = refl

no_job : probe_job empty_tables.jobs 7 ≡ vacant 196
unfolding probe_job probe_from job_index job_hash
no_job = refl

find_or_create_slot-held_example :
    (find_or_create_slot 2 7 1 0 empty_tables).0
    ≡ (if ltb (held empty_tables.slots 7) 2 then some 39013 else none)
find_or_create_slot-held_example =
    find_or_create_slot-held 2 7 1 0 39013 empty_tables (empty-IsAccounted 2) (omega arith)
      (omega arith) nothing_found (λ e. ground (arith, e, no_job))

reap_expired_slots_lem_example : (reap_expired_slots 9000 5 one_slot).slots 39013 ≡ (
    if is_expired 9000 5000 (one_slot.slots 39013)
    then record (one_slot.slots 39013) { in_use = false }
    else one_slot.slots 39013)
reap_expired_slots_lem_example = reap_expired_slots_lem 9000 5 39013 one_slot (omega arith)
