-- ===== src/Tests/Paramserver.antt =====
-- The theorems on paramserver/paramserver.c at concrete inputs.
use xdp_gradient_aggregation.Common.{ℕ, ◌≡◌, refl, true, false, some, List, [], ◌∷◌, arith}
use xdp_gradient_aggregation.Proto.{
  hdr_at, put_hdr, put_values, load16, load32, store16, store32, ntohs, ntohl,
}
use xdp_gradient_aggregation.Probe.{probe_from}
use xdp_gradient_aggregation.Agg.Slots.{slot_key, slot_index}
use xdp_gradient_aggregation.Agg.Packet.{decode}
use xdp_gradient_aggregation.Agg.Loop.{receive}
use xdp_gradient_aggregation.Paramserver.{
  Input, start, run, has_key, key_index, probe_slot, find_or_create_slot, is_tracked, contribute,
  process_packet,
}
use xdp_gradient_aggregation.Paramserver.Reach.{run_unique}
use xdp_gradient_aggregation.Paramserver.Completed.{completions, run-slots_completed}
use xdp_gradient_aggregation.Paramserver.{zero_slot}
use xdp_gradient_aggregation.Paramserver.Pipeline.{IsFresh, HoldsRound, served, served-retarget}
use xdp_gradient_aggregation.Common.{ℕ, ◌+◌, ◌%◌}
use xdp_gradient_aggregation.Proto.{Buf}
use xdp_gradient_aggregation.Agg.Packet.Round.{Message}
use xdp_gradient_aggregation.Xdp.Frame.{Config, retarget}
use xdp_gradient_aggregation.Xdp.Slot as Xdp
use xdp_gradient_aggregation.Xdp.Slot.{GradSlot, write_back}
use xdp_gradient_aggregation.Xdp.Slot.Refine.{payload}
use xdp_gradient_aggregation.Paramserver.Main.{main}
use xdp_gradient_aggregation.Paramserver.Exit.{Ends, main-Ends}
use xdp_gradient_aggregation.Tests.Fuzz.{libc}
use xdp_gradient_aggregation.Common.{pos, true}
use xdp_gradient_aggregation.Tests.Packets.{datagram, from_worker, values}

abbrev input : ℕ → Input
input w = record {
  received = some (datagram (from_worker w) (values w), 28);
  clock = record { first_seen = 5; completed = 9 };
}

abbrev inputs : List Input
inputs = input 0 ∷ input 1 ∷ []

used : ((run 0 false inputs start).1.slots 39013).in_use ≡ true
unfolding run receive probe_from contribute process_packet datagram decode hdr_at put_hdr put_values
    load16 load32 store16 store32 ntohs ntohl is_tracked find_or_create_slot probe_slot key_index
    slot_key slot_index
used = refl

keyed : has_key (7, 1, 0) ((run 0 false inputs start).1.slots 39013) ≡ true
unfolding run receive probe_from contribute process_packet datagram decode hdr_at put_hdr put_values
    load16 load32 store16 store32 ntohs ntohl is_tracked find_or_create_slot probe_slot key_index
    slot_key slot_index
keyed = refl

run_unique_example : ◌≡◌ {A = ℕ} 39013 39013
run_unique_example =
    run_unique 0 false inputs 39013 39013 (7, 1, 0) (omega arith) (omega arith) used used keyed
      keyed

run-slots_completed_example :
    (run 0 false inputs start).1.slots_completed ≡ completions (run 0 false inputs start).1.slots
run-slots_completed_example = run-slots_completed 0 false inputs (omega arith, (omega arith, tt))

empty-IsFresh : IsFresh zero_slot
empty-IsFresh = record { received = refl; waiting = refl; sum = refl; seen = refl }

abbrev message : ℕ → Message
message w = record {
  clock = record { first_seen = 1; touched = 1 };
  packet = from_worker w;
  values = values w;
}

abbrev config : Config
config = record { ps_mac = λ i. 2; ps_ip = 0x0200000a; ps_port = 20771; max_slots_per_job = 0 }

abbrev summed : GradSlot
summed = record (Xdp.fresh_slot 2 2) { sum = λ i. 40 + i; contributions_received = 2 }

abbrev ramp : Buf
ramp i = i % 256

served-retarget_example :
    HoldsRound 2
      (λ i. 40 + i)
      (served
        (record { first_seen = 5; completed = 9 })
        true
        (payload (retarget config 2 (write_back summed 70 ramp)))
        zero_slot)
served-retarget_example =
    served-retarget (record { first_seen = 5; completed = 9 }) true config summed 70 ramp zero_slot
      empty-IsFresh (omega arith) (omega arith)

-- The program stops after one packet.
main-Ends_example : Ends (pos 1) inputs (main (λ i. 9) libc true true (9000 ∷ 1 ∷ 1 ∷ []) inputs)
main-Ends_example = main-Ends libc (λ i. 9) 9000 1 (1 ∷ []) inputs
