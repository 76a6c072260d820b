-- ===== src/Agg/Loop/Kept.antt =====
-- The main loop of userspace_agg/agg.c: what each of its steps keeps, a run keeps.
use xdp_gradient_aggregation.Common.{
  ℕ, Bool, Option, none, some, List, [], ◌∷◌, arith, ◌==◌, ◌||◌, Bool-cases, inl, inr, ltb,
}
use xdp_gradient_aggregation.Proto.{Buf, hdr_size}
use xdp_gradient_aggregation.Agg.{Tables}
use xdp_gradient_aggregation.Agg.Slots.{reap_expired_slots}
use xdp_gradient_aggregation.Agg.Packet.{Clock, process_packet}
use xdp_gradient_aggregation.Agg.Loop.{
  Config, Input, Process, sweep, deliver, iterate, run, received_size, receive,
}

-- A predicate that the reaper and a packet keep.
module _ (config : Config) (I : Tables → Type 0)
    (reaps : (now : ℕ) (t : Tables) → I t → I (reap_expired_slots now config.slot_ttl_ms t))
    (packets : (clock : Clock) (b : Buf) (n : ℕ) (t : Tables) (out : Buf)
      → I t
      → I (process_packet config.job_quota clock b n t out).tables) where
  sweep-kept :
      (now reap_now : ℕ) (s : Process) → I s.tables → I (sweep config now reap_now s).tables
  unfolding sweep
  sweep-kept now reap_now s acc = ground (arith, reaps reap_now s.tables acc)

  deliver-kept :
      (clock : Clock) (received : Option (Buf × ℕ)) (sent : Bool) (s : Process)
      → I s.tables
      → I (deliver config clock received sent s).1.tables
  unfolding deliver
  deliver-kept clock none sent s acc = acc
  deliver-kept clock (some (datagram, size)) sent s acc =
      elim (Bool-cases (ltb (received_size size) hdr_size)) [
        | inl short ↦ rw (deliver, short) acc
        | inr whole ↦
            rw (deliver, whole)
              (packets clock (receive datagram s.in_packet size) (received_size size) s.tables
                s.out_packet acc)
      ]

  iterate-kept : (input : Input) (s : Process) → I s.tables → I (iterate config input s).1.tables
  unfolding iterate
  iterate-kept input s acc =
      deliver-kept input.clock input.received input.sent (sweep config input.now input.reap_now s)
        (sweep-kept input.now input.reap_now s acc)

  -- Every run of the main loop keeps it.
  pub run-kept : (inputs : List Input) (s : Process) → I s.tables → I (run config inputs s).1.tables
  unfolding run
  run-kept [] s acc = acc
  run-kept (input ∷ inputs) s acc =
      elim (Bool-cases (config.max_packets == 0 || ltb s.packets_in config.max_packets)) [
        | inl on ↦
            rw (run, on) (run-kept inputs (iterate config input s).1 (iterate-kept input s acc))
        | inr done ↦ rw (run, done) acc
      ]
