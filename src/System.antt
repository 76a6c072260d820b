-- ===== src/System.antt =====
-- The programs together: the workers of worker/worker.c, the aggregator userspace_agg/agg.c and
-- the parameter server paramserver/paramserver.c.
use xdp_gradient_aggregation.Common.{
  ℕ, ◌+◌, ◌*◌, ◌<◌, ◌≡◌, ap, ◌∙◌, Bool, true, some, Array, List, [], ◌∷◌, length, arith, u32, i32,
}
use xdp_gradient_aggregation.Proto.{Buf, hdr_size}
use xdp_gradient_aggregation.Proto.Fixed.{netsum_sum_fits_i32}
use xdp_gradient_aggregation.Probe.{vacant}
use xdp_gradient_aggregation.Agg.Slots as Slots
use xdp_gradient_aggregation.Agg.Slots.{find_or_create_slot}
use xdp_gradient_aggregation.Agg.Packet as Packet
use xdp_gradient_aggregation.Agg.Packet.{decode, value_of}
use xdp_gradient_aggregation.Agg.Packet.Round.{sum_at}
use xdp_gradient_aggregation.Agg.Loop.{Process, run}
use xdp_gradient_aggregation.Agg.Round.{Arrival, inputs, events, round_events, config}
use xdp_gradient_aggregation.Paramserver.{Slot, Clock, Event, completed, probe_slot, process_packet}
use xdp_gradient_aggregation.Paramserver.Whole.{carried-HoldsRound}
use xdp_gradient_aggregation.Worker.Packets.{header}
use xdp_gradient_aggregation.Worker.Deployment.{
  Turn, messages, exact_sum, AreDeployed, deployed-exact,
}
use xdp_gradient_aggregation.Worker.Delivery.{arrivals, AreOf, run-arrivals}

-- Of the round's packets the last alone has a datagram sent on, for the key, from worker 0 of 1,
-- with the exact sums. At the server it completes the slot, which then holds those sums.
pub record Arrives (t : Turn) (ts : List Turn) (shown : List Packet.Event) (datagram : Buf)
    (served : Event × Slot) : Type 0 where
  pub sent : shown ≡ round_events (length (t ∷ ts)) datagram (hdr_size + t.options.chunk_len * 4)
  pub header :
      decode datagram ≡ record (header t.options t.round) { worker_id = 0; num_workers = 1 }
  pub values : (j : ℕ) → j < t.options.chunk_len → i32 (value_of datagram j) ≡ exact_sum j (t ∷ ts)
  pub event : served.0 ≡ completed
  pub sums : (j : ℕ) → j < t.options.chunk_len → i32 (served.1.sum j) ≡ exact_sum j (t ∷ ts)

-- From the gradients to the server, and what netsum_sum_fits_i32 promises: where the check passes
-- for n workers and their max_abs_grad, and the packets of one round of n workers come to the main
-- loop of agg.c, one after another, with no reaper and no end, in any state in which the round's
-- key is absent and is granted a slot, the last packet alone has a datagram sent on; it has the
-- key and the length, from worker 0 of 1, and its values, read as int32_t, are the sums of the
-- workers' gradients at each index, each converted to Q16.16. At a server that has no slot for the
-- key, in either mode, the datagram completes a slot that holds those same sums. The workers
-- differ, and their options are sound (a job below 2^32, a worker below 256, n at most 256, at
-- most 64 values), with n as their fan-in, one length, and the same max_abs_grad, which is a
-- double and not negative; a fixed_value is not above it.
pub run-Arrives :
    (t : Turn) (ts : List Turn) (at : Turn → Arrival) (quota i : ℕ) (s : Process) (clock : Clock)
    (agg_mode : Bool) (slots : Array Slot) (k : ℕ)
    → Slots.probe_slot s.tables.slots t.options.job_id (u32 t.round) 0 ≡ vacant i
    → (find_or_create_slot quota t.options.job_id (u32 t.round) 0 s.tables).0 ≡ some i
    → probe_slot slots (t.options.job_id, u32 t.round, 0) ≡ vacant k
    → AreOf t.options.job_id (u32 t.round) (t ∷ ts)
    → AreDeployed (length (t ∷ ts)) t.options.chunk_len t.options.max_abs_grad [] (t ∷ ts)
    → netsum_sum_fits_i32 (length (t ∷ ts)) t.options.max_abs_grad ≡ true
    → (datagram : Buf) × Arrives t ts
        (events (run (config quota) (inputs (arrivals at (t ∷ ts))) s).0)
        datagram
        (
          (process_packet clock agg_mode datagram slots).0,
          (process_packet clock agg_mode datagram slots).1 k,
        )
run-Arrives t ts at quota i s clock agg_mode slots k absent granted new of_all all fits =
    let o = t.options in
    let (datagram, shown, carries) = run-arrivals t ts at quota i s absent granted of_all all in
    let holds =
      carried-HoldsRound clock agg_mode datagram slots k o.job_id (u32 t.round) 0 o.chunk_len
        (λ j. sum_at j (messages (t ∷ ts))) all.0.chunk_len new carries in
    (
      datagram,
      record {
        sent = shown;
        header = carries.header;
        values = λ j lt. ap i32 (carries.values j lt) ∙ deployed-exact t ts j all fits lt;
        event = holds.event;
        sums = λ j lt. ap i32 (holds.sum j lt (omega arith)) ∙ deployed-exact t ts j all fits lt;
      },
    )
