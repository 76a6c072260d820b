-- ===== src/Tests/Worker.antt =====
-- The theorems on worker/worker.c and on the fixed-point numbers at concrete inputs.
use xdp_gradient_aggregation.Common.{
  ℕ, ◌+◌, ◌*◌, ◌^◌, ◌<◌, ◌≤◌, ◌≡◌, refl, ◌==◌, true, none, [], ◌∷◌, arith, pos, negsuc, magnitude,
}
use xdp_gradient_aggregation.Common.{some, false}
use xdp_gradient_aggregation.Proto.{Buf}
use xdp_gradient_aggregation.Double.{Double, unit, of_int, round_quotient, multiply, less_than}
use xdp_gradient_aggregation.Double.Round.{IsDouble}
use xdp_gradient_aggregation.Proto.Fixed.{netsum_to_fixed, netsum_to_double, netsum_sum_fits_i32}
use xdp_gradient_aggregation.Proto.Fixed.Exact.{
  step, netsum_to_fixed-netsum_to_double, netsum_to_double-netsum_to_fixed,
  netsum_sum_fits_i32-negative,
}
use xdp_gradient_aggregation.Agg.Packet.History.{contributed}
use xdp_gradient_aggregation.Worker.{Options, options, Args, main}
use xdp_gradient_aggregation.Worker.Packets.{IsSound}
use xdp_gradient_aggregation.Worker.Range.{IsBounded}
use xdp_gradient_aggregation.Worker.Deployment.{Turn}
use xdp_gradient_aggregation.Worker.Delivery.{arrivals}
use xdp_gradient_aggregation.System.{Arrives, run-Arrives}
use xdp_gradient_aggregation.Paramserver as Paramserver
use xdp_gradient_aggregation.Probe.{vacant, probe_from}
use xdp_gradient_aggregation.Agg.{empty_tables}
use xdp_gradient_aggregation.Agg.Jobs.{find_or_create_job, probe_job, job_hash, job_index}
use xdp_gradient_aggregation.Agg.Slots.{find_or_create_slot, probe_slot, slot_key, slot_index}
use xdp_gradient_aggregation.Agg.Loop.{run}
use xdp_gradient_aggregation.Agg.Run.{start}
use xdp_gradient_aggregation.Agg.Round.{Arrival, inputs, events, config}
use xdp_gradient_aggregation.Worker.Exit.{Exits, strings, main-Exits}
use xdp_gradient_aggregation.Tests.Fuzz.{libc}

netsum_to_fixed-netsum_to_double_example :
    netsum_to_fixed (netsum_to_double (negsuc 98303)) ≡ negsuc 98303
netsum_to_fixed-netsum_to_double_example =
    netsum_to_fixed-netsum_to_double (negsuc 98303) (omega arith)

-- Minus three quarters of 2^-16, which is converted to 0.
abbrev tiny : Double
tiny = record { is_negative = true; units = 3 * 2 ^ 1056 }

tiny-IsDouble : IsDouble tiny.units
tiny-IsDouble = record { mantissa = 3; exponent = 1056; short = omega arith; value = refl }

tiny_fixed : magnitude (netsum_to_fixed tiny) ≤ 2 ^ 31
unfolding netsum_to_fixed unit
tiny_fixed = omega arith

netsum_to_double-netsum_to_fixed_example :
    ((netsum_to_double (netsum_to_fixed tiny)).units ≤ tiny.units)
    × (tiny.units < (netsum_to_double (netsum_to_fixed tiny)).units + step)
netsum_to_double-netsum_to_fixed_example =
    netsum_to_double-netsum_to_fixed tiny tiny-IsDouble tiny_fixed

netsum_sum_fits_i32-negative_example : netsum_sum_fits_i32 2 (of_int (negsuc 999999)) ≡ true
unfolding of_int
netsum_sum_fits_i32-negative_example = netsum_sum_fits_i32-negative 2 (of_int (negsuc 999999)) refl

abbrev by : (worker_id : ℕ) → Options
by worker_id = record {
  job_id = 7;
  worker_id = worker_id;
  num_workers = 2;
  num_rounds = 3;
  chunk_len = 2;
  max_abs_grad = of_int (pos 1);
  fixed_value = none;
}

by-IsSound : (w : ℕ) → w < 256 → IsSound (by w)
by-IsSound w lt = record {
  job_id = omega arith;
  worker_id = lt;
  some_workers = omega arith;
  num_workers = omega arith;
  chunk_len = omega arith;
}

by-IsBounded : (w : ℕ) → IsBounded (by w)
unfolding of_int unit
by-IsBounded w = record {
  not_negative = refl;
  max_abs_grad = record { mantissa = 1; exponent = 1074; short = omega arith; value = refl };
  fixed_value = λ v e. absurd (ground (arith, e));
}

abbrev turn : (worker_id : ℕ) → Turn
turn w = record {
  options = by w;
  round = 0;
  state = 5 + w;
  buffer = λ i. 9;
  clock = record { first_seen = 10; touched = 20 };
}

one_fits : netsum_sum_fits_i32 2 (of_int (pos 1)) ≡ true
unfolding netsum_sum_fits_i32 multiply round_quotient less_than of_int unit
one_fits = refl

-- agg.c before its loop, where the key's slot will be created.
at_start : probe_slot empty_tables.slots 7 0 0 ≡ vacant 20036
unfolding probe_slot probe_from slot_key slot_index
at_start = refl

at_grant : (find_or_create_slot 2 7 0 0 empty_tables).0 ≡ some 20036
unfolding find_or_create_slot find_or_create_job probe_job probe_slot probe_from slot_key slot_index
    job_hash job_index
at_grant = refl

abbrev at : Turn → Arrival
at t = record {
  datagram = λ i. 0;
  size = 0;
  clock = t.clock;
  now = 10;
  reap_now = 10;
  dump_requested = false;
  sent = true;
}

-- The server before its loop.
server_start : Paramserver.probe_slot Paramserver.start.slots (7, 0, 0) ≡ vacant 20036
unfolding Paramserver.probe_slot Paramserver.key_index probe_from slot_key slot_index
server_start = refl

abbrev server_clock : Paramserver.Clock
server_clock = record { first_seen = 30; completed = 40 }

run-Arrives_example :
    (datagram : Buf) × Arrives
      (turn 0)
      (turn 1 ∷ [])
      (events (run (config 2) (inputs (arrivals at (turn 0 ∷ turn 1 ∷ []))) (start 0)).0)
      datagram
      (
        (Paramserver.process_packet server_clock true datagram Paramserver.start.slots).0,
        (Paramserver.process_packet server_clock true datagram Paramserver.start.slots).1 20036,
      )
unfolding contributed
run-Arrives_example =
    run-Arrives (turn 0) (turn 1 ∷ []) at 2 20036 (start 0) server_clock true
      Paramserver.start.slots 20036 at_start at_grant server_start (refl, refl, (refl, refl, tt))
      (
        by-IsSound 0 (omega arith),
        by-IsBounded 0,
        refl,
        refl,
        refl,
        refl,
        (by-IsSound 1 (omega arith), by-IsBounded 1, refl, refl, refl, refl, tt),
      )
      one_fits

-- The address is 1, and there are three rounds.
abbrev args : Args ℕ
args = record {
  dest_ip = 1;
  dest_port = 9000;
  job_id = 7;
  worker_id = 1;
  num_workers = 2;
  num_rounds = 3;
  chunk_len = 2;
  more = [];
}

main-Exits_example :
    Exits
      (options libc args)
      (libc.inet_pton 1)
      true
      (λ k. k == 0)
      (main libc (λ i. 9) true (λ k. k == 0) (strings args))
main-Exits_example = main-Exits libc (λ i. 9) true (λ k. k == 0) args
