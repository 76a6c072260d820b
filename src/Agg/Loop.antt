-- ===== src/Agg/Loop.antt =====
-- userspace_agg/agg.c: the main loop. What the process reads from outside in one iteration, the
-- clock, a SIGUSR1 that has arrived and what recvfrom and sendto do, is an input.
pub mod Kept
use xdp_gradient_aggregation.Common.{
  ℕ, zero, suc, ◌+◌, ◌*◌, ◌/◌, Bool, true, false, ◌||◌, ◌==◌, ltb, leb, if◌then◌else◌, not, Option,
  none, some, List, [], ◌∷◌, Array,
}
use xdp_gradient_aggregation.Proto.{Buf, hdr_size, max_packet_size}
use xdp_gradient_aggregation.Agg.{Tables, JobEntry, job_capacity}
use xdp_gradient_aggregation.Agg.Slots.{reap_expired_slots}
use xdp_gradient_aggregation.Agg.Packet.{Clock, Event, ignored, emitted, process_packet}

-- The command line: max_packets, which is not negative, and max_slots_per_job and slot_ttl_ms, with
-- 0 for a negative number.
pub record Config : Type 0 where
  pub max_packets : ℕ
  pub job_quota : ℕ
  pub slot_ttl_ms : ℕ

pub record Input : Type 0 where
  -- the clock as main reads it, and as reap_expired_slots does
  pub now : ℕ
  pub reap_now : ℕ
  pub dump_requested : Bool
  -- the datagram and its size; `none` for an error, a timeout or a signal
  pub received : Option (Buf × ℕ)
  pub clock : Clock
  pub sent : Bool

-- The locals of main, with the tables.
pub record Process : Type 0 where
  pub tables : Tables
  pub in_packet : Buf
  pub out_packet : Buf
  pub packets_in : ℕ
  pub packets_out : ℕ
  pub last_reap_micros : ℕ

-- A line of dump_job_stats.
pub record JobStats : Type 0 where
  pub job_id : ℕ
  pub concurrent_slots : ℕ
  pub admitted_count : ℕ
  pub rejected_count : ℕ

unfoldable pub dump_from : Array JobEntry → (left i : ℕ) → List JobStats
dump_from jobs zero i = []
dump_from jobs (suc left) i =
    let rest = dump_from jobs left (i + 1) in
    let j = jobs i in
    if not j.in_use
    then rest
    else record {
      job_id = j.job_id;
      concurrent_slots = j.concurrent_slots;
      admitted_count = j.admitted_count;
      rejected_count = j.rejected_count;
    }
      ∷ rest

unfoldable pub dump_job_stats : Array JobEntry → List JobStats
unfolding dump_from
dump_job_stats jobs = dump_from jobs job_capacity 0

-- `slot_ttl_ms / 4`, at least 1 ms, in microseconds.
unfoldable pub reap_interval_micros : ℕ → ℕ
reap_interval_micros slot_ttl_ms =
    let interval_ms = slot_ttl_ms / 4 in (if ltb interval_ms 1 then 1 else interval_ms) * 1000

-- The sweep at the head of an iteration.
unfoldable pub sweep : Config → (now reap_now : ℕ) → Process → Process
sweep config now reap_now s =
    if ltb 0 config.slot_ttl_ms
    then (if leb (s.last_reap_micros + reap_interval_micros config.slot_ttl_ms) now
        then record s {
          tables = reap_expired_slots reap_now config.slot_ttl_ms s.tables;
          last_reap_micros = now;
        }
        else s)
    else s

-- `recvfrom` copies what fits the buffer, keeps the bytes behind it, and returns that number.
abbrev pub received_size : ℕ → ℕ
received_size size = if ltb max_packet_size size then max_packet_size else size

-- What the loop does not pass over as too short.
abbrev pub is_whole : Option (Buf × ℕ) → Bool
is_whole none = false
is_whole (some (datagram, size)) = not (ltb (received_size size) hdr_size)

unfoldable pub receive : Buf → Buf → ℕ → Buf
receive datagram old size i = if ltb i (received_size size) then datagram i else old i

-- The counters after an event.
abbrev pub bump_out : Event → Bool → ℕ → ℕ
bump_out (emitted datagram len) true n = n + 1
bump_out _ _ n = n

-- The part of an iteration behind recvfrom: what was received, and whether sendto succeeds.
unfoldable pub deliver :
    Config → Clock → (received : Option (Buf × ℕ)) → (sent : Bool) → Process → Event × Process
deliver config clock none sent s = (ignored, s)
deliver config clock (some (datagram, size)) sent s =
    let n = received_size size in
    let b = receive datagram s.in_packet size in
    let o = process_packet config.job_quota clock b n s.tables s.out_packet in
    if ltb n hdr_size then (ignored, record s { in_packet = b }) else (
      o.event,
      record s {
        tables = o.tables;
        in_packet = b;
        out_packet = o.out_packet;
        packets_in = s.packets_in + 1;
        packets_out = bump_out o.event sent s.packets_out;
      },
    )

-- What one iteration shows outside: the statistics asked for, and what became of the packet.
pub record Shown : Type 0 where
  pub stats : List JobStats
  pub event : Event

unfoldable pub iterate : Config → Input → Process → Shown × Process
unfolding sweep deliver
iterate config input s =
    let s = sweep config input.now input.reap_now s in
    let stats = if input.dump_requested then dump_job_stats s.tables.jobs else [] in
    let (event, s) = deliver config input.clock input.received input.sent s in
    (record { stats = stats; event = event }, s)

-- `while (max_packets == 0 || packets_in < max_packets)`, over the inputs of the iterations.
unfoldable pub run : Config → List Input → Process → List Shown × Process
unfolding iterate
run config [] s = ([], s)
run config (input ∷ inputs) s =
    let (shown, s') = iterate config input s in
    let (later, last) = run config inputs s' in
    if config.max_packets == 0 || ltb s.packets_in config.max_packets
    then (shown ∷ later, last)
    else ([], s)
