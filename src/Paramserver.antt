-- ===== src/Paramserver.antt =====
-- paramserver/paramserver.c: the slot table and what main does with each packet. The loop is given
-- the datagrams and the clock.
pub mod Reach
pub mod Main
pub mod Exit
pub mod Pipeline
pub mod Whole
pub mod Completed
use xdp_gradient_aggregation.Common.{
  ℕ, zero, suc, ◌+◌, ◌*◌, Bool, true, false, ◌&&◌, ◌||◌, ◌==◌, ltb, leb, if◌then◌else◌, Option,
  none, some, List, [], ◌∷◌, Array, update, u16,
}
use xdp_gradient_aggregation.Probe.{Probe, vacant, found, exhausted, probe_from}
use xdp_gradient_aggregation.Proto.{Buf, hdr_size, max_chunk_len}
use xdp_gradient_aggregation.Agg.Slots.{slot_key, slot_index}
use xdp_gradient_aggregation.Agg.Packet.{Packet, decode, value_of, accumulate}
use xdp_gradient_aggregation.Agg.Loop.{received_size, receive}

abbrev pub slot_capacity : ℕ
slot_capacity = 65536

abbrev pub max_tracked_workers : ℕ
max_tracked_workers = 256

pub record Slot : Type 0 where
  pub in_use : Bool
  pub job_id : ℕ
  pub round : ℕ
  pub chunk_id : ℕ
  pub num_workers_expected : ℕ
  pub contributions_received : ℕ
  pub sum : Array ℕ
  pub chunk_len : ℕ
  pub first_seen_micros : ℕ
  pub completed_micros : ℕ
  pub seen_worker : Array Bool

abbrev pub zero_slot : Slot
zero_slot = record {
  in_use = false;
  job_id = 0;
  round = 0;
  chunk_id = 0;
  num_workers_expected = 0;
  contributions_received = 0;
  sum = λ i. 0;
  chunk_len = 0;
  first_seen_micros = 0;
  completed_micros = 0;
  seen_worker = λ w. false;
}

-- (job_id, round, chunk_id)
abbrev pub Key : Type 0
Key = ℕ × ℕ × ℕ

abbrev pub has_key : Key → Slot → Bool
has_key (job_id, round, chunk_id) s =
    s.job_id == job_id && (s.round == round && s.chunk_id == chunk_id)

unfoldable pub key_index : Key → ℕ → ℕ
key_index (job_id, round, chunk_id) k = slot_index (slot_key job_id round chunk_id) k

unfoldable pub probe_slot : Array Slot → Key → Probe
probe_slot slots key =
    probe_from (key_index key) (λ i. (slots i).in_use) (λ i. has_key key (slots i)) slot_capacity 0

abbrev pub fresh_slot : Key → Slot
fresh_slot (job_id, round, chunk_id) = record zero_slot {
  in_use = true;
  job_id = job_id;
  round = round;
  chunk_id = chunk_id;
}

unfoldable pub find_or_create_slot : Key → Array Slot → Option ℕ × Array Slot
find_or_create_slot key slots = elim (probe_slot slots key) [
  | vacant i ↦ (some i, update slots i (fresh_slot key))
  | found i ↦ (some i, slots)
  | exhausted ↦ (none, slots)
]

-- The two checks that the server makes of a packet.
unfoldable pub is_tracked : Packet → Bool
is_tracked p =
    if ltb max_chunk_len p.chunk_len
    then false
    else if leb max_tracked_workers p.worker_id
    then false
    else true

-- The two readings of now_micros.
pub record Clock : Type 0 where
  pub first_seen : ℕ
  pub completed : ℕ

unfoldable pub latch : Clock → (agg_mode : Bool) → Packet → Slot → Slot
latch clock agg_mode p s =
    if s.contributions_received == 0
    then record s {
      first_seen_micros = clock.first_seen;
      chunk_len = p.chunk_len;
      num_workers_expected = if agg_mode then 1 else p.num_workers;
    }
    else s

unfoldable pub absorb : Packet → Array ℕ → Slot → Slot
absorb p values s = record s {
  seen_worker = update s.seen_worker p.worker_id true;
  sum = accumulate values p.chunk_len s.sum;
  contributions_received = u16 (s.contributions_received + 1);
}

pub data Event : Type 0 where
  ignored malformed table_full dropped_duplicate summed completed : Event

-- The end of an iteration: the slot with the contribution, and whether it is complete now.
unfoldable pub finish : Clock → Slot → Event × Slot
finish clock s =
    if s.contributions_received == s.num_workers_expected && s.completed_micros == 0
    then (completed, record s { completed_micros = clock.completed })
    else (summed, s)

unfoldable pub contribute : Clock → (agg_mode : Bool) → Packet → Array ℕ → Slot → Event × Slot
unfolding latch absorb finish
contribute clock agg_mode p values s =
    let s = latch clock agg_mode p s in
    if s.seen_worker p.worker_id then (dropped_duplicate, s) else finish clock (absorb p values s)

unfoldable pub handle :
    Clock → (agg_mode : Bool) → Packet → Array ℕ → Option ℕ × Array Slot → Event × Array Slot
unfolding contribute
handle clock agg_mode p values (none, slots) = (table_full, slots)
handle clock agg_mode p values (some i, slots) =
    let (event, s) = contribute clock agg_mode p values (slots i) in (event, update slots i s)

-- A packet in `b`, at least as long as the header.
unfoldable pub process_packet : Clock → (agg_mode : Bool) → Buf → Array Slot → Event × Array Slot
unfolding handle
process_packet clock agg_mode b slots =
    let p = decode b in
    if is_tracked p
    then handle clock agg_mode p (value_of b)
        (find_or_create_slot (p.job_id, p.round, p.chunk_id) slots)
    else (malformed, slots)

pub record Server : Type 0 where
  pub slots : Array Slot
  pub packet : Buf
  pub packets_seen : ℕ
  pub slots_completed : ℕ

abbrev pub start : Server
start = record { slots = λ i. zero_slot; packet = λ i. 0; packets_seen = 0; slots_completed = 0 }

pub record Input : Type 0 where
  pub received : Option (Buf × ℕ)
  pub clock : Clock

abbrev pub count_completed : Event → ℕ → ℕ
count_completed completed n = n + 1
count_completed _ n = n

unfoldable pub deliver :
    (agg_mode : Bool) → Clock → (received : Option (Buf × ℕ)) → Server → Event × Server
deliver agg_mode clock none s = (ignored, s)
deliver agg_mode clock (some (datagram, size)) s =
    let b = receive datagram s.packet size in
    let (event, slots) = process_packet clock agg_mode b s.slots in
    if ltb (received_size size) hdr_size then (ignored, record s { packet = b }) else (
      event,
      record {
        slots = slots;
        packet = b;
        packets_seen = s.packets_seen + 1;
        slots_completed = count_completed event s.slots_completed;
      },
    )

-- `while (max_packets == 0 || packets_seen < max_packets)`, over what the iterations are given, for
-- max_packets that is not negative.
unfoldable pub run :
    (max_packets : ℕ) → (agg_mode : Bool) → List Input → Server → List Event × Server
unfolding deliver
run max_packets agg_mode [] s = ([], s)
run max_packets agg_mode (input ∷ inputs) s =
    let (event, s') = deliver agg_mode input.clock input.received s in
    let (events, last) = run max_packets agg_mode inputs s' in
    if max_packets == 0 || ltb s.packets_seen max_packets then (event ∷ events, last) else ([], s)
