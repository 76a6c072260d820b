-- ===== src/Agg/Packet.antt =====
-- userspace_agg/agg.c: what main does with one received packet, from the header fields on.
pub mod Sum
pub mod History
pub mod Fresh
pub mod Isolated
pub mod Emit
pub mod Round
pub mod Signed
use xdp_gradient_aggregation.Common.{
  ℕ, zero, suc, ◌+◌, ◌*◌, ◌%◌, ◌^◌, Bool, true, false, ◌&&◌, ◌||◌, ◌==◌, ltb, leb, if◌then◌else◌,
  Option, none, some, Array, update, u16, u32,
}
use xdp_gradient_aggregation.Proto.{
  Buf, GradHdr, hdr_at, put_hdr, value_at, put_values, ntohs, ntohl, hdr_size, max_chunk_len,
}
use xdp_gradient_aggregation.Agg.{Slot, Tables, max_tracked_workers}
use xdp_gradient_aggregation.Agg.Slots.{find_or_create_slot, free_slot}

-- The header in host order; `flags` is not read.
pub record Packet : Type 0 where
  pub job_id : ℕ
  pub round : ℕ
  pub chunk_id : ℕ
  pub worker_id : ℕ
  pub num_workers : ℕ
  pub chunk_len : ℕ

unfoldable pub decode : Buf → Packet
decode b =
    let hdr = hdr_at b 0 in
    record {
      job_id = ntohl hdr.job_id;
      round = ntohl hdr.round;
      chunk_id = ntohl hdr.chunk_id;
      worker_id = ntohs hdr.worker_id;
      num_workers = ntohs hdr.num_workers;
      chunk_len = ntohs hdr.chunk_len;
    }

-- `(int32_t)ntohl((uint32_t)values[i])`
unfoldable pub value_of : Buf → Array ℕ
value_of b i = ntohl (value_at b hdr_size i)

-- The four checks on a packet of `n` bytes, `n` at least the header's size.
unfoldable pub is_well_formed : Packet → ℕ → Bool
is_well_formed p n =
    if ltb max_chunk_len p.chunk_len
    then false
    else if ltb n (hdr_size + p.chunk_len * 4)
    then false
    else if leb max_tracked_workers p.worker_id
    then false
    else if p.num_workers == 0 || ltb max_tracked_workers p.num_workers
    then false
    else true

-- What now_micros returns when a slot gets its first contribution, and when one is accepted.
pub record Clock : Type 0 where
  pub first_seen : ℕ
  pub touched : ℕ

-- The first contribution fixes the slot's length and fan-in; `none` for a later one that
-- disagrees on the length.
unfoldable pub latch : Clock → Packet → Slot → Option Slot
latch clock p s =
    if s.contributions_received == 0
    then some (record s {
      chunk_len = p.chunk_len;
      num_workers_expected = p.num_workers;
      first_seen_micros = clock.first_seen;
    })
    else if s.chunk_len == p.chunk_len
    then some s
    else none

-- `for (i = 0; i < chunk_len && i < NETSUM_MAX_CHUNK_LEN; i++) sum[i] += values[i]`, from round `i`
-- on. The second test ends the loop by round NETSUM_MAX_CHUNK_LEN.
unfoldable pub accumulate_from : Array ℕ → (chunk_len left i : ℕ) → Array ℕ → Array ℕ
accumulate_from values chunk_len zero i sum = sum
accumulate_from values chunk_len (suc left) i sum =
    let rest =
      accumulate_from values chunk_len left (i + 1) (update sum i (u32 (sum i + values i))) in
    if ltb i chunk_len && ltb i max_chunk_len then rest else sum

unfoldable pub accumulate : Array ℕ → ℕ → Array ℕ → Array ℕ
unfolding accumulate_from
accumulate values chunk_len sum = accumulate_from values chunk_len max_chunk_len 0 sum

-- An accepted contribution.
unfoldable pub absorb : Clock → Packet → Array ℕ → Slot → Slot
absorb clock p values s = record s {
  seen_worker = update s.seen_worker p.worker_id true;
  last_touched_micros = clock.touched;
  sum = accumulate values p.chunk_len s.sum;
  contributions_received = u16 (s.contributions_received + 1);
}

pub data Verdict : Type 0 where
  mismatch duplicate partial complete : Verdict

-- Whether the slot still waits for a worker.
unfoldable pub judge : Slot → Verdict × Slot
judge s =
    if ltb s.contributions_received s.num_workers_expected then (partial, s) else (complete, s)

-- A contribution to the slot that find_or_create_slot returned.
unfoldable pub contribute : Clock → Packet → Array ℕ → Slot → Verdict × Slot
unfolding latch absorb judge
contribute clock p values s = elim (latch clock p s) [
  | none ↦ (mismatch, s)
  | some s ↦ if s.seen_worker p.worker_id then (duplicate, s) else judge (absorb clock p values s)
]

-- The aggregated packet, written over the buffer of the last one, and its length.
unfoldable pub emit : Packet → Slot → Buf → Buf
emit p s out = put_values ntohl hdr_size s.sum s.chunk_len 0 (
    put_hdr out 0 (record {
      job_id = ntohl p.job_id;
      round = ntohl p.round;
      chunk_id = ntohl p.chunk_id;
      worker_id = ntohs 0;
      num_workers = ntohs 1;
      chunk_len = ntohs s.chunk_len;
      flags = ntohs 0;
    }))

abbrev pub out_len : Slot → ℕ
out_len s = hdr_size + s.chunk_len * 4

-- What an iteration did, as the log and the socket show it.
pub data Event : Type 0 where
  ignored malformed admission_reject chunk_len_mismatch dropped_duplicate absorbed : Event
  emitted : (datagram : Buf) (len : ℕ) → Event

pub record Outcome : Type 0 where
  pub event : Event
  pub tables : Tables
  pub out_packet : Buf

-- What follows on the contribution, at slot `i`.
unfoldable pub settle : Packet → ℕ → Verdict × Slot → Tables → Buf → Outcome
settle p i (v, s) t out =
    let stored = record t { slots = update t.slots i s } in
    elim v [
      | mismatch ↦ record { event = chunk_len_mismatch; tables = stored; out_packet = out }
      | duplicate ↦ record { event = dropped_duplicate; tables = stored; out_packet = out }
      | partial ↦ record { event = absorbed; tables = stored; out_packet = out }
      | complete ↦ record {
        event = emitted (emit p s out) (out_len s);
        tables = free_slot i stored;
        out_packet = emit p s out;
      }
    ]

-- From the result of find_or_create_slot on.
unfoldable pub handle : Clock → Packet → Array ℕ → Option ℕ × Tables → Buf → Outcome
unfolding settle
handle clock p values (none, t) out = record {
  event = admission_reject;
  tables = t;
  out_packet = out;
}
handle clock p values (some i, t) out = settle p i (contribute clock p values (t.slots i)) t out

-- From the checks to the end of the iteration, for `n` bytes in `b`, `n` at least the header's size.
unfoldable pub process_packet : (quota : ℕ) → Clock → Buf → ℕ → Tables → Buf → Outcome
unfolding handle
process_packet quota clock b n t out =
    let p = decode b in
    if is_well_formed p n
    then handle clock p (value_of b) (find_or_create_slot quota p.job_id p.round p.chunk_id t) out
    else record { event = malformed; tables = t; out_packet = out }
