-- ===== src/Paramserver/Reach.antt =====
-- The slot table of paramserver/paramserver.c as a map from keys to slots, through a run.
use xdp_gradient_aggregation.Common.{
  ℕ, ◌<◌, ◌≡◌, refl, ◌==◌, ==_refl, Bool, true, false, ◌||◌, ltb, Option, none, some, List, [], ◌∷◌,
  Array, arith, Bool-cases, inl, inr,
}
use xdp_gradient_aggregation.Probe.{vacant, found, Probe-cases, probe-found, probe-vacant}
use xdp_gradient_aggregation.Probe.Table
use xdp_gradient_aggregation.Proto.{Buf, hdr_size}
use xdp_gradient_aggregation.Agg.Slots.{slot_key, slot_index-lt}
use xdp_gradient_aggregation.Agg.Packet.{Packet, decode, value_of}
use xdp_gradient_aggregation.Agg.Loop.{received_size, receive}
use xdp_gradient_aggregation.Paramserver.{
  Slot, Key, has_key, key_index, probe_slot, fresh_slot, find_or_create_slot, slot_capacity, Clock,
  latch, absorb, finish, contribute, handle, process_packet, is_tracked, Server, Input, start,
  deliver, run,
}

abbrev used : Slot → Bool
used s = s.in_use

abbrev pub IsReachable : Array Slot → Type 0
IsReachable = Table.IsReachable used has_key key_index slot_capacity

key_index-lt : (key : Key) (n : ℕ) → key_index key n < slot_capacity
unfolding key_index
key_index-lt (job_id, round, chunk_id) n = slot_index-lt (slot_key job_id round chunk_id) n

has_key-fresh : (key : Key) → has_key key (fresh_slot key) ≡ true
has_key-fresh (j, r, c) = ground (arith, ==_refl j, ==_refl r, ==_refl c)

has_key_only : (key k : Key) → has_key k (fresh_slot key) ≡ true → k ≡ key
has_key_only (j, r, c) (j', r', c') h =
    let ej : j' ≡ j = ground arith in
    let er : r' ≡ r = ground arith in let ec : c' ≡ c = ground arith in λ i. (ej i, er i, ec i)

pub probe_slot-found :
    (slots : Array Slot) (key : Key) (i : ℕ)
    → probe_slot slots key ≡ found i
    → (i < slot_capacity) × ((slots i).in_use ≡ true) × (has_key key (slots i) ≡ true)
unfolding probe_slot
probe_slot-found slots key i f =
    probe-found (key_index key) (λ x. (slots x).in_use) (λ x. has_key key (slots x))
      (key_index-lt key) slot_capacity 0 i f

pub probe_slot-vacant :
    (slots : Array Slot) (key : Key) (i : ℕ)
    → probe_slot slots key ≡ vacant i
    → (i < slot_capacity) × ((slots i).in_use ≡ false)
unfolding probe_slot
probe_slot-vacant slots key i v =
    probe-vacant (key_index key) (λ x. (slots x).in_use) (λ x. has_key key (slots x))
      (key_index-lt key) slot_capacity 0 i v

-- find_or_create_slot keeps the map.
pub find_or_create_slot-IsReachable :
    (key : Key) (slots : Array Slot)
    → IsReachable slots
    → IsReachable (find_or_create_slot key slots).1
unfolding find_or_create_slot
find_or_create_slot-IsReachable key slots r = elim (Probe-cases (probe_slot slots key)) [
  | inl (i, v) ↦
      rw (find_or_create_slot, v)
        (Table.fill-IsReachable used has_key key_index slot_capacity key_index-lt slots key i
          (fresh_slot key) (unfold probe_slot in v) refl (has_key-fresh key) (has_key_only key) r)
  | inr (inl (i, f)) ↦ rw (find_or_create_slot, f) r
  | inr (inr full) ↦ rw (find_or_create_slot, full) r
]

-- A contribution keeps the use and the key of its slot.
abbrev pub SameKey : Slot → Slot → Type 0
SameKey s' s =
    (s'.in_use ≡ s.in_use)
    × (s'.job_id ≡ s.job_id)
    × (s'.round ≡ s.round)
    × (s'.chunk_id ≡ s.chunk_id)

pub contribute-SameKey :
    (clock : Clock) (agg_mode : Bool) (p : Packet) (v : Array ℕ) (s : Slot)
    → SameKey (contribute clock agg_mode p v s).1 s
unfolding contribute latch absorb finish
contribute-SameKey clock agg_mode p v s = ground arith

handle-IsReachable :
    (clock : Clock) (agg_mode : Bool) (p : Packet) (v : Array ℕ) (r : Option ℕ × Array Slot)
    → IsReachable r.1
    → IsReachable (handle clock agg_mode p v r).1
unfolding handle
handle-IsReachable clock agg_mode p v (none, slots) h = h
handle-IsReachable clock agg_mode p v (some i, slots) h =
    let s' = (contribute clock agg_mode p v (slots i)).1 in
    let (u, j, r, c) = contribute-SameKey clock agg_mode p v (slots i) in
    Table.rewrite-IsReachable used has_key key_index slot_capacity slots i s' u
      (λ (k : Key). key_same s' (slots i) k j r c) h
  where
    key_same :
        (s' s : Slot) (k : Key)
        → s'.job_id ≡ s.job_id
        → s'.round ≡ s.round
        → s'.chunk_id ≡ s.chunk_id
        → has_key k s' ≡ has_key k s
    key_same s' s (a, b, d) j r c = ground arith

process_packet-IsReachable :
    (clock : Clock) (agg_mode : Bool) (b : Buf) (slots : Array Slot)
    → IsReachable slots
    → IsReachable (process_packet clock agg_mode b slots).1
unfolding process_packet
process_packet-IsReachable clock agg_mode b slots r = elim (Bool-cases (is_tracked (decode b))) [
  | inr bad ↦ rw (process_packet, bad) r
  | inl good ↦
      let p = decode b in
      rw (process_packet, good)
        (handle-IsReachable clock agg_mode p (value_of b) _
          (find_or_create_slot-IsReachable (p.job_id, p.round, p.chunk_id) slots r))
]

deliver-IsReachable :
    (agg_mode : Bool) (clock : Clock) (received : Option (Buf × ℕ)) (s : Server)
    → IsReachable s.slots
    → IsReachable (deliver agg_mode clock received s).1.slots
unfolding deliver
deliver-IsReachable agg_mode clock none s r = r
deliver-IsReachable agg_mode clock (some (datagram, size)) s r =
    elim (Bool-cases (ltb (received_size size) hdr_size)) [
      | inl short ↦ rw (deliver, short) r
      | inr whole ↦
          rw (deliver, whole)
            (process_packet-IsReachable clock agg_mode (receive datagram s.packet size) s.slots r)
    ]

-- Every run of the parameter server keeps each slot in use where the probe of its key finds it.
pub run-IsReachable :
    (max_packets : ℕ) (agg_mode : Bool) (inputs : List Input) (s : Server)
    → IsReachable s.slots
    → IsReachable (run max_packets agg_mode inputs s).1.slots
unfolding run
run-IsReachable max_packets agg_mode [] s r = r
run-IsReachable max_packets agg_mode (input ∷ inputs) s r =
    elim (Bool-cases (max_packets == 0 || ltb s.packets_seen max_packets)) [
      | inl on ↦
          rw (run, on)
            (run-IsReachable max_packets agg_mode inputs _
              (deliver-IsReachable agg_mode input.clock input.received s r))
      | inr done ↦ rw (run, done) r
    ]

pub start-IsReachable : IsReachable start.slots
start-IsReachable i k lt u h = cc

-- After any run of the parameter server from its empty table, two entries in use with the same
-- job, round and chunk are one entry.
pub run_unique :
    (max_packets : ℕ) (agg_mode : Bool) (inputs : List Input) (i j : ℕ) (key : Key)
    → i < slot_capacity
    → j < slot_capacity
    → ((run max_packets agg_mode inputs start).1.slots i).in_use ≡ true
    → ((run max_packets agg_mode inputs start).1.slots j).in_use ≡ true
    → has_key key ((run max_packets agg_mode inputs start).1.slots i) ≡ true
    → has_key key ((run max_packets agg_mode inputs start).1.slots j) ≡ true
    → i ≡ j
run_unique max_packets agg_mode inputs i j key lti ltj ui uj ki kj =
    Table.reachable_unique used has_key key_index slot_capacity
      (run max_packets agg_mode inputs start).1.slots
      (run-IsReachable max_packets agg_mode inputs start start-IsReachable) i j key lti ltj ui uj ki
      kj
