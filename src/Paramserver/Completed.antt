-- ===== src/Paramserver/Completed.antt =====
-- paramserver/paramserver.c: what slots_completed counts.
use xdp_gradient_aggregation.Common.{
  ℕ, ◌+◌, ◌<◌, ◌≡◌, refl, sym, ap, ◌∙◌, Bool, true, false, not, ◌==◌, ◌||◌, ltb, to_nat, Bool-cases,
  inl, inr, count, count-change, count_zero, update, update_same, Option, none, some, List, [], ◌∷◌,
  Array, arith,
}
use xdp_gradient_aggregation.Proto.{Buf, hdr_size}
use xdp_gradient_aggregation.Probe.{Probe-cases}
use xdp_gradient_aggregation.Agg.Packet.{Packet, decode, value_of}
use xdp_gradient_aggregation.Agg.Loop.{received_size, receive}
use xdp_gradient_aggregation.Paramserver.Reach.{probe_slot-vacant, probe_slot-found}
use xdp_gradient_aggregation.Paramserver.{
  Slot, Key, Clock, Event, ignored, malformed, table_full, dropped_duplicate, summed, completed,
  Server, Input, start, slot_capacity, fresh_slot, probe_slot, find_or_create_slot, latch, absorb,
  finish, contribute, handle, process_packet, is_tracked, count_completed, deliver, run,
}

abbrev pub is_completed : Slot → Bool
is_completed s = not (s.completed_micros == 0)

abbrev pub completions : Array Slot → ℕ
completions slots = count slot_capacity (λ i. is_completed (slots i))

-- A slot that is not in use was never completed.
abbrev AreOpen : Array Slot → Type 0
AreOpen slots = (i : ℕ) → (slots i).in_use ≡ false → (slots i).completed_micros ≡ 0

-- What a contribution does to the slot.
contribute-completes :
    (clock : Clock) (agg_mode : Bool) (p : Packet) (v : Array ℕ) (s : Slot)
    → 0 < clock.completed
    → (to_nat (is_completed (contribute clock agg_mode p v s).1)
        ≡ count_completed (contribute clock agg_mode p v s).0 (to_nat (is_completed s)))
      × ((contribute clock agg_mode p v s).1.in_use ≡ s.in_use)
unfolding contribute latch absorb finish
contribute-completes clock agg_mode p v s pos = ground (arith, pos)

-- Writing a slot moves the number of completed ones by what it changes there.
completions-update :
    (slots : Array Slot) (i : ℕ) (s : Slot)
    → i < slot_capacity
    → completions (update slots i s) + to_nat (is_completed (slots i))
      ≡ completions slots + to_nat (is_completed s)
completions-update slots i s lt =
    let change =
      count-change slot_capacity (λ j. is_completed (slots j))
        (λ j. is_completed (update slots i s j)) i lt (λ j off. rw (update, off) refl) in
    change ∙ ap (λ (t : Slot). completions slots + to_nat (is_completed t)) (update_same slots i s)

fresh_slot-in_use : (key : Key) → (fresh_slot key).in_use ≡ true
fresh_slot-in_use (j, r, c) = refl

fresh_slot-open : (key : Key) → (fresh_slot key).completed_micros ≡ 0
fresh_slot-open (j, r, c) = refl

update-AreOpen :
    (slots : Array Slot) (i : ℕ) (s : Slot)
    → s.in_use ≡ true
    → AreOpen slots
    → AreOpen (update slots i s)
update-AreOpen slots i s taken opens j = elim (Bool-cases (j == i)) [
  | inl at ↦ rw (update, at) (λ empty. absurd (ground (arith, taken, empty)))
  | inr off ↦ rw (update, off) (opens j)
]

-- A slot that a packet takes, and what the table counts with it.
abbrev IsTaken : ℕ → Array Slot → Option ℕ × Array Slot → Type 0
IsTaken n slots (none, slots') = (completions slots' ≡ n) × AreOpen slots'
IsTaken n slots (some i, slots') =
    (completions slots' ≡ n) × AreOpen slots' × (i < slot_capacity) × ((slots' i).in_use ≡ true)

find_or_create_slot-IsTaken :
    (key : Key) (slots : Array Slot)
    → AreOpen slots
    → IsTaken (completions slots) slots (find_or_create_slot key slots)
unfolding find_or_create_slot
find_or_create_slot-IsTaken key slots opens = elim (Probe-cases (probe_slot slots key)) [
  | inl (i, v) ↦
      let (lt, free) = probe_slot-vacant slots key i v in
      let change = completions-update slots i (fresh_slot key) lt in
      rw (find_or_create_slot, v)
        (
          settle i (fresh_slot key) (opens i free) (fresh_slot-open key) change,
          update-AreOpen slots i (fresh_slot key) (fresh_slot-in_use key) opens,
          lt,
          ap (λ (t : Slot). t.in_use) (update_same slots i (fresh_slot key))
              ∙ fresh_slot-in_use key,
        )
  | inr (inl (i, f)) ↦
      let (lt, busy, same) = probe_slot-found slots key i f in
      rw (find_or_create_slot, f) (refl, opens, lt, busy)
  | inr (inr full) ↦ rw (find_or_create_slot, full) (refl, opens)
]
  where
    settle :
        (i : ℕ) (s : Slot)
        → (slots i).completed_micros ≡ 0
        → s.completed_micros ≡ 0
        → completions (update slots i s) + to_nat (is_completed (slots i))
          ≡ completions slots + to_nat (is_completed s)
        → completions (update slots i s) ≡ completions slots
    settle i s was new change = ground (arith, was, new, change)

-- What is counted after a step that answers `event`, from n slots completed before.
abbrev Counts : ℕ → Event × Array Slot → Type 0
Counts n (event, slots) = (completions slots ≡ count_completed event n) × AreOpen slots

handle-Counts :
    (clock : Clock) (agg_mode : Bool) (p : Packet) (v : Array ℕ) (n : ℕ) (slots : Array Slot)
    (r : Option ℕ × Array Slot)
    → 0 < clock.completed
    → IsTaken n slots r
    → Counts n (handle clock agg_mode p v r)
unfolding handle
handle-Counts clock agg_mode p v n slots (none, slots') pos h = h
handle-Counts clock agg_mode p v n slots (some i, slots') pos (same, opens, lt, taken) =
    let (event, s) = contribute clock agg_mode p v (slots' i) in
    let (moves, in_use) = contribute-completes clock agg_mode p v (slots' i) pos in
    (
      settle event (completions (update slots' i s)) (to_nat (is_completed (slots' i)))
          (to_nat (is_completed s)) (completions-update slots' i s lt) moves,
      update-AreOpen slots' i s (in_use ∙ taken) opens,
    )
  where
    settle :
        (event : Event) (now before after : ℕ)
        → now + before ≡ completions slots' + after
        → after ≡ count_completed event before
        → now ≡ count_completed event n
    settle completed now before after c m = omega (arith, same, c, m)
    settle ignored now before after c m = omega (arith, same, c, m)
    settle malformed now before after c m = omega (arith, same, c, m)
    settle table_full now before after c m = omega (arith, same, c, m)
    settle dropped_duplicate now before after c m = omega (arith, same, c, m)
    settle summed now before after c m = omega (arith, same, c, m)

process_packet-Counts :
    (clock : Clock) (agg_mode : Bool) (b : Buf) (slots : Array Slot)
    → 0 < clock.completed
    → AreOpen slots
    → Counts (completions slots) (process_packet clock agg_mode b slots)
unfolding process_packet
process_packet-Counts clock agg_mode b slots pos opens = elim (Bool-cases (is_tracked (decode b))) [
  | inr bad ↦ rw (process_packet, bad) (refl, opens)
  | inl good ↦
      let p = decode b in
      rw (process_packet, good)
        (handle-Counts clock agg_mode p (value_of b) (completions slots) slots _ pos
          (find_or_create_slot-IsTaken (p.job_id, p.round, p.chunk_id) slots opens))
]

-- The counter is the number of completed slots.
abbrev IsCounted : Server → Type 0
IsCounted s = (s.slots_completed ≡ completions s.slots) × AreOpen s.slots

deliver-IsCounted :
    (agg_mode : Bool) (clock : Clock) (received : Option (Buf × ℕ)) (s : Server)
    → 0 < clock.completed
    → IsCounted s
    → IsCounted (deliver agg_mode clock received s).1
unfolding deliver
deliver-IsCounted agg_mode clock none s pos h = h
deliver-IsCounted agg_mode clock (some (datagram, size)) s pos (same, opens) =
    elim (Bool-cases (ltb (received_size size) hdr_size)) [
      | inl short ↦ rw (deliver, short) (same, opens)
      | inr whole ↦
          let b = receive datagram s.packet size in
          let r = process_packet clock agg_mode b s.slots in
          let (counts, opens') = process_packet-Counts clock agg_mode b s.slots pos opens in
          rw (deliver, whole) (ap (count_completed r.0) same ∙ sym counts, opens')
    ]

-- The clock has moved when a slot is completed.
abbrev pub HaveTime : List Input → Type 0
HaveTime [] = Unit {0}
HaveTime (input ∷ inputs) = (0 < input.clock.completed) × HaveTime inputs

run-IsCounted :
    (max_packets : ℕ) (agg_mode : Bool) (inputs : List Input) (s : Server)
    → HaveTime inputs
    → IsCounted s
    → IsCounted (run max_packets agg_mode inputs s).1
unfolding run
run-IsCounted max_packets agg_mode [] s times h = h
run-IsCounted max_packets agg_mode (input ∷ inputs) s (pos, times) h =
    elim (Bool-cases (max_packets == 0 || ltb s.packets_seen max_packets)) [
      | inl on ↦
          rw (run, on)
            (run-IsCounted max_packets agg_mode inputs _ times
              (deliver-IsCounted agg_mode input.clock input.received s pos h))
      | inr done ↦ rw (run, done) h
    ]

-- A slot is counted once: after any run of the parameter server from its empty table,
-- slots_completed is the number of slots with a time of completion, where no reading of the clock
-- at the end of an iteration is 0.
pub run-slots_completed :
    (max_packets : ℕ) (agg_mode : Bool) (inputs : List Input)
    → HaveTime inputs
    → (run max_packets agg_mode inputs start).1.slots_completed
      ≡ completions (run max_packets agg_mode inputs start).1.slots
run-slots_completed max_packets agg_mode inputs times =
    (run-IsCounted max_packets agg_mode inputs start times
      (sym (count_zero slot_capacity (λ i. false) (λ i lt. refl)), λ i e. refl)).0
