-- ===== src/Agg/Round/Whole.antt =====
-- A whole round of userspace_agg/agg.c in its main loop, from the first packet, which creates the
-- slot.
use xdp_gradient_aggregation.Common.{
  ℕ, suc, ◌+◌, ◌*◌, ◌≤◌, ◌≡◌, refl, sym, ap, ap₂, ◌∙◌, true, false, some, arith, List, [], ◌∷◌,
  length, ltb,
}
use mathlib.Core.Path.{subst}
use xdp_gradient_aggregation.Proto.{Buf, hdr_size, max_chunk_len}
use xdp_gradient_aggregation.Probe.{vacant}
use xdp_gradient_aggregation.Agg.{Tables}
use xdp_gradient_aggregation.Agg.Slots.{probe_slot, fresh_slot, find_or_create_slot}
use xdp_gradient_aggregation.Agg.Packet.{
  Packet, Event, Outcome, decode, is_well_formed, process_packet,
}
use xdp_gradient_aggregation.Agg.Packet.Fresh.{payload_within, process_packet-AgreeBelow}
use xdp_gradient_aggregation.Agg.Packet.History.{Represents, fresh-Represents}
use xdp_gradient_aggregation.Agg.Packet.Round.{round_verdicts, AreNew, sum_at, feed-IsRound}
use xdp_gradient_aggregation.Agg.Loop.{
  Process, received_size, receive, sweep, deliver, bump_out, iterate, run,
}
use xdp_gradient_aggregation.Agg.Round.{
  Arrival, input, inputs, message, messages, HaveKey, events, round_events, config,
}
use xdp_gradient_aggregation.Agg.Round.Table.{process_packet_fresh}
use xdp_gradient_aggregation.Agg.Round.Emits.{receive-AgreeBelow, run-Sent, Carries, Sent-Carries}

-- Two tables in which a packet is handled alike.
iterate_congr :
    (quota : ℕ) (a : Arrival) (s : Process) (u : Tables)
    → hdr_size ≤ received_size a.size
    → ((out : Buf)
        → process_packet quota a.clock a.datagram (received_size a.size) s.tables out
          ≡ process_packet quota a.clock a.datagram (received_size a.size) u out)
    → ((iterate (config quota) (input a) s).0.event
        ≡ (iterate (config quota) (input a) (record s { tables = u })).0.event)
      × ((iterate (config quota) (input a) s).1
          ≡ (iterate (config quota) (input a) (record s { tables = u })).1)
unfolding iterate sweep deliver
iterate_congr quota a s u long alike =
    let n = received_size a.size in
    let b = receive a.datagram s.in_packet a.size in
    let agree = receive-AgreeBelow a.datagram s.in_packet a.size in
    let same : process_packet quota a.clock b n s.tables s.out_packet
        ≡ process_packet quota a.clock b n u s.out_packet =
      process_packet-AgreeBelow quota a.clock b a.datagram n s.tables s.out_packet long agree
      ∙ alike s.out_packet
      ∙ sym (process_packet-AgreeBelow quota a.clock b a.datagram n u s.out_packet long agree) in
    let whole : ltb n hdr_size ≡ false = ground (arith, long) in
    rw (deliver, whole)
      (
        ap (λ (o : Outcome). o.event) same,
        ap
            (λ (o : Outcome). record s {
              tables = o.tables;
              in_packet = b;
              out_packet = o.out_packet;
              packets_in = s.packets_in + 1;
              packets_out = bump_out o.event a.sent s.packets_out;
            })
            same,
      )

run_congr :
    (quota : ℕ) (a : Arrival) (as_ : List Arrival) (s : Process) (u : Tables)
    → hdr_size ≤ received_size a.size
    → ((out : Buf)
        → process_packet quota a.clock a.datagram (received_size a.size) s.tables out
          ≡ process_packet quota a.clock a.datagram (received_size a.size) u out)
    → events (run (config quota) (inputs (a ∷ as_)) s).0
      ≡ events (run (config quota) (inputs (a ∷ as_)) (record s { tables = u })).0
unfolding run
run_congr quota a as_ s u long alike =
    let (event, process) = iterate_congr quota a s u long alike in
    ap₂ (λ (e : Event) (t : Process). e ∷ events (run (config quota) (inputs as_) t).0) event
      process

accepted-le :
    (p : Packet) (n : ℕ)
    → is_well_formed p n ≡ true
    → (p.num_workers ≤ 256) × (p.chunk_len ≤ max_chunk_len)
unfolding is_well_formed
accepted-le p n good = ground (arith, good)

length-messages : (as_ : List Arrival) → length (messages as_) ≡ length as_
length-messages [] = refl
length-messages (a ∷ as_) = ap suc (length-messages as_)

-- A round in the main loop of agg.c, with no reaper and no end: in any state in which a key is
-- absent and is granted a slot, datagrams of that key that pass the checks, of one length, from as
-- many different workers as the first one's fan-in, are each absorbed, except that the last has a
-- datagram sent on, which has the key, worker 0 of 1 and the length, and carries at each index
-- below the length the sum of all values modulo 2^32.
pub run-Carries :
    (quota job_id round chunk_id i : ℕ) (a : Arrival) (as_ : List Arrival) (s : Process)
    → probe_slot s.tables.slots job_id round chunk_id ≡ vacant i
    → (find_or_create_slot quota job_id round chunk_id s.tables).0 ≡ some i
    → HaveKey job_id round chunk_id (a ∷ as_)
    → (decode a.datagram).num_workers ≡ length (a ∷ as_)
    → AreNew (decode a.datagram).chunk_len [] (messages (a ∷ as_))
    → (datagram : Buf) × (events (run (config quota) (inputs (a ∷ as_)) s).0
        ≡ round_events (length (a ∷ as_)) datagram (hdr_size + (decode a.datagram).chunk_len * 4))
      × Carries job_id round chunk_id
          (decode a.datagram).chunk_len
          (λ j. sum_at j (messages (a ∷ as_)))
          datagram
run-Carries quota job_id round chunk_id i a as_ s v granted have few new =
    let (u, f, fresh, alike) =
      process_packet_fresh job_id round chunk_id quota i i s.tables v granted in
    let s' : Process = record s { tables = u } in
    let p = decode a.datagram in
    let (workers, len) = accepted-le p (received_size a.size) have.0 in
    let total = length-messages (a ∷ as_) in
    let long : hdr_size ≤ received_size a.size =
      omega (arith, payload_within p (received_size a.size) have.0) in
    let empty : Represents [] (u.slots i) =
      subst (Represents []) (sym fresh)
        (fresh-Represents (fresh_slot job_id round chunk_id) refl refl refl) in
    let whole =
      feed-IsRound (message a) (messages as_) (u.slots i) empty (few ∙ sym total)
        (omega (arith, few, total, workers)) new in
    let sent =
      run-Sent quota job_id round chunk_id i a as_ s' f have
        (whole.verdicts ∙ ap round_verdicts total) in
    let (datagram, shown, carries) =
      Sent-Carries quota job_id round chunk_id i p.chunk_len (length (a ∷ as_))
        (λ j. sum_at j (messages (a ∷ as_))) _ _ len whole.chunk_len whole.sum sent in
    (
      datagram,
      run_congr quota a as_ s u long
            (λ out. alike a.clock a.datagram (received_size a.size) out have.0 have.1 have.2 have.3)
          ∙ shown,
      carries,
    )
