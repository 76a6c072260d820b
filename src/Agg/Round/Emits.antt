-- ===== src/Agg/Round/Emits.antt =====
-- A whole round of userspace_agg/agg.c in its main loop: the datagram that is sent on.
use xdp_gradient_aggregation.Common.{
  ℕ, ◌+◌, ◌*◌, ◌<◌, ◌≤◌, ◌≡◌, refl, ap, ap₂, ◌∙◌, false, Array, update, update_same, arith, List,
  [], ◌∷◌, length, u32, ltb,
}
use mathlib.Core.Path.{subst}
use xdp_gradient_aggregation.Proto.{Buf, hdr_size, max_chunk_len}
use xdp_gradient_aggregation.Proto.Layout.{AgreeBelow}
use xdp_gradient_aggregation.Probe.{found}
use xdp_gradient_aggregation.Agg.{Slot, Tables}
use xdp_gradient_aggregation.Agg.Slots.{probe_slot}
use xdp_gradient_aggregation.Agg.Packet.{
  Packet, Verdict, partial, complete, Event, absorbed, emitted, Outcome, decode, value_of,
  contribute, emit, out_len, settle, process_packet,
}
use xdp_gradient_aggregation.Agg.Packet.Fresh.{payload_within, process_packet-AgreeBelow}
use xdp_gradient_aggregation.Agg.Packet.Round.{feed, round_verdicts}
use xdp_gradient_aggregation.Agg.Packet.Emit.{KeyFits, decode-KeyFits, decode-emit, value_of-emit}
use xdp_gradient_aggregation.Agg.Loop.{
  Process, received_size, receive, sweep, deliver, iterate, run,
}
use xdp_gradient_aggregation.Agg.Round.{
  Arrival, input, inputs, messages, HaveKey, events, round_events, config,
}
use xdp_gradient_aggregation.Agg.Round.Table.{contribute-key, found-again, process_packet-settle}

pub receive-AgreeBelow :
    (d old : Buf) (size : ℕ) → AgreeBelow (received_size size) (receive d old size) d
unfolding receive
receive-AgreeBelow d old size i lt = ground (arith, lt)

-- One iteration with a datagram that is long enough.
iterate-arrival :
    (quota : ℕ) (a : Arrival) (s : Process)
    → hdr_size ≤ received_size a.size
    → let o =
        process_packet quota a.clock a.datagram (received_size a.size) s.tables s.out_packet in
      let r = iterate (config quota) (input a) s in
      (r.0.event ≡ o.event) × (r.1.tables ≡ o.tables) × (r.1.out_packet ≡ o.out_packet)
unfolding iterate sweep deliver
iterate-arrival quota a s long =
    let n = received_size a.size in
    let b = receive a.datagram s.in_packet a.size in
    let same =
      process_packet-AgreeBelow quota a.clock b a.datagram n s.tables s.out_packet long
        (receive-AgreeBelow a.datagram s.in_packet a.size) in
    let whole : ltb n hdr_size ≡ false = ground (arith, long) in
    rw (deliver, whole)
      (
        ap (λ (o : Outcome). o.event) same,
        ap (λ (o : Outcome). o.tables) same,
        ap (λ (o : Outcome). o.out_packet) same,
      )

settle-complete :
    (p : Packet) (i : ℕ) (r : Verdict × Slot) (t : Tables) (out : Buf)
    → r.0 ≡ complete
    → (settle p i r t out).event ≡ emitted (emit p r.1 out) (out_len r.1)
unfolding settle
settle-complete p i r t out e = rw (settle, e) refl

settle-partial :
    (p : Packet) (i : ℕ) (r : Verdict × Slot) (t : Tables) (out : Buf)
    → r.0 ≡ partial
    → ((settle p i r t out).event ≡ absorbed)
      × ((settle p i r t out).tables ≡ record t { slots = update t.slots i r.1 })
unfolding settle
settle-partial p i r t out e = rw (settle, e) (refl, refl)

module _ (quota job_id round chunk_id i : ℕ) where
  abbrev IsFound : Tables → Type 0
  IsFound t = probe_slot t.slots job_id round chunk_id ≡ found i

  -- One packet of the key, when its slot is there.
  step-settle :
      (a : Arrival) (as_ : List Arrival) (s : Process)
      → IsFound s.tables
      → HaveKey job_id round chunk_id (a ∷ as_)
      → let o =
          settle
            (decode a.datagram)
            i
            (contribute a.clock (decode a.datagram) (value_of a.datagram) (s.tables.slots i))
            s.tables
            s.out_packet in
        let r = iterate (config quota) (input a) s in
        (r.0.event ≡ o.event) × (r.1.tables ≡ o.tables) × (r.1.out_packet ≡ o.out_packet)
  step-settle a as_ s f (good, job, rnd, chunk, rest) =
      let n = received_size a.size in
      let long : hdr_size ≤ n = omega (arith, payload_within (decode a.datagram) n good) in
      let (event, tables, out) = iterate-arrival quota a s long in
      let e =
        process_packet-settle job_id round chunk_id quota a.clock a.datagram n i s.tables
          s.out_packet good job rnd chunk f in
      (
        event ∙ ap (λ (o : Outcome). o.event) e,
        tables ∙ ap (λ (o : Outcome). o.tables) e,
        out ∙ ap (λ (o : Outcome). o.out_packet) e,
      )

  -- What the last packet of the round sends on.
  pub record Sent (last : Slot) (n : ℕ) (evs : List Event) : Type 0 where
    pub packet : Packet
    pub out : Buf
    pub fits : KeyFits packet
    pub job_id_kept : packet.job_id ≡ job_id
    pub round_kept : packet.round ≡ round
    pub chunk_id_kept : packet.chunk_id ≡ chunk_id
    pub shown : evs ≡ round_events n (emit packet last out) (out_len last)

  pub run-Sent :
      (a : Arrival) (as_ : List Arrival) (s : Process)
      → IsFound s.tables
      → HaveKey job_id round chunk_id (a ∷ as_)
      → (feed (s.tables.slots i) (messages (a ∷ as_))).0 ≡ round_verdicts (length (a ∷ as_))
      → Sent
          (feed (s.tables.slots i) (messages (a ∷ as_))).1
          (length (a ∷ as_))
          (events (run (config quota) (inputs (a ∷ as_)) s).0)
  unfolding run feed
  run-Sent a [] s f have v =
      let (event, tables, out) = step-settle a [] s f have in
      let r = contribute a.clock (decode a.datagram) (value_of a.datagram) (s.tables.slots i) in
      let done : r.0 ≡ complete = ground (arith, v) in
      record {
        packet = decode a.datagram;
        out = s.out_packet;
        fits = decode-KeyFits a.datagram;
        job_id_kept = have.1;
        round_kept = have.2;
        chunk_id_kept = have.3;
        shown =
            ap (λ (e : Event). e ∷ [])
              (event ∙ settle-complete (decode a.datagram) i r s.tables s.out_packet done);
      }
  run-Sent a (k ∷ as_) s f have v =
      let (event, tables, out) = step-settle a (k ∷ as_) s f have in
      let r = contribute a.clock (decode a.datagram) (value_of a.datagram) (s.tables.slots i) in
      let waits : r.0 ≡ partial = ground (arith, v) in
      let t : Process = (iterate (config quota) (input a) s).1 in
      let (quiet, stored) = settle-partial (decode a.datagram) i r s.tables s.out_packet waits in
      let slots : t.tables.slots ≡ update s.tables.slots i r.1 =
        ap (λ (u : Tables). u.slots) (tables ∙ stored) in
      let here : t.tables.slots i ≡ r.1 =
        ap (λ (x : Array Slot). x i) slots ∙ update_same s.tables.slots i r.1 in
      let (used, keyed) =
        contribute-key a.clock (decode a.datagram) (value_of a.datagram) (s.tables.slots i) job_id
          round chunk_id in
      let f' : IsFound t.tables =
        ap (λ (x : Array Slot). probe_slot x job_id round chunk_id) slots
        ∙ found-again job_id round chunk_id s.tables.slots i r.1 f used keyed in
      let ms = messages (k ∷ as_) in
      let later : (feed r.1 ms).0 ≡ round_verdicts (length (k ∷ as_)) = cc in
      let rest = run-Sent k as_ t f' have.4 (ap (λ (x : Slot). (feed x ms).0) here ∙ later) in
      let evs = events (run (config quota) (inputs (k ∷ as_)) t).0 in
      let moved : Sent (feed r.1 ms).1 (length (k ∷ as_)) evs =
        subst (λ x. Sent (feed x ms).1 (length (k ∷ as_)) evs) here rest in
      record {
        packet = moved.packet;
        out = moved.out;
        fits = moved.fits;
        job_id_kept = moved.job_id_kept;
        round_kept = moved.round_kept;
        chunk_id_kept = moved.chunk_id_kept;
        shown = ap₂ (λ (e : Event) (es : List Event). e ∷ es) (event ∙ quiet) moved.shown;
      }

-- The datagram that carries the sums of the values, for the key, from worker 0 of 1.
pub record Carries (job_id round chunk_id len : ℕ) (sums : Array ℕ) (datagram : Buf) : Type 0 where
  pub header : decode datagram ≡ record {
    job_id = job_id;
    round = round;
    chunk_id = chunk_id;
    worker_id = 0;
    num_workers = 1;
    chunk_len = len;
  }
  pub values : (j : ℕ) → j < len → value_of datagram j ≡ u32 (sums j)

module _ (quota job_id round chunk_id : ℕ) where
  pub Sent-Carries :
      (i len n : ℕ) (sums : Array ℕ) (last : Slot) (evs : List Event)
      → len ≤ max_chunk_len
      → last.chunk_len ≡ len
      → ((j : ℕ) → j < len → j < max_chunk_len → last.sum j ≡ u32 (sums j))
      → Sent quota job_id round chunk_id i last n evs
      → (datagram : Buf) × (evs ≡ round_events n datagram (hdr_size + len * 4))
        × Carries job_id round chunk_id len sums datagram
  Sent-Carries i len n sums last evs most same_len same_sum sent =
      let p = sent.packet in
      let d = emit p last sent.out in
      (
        d,
        sent.shown ∙ ap (λ (l : ℕ). round_events n d (hdr_size + l * 4)) same_len,
        record {
          header = decode-emit p last sent.out sent.fits (omega (arith, same_len, most)) ∙ λ m.
              record {
                job_id = sent.job_id_kept m;
                round = sent.round_kept m;
                chunk_id = sent.chunk_id_kept m;
                worker_id = 0;
                num_workers = 1;
                chunk_len = same_len m;
              };
          values = λ j lt.
              let sum = same_sum j lt (omega (arith, lt, most)) in
              value_of-emit p last sent.out j (omega (arith, same_len, lt)) (rw sum (omega arith))
              ∙ sum;
        },
      )
