-- ===== src/Worker/Delivery.antt =====
-- worker/worker.c and userspace_agg/agg.c together: what the main loop sends on for a round.
use xdp_gradient_aggregation.Common.{
  ℕ, suc, ◌+◌, ◌*◌, ◌≡◌, refl, sym, ap, ap₂, ◌∙◌, some, List, [], ◌∷◌, length, arith, u32,
}
use mathlib.Core.Path.{subst}
use xdp_gradient_aggregation.Double.{Double}
use xdp_gradient_aggregation.Proto.{Buf, hdr_size}
use xdp_gradient_aggregation.Probe.{vacant}
use xdp_gradient_aggregation.Agg.Slots.{probe_slot, find_or_create_slot}
use xdp_gradient_aggregation.Agg.Packet.{Packet, decode, value_of, is_well_formed}
use xdp_gradient_aggregation.Agg.Packet.History.{Contribution}
use xdp_gradient_aggregation.Agg.Packet.Round.{Message, AreNew, sum_at}
use xdp_gradient_aggregation.Agg.Loop.{Process, received_size, run}
use xdp_gradient_aggregation.Agg.Round as Round
use xdp_gradient_aggregation.Agg.Round.{Arrival, inputs, HaveKey, events, round_events, config}
use xdp_gradient_aggregation.Agg.Round.Emits.{Carries}
use xdp_gradient_aggregation.Agg.Round.Whole.{run-Carries}
use xdp_gradient_aggregation.Worker.{packet_len}
use xdp_gradient_aggregation.Worker.Packets.{decode-build, build-is_well_formed}
use xdp_gradient_aggregation.Worker.Deployment.{
  Turn, packet, message, messages, AreDeployed, messages-AreNew,
}

-- The datagram of a turn arrives, in an iteration that reads what `at` says besides.
abbrev pub arrival : (at : Turn → Arrival) → Turn → Arrival
arrival at t = record (at t) { datagram = packet t; size = packet_len t.options; clock = t.clock }

abbrev pub arrivals : (Turn → Arrival) → List Turn → List Arrival
arrivals at [] = []
arrivals at (t ∷ ts) = arrival at t ∷ arrivals at ts

-- The turns are of one job and one round.
abbrev pub AreOf : (job_id round : ℕ) → List Turn → Type 0
AreOf job_id round [] = Unit {0}
AreOf job_id round (t ∷ ts) =
    (t.options.job_id ≡ job_id) × (u32 t.round ≡ round) × AreOf job_id round ts

messages-arrivals :
    (at : Turn → Arrival) (ts : List Turn) → Round.messages (arrivals at ts) ≡ messages ts
messages-arrivals at [] = refl
messages-arrivals at (t ∷ ts) = ap (λ (ms : List Message). message t ∷ ms) (messages-arrivals at ts)

length-arrivals : (at : Turn → Arrival) (ts : List Turn) → length (arrivals at ts) ≡ length ts
length-arrivals at [] = refl
length-arrivals at (t ∷ ts) = ap suc (length-arrivals at ts)

arrivals-HaveKey :
    (at : Turn → Arrival) (n len job_id round : ℕ) (max_abs : Double) (h : List Contribution)
    (ts : List Turn)
    → AreDeployed n len max_abs h ts
    → AreOf job_id round ts
    → HaveKey job_id round 0 (arrivals at ts)
arrivals-HaveKey at n len job_id round max_abs h [] all of_all = tt
arrivals-HaveKey at n len job_id round max_abs h (t ∷ ts)
      (sound, bounded, few, same, limit, new, rest) (job, rnd, others) =
    let o = t.options in
    let e = decode-build o sound t.round t.state t.buffer in
    let whole : received_size (packet_len o) ≡ packet_len o = ground (arith, sound.chunk_len) in
    (
      ap (λ (k : ℕ). is_well_formed (decode (packet t)) k) whole
          ∙ build-is_well_formed o sound t.round t.state t.buffer,
      ap (λ (p : Packet). p.job_id) e ∙ job,
      ap (λ (p : Packet). p.round) e ∙ rnd,
      ap (λ (p : Packet). p.chunk_id) e,
      arrivals-HaveKey at n len job_id round max_abs ((o.worker_id, value_of (packet t)) ∷ h) ts
          rest others,
    )

-- The datagram that the main loop sends on for the packets of a round.
pub run-arrivals :
    (t : Turn) (ts : List Turn) (at : Turn → Arrival) (quota i : ℕ) (s : Process)
    → probe_slot s.tables.slots t.options.job_id (u32 t.round) 0 ≡ vacant i
    → (find_or_create_slot quota t.options.job_id (u32 t.round) 0 s.tables).0 ≡ some i
    → AreOf t.options.job_id (u32 t.round) (t ∷ ts)
    → AreDeployed (length (t ∷ ts)) t.options.chunk_len t.options.max_abs_grad [] (t ∷ ts)
    → (datagram : Buf) × (events (run (config quota) (inputs (arrivals at (t ∷ ts))) s).0
        ≡ round_events (length (t ∷ ts)) datagram (hdr_size + t.options.chunk_len * 4))
      × Carries t.options.job_id
          (u32 t.round)
          0
          t.options.chunk_len
          (λ j. sum_at j (messages (t ∷ ts)))
          datagram
run-arrivals t ts at quota i s v granted of_all all =
    let o = t.options in
    let (sound, bounded, few, same, limit, first, rest) = all in
    let e = decode-build o sound t.round t.state t.buffer in
    let count = length-arrivals at (t ∷ ts) in
    let lens : (decode (packet t)).chunk_len ≡ o.chunk_len = ap (λ (p : Packet). p.chunk_len) e in
    let workers : (decode (packet t)).num_workers ≡ length (arrivals at (t ∷ ts)) =
      ap (λ (p : Packet). p.num_workers) e ∙ few ∙ sym count in
    let new : AreNew (decode (packet t)).chunk_len [] (Round.messages (arrivals at (t ∷ ts))) =
      subst (AreNew (decode (packet t)).chunk_len []) (sym (messages-arrivals at (t ∷ ts))) (
        subst (λ k. AreNew k [] (messages (t ∷ ts))) (sym lens)
          (messages-AreNew (length (t ∷ ts)) o.chunk_len o.max_abs_grad [] (t ∷ ts) all)) in
    let have =
      arrivals-HaveKey at (length (t ∷ ts)) o.chunk_len o.job_id (u32 t.round) o.max_abs_grad []
        (t ∷ ts) all of_all in
    let (datagram, shown, carries) =
      run-Carries quota o.job_id (u32 t.round) 0 i (arrival at t) (arrivals at ts) s v granted have
        workers new in
    (
      datagram,
      shown ∙ ap₂ (λ (k l : ℕ). round_events k datagram (hdr_size + l * 4)) count lens,
      record {
        header = carries.header ∙ λ m. record {
          job_id = o.job_id;
          round = u32 t.round;
          chunk_id = 0;
          worker_id = 0;
          num_workers = 1;
          chunk_len = lens m;
        };
        values = λ j lt.
            carries.values j (rw lens lt)
            ∙ ap (λ (ms : List Message). u32 (sum_at j ms)) (messages-arrivals at (t ∷ ts));
      },
    )
