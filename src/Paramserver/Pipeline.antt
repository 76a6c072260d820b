-- ===== src/Paramserver/Pipeline.antt =====
-- paramserver/paramserver.c behind an aggregator: the one packet that stands for a whole round.
use xdp_gradient_aggregation.Common.{
  ℕ, ◌+◌, ◌*◌, ◌^◌, ◌<◌, ◌≤◌, ◌≡◌, refl, ap, ◌∙◌, Bool, false, if◌then◌else◌, Array, u32, arith,
  List, [], ◌∷◌, length,
}
use xdp_gradient_aggregation.Proto.{Buf, max_chunk_len}
use xdp_gradient_aggregation.Agg as Agg
use xdp_gradient_aggregation.Agg.Packet.{Packet, decode, value_of, emit}
use xdp_gradient_aggregation.Agg.Packet.Sum.{accumulate_lem}
use xdp_gradient_aggregation.Agg.Packet.Emit.{KeyFits, decode-emit, value_of-emit}
use xdp_gradient_aggregation.Agg.Packet.History.{Represents}
use xdp_gradient_aggregation.Agg.Packet.Round.{Message, feed, AreNew, sum_at, feed-IsRound}
use xdp_gradient_aggregation.Xdp.Frame.{Config, values_at, retarget}
use xdp_gradient_aggregation.Xdp.Slot.{GradSlot, write_back}
use xdp_gradient_aggregation.Xdp.Slot.Refine.{payload}
use xdp_gradient_aggregation.Xdp.Program.Sent.{decode-retarget, value_of-retarget}
use xdp_gradient_aggregation.Paramserver.{
  Slot, Clock, Event, completed, latch, absorb, finish, contribute,
}

-- A slot that has accepted nothing.
pub record IsFresh (t : Slot) : Type 0 where
  pub received : t.contributions_received ≡ 0
  pub waiting : t.completed_micros ≡ 0
  pub sum : t.sum ≡ (λ i. 0)
  pub seen : t.seen_worker ≡ (λ w. false)

module _ (clock : Clock) (agg_mode : Bool) (p : Packet) (v : Array ℕ) (t : Slot) (fresh : IsFresh t)
    (one : p.num_workers ≡ 1) where
  -- The slot after latch.
  abbrev latched : Slot
  latched = record t {
    first_seen_micros = clock.first_seen;
    chunk_len = p.chunk_len;
    num_workers_expected = if agg_mode then 1 else p.num_workers;
  }

  expects_one : latched.num_workers_expected ≡ 1
  expects_one = ground (arith, one)

  contribute-absorb : contribute clock agg_mode p v t ≡ finish clock (absorb p v latched)
  unfolding contribute latch
  contribute-absorb =
      let unseen : t.seen_worker p.worker_id ≡ false = rw fresh.seen in
      rw (contribute, latch, fresh.received, unseen)

  finish_completed :
      finish clock (absorb p v latched)
      ≡ (completed, record (absorb p v latched) { completed_micros = clock.completed })
  unfolding finish absorb
  finish_completed = rw (finish, absorb, fresh.received, fresh.waiting, expects_one)

  -- A packet that is the only one expected, in a slot that has accepted nothing, completes it, and
  -- the slot then holds the packet's values: each one below the length, of at most 64, that fits
  -- 32 bits.
  pub contribute_whole :
      ((contribute clock agg_mode p v t).0 ≡ completed)
      × ((i : ℕ)
          → i < p.chunk_len
          → p.chunk_len ≤ max_chunk_len
          → v i < 2 ^ 32
          → (contribute clock agg_mode p v t).1.sum i ≡ v i)
  unfolding absorb
  contribute_whole =
      rw (contribute-absorb, finish_completed)
        (
          refl,
          λ i lt most small. rw fresh.sum (ground (arith, accumulate_lem v p.chunk_len (λ j. 0) i)),
        )

-- What the server does with the datagram `b`.
abbrev pub served : Clock → Bool → Buf → Slot → Event × Slot
served clock agg_mode b t = contribute clock agg_mode (decode b) (value_of b) t

-- The slot is complete, and holds `sums` below `chunk_len`.
pub record HoldsRound (chunk_len : ℕ) (sums : Array ℕ) (r : Event × Slot) : Type 0 where
  pub event : r.0 ≡ completed
  pub sum : (i : ℕ) → i < chunk_len → sums i < 2 ^ 32 → r.1.sum i ≡ sums i

-- A datagram that reads as a whole round.
pub served_whole :
    (clock : Clock) (agg_mode : Bool) (b : Buf) (chunk_len : ℕ) (sums : Array ℕ) (t : Slot)
    → IsFresh t
    → (decode b).num_workers ≡ 1
    → (decode b).chunk_len ≡ chunk_len
    → chunk_len ≤ max_chunk_len
    → ((i : ℕ) → i < chunk_len → sums i < 2 ^ 32 → value_of b i ≡ sums i)
    → HoldsRound chunk_len sums (served clock agg_mode b t)
served_whole clock agg_mode b chunk_len sums t fresh one len most reads =
    let whole = contribute_whole clock agg_mode (decode b) (value_of b) t fresh one in
    record {
      event = whole.0;
      sum = λ i lt small.
          whole.1 i (omega arith) (omega arith) (omega (arith, reads i lt small))
          ∙ reads i lt small;
    }

-- The packet that agg.c emits for a slot completes a new slot of the server, in both modes, and the
-- server then holds the sums of that slot.
pub served-emit :
    (clock : Clock) (agg_mode : Bool) (p : Packet) (s : Agg.Slot) (out : Buf) (t : Slot)
    → IsFresh t
    → KeyFits p
    → s.chunk_len ≤ max_chunk_len
    → HoldsRound s.chunk_len s.sum (served clock agg_mode (emit p s out) t)
served-emit clock agg_mode p s out t fresh key most =
    let header = decode-emit p s out key (omega arith) in
    served_whole clock agg_mode (emit p s out) s.chunk_len s.sum t fresh
      (ap (λ (q : Packet). q.num_workers) header) (ap (λ (q : Packet). q.chunk_len) header) most
      (λ i lt small. value_of-emit p s out i lt small)

-- The datagram in the frame that xdp_agg.c sends on for a slot, with a length of at most 64 and
-- the payload in the frame, completes a slot of the server with nothing accepted, in either mode,
-- and the server then holds each sum below the length that fits 32 bits.
pub served-retarget :
    (clock : Clock) (agg_mode : Bool) (cfg : Config) (s : GradSlot) (len : ℕ) (frame : Buf)
    (t : Slot)
    → IsFresh t
    → s.chunk_len ≤ max_chunk_len
    → values_at + 4 * s.chunk_len ≤ len
    → HoldsRound s.chunk_len s.sum
        (served clock agg_mode (payload (retarget cfg s.chunk_len (write_back s len frame))) t)
served-retarget clock agg_mode cfg s len frame t fresh most whole =
    let header = decode-retarget cfg s len frame most whole in
    served_whole clock agg_mode (payload (retarget cfg s.chunk_len (write_back s len frame)))
      s.chunk_len s.sum t fresh (ap (λ (q : Packet). q.num_workers) header)
      (ap (λ (q : Packet). q.chunk_len) header) most
      (λ i lt small. value_of-retarget cfg s len frame most whole i lt small)

-- From the workers to the server: n workers (n below 2^16, the fan-in of the first packet)
-- contribute once each, with one length of at most 64, to a slot of agg.c with nothing accepted,
-- the packet that agg.c emits for the slot, under any key that fits its fields, is contributed to
-- a slot of the server with nothing accepted, in either mode: that slot is complete, and holds the
-- sums of all values modulo 2^32 below the length.
pub served-feed :
    (clock : Clock) (agg_mode : Bool) (m : Message) (ms : List Message) (s : Agg.Slot) (p : Packet)
    (out : Buf) (t : Slot)
    → Represents [] s
    → m.packet.num_workers ≡ length (m ∷ ms)
    → length (m ∷ ms) < 2 ^ 16
    → AreNew m.packet.chunk_len [] (m ∷ ms)
    → m.packet.chunk_len ≤ max_chunk_len
    → KeyFits p
    → IsFresh t
    → HoldsRound m.packet.chunk_len
        (λ i. u32 (sum_at i (m ∷ ms)))
        (served clock agg_mode (emit p (feed s (m ∷ ms)).1 out) t)
served-feed clock agg_mode m ms s p out t r fan_in few new most key fresh =
    let round = feed-IsRound m ms s r fan_in few new in
    let last = (feed s (m ∷ ms)).1 in
    let len : last.chunk_len ≡ m.packet.chunk_len = round.chunk_len in
    let held = served-emit clock agg_mode p last out t fresh key (omega arith) in
    record {
      event = held.event;
      sum = λ i lt small.
          let total = round.sum i lt (omega arith) in
          held.sum i (omega arith) (omega (arith, total)) ∙ total;
    }
