-- ===== src/Xdp/Slot/Round.antt =====
-- A whole round of xdp_agg/xdp_agg.c at its slot, through the slots of userspace_agg/agg.c.
use xdp_gradient_aggregation.Common.{
  ℕ, suc, ◌+◌, ◌*◌, ◌^◌, ◌<◌, ◌≤◌, ◌≡◌, refl, ap, ap₂, ◌∙◌, Array, u32, arith, List, [], ◌∷◌,
  length,
}
use xdp_gradient_aggregation.Proto.{Buf, load16, hdr_at, bpf_ntohs, ntohs, max_chunk_len}
use xdp_gradient_aggregation.Proto.ByteOrder.{bpf_ntohs-eq-ntohs}
use xdp_gradient_aggregation.Proto.Layout.{IsBytes}
use xdp_gradient_aggregation.Agg.{Slot, zero_slot}
use xdp_gradient_aggregation.Agg.Packet as Agg
use xdp_gradient_aggregation.Agg.Packet.{Packet, Clock, decode, value_of}
use xdp_gradient_aggregation.Agg.Packet.History.{fresh-Represents}
use xdp_gradient_aggregation.Agg.Packet.Round.{
  Message, feed, AreNew, round_verdicts, sum_at, feed-IsRound,
}
use xdp_gradient_aggregation.Xdp.Frame.{values_at, grad_at}
use xdp_gradient_aggregation.Xdp.Slot.{GradSlot, fresh_slot, Verdict, contribute}
use xdp_gradient_aggregation.Xdp.Slot.Refine.{
  payload, Simulates, SameStep, verdict_of, contribute-SameStep, contribute-SameStep_first,
}

-- What the program passes to the locked section.
abbrev pub take : Buf × ℕ → GradSlot → Verdict × GradSlot
take (frame, len) s =
    let hdr = hdr_at frame grad_at in
    contribute frame len (bpf_ntohs hdr.chunk_len) (bpf_ntohs hdr.worker_id) s

-- Frames to one slot, in order.
pub feed_frames : GradSlot → List (Buf × ℕ) → List Verdict × GradSlot
feed_frames s [] = ([], s)
feed_frames s (f ∷ fs) =
    let (v, s') = take f s in let (vs, last) = feed_frames s' fs in (v ∷ vs, last)

-- The datagram of a frame, at a clock that does not matter.
abbrev pub message_of : Buf × ℕ → Message
message_of (frame, len) = record {
  clock = record { first_seen = 0; touched = 0 };
  packet = decode (payload frame);
  values = value_of (payload frame);
}

abbrev pub messages : List (Buf × ℕ) → List Message
messages [] = []
messages (f ∷ fs) = message_of f ∷ messages fs

abbrev pub verdicts_of : List Verdict → List Agg.Verdict
verdicts_of [] = []
verdicts_of (v ∷ vs) = verdict_of v ∷ verdicts_of vs

-- A frame of bytes that holds its whole payload, as the program has checked it.
abbrev pub IsWhole : Buf × ℕ → Type 0
IsWhole (frame, len) = IsBytes frame × (values_at + (decode (payload frame)).chunk_len * 4 ≤ len)

abbrev pub AreWhole : List (Buf × ℕ) → Type 0
AreWhole [] = Unit {0}
AreWhole (f ∷ fs) = IsWhole f × AreWhole fs

halfword-eq :
    (frame : Buf) (o : ℕ)
    → IsBytes frame
    → bpf_ntohs (load16 frame (grad_at + o)) ≡ ntohs (load16 frame (grad_at + o))
unfolding load16
halfword-eq frame o bytes =
    bpf_ntohs-eq-ntohs (load16 frame (grad_at + o))
      (omega (arith, bytes (grad_at + o), bytes (grad_at + o + 1)))

take-contribute :
    (frame : Buf) (len : ℕ) (s : GradSlot)
    → IsBytes frame
    → take (frame, len) s
      ≡ contribute frame len (decode (payload frame)).chunk_len (decode (payload frame)).worker_id s
unfolding decode hdr_at load16
take-contribute frame len s bytes =
    ap₂ (λ (l w : ℕ). contribute frame len l w s) (halfword-eq frame 16 bytes)
      (halfword-eq frame 12 bytes)

-- A contribution to a slot that has accepted some counts at most one more, and keeps the fan-in.
agg-step :
    (clock : Clock) (p : Packet) (v : Array ℕ) (t : Slot)
    → 0 < t.contributions_received
    → t.contributions_received + 1 < 2 ^ 16
    → let r = Agg.contribute clock p v t in
      (0 < r.1.contributions_received)
      × (r.1.contributions_received ≤ t.contributions_received + 1)
      × (r.1.num_workers_expected ≡ t.num_workers_expected)
unfolding Agg.contribute Agg.latch Agg.absorb Agg.judge
agg-step clock p v t pos small = ground arith

-- Equal verdicts, and slots that hold the same at the end.
pub record SameFeed (r : List Verdict × GradSlot) (q : List Agg.Verdict × Slot) : Type 0 where
  pub verdicts : verdicts_of r.0 ≡ q.0
  pub slot : Simulates r.1 q.1

SameFeed-feed :
    (f : Buf × ℕ) (fs : List (Buf × ℕ)) (s : GradSlot) (t : Slot)
    → SameStep
        (take f s)
        (Agg.contribute (message_of f).clock (message_of f).packet (message_of f).values t)
    → SameFeed (feed_frames (take f s).1 fs) (
        feed
          (Agg.contribute (message_of f).clock (message_of f).packet (message_of f).values t).1
          (messages fs))
    → SameFeed (feed_frames s (f ∷ fs)) (feed t (messages (f ∷ fs)))
unfolding feed_frames feed
SameFeed-feed f fs s t step rest = record {
  verdicts = ap₂ (λ (v : Agg.Verdict) (vs : List Agg.Verdict). v ∷ vs) step.verdict rest.verdicts;
  slot = rest.slot;
}

-- As many frames as the slots still wait for.
feed_frames-SameFeed :
    (fs : List (Buf × ℕ)) (s : GradSlot) (t : Slot)
    → AreWhole fs
    → Simulates s t
    → 0 < t.contributions_received
    → t.contributions_received + length fs ≤ t.num_workers_expected
    → t.num_workers_expected < 2 ^ 16
    → SameFeed (feed_frames s fs) (feed t (messages fs))
unfolding feed_frames feed
feed_frames-SameFeed [] s t whole r pos room small = record { verdicts = refl; slot = r }
feed_frames-SameFeed ((frame, len) ∷ fs) s t whole r pos room small =
    let m = message_of (frame, len) in
    let step : SameStep (take (frame, len) s) (Agg.contribute m.clock m.packet m.values t) =
      rw (take-contribute frame len s whole.0.0) (
        contribute-SameStep frame len m.clock m.packet s t whole.0.0 whole.0.1 r pos (omega arith)
          small) in
    let count = agg-step m.clock m.packet m.values t pos (omega arith) in
    SameFeed-feed (frame, len) fs s t step
      (feed_frames-SameFeed fs (take (frame, len) s).1
        (Agg.contribute m.clock m.packet m.values t).1 whole.1 step.slot count.0
        (omega (arith, count)) (omega (arith, count)))

agg-first :
    (clock : Clock) (p : Packet) (v : Array ℕ)
    → let r = Agg.contribute clock p v zero_slot in
      (r.1.contributions_received ≡ 1) × (r.1.num_workers_expected ≡ p.num_workers)
unfolding Agg.contribute Agg.latch Agg.absorb Agg.judge
agg-first clock p v = ground arith

length-messages : (fs : List (Buf × ℕ)) → length (messages fs) ≡ length fs
length-messages [] = refl
length-messages (f ∷ fs) = ap suc (length-messages fs)

-- What a finished round leaves.
pub record IsFrameRound (len n : ℕ) (sums : Array ℕ) (r : List Verdict × GradSlot) : Type 0 where
  pub verdicts : verdicts_of r.0 ≡ round_verdicts n
  pub chunk_len : r.1.chunk_len ≡ len
  pub sum : (i : ℕ) → i < len → i < max_chunk_len → r.1.sum i ≡ u32 (sums i)

-- A round in the slot that xdp_agg.c creates for its first frame: n frames of bytes that hold
-- their whole payload (n below 2^16, the fan-in of the first), from n different workers and of one
-- length, give the verdict partial for each but the last and complete for the last, and the slot
-- then has that length and holds the sums of all values modulo 2^32, at each index below the
-- length and below 64.
pub feed_frames-IsFrameRound :
    (frame : Buf) (len : ℕ) (fs : List (Buf × ℕ))
    → AreWhole ((frame, len) ∷ fs)
    → (decode (payload frame)).num_workers ≡ length ((frame, len) ∷ fs)
    → length ((frame, len) ∷ fs) < 2 ^ 16
    → AreNew (decode (payload frame)).chunk_len [] (messages ((frame, len) ∷ fs))
    → IsFrameRound
        (decode (payload frame)).chunk_len
        (length ((frame, len) ∷ fs))
        (λ i. sum_at i (messages ((frame, len) ∷ fs)))
        (feed_frames
          (fresh_slot (decode (payload frame)).chunk_len (decode (payload frame)).num_workers)
          ((frame, len) ∷ fs))
feed_frames-IsFrameRound frame len fs whole fan_in few new =
    let m = message_of (frame, len) in
    let s = fresh_slot m.packet.chunk_len m.packet.num_workers in
    let step : SameStep (take (frame, len) s) (Agg.contribute m.clock m.packet m.values zero_slot) =
      rw (take-contribute frame len s whole.0.0) (
        contribute-SameStep_first frame len m.clock m.packet zero_slot whole.0.0 whole.0.1 refl refl
          refl (omega (arith, fan_in))) in
    let count = agg-first m.clock m.packet m.values in
    let rest =
      feed_frames-SameFeed fs (take (frame, len) s).1
        (Agg.contribute m.clock m.packet m.values zero_slot).1 whole.1 step.slot
        (omega (arith, count)) (omega (arith, count, fan_in)) (omega (arith, count, fan_in)) in
    let same = SameFeed-feed (frame, len) fs s zero_slot step rest in
    let n = length-messages fs in
    let round =
      feed-IsRound m (messages fs) zero_slot (fresh-Represents zero_slot refl refl refl)
        (omega (arith, fan_in, n)) (omega (arith, n)) new in
    record {
      verdicts = same.verdicts ∙ round.verdicts ∙ ap (λ (k : ℕ). round_verdicts (suc k)) n;
      chunk_len = same.slot.chunk_len ∙ round.chunk_len;
      sum = λ i lt most. ap (λ (a : Array ℕ). a i) same.slot.sum ∙ round.sum i lt most;
    }
