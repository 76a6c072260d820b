-- ===== src/Xdp/Slot/Refine.antt =====
-- The slots of xdp_agg/xdp_agg.c against those of userspace_agg/agg.c, on the same datagram.
use xdp_gradient_aggregation.Common.{
  ℕ, zero, suc, ◌+◌, ◌*◌, ◌^◌, ◌<◌, ◌≤◌, ◌≡◌, ◌≢◌, refl, sym, ap, ap₂, ◌∙◌, true, false, ◌==◌, ltb,
  Array, update, u16, u32, arith, inl, inr, Bool-cases,
}
use native.Mathlib.Decide.{ℕ_discrete}
use xdp_gradient_aggregation.Proto.{
  Buf, load32, value_at, bpf_ntohl, ntohl, hdr_size, max_chunk_len,
}
use xdp_gradient_aggregation.Proto.ByteOrder.{bpf_ntohl-eq-ntohl}
use xdp_gradient_aggregation.Proto.Layout.{IsBytes}
use xdp_gradient_aggregation.Agg.{Slot}
use xdp_gradient_aggregation.Agg.Packet as Agg
use xdp_gradient_aggregation.Agg.Packet.{Packet, Clock, value_of}
use xdp_gradient_aggregation.Agg.Packet.History.{
  latched, contribute-first, contribute-mismatch, contribute-duplicate, contribute-next,
}
use xdp_gradient_aggregation.Xdp.Frame.{values_at, grad_at}
use xdp_gradient_aggregation.Xdp.Slot.{
  GradSlot, fresh_slot, Verdict, mismatch, duplicate, partial, complete, has_seen, accumulate_from,
  absorb, judge, contribute,
}
use xdp_gradient_aggregation.Xdp.Slot.Bitmap.{has_seen-mark_seen, has_seen_empty}

-- The datagram that a socket would receive for the frame.
abbrev pub payload : Buf → Buf
payload frame i = frame (grad_at + i)

pub value_at-payload :
    (frame : Buf) (i : ℕ) → value_at frame values_at i ≡ value_at (payload frame) hdr_size i
unfolding value_at load32
value_at-payload frame i =
    let at_byte : (j k : ℕ) → j ≡ grad_at + k → frame j ≡ payload frame k = λ j k e. ap frame e in
    let at_k : (k : ℕ) → frame (values_at + 4 * i + k) ≡ payload frame (hdr_size + 4 * i + k) =
      λ k. at_byte _ _ (omega arith) in
    let at_0 = at_byte (values_at + 4 * i) (hdr_size + 4 * i) (omega arith) in
    omega (arith, at_0, at_k 1, at_k 2, at_k 3)

value_at-lt : (frame : Buf) (i : ℕ) → IsBytes frame → value_at frame values_at i < 2 ^ 32
unfolding value_at load32
value_at-lt frame i bytes = omega (
  arith,
  bytes (values_at + 4 * i),
  bytes (values_at + 4 * i + 1),
  bytes (values_at + 4 * i + 2),
  bytes (values_at + 4 * i + 3),
)

value_of-payload :
    (frame : Buf) (i : ℕ)
    → IsBytes frame
    → bpf_ntohl (value_at frame values_at i) ≡ value_of (payload frame) i
unfolding value_of
value_of-payload frame i bytes =
    bpf_ntohl-eq-ntohl (value_at frame values_at i) (value_at-lt frame i bytes)
    ∙ ap ntohl (value_at-payload frame i)

-- One slot holds what the other does.
pub record Simulates (s : GradSlot) (t : Slot) : Type 0 where
  pub sum : s.sum ≡ t.sum
  pub chunk_len : s.chunk_len ≡ t.chunk_len
  pub num_workers_expected : s.num_workers_expected ≡ t.num_workers_expected
  pub contributions_received : s.contributions_received ≡ t.contributions_received
  pub seen : (w : ℕ) → has_seen s.seen_worker w ≡ t.seen_worker w

abbrev pub verdict_of : Verdict → Agg.Verdict
verdict_of mismatch = Agg.mismatch
verdict_of duplicate = Agg.duplicate
verdict_of partial = Agg.partial
verdict_of complete = Agg.complete

-- Equal verdicts, and slots that hold the same.
pub record SameStep (r : Verdict × GradSlot) (q : Agg.Verdict × Slot) : Type 0 where
  pub verdict : verdict_of r.0 ≡ q.0
  pub slot : Simulates r.1 q.1

-- The two loops add the same values, where the whole payload lies in the frame.
module _ (frame : Buf) (len chunk_len : ℕ) (bytes : IsBytes frame)
    (whole : values_at + chunk_len * 4 ≤ len) where
  accumulate_from-same :
      (left i : ℕ) (sum : Array ℕ)
      → i + left ≡ max_chunk_len
      → accumulate_from frame len chunk_len left i sum
        ≡ Agg.accumulate_from (value_of (payload frame)) chunk_len left i sum
  unfolding accumulate_from Agg.accumulate_from
  accumulate_from-same zero i sum e = refl
  accumulate_from-same (suc left) i sum e =
      let rest =
        accumulate_from-same left (i + 1)
          (update sum i (u32 (sum i + bpf_ntohl (value_at frame values_at i)))) (omega arith) in
      let value = value_of-payload frame i bytes in
      let next =
        rest
        ∙ ap
            (λ (x : ℕ).
              Agg.accumulate_from (value_of (payload frame)) chunk_len left (i + 1)
                (update sum i (u32 (sum i + x))))
            value in
      ground (arith, next)

  pub accumulate-same :
      (sum : Array ℕ)
      → accumulate_from frame len chunk_len max_chunk_len 0 sum
        ≡ Agg.accumulate (value_of (payload frame)) chunk_len sum
  unfolding Agg.accumulate
  accumulate-same sum = accumulate_from-same max_chunk_len 0 sum refl

  absorb-Simulates :
      (clock : Clock) (p : Packet) (s : GradSlot) (t : Slot)
      → p.chunk_len ≡ chunk_len
      → Simulates s t
      → Simulates
          (absorb frame len chunk_len p.worker_id s)
          (Agg.absorb clock p (value_of (payload frame)) t)
  unfolding absorb Agg.absorb
  absorb-Simulates clock p s t e r = record {
    sum =
        accumulate-same s.sum
        ∙ ap₂ (λ (n : ℕ) (a : Array ℕ). Agg.accumulate (value_of (payload frame)) n a) (sym e)
            r.sum;
    chunk_len = r.chunk_len;
    num_workers_expected = r.num_workers_expected;
    contributions_received = ap (λ (n : ℕ). u16 (n + 1)) r.contributions_received;
    seen = λ w. ground (arith, has_seen-mark_seen s.seen_worker p.worker_id w, r.seen w);
  }

judge-SameStep :
    (s : GradSlot) (t : Slot)
    → t.contributions_received ≤ t.num_workers_expected
    → Simulates s t
    → SameStep (judge s) (Agg.judge t)
unfolding judge Agg.judge
judge-SameStep s t le r = elim (Bool-cases (s.contributions_received == s.num_workers_expected)) [
  | inl all ↦
      let all' : ltb t.contributions_received t.num_workers_expected ≡ false =
        ground (arith, r.contributions_received, r.num_workers_expected) in
      rw (all, all') (record { verdict = refl; slot = r })
  | inr few ↦
      let few' : ltb t.contributions_received t.num_workers_expected ≡ true =
        ground (arith, r.contributions_received, r.num_workers_expected) in
      rw (few, few') (record { verdict = refl; slot = r })
]

-- A contribution that agrees with the slot on the length and comes from a new worker.
accept-eq :
    (frame : Buf) (len chunk_len worker_id : ℕ) (s : GradSlot)
    → s.chunk_len ≡ chunk_len
    → has_seen s.seen_worker worker_id ≡ false
    → contribute frame len chunk_len worker_id s ≡ judge (absorb frame len chunk_len worker_id s)
unfolding contribute
accept-eq frame len chunk_len worker_id s e new = ground arith

-- Where a slot of xdp_agg.c and one of agg.c hold the same and wait for more workers, have
-- accepted at least one contribution and expect fewer than 2^16, one datagram with its whole
-- payload in the frame gives equal verdicts and slots that hold the same.
pub contribute-SameStep :
    (frame : Buf) (len : ℕ) (clock : Clock) (p : Packet) (s : GradSlot) (t : Slot)
    → IsBytes frame
    → values_at + p.chunk_len * 4 ≤ len
    → Simulates s t
    → 0 < t.contributions_received
    → t.contributions_received < t.num_workers_expected
    → t.num_workers_expected < 2 ^ 16
    → SameStep
        (contribute frame len p.chunk_len p.worker_id s)
        (Agg.contribute clock p (value_of (payload frame)) t)
contribute-SameStep frame len clock p s t bytes whole r pos waits small =
    let v = value_of (payload frame) in
    let started : t.contributions_received ≢ 0 = omega arith in
    elim (ℕ_discrete t.chunk_len p.chunk_len) [
      | no ne ↦
          let refused : contribute frame len p.chunk_len p.worker_id s ≡ (mismatch, s) =
            unfold contribute in ground (arith, r.chunk_len) in
          rw (refused, contribute-mismatch clock p v t started ne)
            (record { verdict = refl; slot = r })
      | yes same ↦ elim (Bool-cases (t.seen_worker p.worker_id)) [
        | inl old ↦
            let repeated : contribute frame len p.chunk_len p.worker_id s ≡ (duplicate, s) =
              unfold contribute in ground (arith, r.chunk_len, r.seen p.worker_id) in
            rw (repeated, contribute-duplicate clock p v t started same old)
              (record { verdict = refl; slot = r })
        | inr new ↦
            rw
              (
                accept-eq frame len p.chunk_len p.worker_id s (r.chunk_len ∙ same)
                    (r.seen p.worker_id ∙ new),
                contribute-next clock p v t started same new,
              )
              (judge-SameStep _ _ (unfold Agg.absorb in omega arith)
                (absorb-Simulates frame len p.chunk_len bytes whole clock p s t refl r))
      ]
    ]

-- The first datagram of a round, with a fan-in that is not 0 and its whole payload in the frame,
-- contributed to the slot that xdp_agg.c creates for it and to a slot of agg.c with nothing
-- accepted, gives equal verdicts and slots that hold the same.
pub contribute-SameStep_first :
    (frame : Buf) (len : ℕ) (clock : Clock) (p : Packet) (t : Slot)
    → IsBytes frame
    → values_at + p.chunk_len * 4 ≤ len
    → t.contributions_received ≡ 0
    → t.sum ≡ (λ i. 0)
    → t.seen_worker ≡ (λ w. false)
    → 0 < p.num_workers
    → SameStep
        (contribute frame len p.chunk_len p.worker_id (fresh_slot p.chunk_len p.num_workers))
        (Agg.contribute clock p (value_of (payload frame)) t)
contribute-SameStep_first frame len clock p t bytes whole none_yet zeros unseen pos =
    let s = fresh_slot p.chunk_len p.num_workers in
    let first : Simulates s (latched clock p t) = record {
      sum = sym zeros;
      chunk_len = refl;
      num_workers_expected = refl;
      contributions_received = sym none_yet;
      seen = λ w. rw unseen (has_seen_empty w);
    } in
    let new : t.seen_worker p.worker_id ≡ false = rw unseen in
    rw
      (
        accept-eq frame len p.chunk_len p.worker_id s refl (has_seen_empty p.worker_id),
        contribute-first clock p (value_of (payload frame)) t none_yet new,
      )
      (judge-SameStep _ _ (unfold Agg.absorb in omega (arith, none_yet)) (
        absorb-Simulates frame len p.chunk_len bytes whole clock p s (latched clock p t) refl
          first))
