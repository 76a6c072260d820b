-- ===== src/Xdp/Slot/History.antt =====
-- A slot of xdp_agg/xdp_agg.c against the list of the contributions that it has accepted.
use xdp_gradient_aggregation.Common.{
  ℕ, suc, ◌+◌, ◌*◌, ◌<◌, ◌≤◌, ◌≡◌, refl, ap, ◌∙◌, true, false, ◌&&◌, to_nat, ltb, if◌then◌else◌,
  Array, u32, arith, List, [], ◌∷◌, length, count, count-le, count_zero, count-change,
}
use xdp_gradient_aggregation.Proto.{Buf, max_chunk_len}
use xdp_gradient_aggregation.Proto.Layout.{IsBytes}
use xdp_gradient_aggregation.Agg.Packet.{value_of}
use xdp_gradient_aggregation.Agg.Packet.Sum.{accumulate_lem}
use xdp_gradient_aggregation.Agg.Packet.History.{Contribution, total, contributed}
use xdp_gradient_aggregation.Xdp.Frame.{values_at}
use xdp_gradient_aggregation.Xdp.Slot.{GradSlot, fresh_slot, has_seen, absorb}
use xdp_gradient_aggregation.Xdp.Slot.Bitmap.{has_seen-mark_seen, has_seen_empty}
use xdp_gradient_aggregation.Xdp.Slot.Refine.{payload, accumulate-same}

-- The slot has accepted exactly the contributions of `h`, from different workers below 256.
pub record Holds (h : List Contribution) (s : GradSlot) : Type 0 where
  pub received : s.contributions_received ≡ length h
  pub seen : (w : ℕ) → has_seen s.seen_worker w ≡ contributed w h
  pub distinct : count 256 (λ w. contributed w h) ≡ length h
  pub sums :
      (i : ℕ) → s.sum i ≡ (if ltb i s.chunk_len && ltb i max_chunk_len then u32 (total i h) else 0)

pub fresh_slot-Holds : (chunk_len num_workers : ℕ) → Holds [] (fresh_slot chunk_len num_workers)
unfolding total contributed
fresh_slot-Holds chunk_len num_workers = record {
  received = refl;
  seen = has_seen_empty;
  distinct = count_zero 256 (λ w. false) (λ w lt. refl);
  sums = λ i. ground arith;
}

-- Workers below 256 can contribute at most 256 times.
pub Holds-le : (h : List Contribution) (s : GradSlot) → Holds h s → length h ≤ 256
Holds-le h s holds = omega (arith, holds.distinct, count-le 256 (λ w. contributed w h))

module _ (frame : Buf) (len worker_id : ℕ) (h : List Contribution) (s : GradSlot)
    (bytes : IsBytes frame) (whole : values_at + s.chunk_len * 4 ≤ len) (tracked : worker_id < 256)
    (holds : Holds h s) (new : contributed worker_id h ≡ false) where
  abbrev v : Array ℕ
  v = value_of (payload frame)

  count-contributed : count 256 (λ w. contributed w ((worker_id, v) ∷ h)) ≡ suc (length h)
  unfolding contributed
  count-contributed =
      let change =
        count-change 256 (λ w. contributed w h) (λ w. contributed w ((worker_id, v) ∷ h)) worker_id
          tracked (λ j ne. rw ne) in
      let joined : contributed worker_id ((worker_id, v) ∷ h) ≡ true = ground arith in
      omega (arith, change, ap to_nat new, ap to_nat joined, holds.distinct)

  -- An accepted contribution joins the list.
  pub absorb-Holds : Holds ((worker_id, v) ∷ h) (absorb frame len s.chunk_len worker_id s)
  unfolding absorb total
  absorb-Holds = record {
    received = omega (arith, holds.received, Holds-le h s holds);
    seen = λ w.
        unfold contributed in
        ground (arith, has_seen-mark_seen s.seen_worker worker_id w, holds.seen w);
    distinct = count-contributed;
    sums = λ i.
        let added =
          ap (λ (a : Array ℕ). a i) (accumulate-same frame len s.chunk_len bytes whole s.sum)
          ∙ accumulate_lem v s.chunk_len s.sum i in
        let before = holds.sums i in ground (arith, added, before);
  }
