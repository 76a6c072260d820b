-- ===== src/Xdp/Cpus/Locked.antt =====
-- xdp_agg/xdp_agg.c: one frame in the locked section of a slot, and the frame that leaves for it.
use xdp_gradient_aggregation.Common.{
  ==_refl, suc, ℕ, ◌+◌, ◌*◌, ◌^◌, ◌<◌, ◌≤◌, ◌≡◌, ◌≢◌, refl, sym, ap, ap₂, ◌∙◌, ◌⊎◌, inl, inr, false,
  List, [], ◌∷◌, length, count, u32, arith, Bool-cases,
}
use native.Mathlib.Decide.{ℕ_discrete}
use xdp_gradient_aggregation.Proto.{Buf, load32, hdr_at, bpf_ntohs, bpf_ntohl, ntohl, max_chunk_len}
use xdp_gradient_aggregation.Proto.ByteOrder.{bpf_ntohl-eq-ntohl}
use xdp_gradient_aggregation.Proto.Layout.{IsBytes}
use xdp_gradient_aggregation.Agg.Packet.{Packet, decode, value_of}
use xdp_gradient_aggregation.Agg.Packet.History.{Contribution, total, contributed}
use xdp_gradient_aggregation.Xdp.Frame.{parse, Config, values_at, grad_at, retarget}
use xdp_gradient_aggregation.Xdp.Slot.{
  GradSlot, duplicate, partial, complete, has_seen, absorb, judge, contribute, write_back,
}
use xdp_gradient_aggregation.Xdp.Slot.Bitmap.{has_seen-mark_seen}
use xdp_gradient_aggregation.Xdp.Slot.History.{Holds, absorb-Holds}
use xdp_gradient_aggregation.Xdp.Slot.Refine.{payload}
use xdp_gradient_aggregation.Xdp.Program.{Key, key_of}
use xdp_gradient_aggregation.Xdp.Program.Sent.{decode-retarget, value_of-retarget}
use xdp_gradient_aggregation.Xdp.Cpus.{Ctx, key, chunk_len, worker_id, IsGradient, locked, Emission}

-- What frames contribute to their slot.
abbrev pub contributions : List Buf → List Contribution
contributions [] = []
contributions (f ∷ fs) =
    (bpf_ntohs (hdr_at f grad_at).worker_id, value_of (payload f)) ∷ contributions fs

pub length-contributions : (fs : List Buf) → length (contributions fs) ≡ length fs
length-contributions [] = refl
length-contributions (f ∷ fs) = omega (arith, length-contributions fs)

-- All frames carry the key.
abbrev pub AreFor : Key → List Buf → Type 0
AreFor k [] = Unit {0}
AreFor k (f ∷ fs) = (key_of f ≡ k) × AreFor k fs

-- The checks of the header that the locked section relies on.
pub record Checked (ctx : Ctx) : Type 0 where
  pub fits : chunk_len ctx ≤ max_chunk_len
  pub whole : values_at + chunk_len ctx * 4 ≤ ctx.len
  pub tracked : worker_id ctx < 256

pub IsGradient-Checked : (ctx : Ctx) → IsGradient ctx → Checked ctx
unfolding parse
IsGradient-Checked ctx ok =
    let e = ok.1 in
    record { fits = ground (arith, e); whole = ground (arith, e); tracked = ground (arith, e) }

-- An accepted frame agrees with the slot on the length, and comes from a new worker.
pub record Accepted (ctx : Ctx) (s : GradSlot) : Type 0 where
  pub same : s.chunk_len ≡ chunk_len ctx
  pub new : has_seen s.seen_worker (worker_id ctx) ≡ false
  pub after : locked ctx s ≡ judge (absorb ctx.frame ctx.len (chunk_len ctx) (worker_id ctx) s)

locked-Accepted :
    (ctx : Ctx) (s : GradSlot)
    → ((locked ctx s).0 ≡ partial) ⊎ ((locked ctx s).0 ≡ complete)
    → Accepted ctx s
unfolding contribute
locked-Accepted ctx s e = elim (ℕ_discrete s.chunk_len (chunk_len ctx)) [
  | no ne ↦ absurd (ground (arith, e))
  | yes same ↦ elim (Bool-cases (has_seen s.seen_worker (worker_id ctx))) [
    | inl old ↦ absurd (ground (arith, e))
    | inr new ↦ record { same = same; new = new; after = ground arith }
  ]
]

judge-slot : (s : GradSlot) → (judge s).1 ≡ s
unfolding judge
judge-slot s = ground arith

-- The contribution of an accepted frame joins those of the slot.
pub locked-Holds :
    (ctx : Ctx) (s : GradSlot) (l : List Buf)
    → IsGradient ctx
    → Holds (contributions l) s
    → ((locked ctx s).0 ≡ partial) ⊎ ((locked ctx s).0 ≡ complete)
    → Holds (contributions (ctx.frame ∷ l)) (locked ctx s).1
locked-Holds ctx s l ok holds e =
    let a = locked-Accepted ctx s e in
    let c = IsGradient-Checked ctx ok in
    rw (a.after, judge-slot)
      (rw (← a.same) (
        absorb-Holds ctx.frame ctx.len (worker_id ctx) (contributions l) s ok.0
          (omega (arith, a.same, c.whole)) c.tracked holds
          (sym (holds.seen (worker_id ctx)) ∙ a.new)))

-- What a locked section keeps, and when it completes its slot.
pub record Judged (ctx : Ctx) (s : GradSlot) : Type 0 where
  pub len_kept : (locked ctx s).1.chunk_len ≡ s.chunk_len
  pub expected : (locked ctx s).1.num_workers_expected ≡ s.num_workers_expected
  pub last :
      (locked ctx s).0 ≡ complete → (locked ctx s).1.contributions_received ≡ s.num_workers_expected
  pub waits :
      (locked ctx s).0 ≡ partial → (locked ctx s).1.contributions_received ≢ s.num_workers_expected
  pub fits : (locked ctx s).0 ≡ complete → s.chunk_len ≡ chunk_len ctx

pub locked-Judged : (ctx : Ctx) (s : GradSlot) → Judged ctx s
unfolding contribute absorb judge
locked-Judged ctx s = record {
  len_kept = ground arith;
  expected = ground arith;
  last = λ e. ground (arith, e);
  waits = λ e. ground (arith, e);
  fits = λ e. ground (arith, e);
}

-- The header of a frame that stands for all workers.
abbrev pub header_of : Key → ℕ → Packet
header_of k n = record {
  job_id = k.job_id;
  round = k.round;
  chunk_id = k.chunk_id;
  worker_id = 0;
  num_workers = 1;
  chunk_len = n;
}

-- A frame sent on for a slot with the key, the fan-in and the length, and the frames that the slot
-- had accepted.
pub record IsExact (k : Key) (expected n : ℕ) (e : Emission) : Type 0 where
  pub workers : length e.accepted ≡ expected
  pub distinct : count 256 (λ w. contributed w (contributions e.accepted)) ≡ length e.accepted
  pub keys : AreFor k e.accepted
  pub header : decode (payload e.frame) ≡ header_of k n
  pub values :
      (i : ℕ) → i < n → value_of (payload e.frame) i ≡ u32 (total i (contributions e.accepted))

word-eq :
    (frame : Buf) (o : ℕ)
    → IsBytes frame
    → bpf_ntohl (load32 frame (grad_at + o)) ≡ ntohl (load32 (payload frame) o)
unfolding load32
word-eq frame o bytes =
    let p = grad_at + o in
    let at : (k j : ℕ) → j ≡ p + k → frame j ≡ frame (p + k) = λ k j e. ap frame e in
    let same : load32 (payload frame) o ≡ load32 frame p = omega (
      arith,
      at 1 (grad_at + (o + 1)) (omega arith),
      at 2 (grad_at + (o + 2)) (omega arith),
      at 3 (grad_at + (o + 3)) (omega arith),
    ) in
    let lt : load32 frame p < 2 ^ 32 =
      omega (arith, bytes p, bytes (p + 1), bytes (p + 2), bytes (p + 3)) in
    bpf_ntohl-eq-ntohl (load32 frame p) lt ∙ ap ntohl (sym same)

-- The header of a frame of bytes has the key of the frame.
key_of-decode :
    (frame : Buf)
    → IsBytes frame
    → key_of frame ≡ record {
      job_id = (decode (payload frame)).job_id;
      round = (decode (payload frame)).round;
      chunk_id = (decode (payload frame)).chunk_id;
    }
unfolding key_of decode hdr_at
key_of-decode frame bytes =
    rw (word-eq frame 0 bytes, word-eq frame 4 bytes, word-eq frame 8 bytes) refl

-- The frame that a CPU sends on after the last contribution, whatever the configuration.
pub locked-IsExact :
    (ctx : Ctx) (s : GradSlot) (l : List Buf) (k : Key) (cfg : Config)
    → IsGradient ctx
    → Holds (contributions l) s
    → AreFor k l
    → k ≡ key ctx
    → (locked ctx s).0 ≡ complete
    → let r = (locked ctx s).1 in
      IsExact k s.num_workers_expected s.chunk_len (record {
        frame = retarget cfg r.chunk_len (write_back r ctx.len ctx.frame);
        accepted = ctx.frame ∷ l;
      })
locked-IsExact ctx s l k cfg ok holds for same all =
    let r = (locked ctx s).1 in
    let j = locked-Judged ctx s in
    let c = IsGradient-Checked ctx ok in
    let h = locked-Holds ctx s l ok holds (inr all) in
    let len = length-contributions (ctx.frame ∷ l) in
    let small : r.chunk_len ≤ max_chunk_len = omega (arith, j.len_kept, j.fits all, c.fits) in
    let whole : values_at + 4 * r.chunk_len ≤ ctx.len =
      omega (arith, j.len_kept, j.fits all, c.whole) in
    record {
      workers = omega (arith, len, h.received, j.last all);
      distinct = h.distinct ∙ len;
      keys = (sym same, for);
      header =
          decode-retarget cfg r ctx.len ctx.frame small whole
          ∙ ap₂ (λ (q : Key) (n : ℕ). header_of q n) (sym (same ∙ key_of-decode ctx.frame ok.0))
              j.len_kept;
      values = λ i lt.
          let below : i < r.chunk_len = omega (arith, j.len_kept) in
          let summed : r.sum i ≡ u32 (total i (contributions (ctx.frame ∷ l))) =
            ground (arith, h.sums i, below, small) in
          value_of-retarget cfg r ctx.len ctx.frame small whole i below (omega (arith, summed))
          ∙ summed;
    }

-- The verdict on a new worker's frame.
pub locked-judge :
    (ctx : Ctx) (s : GradSlot)
    → s.chunk_len ≡ chunk_len ctx
    → has_seen s.seen_worker (worker_id ctx) ≡ false
    → s.contributions_received < 256
    → ((suc s.contributions_received ≡ s.num_workers_expected) → (locked ctx s).0 ≡ complete)
      × ((suc s.contributions_received ≢ s.num_workers_expected) → (locked ctx s).0 ≡ partial)
unfolding contribute absorb judge
locked-judge ctx s same new few =
    (λ e. ground (arith, same, new, e), λ ne. ground (arith, same, new, ne))

-- The same frame again is refused as a repetition.
pub locked-again :
    (ctx : Ctx) (s : GradSlot)
    → s.chunk_len ≡ chunk_len ctx
    → has_seen s.seen_worker (worker_id ctx) ≡ false
    → (locked ctx (locked ctx s).1).0 ≡ duplicate
unfolding contribute absorb judge
locked-again ctx s same new =
    let marked = has_seen-mark_seen s.seen_worker (worker_id ctx) (worker_id ctx) in
    ground (arith, same, new, marked, ==_refl (worker_id ctx))
