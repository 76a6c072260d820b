-- ===== src/Xdp/Cpus/Progress.antt =====
-- xdp_agg/xdp_agg.c on several CPUs: a slot that waits for workers, and their frames.
use xdp_gradient_aggregation.Common.{
  List, [], ℕ, suc, ◌<◌, ◌≡◌, ◌≢◌, sym, ◌∙◌, false, length, arith, ◌∷◌,
}
use xdp_gradient_aggregation.Proto.{Buf}
use xdp_gradient_aggregation.Agg.Packet.History.{contributed}
use xdp_gradient_aggregation.Xdp.Frame.{Config}
use xdp_gradient_aggregation.Xdp.Slot.{partial, complete}
use xdp_gradient_aggregation.Xdp.Slot.History.{Holds-le, absorb-Holds}
use xdp_gradient_aggregation.Xdp.Program.{Key}
use xdp_gradient_aggregation.Xdp.Cpus.{
  IsSparing, Closing, Ctx, key, chunk_len, worker_id, idle, Kernel, System, Reach, IsGradient,
  locked,
}
use xdp_gradient_aggregation.Xdp.Cpus.Locked.{
  contributions, IsGradient-Checked, locked-judge, IsExact,
}
use xdp_gradient_aggregation.Xdp.Cpus.Invariant.{SlotInv, Inv, emission}
use xdp_gradient_aggregation.Xdp.Cpus.Runs.{Runs}

module _ (kernel : Kernel) where
  open kernel use {slot_ops, quota_ops}

  -- Frames from workers that the slot still waits for: with the key and the length, and from
  -- different workers that are not in the log.
  abbrev pub AreMissing : Key → ℕ → List Buf → List Ctx → Type 0
  AreMissing k n l [] = Unit {0}
  AreMissing k n l (ctx ∷ fs) =
      IsGradient ctx
      × (key ctx ≡ k)
      × (chunk_len ctx ≡ n)
      × (contributed (worker_id ctx) (contributions l) ≡ false)
      × AreMissing k n (ctx.frame ∷ l) fs

  abbrev pub logged : List Ctx → List Buf → List Buf
  logged [] l = l
  logged (ctx ∷ fs) l = logged fs (ctx.frame ∷ l)

  -- A later system, to which the CPU alone has moved, and where it waits again: the slot has sent
  -- on one frame, exact and retargeted by the configuration, for its log and the given frames.
  pub record SendsFor (s : System kernel) (cpu p : ℕ) (cfg : Config) (fs : List Ctx) : Type 0 where
    pub after : System kernel
    pub reach : Reach kernel s after
    pub sparing : IsSparing kernel reach
    pub back : after.pc cpu ≡ idle
    pub others : (j : ℕ) → j ≢ cpu → after.pc j ≡ s.pc j
    pub closing : Closing
    pub sent : after.mem.slots.sent p ≡ emission cfg closing ∷ []
    pub accepted : closing.accepted ≡ logged fs (s.mem.slots.log p)
    pub exact :
        IsExact
          (s.mem.slots.owner p)
          (s.mem.slots.cell p).num_workers_expected
          (s.mem.slots.cell p).chunk_len
          (emission cfg closing)

  module _ (s : System kernel) (cpu p : ℕ) (inv : Inv slot_ops s.mem.slots s.pc)
      (ready : s.pc cpu ≡ idle) (allocated : p < s.mem.slots.next) (ctx : Ctx) (ok : IsGradient ctx)
      (same_key : key ctx ≡ s.mem.slots.owner p)
      (same_len : chunk_len ctx ≡ (s.mem.slots.cell p).chunk_len)
      (new : contributed (worker_id ctx) (contributions (s.mem.slots.log p)) ≡ false)
      (waits : length (s.mem.slots.log p) < (s.mem.slots.cell p).num_workers_expected) where
    abbrev slot : SlotInv slot_ops s.mem.slots s.pc p
    slot = inv.slots p allocated

    few : (s.mem.slots.cell p).contributions_received < 256
    few =
        let c = IsGradient-Checked ctx ok in
        let h = contributions (s.mem.slots.log p) in
        let more =
          absorb-Holds ctx.frame ctx.len (worker_id ctx) h (s.mem.slots.cell p) ok.0
            (omega (arith, c.whole, same_len)) c.tracked slot.holds new in
        omega (arith, slot.holds.received, Holds-le _ _ more)

    abbrev verdict_cases :
        ((suc (s.mem.slots.cell p).contributions_received
            ≡ (s.mem.slots.cell p).num_workers_expected)
          → (locked ctx (s.mem.slots.cell p)).0 ≡ complete)
        × ((suc (s.mem.slots.cell p).contributions_received
              ≢ (s.mem.slots.cell p).num_workers_expected)
            → (locked ctx (s.mem.slots.cell p)).0 ≡ partial)
    verdict_cases =
        locked-judge ctx (s.mem.slots.cell p) (sym same_len) (slot.holds.seen (worker_id ctx) ∙ new)
          few
