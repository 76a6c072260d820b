-- ===== src/Xdp/Cpus/Invariant.antt =====
-- xdp_agg/xdp_agg.c on several CPUs: what holds of its slots and of every CPU at any time.
pub mod Kept
pub mod Opened
pub mod Settled
pub mod Closed
use xdp_gradient_aggregation.Common.{
  ℕ, ◌*◌, ◌<◌, ◌≤◌, ◌≡◌, ◌≢◌, false, ◌||◌, ◌==◌, ltb, Option, none, some, Array, List, [], ◌∷◌,
  length,
}
use xdp_gradient_aggregation.Proto.{Buf}
use xdp_gradient_aggregation.Xdp.Maps.{MapOps}
use xdp_gradient_aggregation.Xdp.Frame.{Config, bitmap_bytes, retarget}
use xdp_gradient_aggregation.Xdp.Slot.History.{Holds}
use xdp_gradient_aggregation.Xdp.Program.{Key}
use xdp_gradient_aggregation.Xdp.Cpus.{
  Ctx, key, num_workers_hdr, Closing, Pc, idle, searching, looking, checking, creating,
  looking_again, holding, completing, deleting, releasing, subtracting, leaving, bumping, setting,
  Emission, Slots, IsGradient,
}
use xdp_gradient_aggregation.Xdp.Cpus.Locked.{contributions, AreFor, IsExact}

-- The slot that a CPU has completed and not yet left.
abbrev pub closes : Pc → Option ℕ
closes (completing c) = some c.slot
closes (deleting cfg c) = some c.slot
closes (releasing cfg c) = some c.slot
closes (subtracting cfg c) = some c.slot
closes (leaving cfg c) = some c.slot
closes _ = none

abbrev pub AreExact : Key → (expected n : ℕ) → List Emission → Type 0
AreExact k expected n [] = Unit {0}
AreExact k expected n (e ∷ es) = IsExact k expected n e × AreExact k expected n es

-- The frame of a completed slot, under any configuration.
abbrev pub emission : Config → Closing → Emission
emission cfg c = record { frame = retarget cfg c.final_chunk_len c.frame; accepted = c.accepted }

module _ (ops : MapOps Key ℕ) where
  open ops use {Map, lookup}

  pub record IsAt (sl : Slots Map) (k : Key) (slot : ℕ) : Type 0 where
    pub allocated : slot < sl.next
    pub owned : sl.owner slot ≡ k

  pub record Completed (sl : Slots Map) (c : Closing) : Type 0 where
    pub place : IsAt sl c.slot_key c.slot
    pub full : (sl.cell c.slot).num_workers_expected ≤ length (sl.log c.slot)
    pub exact :
        (cfg : Config)
        → IsExact c.slot_key
            (sl.cell c.slot).num_workers_expected
            (sl.cell c.slot).chunk_len
            (emission cfg c)

  -- What holds of a CPU at its place.
  abbrev pub PcInv : Slots Map → Pc → Type 0
  PcInv sl (searching looking ctx) = IsGradient ctx
  PcInv sl (searching (looking_again won) ctx) = IsGradient ctx
  PcInv sl (searching s ctx) =
      IsGradient ctx
      × ((num_workers_hdr ctx == 0 || ltb (bitmap_bytes * 8) (num_workers_hdr ctx)) ≡ false)
  PcInv sl (holding h ctx slot) = IsGradient ctx × IsAt sl (key ctx) slot
  PcInv sl (completing c) = Completed sl c × (lookup sl.slot_map c.slot_key ≡ some c.slot)
  PcInv sl (deleting cfg c) = Completed sl c × (lookup sl.slot_map c.slot_key ≡ some c.slot)
  PcInv sl (releasing cfg c) = Completed sl c
  PcInv sl (subtracting cfg c) = Completed sl c
  PcInv sl (leaving cfg c) = Completed sl c
  PcInv sl _ = Unit {0}

  -- What holds of an element, whatever its state.
  pub record SlotInv (sl : Slots Map) (pc : Array Pc) (p : ℕ) : Type 0 where
    pub holds : Holds (contributions (sl.log p)) (sl.cell p)
    pub keys : AreFor (sl.owner p) (sl.log p)
    pub live :
        length (sl.log p) < (sl.cell p).num_workers_expected
        → lookup sl.slot_map (sl.owner p) ≡ some p
    pub exact :
        AreExact (sl.owner p) (sl.cell p).num_workers_expected (sl.cell p).chunk_len (sl.sent p)
    pub once : length (sl.sent p) ≤ 1
    pub spent :
        0 < length (sl.sent p)
        → ((sl.cell p).num_workers_expected ≤ length (sl.log p))
          × ((cpu : ℕ) → closes (pc cpu) ≢ some p)

  pub record Inv (sl : Slots Map) (pc : Array Pc) : Type 0 where
    pub mapped : (k : Key) (p : ℕ) → lookup sl.slot_map k ≡ some p → IsAt sl k p
    pub slots : (p : ℕ) → p < sl.next → SlotInv sl pc p
    pub cpus : (cpu : ℕ) → PcInv sl (pc cpu)
    pub unique : (i j p : ℕ) → closes (pc i) ≡ some p → closes (pc j) ≡ some p → i ≡ j
