-- ===== src/Xdp/Cpus/Safety.antt =====
-- xdp_agg/xdp_agg.c on several CPUs: what holds whenever, in any interleaving.
use xdp_gradient_aggregation.Common.{
  ◌≢◌, sym, ◌∙◌, false, ℕ, ◌≡◌, refl, ap, none, some, Array, update, arith,
}
use xdp_gradient_aggregation.Xdp.Maps.{stat_no_config, stat_fairness_quota}
use xdp_gradient_aggregation.Xdp.Program.{Key}
use xdp_gradient_aggregation.Xdp.Cpus.{
  key, Pc, idle, searching, looking, checking, creating, looking_again, holding, counting,
  inserting, recounting, locking, completing, deleting, releasing, subtracting, leaving, bumping,
  setting, held, taken, SparesHeld, IsSparing, Kernel, Slots, Mem, Move, receive, found, refused,
  missing, over, under, created, lost, full, won, joined, count_known, count_unknown, count_first,
  count_lost, recount, uncounted, rejected, absorbed, completed, configure, delete, release_none,
  release_zero, release, subtract, discard, transmitted, bump, bump_new, set_one, set_new, System,
  Step, pick, Reach, here, next,
}
use xdp_gradient_aggregation.Xdp.Cpus.Invariant.{closes, PcInv, Inv}
use xdp_gradient_aggregation.Xdp.Cpus.Invariant.Kept.{quiet-Inv}
use xdp_gradient_aggregation.Xdp.Cpus.Invariant.Opened.{RefusesPresent, created-Inv}
use xdp_gradient_aggregation.Xdp.Cpus.Invariant.Settled.{absorbed-Inv, completed-Inv}
use xdp_gradient_aggregation.Xdp.Cpus.Invariant.Closed.{deleted-Inv, sent-Inv}

module _ (kernel : Kernel) (refuses : RefusesPresent kernel.slot_ops) where
  open kernel use {slot_ops}

  module _ (m : Mem kernel) (pc : Array Pc) (cpu : ℕ) (inv : Inv slot_ops m.slots pc) where
    own : (p : Pc) → pc cpu ≡ p → PcInv slot_ops m.slots p
    own p at = rw at at (inv.cpus cpu)

    -- A move to a place that closes no slot, which leaves the slots alone.
    opens :
        (p : Pc)
        → closes p ≡ none
        → PcInv slot_ops m.slots p
        → Inv slot_ops m.slots (update pc cpu p)
    opens p e moved = quiet-Inv slot_ops pc cpu p (λ s h. absurd (ground (arith, e, h))) moved inv

    -- A move that leaves the slots alone, and closes the same slot.
    stays :
        (p p' : Pc)
        → pc cpu ≡ p
        → closes p' ≡ closes p
        → PcInv slot_ops m.slots p'
        → Inv slot_ops m.slots (update pc cpu p')
    stays p p' at e moved = quiet-Inv slot_ops pc cpu p' (λ s h. ap closes at ∙ sym e ∙ h) moved inv

    Move-Inv :
        {p p' : Pc} {m' : Mem kernel}
        → (mv : Move kernel m p m' p')
        → ((j slot : ℕ) → held (pc j) ≡ some slot → taken kernel mv ≢ some slot)
        → pc cpu ≡ p
        → Inv slot_ops m'.slots (update pc cpu p')
    Move-Inv (receive {ctx} ok) spares at = opens (searching looking ctx) refl ok
    Move-Inv (found {ctx} {slot} e) spares at =
        opens (holding locking ctx slot) refl (own _ at, inv.mapped (key ctx) slot e)
    Move-Inv (refused e bad) spares at = opens idle refl tt
    Move-Inv (missing {ctx} e good) spares at = opens (searching checking ctx) refl (own _ at, good)
    Move-Inv (over cfg e) spares at = opens (bumping stat_fairness_quota) refl tt
    Move-Inv (under {ctx} cfg e) spares at = opens (searching creating ctx) refl (own _ at)
    Move-Inv (created {ctx} {slot} {slot_map} given free e) spares at =
        created-Inv slot_ops refuses ctx m.slots slot slot_map given free e pc cpu
          (λ j h. spares j slot h refl) (own _ at).0 inv
    Move-Inv (lost {ctx} e) spares at =
        opens (searching (looking_again false) ctx) refl (own _ at).0
    Move-Inv (full e) spares at = opens idle refl tt
    Move-Inv (won {ctx} {slot} e) spares at =
        opens (holding counting ctx slot) refl (own _ at, inv.mapped (key ctx) slot e)
    Move-Inv (joined {ctx} {slot} e) spares at =
        opens (holding locking ctx slot) refl (own _ at, inv.mapped (key ctx) slot e)
    Move-Inv (count_known {ctx} {slot} e) spares at =
        opens (holding locking ctx slot) refl (own _ at)
    Move-Inv (count_unknown {ctx} {slot} e) spares at =
        opens (holding inserting ctx slot) refl (own _ at)
    Move-Inv (count_first {ctx} {slot} e) spares at =
        opens (holding locking ctx slot) refl (own _ at)
    Move-Inv (count_lost {ctx} {slot} e) spares at =
        opens (holding recounting ctx slot) refl (own _ at)
    Move-Inv (recount {ctx} {slot} e) spares at = opens (holding locking ctx slot) refl (own _ at)
    Move-Inv (uncounted {ctx} {slot} e) spares at = opens (holding locking ctx slot) refl (own _ at)
    Move-Inv (rejected e) spares at = opens idle refl tt
    Move-Inv (absorbed {ctx} {slot} e) spares at =
        absorbed-Inv slot_ops ctx slot m.slots pc cpu (own (holding locking ctx slot) at) e inv
    Move-Inv (completed {ctx} {slot} e) spares at =
        let (ok, place) = own (holding locking ctx slot) at in
        completed-Inv slot_ops ctx slot m.slots pc ok place e inv cpu
    Move-Inv (configure {c} cfg) spares at =
        stays (completing c) (deleting cfg c) at refl (own (completing c) at)
    Move-Inv (delete {cfg} {c}) spares at =
        let (done, entry) = own (deleting cfg c) at in
        deleted-Inv slot_ops c m.slots done entry pc cpu cfg at inv
    Move-Inv (release_none {cfg} {c} e) spares at =
        stays (releasing cfg c) (leaving cfg c) at refl (own (releasing cfg c) at)
    Move-Inv (release_zero {cfg} {c} e) spares at =
        stays (releasing cfg c) (leaving cfg c) at refl (own (releasing cfg c) at)
    Move-Inv (release {cfg} {c} e pos) spares at =
        stays (releasing cfg c) (subtracting cfg c) at refl (own (releasing cfg c) at)
    Move-Inv (subtract {cfg} {c} e) spares at =
        stays (subtracting cfg c) (leaving cfg c) at refl (own (subtracting cfg c) at)
    Move-Inv (discard) spares at = opens (bumping stat_no_config) refl tt
    Move-Inv (transmitted {cfg} {c}) spares at =
        sent-Inv slot_ops c m.slots cfg (own (leaving (some cfg) c) at) pc cpu at inv
    Move-Inv (bump e) spares at = opens idle refl tt
    Move-Inv (bump_new {k} e) spares at = opens (setting k) refl tt
    Move-Inv (set_one e) spares at = opens idle refl tt
    Move-Inv (set_new e) spares at = opens idle refl tt

  -- Every step of every CPU that spares what the CPUs hold keeps the invariant.
  pub Step-Inv :
      {s t : System kernel} (st : Step kernel s t)
      → SparesHeld kernel st
      → Inv slot_ops s.mem.slots s.pc
      → Inv slot_ops t.mem.slots t.pc
  Step-Inv {s} (pick cpu at mv) spares inv = Move-Inv s.mem s.pc cpu inv mv spares at

  pub Reach-Inv :
      {s t : System kernel}
      → Inv slot_ops s.mem.slots s.pc
      → (r : Reach kernel s t) → IsSparing kernel r
      → Inv slot_ops t.mem.slots t.pc
  Reach-Inv inv here sparing = inv
  Reach-Inv inv (next r st) (sparing, spares) = Step-Inv st spares (Reach-Inv inv r sparing)

  -- No slot was ever created, and every CPU waits for a frame.
  pub record IsBoot (s : System kernel) : Type 0 where
    pub empty : (k : Key) → slot_ops.lookup s.mem.slots.slot_map k ≡ none
    pub unused : s.mem.slots.next ≡ 0
    pub waiting : (cpu : ℕ) → s.pc cpu ≡ idle

  pub boot-Inv : (s : System kernel) → IsBoot s → Inv slot_ops s.mem.slots s.pc
  boot-Inv s boot = record {
    mapped = λ k p e. absurd (ground (arith, boot.empty k, e));
    slots = λ p lt. absurd (omega (arith, boot.unused));
    cpus = λ cpu. rw (boot.waiting cpu) tt;
    unique = λ i j p e f. absurd (ground (arith, ap closes (boot.waiting i), e));
  }

  module _ {s t : System kernel} (boot : IsBoot s) (r : Reach kernel s t)
      (sparing : IsSparing kernel r) where
    abbrev sl : Slots slot_ops.Map
    sl = t.mem.slots

    pub reached : Inv slot_ops sl t.pc
    reached = Reach-Inv (boot-Inv s boot) r sparing
