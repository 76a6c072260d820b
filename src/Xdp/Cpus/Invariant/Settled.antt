-- ===== src/Xdp/Cpus/Invariant/Settled.antt =====
-- xdp_agg/xdp_agg.c on several CPUs: the locked section of a slot.
use xdp_gradient_aggregation.Common.{
  ℕ, suc, ◌<◌, ◌≤◌, ◌≡◌, ◌≢◌, ◌⊎◌, refl, sym, Bool-cases, inl, inr, ◌==◌, ==_refl, false, some,
  Array, update, length, arith,
}
use xdp_gradient_aggregation.Xdp.Maps.{MapOps}
use xdp_gradient_aggregation.Xdp.Slot.{partial, complete}
use xdp_gradient_aggregation.Xdp.Program.{Key}
use xdp_gradient_aggregation.Xdp.Cpus.{
  Ctx, key, Pc, idle, holding, locking, completing, Slots, IsGradient, locked, accept, closing_of,
}
use xdp_gradient_aggregation.Xdp.Cpus.Locked.{
  length-contributions, locked-Holds, locked-Judged, locked-IsExact,
}
use xdp_gradient_aggregation.Xdp.Cpus.Invariant.{closes, IsAt, Completed, PcInv, SlotInv, Inv}
use xdp_gradient_aggregation.Xdp.Cpus.Invariant.Kept.{
  Later, cpus-Later, closes-Completed, unclosed, unique-update, IsAt-Later,
}

module _ (ops : MapOps Key ℕ) where
  open ops use {Map, lookup}

  module _ (ctx : Ctx) (slot : ℕ) (sl : Slots Map) (ok : IsGradient ctx)
      (at : IsAt ops sl (key ctx) slot)
      (accepted : ((locked ctx (sl.cell slot)).0 ≡ partial)
        ⊎ ((locked ctx (sl.cell slot)).0 ≡ complete))
      (pc : Array Pc) (cpu : ℕ) where
    abbrev sl' : Slots Map
    sl' = accept ctx slot sl

    accept-Later : Later ops sl sl'
    accept-Later =
        let j = locked-Judged ctx (sl.cell slot) in
        record {
          next = omega arith;
          owner = λ p lt. refl;
          expected = λ p lt. elim (Bool-cases (p == slot)) [
            | inl here ↦
                let same : p ≡ slot = ground arith in rw (update, same, ==_refl slot) j.expected
            | inr apart ↦ rw (update, apart)
          ];
          chunk_len = λ p lt. elim (Bool-cases (p == slot)) [
            | inl here ↦
                let same : p ≡ slot = ground arith in rw (update, same, ==_refl slot) j.len_kept
            | inr apart ↦ rw (update, apart)
          ];
          log = λ p lt. elim (Bool-cases (p == slot)) [
            | inl here ↦
                let same : p ≡ slot = ground arith in rw (update, same, ==_refl slot) (omega arith)
            | inr apart ↦ rw (update, apart) (omega arith)
          ];
        }

    module _ (p : Pc)
        (opened : (s : ℕ)
          → closes p ≡ some s
          → (s ≡ slot) × (length (sl.log slot) < (sl.cell slot).num_workers_expected)) where
      slot-here : SlotInv ops sl pc slot → SlotInv ops sl' (update pc cpu p) slot
      slot-here s =
          let j = locked-Judged ctx (sl.cell slot) in
          let self = ==_refl slot in
          let new : (sl.cell slot).num_workers_expected ≤ length (sl.log slot)
              → ((i : ℕ) → closes (pc i) ≢ some slot)
              → (i : ℕ) → closes (update pc cpu p i) ≢ some slot =
            λ full. unclosed ops pc cpu p slot (λ c. omega (arith, opened slot c, full)) in
          record {
            holds =
                rw (update, self)
                  (locked-Holds ctx (sl.cell slot) (sl.log slot) ok s.holds accepted);
            keys = rw (update, self) (sym at.owned, s.keys);
            live = rw (update, self) (λ few. s.live (omega (arith, few, j.expected)));
            exact = rw (update, self, j.expected, j.len_kept) s.exact;
            once = s.once;
            spent = λ pos.
                let (full, clear) = s.spent pos in
                (rw (update, self) (omega (arith, full, j.expected)), new full clear);
          }

      slot-apart :
          (q : ℕ) → (q == slot) ≡ false → SlotInv ops sl pc q → SlotInv ops sl' (update pc cpu p) q
      slot-apart q apart s = record {
        holds = rw (update, apart) s.holds;
        keys = rw (update, apart) s.keys;
        live = rw (update, apart) s.live;
        exact = rw (update, apart) s.exact;
        once = s.once;
        spent =
            rw (update, apart)
              (λ pos.
                let (full, clear) = s.spent pos in
                (full, unclosed ops pc cpu p q (λ c. ground (arith, opened q c, apart)) clear));
      }

      accept-Inv : PcInv ops sl' p → Inv ops sl pc → Inv ops sl' (update pc cpu p)
      accept-Inv moved inv = record {
        mapped = λ k q e. IsAt-Later ops accept-Later (inv.mapped k q e);
        slots = λ q lt. elim (Bool-cases (q == slot)) [
          | inl here ↦
              let same : q ≡ slot = ground arith in
              rw same (slot-here (inv.slots slot at.allocated))
          | inr apart ↦ slot-apart q apart (inv.slots q lt)
        ];
        cpus = cpus-Later ops pc cpu p accept-Later (λ j k q ne c e. e) moved inv.cpus;
        unique =
            unique-update ops pc cpu p
              (λ j s c o.
                let (same, few) = opened s c in
                let full = closes-Completed ops sl (pc j) s (inv.cpus j) o in
                absurd (omega (arith, few, (rw same at full).1)))
              inv.unique;
      }

  -- A partial contribution.
  pub absorbed-Inv :
      (ctx : Ctx) (slot : ℕ) (sl : Slots Map) (pc : Array Pc) (cpu : ℕ)
      → PcInv ops sl (holding locking ctx slot)
      → (locked ctx (sl.cell slot)).0 ≡ partial
      → Inv ops sl pc
      → Inv ops (accept ctx slot sl) (update pc cpu idle)
  absorbed-Inv ctx slot sl pc cpu (ok, at) e inv =
      accept-Inv ctx slot sl ok at (inl e) pc cpu idle (λ s c. absurd (ground (arith, c))) tt inv

  module _ (ctx : Ctx) (slot : ℕ) (sl : Slots Map) (pc : Array Pc) (ok : IsGradient ctx)
      (at : IsAt ops sl (key ctx) slot) (all : (locked ctx (sl.cell slot)).0 ≡ complete)
      (inv : Inv ops sl pc) where
    abbrev here : SlotInv ops sl pc slot
    here = inv.slots slot at.allocated

    -- The contribution that completes a slot is the first with that count.
    few : suc (length (sl.log slot)) ≡ (sl.cell slot).num_workers_expected
    few =
        let h = locked-Holds ctx (sl.cell slot) (sl.log slot) ok here.holds (inr all) in
        omega (
          arith,
          h.received,
          (locked-Judged ctx (sl.cell slot)).last all,
          length-contributions (sl.log slot),
        )

    closing-Completed : Completed ops (accept ctx slot sl) (closing_of ctx slot sl)
    closing-Completed =
        let j = locked-Judged ctx (sl.cell slot) in
        let self = ==_refl slot in
        record {
          place = record { allocated = at.allocated; owned = at.owned };
          full = rw (update, self) (omega (arith, few, j.expected));
          exact = λ cfg.
              let exact =
                locked-IsExact ctx (sl.cell slot) (sl.log slot) (key ctx) cfg ok here.holds
                  (rw at.owned at here.keys) refl all in
              rw (update, self, j.expected, j.len_kept) (rw j.len_kept at exact);
        }

    -- The last contribution.
    pub completed-Inv :
        (cpu : ℕ)
        → Inv ops (accept ctx slot sl) (update pc cpu (completing (closing_of ctx slot sl)))
    completed-Inv cpu =
        let c = closing_of ctx slot sl in
        let entry = here.live (omega (arith, few)) in
        accept-Inv ctx slot sl ok at (inr all) pc cpu (completing c)
          (λ s e. (ground (arith, e), omega (arith, few)))
          (closing-Completed, rw (← at.owned) entry) inv
