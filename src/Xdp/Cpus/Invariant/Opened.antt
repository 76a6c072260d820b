-- ===== src/Xdp/Cpus/Invariant/Opened.antt =====
-- xdp_agg/xdp_agg.c on several CPUs: the creation of a slot.
use xdp_gradient_aggregation.Common.{
  ℕ, ◌<◌, ◌≤◌, refl, ◌≡◌, ◌≢◌, ◌⊎◌, sym, ap, ◌∙◌, inl, inr, ◌==◌, ==_refl, true, false, none, some,
  Array, update, update_ne, arith,
}
use native.Mathlib.Decide.{ℕ_discrete}
use xdp_gradient_aggregation.Xdp.Maps.{MapOps}
use xdp_gradient_aggregation.Xdp.Slot.History.{fresh_slot-Holds}
use xdp_gradient_aggregation.Xdp.Program.{Key}
use xdp_gradient_aggregation.Xdp.Cpus.{
  Ctx, key, chunk_len, num_workers_hdr, Pc, searching, looking_again, Slots, IsGradient, allocate,
  held,
}
use xdp_gradient_aggregation.Xdp.Cpus.Invariant.{closes, IsAt, SlotInv, Inv}
use xdp_gradient_aggregation.Xdp.Cpus.Invariant.Kept.{
  LaterAt, cpus-LaterAt, closes-held, unclosed-update, unique-kept,
}

pub Key-cases : (j k : Key) → (j ≡ k) ⊎ (j ≢ k)
Key-cases j k = elim (ℕ_discrete j.job_id k.job_id) [
  | no ne ↦ inr λ e. ne (ap (λ (q : Key). q.job_id) e)
  | yes a ↦ elim (ℕ_discrete j.round k.round) [
    | no ne ↦ inr λ e. ne (ap (λ (q : Key). q.round) e)
    | yes b ↦ elim (ℕ_discrete j.chunk_id k.chunk_id) [
      | no ne ↦ inr λ e. ne (ap (λ (q : Key). q.chunk_id) e)
      | yes c ↦ inl (cc)
    ]
  ]
]

module _ (ops : MapOps Key ℕ) where
  open ops use {Map, lookup}

  -- BPF_NOEXIST refuses a key that is present.
  abbrev pub RefusesPresent : Type 0
  RefusesPresent =
      (m : Map) (k : Key) (p : ℕ) (m' : Map) → ops.insert m k p ≡ some m' → lookup m k ≡ none

  module _ (refuses : RefusesPresent) (ctx : Ctx) (sl : Slots Map) (new : ℕ) (slot_map : Map)
      (given : new ≤ sl.next) (free : (k : Key) → lookup sl.slot_map k ≢ some new)
      (e : ops.insert sl.slot_map (key ctx) new ≡ some slot_map) where
    abbrev sl' : Slots Map
    sl' = allocate ctx new slot_map sl

    next-new : new < sl'.next
    next-new = ground (arith, given)

    next-le : (p : ℕ) → p < sl.next → p < sl'.next
    next-le p lt = ground (arith, lt)

    next-old : (p : ℕ) → p ≢ new → p < sl'.next → p < sl.next
    next-old p other lt = elim (ℕ_discrete new sl.next) [
      | yes at ↦ omega (arith, other, at, (rw (at, ==_refl sl.next) at lt))
      | no below ↦ ground (arith, lt, below)
    ]

    allocate-LaterAt : (p : ℕ) → p ≢ new → LaterAt ops sl sl' p
    allocate-LaterAt p other lt =
        let apart : (p == new) ≡ false = ground (arith, other) in
        (
          next-le p lt,
          update_ne sl.owner new p (key ctx) other,
          rw (update, apart) refl,
          rw (update, apart) refl,
          rw (update, apart) (omega arith),
        )

    -- The entries of before are there.
    lookup-old : (k : Key) (p : ℕ) → lookup sl.slot_map k ≡ some p → lookup slot_map k ≡ some p
    lookup-old k p h =
        let other : k ≢ key ctx = λ same. ground (
          arith,
          refuses sl.slot_map (key ctx) new slot_map e,
          ap (λ (q : Key). lookup sl.slot_map q) same,
          h,
        ) in
        ops.lookup-insert_ne sl.slot_map (key ctx) k new slot_map e other ∙ h

    allocate-mapped :
        ((k : Key) (p : ℕ) → lookup sl.slot_map k ≡ some p → IsAt ops sl k p)
        → (k : Key) (p : ℕ) → lookup slot_map k ≡ some p
        → IsAt ops sl' k p
    allocate-mapped mapped k p h = elim (Key-cases k (key ctx)) [
      | inl same ↦
          let here : p ≡ new = ground (
            arith,
            ops.lookup-insert sl.slot_map (key ctx) new slot_map e,
            ap (λ (q : Key). lookup slot_map q) same,
            h,
          ) in
          record { allocated = rw here next-new; owned = rw (update, here, ==_refl new) (sym same) }
      | inr other ↦
          let before =
            sym (ops.lookup-insert_ne sl.slot_map (key ctx) k new slot_map e other) ∙ h in
          let old = mapped k p before in
          let elsewhere : p ≢ new = λ at. free k (before ∙ ap some at) in
          record {
            allocated = next-le p old.allocated;
            owned = update_ne sl.owner new p (key ctx) elsewhere ∙ old.owned;
          }
    ]

    module _ (pc : Array Pc) (cpu : ℕ) where
      abbrev pc' : Array Pc
      pc' = update pc cpu (searching (looking_again true) ctx)

      slot-new : ((j : ℕ) → closes (pc j) ≢ some new) → SlotInv ops sl' pc' new
      slot-new clear =
          let self = ==_refl new in
          record {
            holds = rw (update, self) (fresh_slot-Holds (chunk_len ctx) (num_workers_hdr ctx));
            keys = rw (update, self) tt;
            live = λ lt. rw (update, self) (ops.lookup-insert sl.slot_map (key ctx) new slot_map e);
            exact = rw (update, self) tt;
            once = ground arith;
            spent = λ pos. absurd (ground (arith, pos));
          }

      slot-old : (p : ℕ) → p ≢ new → SlotInv ops sl pc p → SlotInv ops sl' pc' p
      slot-old p other s =
          let apart : (p == new) ≡ false = ground (arith, other) in
          record {
            holds = rw (update, apart) s.holds;
            keys = rw (update, apart) s.keys;
            live = rw (update, apart) (λ few. lookup-old _ _ (s.live few));
            exact = rw (update, apart) s.exact;
            once = rw (update, apart) s.once;
            spent =
                rw (update, apart)
                  (λ pos.
                    let (full, clear) = s.spent pos in
                    (
                      full,
                      unclosed-update ops pc cpu (searching (looking_again true) ctx)
                          (λ slot c. absurd (ground (arith, c))) p clear,
                    ));
          }

      pub created-Inv :
          ((j : ℕ) → held (pc j) ≢ some new) → IsGradient ctx → Inv ops sl pc → Inv ops sl' pc'
      created-Inv unheld ok inv =
          let none_closes : (j : ℕ) → closes (pc j) ≢ some new =
            λ j c. unheld j (closes-held ops (pc j) new c) in
          let sub : (slot : ℕ)
              → closes (searching (looking_again true) ctx) ≡ some slot
              → closes (pc cpu) ≡ some slot =
            λ slot c. absurd (ground (arith, c)) in
          record {
            mapped = allocate-mapped inv.mapped;
            slots = λ p lt. elim (ℕ_discrete p new) [
              | yes at ↦ rw at (slot-new none_closes)
              | no other ↦ slot-old p other (inv.slots p (next-old p other lt))
            ];
            cpus =
                cpus-LaterAt ops sl sl' pc cpu (searching (looking_again true) ctx)
                  (λ j p h. allocate-LaterAt p (λ at. unheld j (h ∙ ap some at)))
                  (λ j k slot ne c. lookup-old k slot) ok inv.cpus;
            unique = unique-kept ops pc cpu (searching (looking_again true) ctx) sub inv.unique;
          }
