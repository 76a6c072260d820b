-- ===== src/Xdp/Cpus/Stale.antt =====
-- xdp_agg/xdp_agg.c on several CPUs: a CPU that holds the address of an element while the element is
-- given to another key.
use xdp_gradient_aggregation.Common.{
  ℕ, ◌<◌, ◌≤◌, ◌≡◌, ◌≢◌, refl, sym, ap, ◌∙◌, ==_refl, true, none, some, [], ◌∷◌, Array, update,
  update_ne, inl, inr, arith,
}
use native.Mathlib.Decide.{ℕ_discrete}
use xdp_gradient_aggregation.Agg.Packet.History.{contributed}
use xdp_gradient_aggregation.Xdp.Frame.{Config}
use xdp_gradient_aggregation.Xdp.Slot.{GradSlot, fresh_slot, partial, complete}
use xdp_gradient_aggregation.Xdp.Slot.Bitmap.{has_seen_empty}
use xdp_gradient_aggregation.Xdp.Slot.History.{Holds, fresh_slot-Holds}
use xdp_gradient_aggregation.Xdp.Program.{Key, over_quota}
use xdp_gradient_aggregation.Xdp.Cpus.{
  Pc, Ctx, key, chunk_len, worker_id, num_workers_hdr, idle, searching, Closing, looking_again,
  holding, locking, Kernel, Slots, Mem, receive, found, missing, under, created, won, absorbed,
  completed, configure, delete, transmitted, System, pick, Reach, next, IsGradient, locked,
  allocate, accept, closing_of, transmit,
}
use xdp_gradient_aggregation.Xdp.Cpus.Locked.{
  contributions, locked-judge, locked-Judged, locked-Holds,
}
use xdp_gradient_aggregation.Xdp.Cpus.Invariant.{Inv}
use xdp_gradient_aggregation.Xdp.Cpus.Invariant.Opened.{Key-cases}
use xdp_gradient_aggregation.Xdp.Cpus.Runs.{Runs, start, move, released, counted, trans}

module _ (kernel : Kernel) where
  open kernel use {slot_ops}

  -- A later system in which every CPU is where it was, and the entry of the second frame's key holds
  -- the contributions of both frames, which have different keys.
  pub record Mixes (s : System kernel) (p : ℕ) (ctx ctx' : Ctx) : Type 0 where
    pub after : System kernel
    pub reach : Reach kernel s after
    pub settled : (cpu : ℕ) → after.pc cpu ≡ s.pc cpu
    pub entry : slot_ops.lookup after.mem.slots.slot_map (key ctx') ≡ some p
    pub both : Holds (contributions (ctx.frame ∷ ctx'.frame ∷ [])) (after.mem.slots.cell p)
    pub apart : key ctx ≢ key ctx'

  -- A CPU that waits creates the slot of the frame's key with the given element, and adds the frame.
  record Opens (t : System kernel) (b p : ℕ) (ctx : Ctx) (slot_map : slot_ops.Map) : Type 0 where
    mem : Mem kernel
    pc : Array Pc
    reach : Reach kernel t (record { mem = mem; pc = pc })
    slots : mem.slots ≡ accept ctx p (allocate ctx p slot_map t.mem.slots)
    back : pc b ≡ idle
    others : (j : ℕ) → j ≢ b → pc j ≡ t.pc j

  abbrev fresh : Ctx → GradSlot
  fresh ctx = fresh_slot (chunk_len ctx) (num_workers_hdr ctx)

  waits : (ctx : Ctx) → 1 < num_workers_hdr ctx → (locked ctx (fresh ctx)).0 ≡ partial
  waits ctx many =
      (locked-judge ctx (fresh ctx) refl (has_seen_empty _) (omega arith)).1
        (λ e. omega (arith, e, many))

  opens :
      (t : System kernel) (b p : ℕ) (ctx : Ctx) (slot_map : slot_ops.Map)
      → t.pc b ≡ idle
      → IsGradient ctx
      → 1 < num_workers_hdr ctx
      → num_workers_hdr ctx ≤ 256
      → slot_ops.lookup t.mem.slots.slot_map (key ctx) ≡ none
      → p ≤ t.mem.slots.next
      → ((k : Key) → slot_ops.lookup t.mem.slots.slot_map k ≢ some p)
      → slot_ops.insert t.mem.slots.slot_map (key ctx) p ≡ some slot_map
      → Opens t b p ctx slot_map
  unfolding over_quota
  opens t b p ctx slot_map ready ok many few absent given free room =
      let r0 = rw ready at (start kernel t b) in
      let r1 =
        move kernel (move kernel r0 (receive ok) refl) (missing absent (ground (arith, many, few)))
          refl in
      let r2 = move kernel r1 (under none refl) refl in
      let sl = allocate ctx p slot_map t.mem.slots in
      let u : System kernel = record {
        mem = record t.mem { slots = sl };
        pc = update r2.pc b (searching (looking_again true) ctx);
      } in
      let reach3 : Reach kernel t u = next r2.reach (pick b r2.place (created given free room)) in
      let entry = slot_ops.lookup-insert t.mem.slots.slot_map (key ctx) p slot_map room in
      let r3 = rw (update, ==_refl b) at (start kernel u b) in
      let (m, same, r4) = counted kernel u.mem ctx p (move kernel r3 (won entry) refl) in
      let verdict : (locked ctx (m.slots.cell p)).0 ≡ partial =
        rw same (rw (update, ==_refl p) (waits ctx many)) in
      let r5 = move kernel r4 (absorbed verdict) refl in
      record {
        mem = record m { slots = accept ctx p m.slots };
        pc = r5.pc;
        reach = trans kernel reach3 r5.reach;
        slots = ap (λ (q : Slots slot_ops.Map). accept ctx p q) same;
        back = r5.place;
        others = λ j ne.
            r5.others j ne
            ∙ update_ne r2.pc b j (searching (looking_again true) ctx) ne
            ∙ r2.others j ne;
      }

  module _ (s : System kernel) (a b p : ℕ) (ctx ctx' : Ctx) (cfg : Config) (slot_map : slot_ops.Map)
      (inv : Inv slot_ops s.mem.slots s.pc) (apart : b ≢ a) (idle_a : s.pc a ≡ idle)
      (idle_b : s.pc b ≡ idle) (ok : IsGradient ctx) (ok' : IsGradient ctx')
      (entry : slot_ops.lookup s.mem.slots.slot_map (key ctx) ≡ some p)
      (last : (locked ctx (s.mem.slots.cell p)).0 ≡ complete)
      (absent : slot_ops.lookup s.mem.slots.slot_map (key ctx') ≡ none)
      (many : 2 < num_workers_hdr ctx') (few : num_workers_hdr ctx' ≤ 256)
      (same_len : chunk_len ctx' ≡ chunk_len ctx) (others : worker_id ctx ≢ worker_id ctx')
      (room : slot_ops.insert (slot_ops.erase s.mem.slots.slot_map (key ctx)) (key ctx') p
        ≡ some slot_map) where
    -- The first CPU has looked the slot up.
    holds : Runs kernel s a s.mem (holding locking ctx p)
    holds =
        let r0 = rw idle_a at (start kernel s a) in
        move kernel (move kernel r0 (receive ok) refl) (found entry) refl

    abbrev system1 : System kernel
    system1 = record { mem = s.mem; pc = holds.pc }

    abbrev c : Closing
    c = closing_of ctx p s.mem.slots

    abbrev s2 : Slots slot_ops.Map
    s2 = transmit cfg c (record (accept ctx p s.mem.slots) {
      slot_map = slot_ops.erase s.mem.slots.slot_map (key ctx);
    })

    -- The second CPU gets the same frame again, completes the slot and sends the frame on.
    closes : (m : Mem kernel) × (m.slots ≡ s2) × Runs kernel system1 b m idle
    closes =
        let r0 = rw (holds.others b apart ∙ idle_b) at (start kernel system1 b) in
        let r1 = move kernel (move kernel r0 (receive ok) refl) (found entry) refl in
        let r2 = move kernel (move kernel r1 (completed last) refl) (configure (some cfg)) refl in
        let (m, same, r3) = released kernel _ (some cfg) c (move kernel r2 delete refl) in
        (
          record m { slots = transmit cfg c m.slots },
          ap (λ (q : Slots slot_ops.Map). transmit cfg c q) same,
          move kernel r3 transmitted refl,
        )

    keys_apart : key ctx ≢ key ctx'
    keys_apart same = absurd (
        ground
          (arith, entry, absent, ap (λ (k : Key). slot_ops.lookup s.mem.slots.slot_map k) same))

    abbrev erased : slot_ops.Map
    erased = slot_ops.erase s.mem.slots.slot_map (key ctx)

    absent' : slot_ops.lookup erased (key ctx') ≡ none
    absent' =
        slot_ops.lookup-erase_ne s.mem.slots.slot_map (key ctx) (key ctx') (λ e. keys_apart (sym e))
        ∙ absent

    -- No entry has the element now.
    free : (k : Key) → slot_ops.lookup erased k ≢ some p
    free k e = elim (Key-cases k (key ctx)) [
      | inl same ↦ absurd (
          ground (
            arith,
            e,
            slot_ops.lookup-erase s.mem.slots.slot_map (key ctx),
            ap (λ (q : Key). slot_ops.lookup erased q) same,
          ))
      | inr other ↦
          let before = sym (slot_ops.lookup-erase_ne s.mem.slots.slot_map (key ctx) k other) ∙ e in
          other (sym (inv.mapped k p before).owned ∙ (inv.mapped (key ctx) p entry).owned)
    ]

    given : p ≤ s.mem.slots.next
    given = omega (arith, (inv.mapped (key ctx) p entry).allocated)

    abbrev cell : GradSlot
    cell = (locked ctx' (fresh ctx')).1

    cell-Holds : Holds (contributions (ctx'.frame ∷ [])) cell
    cell-Holds =
        locked-Holds ctx' (fresh ctx') [] ok'
          (fresh_slot-Holds (chunk_len ctx') (num_workers_hdr ctx'))
          (inl (waits ctx' (omega arith)))

    -- The first CPU adds its frame to whatever the element is now.
    joins : (locked ctx cell).0 ≡ partial
    unfolding contributed
    joins =
        let j = locked-Judged ctx' (fresh ctx') in
        (locked-judge ctx cell (j.len_kept ∙ same_len)
            (cell-Holds.seen (worker_id ctx) ∙ ground (arith, others))
            (omega (arith, cell-Holds.received))).1
          (λ e. omega (arith, cell-Holds.received, j.expected, e, many))

    abbrev m2 : Mem kernel
    m2 = closes.0

    abbrev system2 : System kernel
    system2 = record { mem = m2; pc = closes.2.pc }

    -- The second CPU then creates the other key's slot in the same element.
    reopens : Opens system2 b p ctx' slot_map
    reopens =
        let same = closes.1 in
        opens system2 b p ctx' slot_map closes.2.place ok' (omega (arith, many)) few
          (rw same absent') (rw same given) (rw same free) (rw same room)

    abbrev system3 : System kernel
    system3 = record { mem = reopens.mem; pc = reopens.pc }

    cell_eq : reopens.mem.slots.cell p ≡ cell
    cell_eq = rw reopens.slots (rw (update, ==_refl p) refl)

    a_holds : reopens.pc a ≡ holding locking ctx p
    a_holds =
        let ne : a ≢ b = λ e. apart (sym e) in
        reopens.others a ne ∙ closes.2.others a ne ∙ holds.place

    adds :
        Runs kernel system3 a (record reopens.mem { slots = accept ctx p reopens.mem.slots }) idle
    adds = move kernel (rw a_holds at (start kernel system3 a)) (absorbed (rw cell_eq joins)) refl

    settled : (j : ℕ) → adds.pc j ≡ s.pc j
    settled j = elim (ℕ_discrete j a) [
      | yes at ↦ rw (at, adds.place) (sym idle_a)
      | no not_a ↦ elim (ℕ_discrete j b) [
        | yes at ↦ adds.others j not_a ∙ rw (at, reopens.back) (sym idle_b)
        | no not_b ↦
            adds.others j not_a
            ∙ reopens.others j not_b
            ∙ closes.2.others j not_b
            ∙ holds.others j not_a
      ]
    ]
