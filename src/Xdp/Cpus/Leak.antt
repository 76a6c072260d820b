-- ===== src/Xdp/Cpus/Leak.antt =====
-- xdp_agg/xdp_agg.c on several CPUs: the count of a job whose slot is closed before it is counted.
use xdp_gradient_aggregation.Common.{
  Array, ℕ, ◌≤◌, ◌≡◌, ◌≢◌, refl, sym, ◌∙◌, inr, ==_refl, none, some, update, arith,
}
use native.Mathlib.Decide.{ℕ_discrete}
use xdp_gradient_aggregation.Xdp.Frame.{Config}
use xdp_gradient_aggregation.Xdp.Slot.{GradSlot, fresh_slot, complete, duplicate}
use xdp_gradient_aggregation.Xdp.Slot.Bitmap.{has_seen_empty}
use xdp_gradient_aggregation.Xdp.Program.{Key}
use xdp_gradient_aggregation.Xdp.Cpus.{
  held, IsSparing, deleting, Pc, Ctx, key, chunk_len, num_workers_hdr, idle, holding, counting,
  Kernel, Slots, Mem, receive, found, count_unknown, count_first, rejected, completed, configure,
  delete, release_none, transmitted, System, Reach, IsGradient, locked, allocate, accept,
  closing_of, transmit,
}
use xdp_gradient_aggregation.Xdp.Cpus.Locked.{locked-judge, locked-again}
use xdp_gradient_aggregation.Xdp.Cpus.Runs.{Runs, start, move, creates, trans, trans-IsSparing}

module _ (kernel : Kernel) where
  open kernel use {slot_ops, quota_ops}

  -- A later system in which every CPU is where it was and every other entry of slot_map is as it was,
  -- with no entry for the key, and yet the job has a count of 1.
  pub record Leaks (s : System kernel) (k : Key) : Type 0 where
    pub after : System kernel
    pub reach : Reach kernel s after
    pub sparing : IsSparing kernel reach
    pub settled : (cpu : ℕ) → after.pc cpu ≡ s.pc cpu
    pub others :
        (j : Key)
        → j ≢ k
        → slot_ops.lookup after.mem.slots.slot_map j ≡ slot_ops.lookup s.mem.slots.slot_map j
    pub gone : slot_ops.lookup after.mem.slots.slot_map k ≡ none
    pub counted : quota_ops.lookup after.mem.job_quota_map k.job_id ≡ some 1

  module _ (s : System kernel) (a b : ℕ) (ctx : Ctx) (cfg : Config) (p : ℕ)
      (slot_map : slot_ops.Map) (quotas : quota_ops.Map) (apart : b ≢ a) (idle_a : s.pc a ≡ idle)
      (idle_b : s.pc b ≡ idle) (given : p ≤ s.mem.slots.next)
      (free : (k : Key) → slot_ops.lookup s.mem.slots.slot_map k ≢ some p)
      (unheld : (j : ℕ) → held (s.pc j) ≢ some p) (ok : IsGradient ctx)
      (one : num_workers_hdr ctx ≡ 1)
      (absent : slot_ops.lookup s.mem.slots.slot_map (key ctx) ≡ none)
      (unknown : quota_ops.lookup s.mem.job_quota_map (key ctx).job_id ≡ none)
      (slot_room : slot_ops.insert s.mem.slots.slot_map (key ctx) p ≡ some slot_map)
      (quota_room : quota_ops.insert s.mem.job_quota_map (key ctx).job_id 1 ≡ some quotas) where
    abbrev s1 : Slots slot_ops.Map
    s1 = allocate ctx p slot_map s.mem.slots

    entry : slot_ops.lookup slot_map (key ctx) ≡ some p
    entry = slot_ops.lookup-insert s.mem.slots.slot_map (key ctx) p slot_map slot_room

    -- The first CPU is about to count the slot that it has created.
    first : Runs kernel s a (record s.mem { slots = s1 }) (holding counting ctx p)
    first =
        creates kernel s a ctx cfg p slot_map idle_a given free unheld ok (ground (arith, one))
          absent unknown slot_room

    abbrev fresh : GradSlot
    fresh = fresh_slot (chunk_len ctx) (num_workers_hdr ctx)

    at_new : s1.cell p ≡ fresh
    at_new = rw (update, ==_refl p) refl

    all : (locked ctx (s1.cell p)).0 ≡ complete
    all =
        rw at_new
          ((locked-judge ctx fresh refl (has_seen_empty _) (omega arith)).0 (omega (arith, one)))

    abbrev m1 : Mem kernel
    m1 = record s.mem { slots = s1 }

    abbrev system1 : System kernel
    system1 = record { mem = m1; pc = first.pc }

    abbrev s2 : Slots slot_ops.Map
    s2 = record (accept ctx p s1) { slot_map = slot_ops.erase slot_map (key ctx) }

    -- The second CPU gets the same frame again, and completes the slot.
    at_delete :
        Runs kernel system1 b
          (record s.mem { slots = accept ctx p s1 })
          (deleting (some cfg) (closing_of ctx p s1))
    at_delete =
        let r0 = rw (first.others b apart ∙ idle_b) at (start kernel system1 b) in
        let r1 = move kernel (move kernel r0 (receive ok) refl) (found entry) refl in
        move kernel (move kernel r1 (completed all) refl) (configure (some cfg)) refl

    pub reaches_delete :
        (pc : Array Pc) × (r : Reach kernel s
          (record { mem = record s.mem { slots = accept ctx p s1 }; pc = pc }))
        × IsSparing kernel r
        × (pc b ≡ deleting (some cfg) (closing_of ctx p s1))
    reaches_delete = (
      at_delete.pc,
      trans kernel first.reach at_delete.reach,
      trans-IsSparing kernel first.reach at_delete.reach first.sparing at_delete.sparing,
      at_delete.place,
    )

    -- It finds no count to take back, and sends the frame on.
    completes :
        Runs kernel system1 b (record s.mem { slots = transmit cfg (closing_of ctx p s1) s2 }) idle
    completes =
        move kernel (move kernel (move kernel at_delete delete refl) (release_none unknown) refl)
          transmitted refl

    abbrev s3 : Slots slot_ops.Map
    s3 = transmit cfg (closing_of ctx p s1) s2

    abbrev system2 : System kernel
    system2 = record { mem = record s.mem { slots = s3 }; pc = completes.pc }

    -- The frame has left, and the slot is not counted.
    pub leaves_uncounted :
        (pc : Array Pc) × (r : Reach kernel s (record {
          mem = record s.mem { slots = transmit cfg (closing_of ctx p s1) s2 };
          pc = pc;
        }))
        × IsSparing kernel r
    leaves_uncounted = (
      completes.pc,
      trans kernel first.reach completes.reach,
      trans-IsSparing kernel first.reach completes.reach first.sparing completes.sparing,
    )

    again : (locked ctx (s3.cell p)).0 ≡ duplicate
    again = rw (update, ==_refl p) (locked-again ctx fresh refl (has_seen_empty _))

    -- The first CPU counts its slot, and then finds its frame accepted.
    counts : Runs kernel system2 a (record s.mem { slots = s3; job_quota_map = quotas }) idle
    counts =
        let r0 =
          rw (completes.others a (λ e. apart (sym e)) ∙ first.place) at (start kernel system2 a) in
        let r1 =
          move kernel (move kernel r0 (count_unknown unknown) refl) (count_first quota_room) refl in
        move kernel r1 (rejected (inr again)) refl

    settled : (j : ℕ) → counts.pc j ≡ s.pc j
    settled j = elim (ℕ_discrete j a) [
      | yes at ↦ rw (at, counts.place) (sym idle_a)
      | no not_a ↦ elim (ℕ_discrete j b) [
        | yes at ↦ counts.others j not_a ∙ rw (at, completes.place) (sym idle_b)
        | no not_b ↦ counts.others j not_a ∙ completes.others j not_b ∙ first.others j not_a
      ]
    ]

    -- The count of a job can outlive its slots, for any maps with the stated laws: where slot_map
    -- has no entry for a key, job_quota_map none for its job, both have room, and slot_map has an
    -- element that no entry has and whose address no CPU holds, one frame with that key and a fan-
    -- in of 1 that comes on two CPUs that wait can lead to a system in which every CPU is where it
    -- was, slot_map has no entry for the key and the others as before, and the job has a count of
    -- 1. No element is given to another key on the way while a CPU holds its address.
    pub frame-Leaks : Leaks s (key ctx)
    frame-Leaks = record {
      after = record { mem = record s.mem { slots = s3; job_quota_map = quotas }; pc = counts.pc };
      reach = trans kernel (trans kernel first.reach completes.reach) counts.reach;
      sparing =
          trans-IsSparing kernel (trans kernel first.reach completes.reach) counts.reach
            (trans-IsSparing kernel first.reach completes.reach first.sparing completes.sparing)
            counts.sparing;
      settled = settled;
      others = λ j other.
          slot_ops.lookup-erase_ne slot_map (key ctx) j other
          ∙ slot_ops.lookup-insert_ne s.mem.slots.slot_map (key ctx) j p slot_map slot_room other;
      gone = slot_ops.lookup-erase slot_map (key ctx);
      counted = quota_ops.lookup-insert s.mem.job_quota_map (key ctx).job_id 1 quotas quota_room;
    }
