-- ===== src/Xdp/Cpus/Runs.antt =====
-- xdp_agg/xdp_agg.c on several CPUs: one CPU that moves while the others stand still.
use xdp_gradient_aggregation.Common.{
  none, ◌≤◌, sym, ◌==◌, ◌*◌, ◌||◌, ltb, ℕ, ◌≡◌, ◌≢◌, refl, ap, ◌∙◌, ==_refl, false, Option, some,
  Array, update, update_ne, arith, inl, inr, Option-cases,
}
use native.Mathlib.Decide.{ℕ_discrete}
use xdp_gradient_aggregation.Xdp.Frame.{Config, bitmap_bytes}
use xdp_gradient_aggregation.Xdp.Program.{Key, over_quota}
use xdp_gradient_aggregation.Xdp.Cpus.{
  num_workers_hdr, counting, locking, count_known, count_unknown, count_first, count_lost,
  uncounted, missing, under, created, won, allocate, held, taken, IsSparing, Ctx, key, Closing, Pc,
  idle, holding, releasing, leaving, Kernel, Mem, Move, receive, release_none, release_zero,
  release, subtract, System, pick, Reach, here, next, IsGradient,
}

module _ (kernel : Kernel) where
  open kernel use {slot_ops, quota_ops}

  -- From `s`, moves of the CPU alone lead to the memory and its place.
  pub record Runs (s : System kernel) (cpu : ℕ) (m : Mem kernel) (p : Pc) : Type 0 where
    pub pc : Array Pc
    pub reach : Reach kernel s (record { mem = m; pc = pc })
    pub sparing : IsSparing kernel reach
    pub place : pc cpu ≡ p
    pub others : (j : ℕ) → j ≢ cpu → pc j ≡ s.pc j

  pub start : (s : System kernel) (cpu : ℕ) → Runs s cpu s.mem (s.pc cpu)
  start s cpu = record {
    pc = s.pc;
    reach = here;
    sparing = tt;
    place = refl;
    others = λ j ne. refl;
  }

  module _ {s : System kernel} {cpu : ℕ} where
    move_sparing :
        {m m' : Mem kernel} {p p' : Pc} (r : Runs s cpu m p) (mv : Move kernel m p m' p')
        → ((j slot : ℕ) → held (r.pc j) ≡ some slot → taken kernel mv ≢ some slot)
        → Runs s cpu m' p'
    move_sparing {m} {m'} {p} {p'} r mv spares = record {
      pc = update r.pc cpu p';
      reach = next r.reach (pick cpu r.place mv);
      sparing = (r.sparing, spares);
      place = rw (update, ==_refl cpu) refl;
      others = λ j ne. update_ne r.pc cpu j p' ne ∙ r.others j ne;
    }

    -- A move that takes no element.
    pub move :
        {m m' : Mem kernel} {p p' : Pc}
        → Runs s cpu m p
        → (mv : Move kernel m p m' p') → taken kernel mv ≡ none
        → Runs s cpu m' p'
    move r mv e = move_sparing r mv (λ j slot h t. absurd (ground (arith, e, t)))

    -- job_quota_decrement, whatever the count.
    pub released :
        (m : Mem kernel) (cfg : Option Config) (c : Closing)
        → Runs s cpu m (releasing cfg c)
        → (m' : Mem kernel) × (m'.slots ≡ m.slots) × Runs s cpu m' (leaving cfg c)
    released m cfg c r = elim (Option-cases (quota_ops.lookup m.job_quota_map c.slot_key.job_id)) [
      | inr e ↦ (m, refl, move r (release_none e) refl)
      | inl (n, e) ↦ elim (ℕ_discrete n 0) [
        | yes zeroed ↦ (m, refl, move r (release_zero (e ∙ ap some zeroed)) refl)
        | no some_left ↦ (_, refl, move (move r (release e (omega arith)) refl) (subtract e) refl)
      ]
    ]

    -- job_quota_increment, whatever the count.
    pub counted :
        (m : Mem kernel) (ctx : Ctx) (slot : ℕ)
        → Runs s cpu m (holding counting ctx slot)
        → (m' : Mem kernel) × (m'.slots ≡ m.slots) × Runs s cpu m' (holding locking ctx slot)
    counted m ctx slot r =
        let id = (key ctx).job_id in
        elim (Option-cases (quota_ops.lookup m.job_quota_map id)) [
          | inl (n, e) ↦ (_, refl, move r (count_known e) refl)
          | inr e ↦ elim (Option-cases (quota_ops.insert m.job_quota_map id 1)) [
            | inl (q, f) ↦ (_, refl, move (move r (count_unknown e) refl) (count_first f) refl)
            | inr f ↦ (
              m,
              refl,
              move (move (move r (count_unknown e) refl) (count_lost f) refl) (uncounted e) refl,
            )
          ]
        ]

  pub trans : {s t u : System kernel} → Reach kernel s t → Reach kernel t u → Reach kernel s u
  trans r here = r
  trans r (next q st) = next (trans r q) st

  pub trans-IsSparing :
      {s t u : System kernel} (r : Reach kernel s t) (q : Reach kernel t u)
      → IsSparing kernel r
      → IsSparing kernel q
      → IsSparing kernel (trans r q)
  unfolding trans
  trans-IsSparing r here a b = a
  trans-IsSparing r (next q st) a (b, spares) = (trans-IsSparing r q a b, spares)

  -- A CPU that waits creates the slot of a key that has none, for a job that has no count.
  pub creates :
      (s : System kernel) (cpu : ℕ) (ctx : Ctx) (cfg : Config) (slot : ℕ) (slot_map : slot_ops.Map)
      → s.pc cpu ≡ idle
      → slot ≤ s.mem.slots.next
      → ((k : Key) → slot_ops.lookup s.mem.slots.slot_map k ≢ some slot)
      → ((j : ℕ) → held (s.pc j) ≢ some slot)
      → IsGradient ctx
      → (num_workers_hdr ctx == 0 || ltb (bitmap_bytes * 8) (num_workers_hdr ctx)) ≡ false
      → slot_ops.lookup s.mem.slots.slot_map (key ctx) ≡ none
      → quota_ops.lookup s.mem.job_quota_map (key ctx).job_id ≡ none
      → slot_ops.insert s.mem.slots.slot_map (key ctx) slot ≡ some slot_map
      → Runs s cpu
          (record s.mem { slots = allocate ctx slot slot_map s.mem.slots })
          (holding counting ctx slot)
  unfolding over_quota
  creates s cpu ctx cfg slot slot_map ready given free unheld ok good absent unknown room =
      let entry = slot_ops.lookup-insert s.mem.slots.slot_map (key ctx) slot slot_map room in
      let r =
        move (move (rw ready at (start s cpu)) (receive ok) refl) (missing absent good) refl in
      let admitted = move r (under (some cfg) (ground (arith, unknown))) refl in
      move
        (move_sparing admitted (created given free room) (λ j p h t. elim (ℕ_discrete j cpu) [
          | yes at ↦ absurd (ground (arith, rw (at, admitted.place) at h))
          | no other ↦ unheld j (rw (admitted.others j other) at h ∙ sym t)
        ]))
        (won entry) refl
