-- ===== src/Xdp/Program/Quota.antt =====
-- xdp_agg/xdp_agg.c: the admission quota, through job_quota_map.
use xdp_gradient_aggregation.Common.{
  ℕ, ◌+◌, ◌-◌, ◌*◌, ◌<◌, ◌≤◌, ◌≡◌, sym, ap, ◌∙◌, Bool, true, false, ◌||◌, ◌==◌, ltb, leb, inl, inr,
  Bool-cases, Option, none, some, arith, Option-cases, u32,
}
use native.Mathlib.Decide.{ℕ_discrete}
use xdp_gradient_aggregation.Proto.{Buf}
use xdp_gradient_aggregation.Xdp.Maps.{MapOps, job_quota_increment, job_quota_decrement}
use xdp_gradient_aggregation.Xdp.Frame.{Parsed-cases, parse, Config, bitmap_bytes}
use xdp_gradient_aggregation.Xdp.Slot.{
  GradSlot, fresh_slot, Verdict, mismatch, duplicate, partial, complete, contribute, write_back,
}
use xdp_gradient_aggregation.Xdp.Program.{
  Key, key_of, Maps, over_quota, created, create_slot, admit, find_or_admit, tear_down, send,
  settle, handle, aggregate, netsum_xdp_aggregate,
}

-- Every recorded count is at most `quota`.
module _ (ops : MapOps ℕ ℕ) (quota : ℕ) where
  open ops use {
    lookup, insert, store, lookup-insert, lookup-insert_ne, lookup-store, lookup-store_ne,
  }

  abbrev pub IsWithin : ops.Map → Type 0
  IsWithin m = (id n : ℕ) → lookup m id ≡ some n → n ≤ quota

  store-IsWithin :
      (m : ops.Map) (id old new : ℕ)
      → lookup m id ≡ some old
      → new ≤ quota
      → IsWithin m
      → IsWithin (store m id new)
  store-IsWithin m id old new e le w j n f = elim (ℕ_discrete j id) [
    | yes same ↦
        let here : some n ≡ some new =
          sym f ∙ ap (λ (k : ℕ). lookup (store m id new) k) same ∙ lookup-store m id old new e in
        ground (arith, here)
    | no ne ↦ w j n (sym (lookup-store_ne m id j new ne) ∙ f)
  ]

  insert-IsWithin :
      (m : ops.Map) (id new : ℕ) (m' : ops.Map)
      → insert m id new ≡ some m'
      → new ≤ quota
      → IsWithin m
      → IsWithin m'
  insert-IsWithin m id new m' e le w j n f = elim (ℕ_discrete j id) [
    | yes same ↦
        let here : some n ≡ some new =
          sym f ∙ ap (λ (k : ℕ). lookup m' k) same ∙ lookup-insert m id new m' e in
        ground (arith, here)
    | no ne ↦ w j n (sym (lookup-insert_ne m id j new m' e ne) ∙ f)
  ]

  -- A job that may get one more slot.
  pub job_quota_increment-IsWithin :
      (m : ops.Map) (id : ℕ)
      → 0 < quota
      → ((n : ℕ) → lookup m id ≡ some n → n < quota)
      → IsWithin m
      → IsWithin (job_quota_increment ops id m)
  unfolding job_quota_increment
  job_quota_increment-IsWithin m id pos room w = elim (Option-cases (lookup m id)) [
    | inl (n, e) ↦
        rw (job_quota_increment, e)
          (store-IsWithin m id n (u32 (n + 1)) e (omega (arith, room n e)) w)
    | inr e ↦ elim (Option-cases (insert m id 1)) [
      | inl (m', f) ↦ rw (job_quota_increment, e, f) (insert-IsWithin m id 1 m' f pos w)
      | inr f ↦ rw (job_quota_increment, e, f, e) w
    ]
  ]

  pub job_quota_decrement-IsWithin :
      (m : ops.Map) (id : ℕ) → IsWithin m → IsWithin (job_quota_decrement ops id m)
  unfolding job_quota_decrement
  job_quota_decrement-IsWithin m id w = elim (Option-cases (lookup m id)) [
    | inl (n, e) ↦ elim (Bool-cases (ltb 0 n)) [
      | inl on ↦
          rw (job_quota_decrement, e, on)
            (store-IsWithin m id n (n - 1) e (omega (arith, w id n e)) w)
      | inr off ↦ rw (job_quota_decrement, e, off) w
    ]
    | inr e ↦ rw (job_quota_decrement, e) w
  ]

module _ (slot_ops : MapOps Key GradSlot) (quota_ops stat_ops : MapOps ℕ ℕ) where
  abbrev St : Type 0
  St = Maps slot_ops quota_ops stat_ops

  over_quota-room :
      (cfg : Config) (id n : ℕ) (q : quota_ops.Map)
      → 0 < cfg.max_slots_per_job
      → over_quota quota_ops (some cfg) id q ≡ false
      → quota_ops.lookup q id ≡ some n
      → n < cfg.max_slots_per_job
  unfolding over_quota
  over_quota-room cfg id n q pos under e = elim (Bool-cases (leb cfg.max_slots_per_job n)) [
    | inl over ↦ absurd (ground (arith, over, rw e at under))
    | inr ok ↦ ground (arith, ok)
  ]

  created-IsWithin :
      (quota : ℕ) (key : Key) (won : Bool) (st : St)
      → 0 < quota
      → ((n : ℕ) → quota_ops.lookup st.job_quota_map key.job_id ≡ some n → n < quota)
      → IsWithin quota_ops quota st.job_quota_map
      → IsWithin quota_ops quota (created slot_ops quota_ops stat_ops key won st).1.job_quota_map
  unfolding created
  created-IsWithin quota key won st pos room w =
      elim (Option-cases (slot_ops.lookup st.slot_map key)) [
        | inl (s, e) ↦ elim (Bool-cases won) [
          | inl on ↦
              rw (created, e, on)
                (job_quota_increment-IsWithin quota_ops quota st.job_quota_map key.job_id pos room
                  w)
          | inr off ↦ rw (created, e, off) w
        ]
        | inr e ↦ rw (created, e) w
      ]

  create_slot-IsWithin :
      (quota : ℕ) (key : Key) (fresh : GradSlot) (st : St)
      → 0 < quota
      → ((n : ℕ) → quota_ops.lookup st.job_quota_map key.job_id ≡ some n → n < quota)
      → IsWithin quota_ops quota st.job_quota_map
      → IsWithin quota_ops quota
          (create_slot slot_ops quota_ops stat_ops key fresh st).1.job_quota_map
  unfolding create_slot
  create_slot-IsWithin quota key fresh st pos room w =
      elim (Option-cases (slot_ops.insert st.slot_map key fresh)) [
        | inl (m, e) ↦
            rw (create_slot, e)
              (created-IsWithin quota key true (record st { slot_map = m }) pos room w)
        | inr e ↦ rw (create_slot, e) (created-IsWithin quota key false st pos room w)
      ]

  find_or_admit-IsWithin :
      (cfg : Config) (key : Key) (l n : ℕ) (st : St)
      → 0 < cfg.max_slots_per_job
      → IsWithin quota_ops cfg.max_slots_per_job st.job_quota_map
      → IsWithin quota_ops cfg.max_slots_per_job
          (find_or_admit slot_ops quota_ops stat_ops (some cfg) key l n st).1.job_quota_map
  unfolding find_or_admit admit
  find_or_admit-IsWithin cfg key l n st pos w =
      elim (Option-cases (slot_ops.lookup st.slot_map key)) [
        | inl (s, e) ↦ rw (find_or_admit, e) w
        | inr e ↦ elim (Bool-cases (n == 0 || ltb (bitmap_bytes * 8) n)) [
          | inl bad ↦ rw (find_or_admit, e, admit, bad) w
          | inr ok ↦
              elim (Bool-cases (over_quota quota_ops (some cfg) key.job_id st.job_quota_map)) [
                | inl over ↦ rw (find_or_admit, e, admit, ok, over) w
                | inr under ↦
                    rw (find_or_admit, e, admit, ok, under)
                      (create_slot-IsWithin cfg.max_slots_per_job key (fresh_slot l n) st pos
                        (λ k f. over_quota-room cfg key.job_id k st.job_quota_map pos under f) w)
              ]
        ]
      ]

  send-IsWithin :
      (quota : ℕ) (c : Option Config) (key : Key) (n : ℕ) (frame : Buf) (st : St)
      → IsWithin quota_ops quota st.job_quota_map
      → IsWithin quota_ops quota
          (send slot_ops quota_ops stat_ops c key n frame st).state.job_quota_map
  unfolding send tear_down
  send-IsWithin quota none key n frame st w =
      job_quota_decrement-IsWithin quota_ops quota st.job_quota_map key.job_id w
  send-IsWithin quota (some cfg) key n frame st w =
      job_quota_decrement-IsWithin quota_ops quota st.job_quota_map key.job_id w

  handle-IsWithin :
      (quota : ℕ) (c : Option Config) (key : Key) (w l : ℕ) (frame : Buf) (len : ℕ)
      (r : Option GradSlot × St)
      → IsWithin quota_ops quota r.1.job_quota_map
      → IsWithin quota_ops quota
          (handle slot_ops quota_ops stat_ops c key w l frame len r).state.job_quota_map
  unfolding handle settle
  handle-IsWithin quota c key w l frame len (none, st) within = within
  handle-IsWithin quota c key w l frame len (some s, st) within =
      by_verdict (contribute frame len l w s)
    where
      by_verdict :
          (r : Verdict × GradSlot)
          → IsWithin quota_ops quota
              (settle slot_ops quota_ops stat_ops c key frame len r st).state.job_quota_map
      by_verdict (mismatch, t) = within
      by_verdict (duplicate, t) = within
      by_verdict (partial, t) = within
      by_verdict (complete, t) =
          send-IsWithin quota c key t.chunk_len (write_back t len frame)
            (record st { slot_map = slot_ops.store st.slot_map key t }) within

  -- When the admission check of xdp_agg.c reads a configuration with a quota, and no count in
  -- job_quota_map is above the quota, no count is above it after the packet, for any maps with the
  -- stated laws.
  pub netsum_xdp_aggregate-IsWithin :
      (cfg : Config) (completion : Option Config) (frame : Buf) (len : ℕ) (st : St)
      → 0 < cfg.max_slots_per_job
      → IsWithin quota_ops cfg.max_slots_per_job st.job_quota_map
      → IsWithin quota_ops cfg.max_slots_per_job
          (netsum_xdp_aggregate slot_ops quota_ops stat_ops
            (record { precheck = some cfg; completion = completion })
            frame
            len
            st).state.job_quota_map
  unfolding netsum_xdp_aggregate aggregate
  netsum_xdp_aggregate-IsWithin cfg completion frame len st pos w =
      elim (Parsed-cases (parse frame len)) [
        | inl e ↦ rw (netsum_xdp_aggregate, e) w
        | inr (inl e) ↦ rw (netsum_xdp_aggregate, e) w
        | inr (inr e) ↦
            rw (netsum_xdp_aggregate, e)
              (handle-IsWithin cfg.max_slots_per_job completion (key_of frame) _ _ frame len _
                (find_or_admit-IsWithin cfg (key_of frame) _ _ st pos w))
      ]
