-- ===== src/Xdp/Program/Isolated.antt =====
-- xdp_agg/xdp_agg.c: what a packet does to the entries of slot_map.
use xdp_gradient_aggregation.Common.{
  ℕ, ◌≡◌, ◌≢◌, refl, ap, ◌∙◌, Bool, true, false, inl, inr, Option, none, some, arith, Option-cases,
}
use xdp_gradient_aggregation.Proto.{Buf}
use xdp_gradient_aggregation.Xdp.Maps.{MapOps}
use xdp_gradient_aggregation.Xdp.Frame.{Parsed-cases, parse, Config}
use xdp_gradient_aggregation.Xdp.Slot.{
  GradSlot, fresh_slot, Verdict, mismatch, duplicate, partial, complete, contribute, write_back,
}
use xdp_gradient_aggregation.Xdp.Program.{
  Key, key_of, Configs, Maps, xdp_tx, created, create_slot, admit, find_or_admit, tear_down, send,
  settle, handle, aggregate, netsum_xdp_aggregate,
}

module _ (slot_ops : MapOps Key GradSlot) (quota_ops stat_ops : MapOps ℕ ℕ) where
  abbrev St : Type 0
  St = Maps slot_ops quota_ops stat_ops

  open slot_ops use {
    lookup, insert, store, erase, lookup-insert_ne, lookup-store_ne, lookup-erase_ne, lookup-erase,
  }

  created-slot_map :
      (key : Key) (won : Bool) (st : St)
      → (created slot_ops quota_ops stat_ops key won st).1.slot_map ≡ st.slot_map
  unfolding created
  created-slot_map key won st = ground arith

  create_slot-other :
      (key k : Key) (fresh : GradSlot) (st : St)
      → k ≢ key
      → lookup (create_slot slot_ops quota_ops stat_ops key fresh st).1.slot_map k
        ≡ lookup st.slot_map k
  unfolding create_slot
  create_slot-other key k fresh st ne = elim (Option-cases (insert st.slot_map key fresh)) [
    | inl (m, e) ↦
        rw (create_slot, e)
          (ap (λ n. lookup n k) (created-slot_map key true (record st { slot_map = m }))
            ∙ lookup-insert_ne st.slot_map key k fresh m e ne)
    | inr e ↦ rw (create_slot, e) (ap (λ n. lookup n k) (created-slot_map key false st))
  ]

  find_or_admit-other :
      (c : Option Config) (key k : Key) (l n : ℕ) (st : St)
      → k ≢ key
      → lookup (find_or_admit slot_ops quota_ops stat_ops c key l n st).1.slot_map k
        ≡ lookup st.slot_map k
  unfolding find_or_admit admit
  find_or_admit-other c key k l n st ne =
      ground (arith, create_slot-other key k (fresh_slot l n) st ne)

  send-other :
      (c : Option Config) (key k : Key) (n : ℕ) (frame : Buf) (st : St)
      → k ≢ key
      → lookup (send slot_ops quota_ops stat_ops c key n frame st).state.slot_map k
        ≡ lookup st.slot_map k
  unfolding send tear_down
  send-other none key k n frame st ne = lookup-erase_ne st.slot_map key k ne
  send-other (some cfg) key k n frame st ne = lookup-erase_ne st.slot_map key k ne

  settle-other :
      (c : Option Config) (key k : Key) (frame : Buf) (len : ℕ) (v : Verdict) (s : GradSlot)
      (st : St)
      → k ≢ key
      → lookup (settle slot_ops quota_ops stat_ops c key frame len (v, s) st).state.slot_map k
        ≡ lookup st.slot_map k
  unfolding settle
  settle-other c key k frame len mismatch s st ne = refl
  settle-other c key k frame len duplicate s st ne = refl
  settle-other c key k frame len partial s st ne = lookup-store_ne st.slot_map key k s ne
  settle-other c key k frame len complete s st ne =
      send-other c key k s.chunk_len (write_back s len frame)
        (record st { slot_map = store st.slot_map key s }) ne
      ∙ lookup-store_ne st.slot_map key k s ne

  handle-other :
      (c : Option Config) (key k : Key) (w l : ℕ) (frame : Buf) (len : ℕ) (r : Option GradSlot × St)
      → k ≢ key
      → lookup (handle slot_ops quota_ops stat_ops c key w l frame len r).state.slot_map k
        ≡ lookup r.1.slot_map k
  unfolding handle
  handle-other c key k w l frame len (none, st) ne = refl
  handle-other c key k w l frame len (some s, st) ne =
      let r = contribute frame len l w s in settle-other c key k frame len r.0 r.1 st ne

  -- A packet leaves the entry of slot_map of every key but its own as it was, for any maps with
  -- the stated laws.
  pub netsum_xdp_aggregate_other :
      (cfg : Configs) (frame : Buf) (len : ℕ) (st : St) (k : Key)
      → k ≢ key_of frame
      → lookup (netsum_xdp_aggregate slot_ops quota_ops stat_ops cfg frame len st).state.slot_map k
        ≡ lookup st.slot_map k
  unfolding netsum_xdp_aggregate aggregate
  netsum_xdp_aggregate_other cfg frame len st k ne = elim (Parsed-cases (parse frame len)) [
    | inl e ↦ rw (netsum_xdp_aggregate, e)
    | inr (inl e) ↦ rw (netsum_xdp_aggregate, e)
    | inr (inr e) ↦
        rw (netsum_xdp_aggregate, e)
          (handle-other cfg.completion (key_of frame) k _ _ frame len _ ne
            ∙ find_or_admit-other cfg.precheck (key_of frame) k _ _ st ne)
  ]

  send-gone :
      (c : Option Config) (key : Key) (n : ℕ) (frame : Buf) (st : St)
      → lookup (send slot_ops quota_ops stat_ops c key n frame st).state.slot_map key ≡ none
  unfolding send tear_down
  send-gone none key n frame st = lookup-erase st.slot_map key
  send-gone (some cfg) key n frame st = lookup-erase st.slot_map key

  settle-gone :
      (c : Option Config) (key : Key) (frame : Buf) (len : ℕ) (v : Verdict) (s : GradSlot) (st : St)
      → (settle slot_ops quota_ops stat_ops c key frame len (v, s) st).action ≡ xdp_tx
      → lookup (settle slot_ops quota_ops stat_ops c key frame len (v, s) st).state.slot_map key
        ≡ none
  unfolding settle
  settle-gone c key frame len mismatch s st e = absurd (ground arith)
  settle-gone c key frame len duplicate s st e = absurd (ground arith)
  settle-gone c key frame len partial s st e = absurd (ground arith)
  settle-gone c key frame len complete s st e =
      send-gone c key s.chunk_len (write_back s len frame)
        (record st { slot_map = store st.slot_map key s })

  handle-gone :
      (c : Option Config) (key : Key) (w l : ℕ) (frame : Buf) (len : ℕ) (r : Option GradSlot × St)
      → (handle slot_ops quota_ops stat_ops c key w l frame len r).action ≡ xdp_tx
      → lookup (handle slot_ops quota_ops stat_ops c key w l frame len r).state.slot_map key ≡ none
  unfolding handle
  handle-gone c key w l frame len (none, st) e = absurd (ground arith)
  handle-gone c key w l frame len (some s, st) e =
      let r = contribute frame len l w s in settle-gone c key frame len r.0 r.1 st e

  -- When xdp_agg.c sends a frame on, slot_map has no entry for its key afterwards, for any maps
  -- with the stated laws.
  pub netsum_xdp_aggregate_gone :
      (cfg : Configs) (frame : Buf) (len : ℕ) (st : St)
      → (netsum_xdp_aggregate slot_ops quota_ops stat_ops cfg frame len st).action ≡ xdp_tx
      → lookup
          (netsum_xdp_aggregate slot_ops quota_ops stat_ops cfg frame len st).state.slot_map
          (key_of frame)
        ≡ none
  unfolding netsum_xdp_aggregate aggregate
  netsum_xdp_aggregate_gone cfg frame len st sent = elim (Parsed-cases (parse frame len)) [
    | inl e ↦ absurd (ground (arith, e, sent))
    | inr (inl e) ↦ absurd (ground (arith, e, sent))
    | inr (inr e) ↦
        rw (netsum_xdp_aggregate, e)
          (handle-gone cfg.completion (key_of frame) _ _ frame len _
            (rw (netsum_xdp_aggregate, e) at sent))
  ]
