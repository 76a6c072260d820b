-- ===== src/Xdp/Program/Bounds.antt =====
-- xdp_agg/xdp_agg.c: which bytes of the frame the program writes.
use xdp_gradient_aggregation.Common.{
  ℕ, zero, suc, ◌+◌, ◌*◌, ◌≤◌, ◌≡◌, refl, ◌∙◌, inl, inr, Option, none, some, Array, arith,
}
use xdp_gradient_aggregation.Proto.{Buf, store16, store32, bpf_ntohl, max_chunk_len}
use xdp_gradient_aggregation.Xdp.Maps.{MapOps}
use xdp_gradient_aggregation.Xdp.Frame.{
  gradient, Parsed-cases, parse, Config, values_at, put_mac, readdress, retarget,
}
use xdp_gradient_aggregation.Xdp.Slot.{
  GradSlot, Verdict, mismatch, duplicate, partial, complete, contribute, write_back_from,
  write_back,
}
use xdp_gradient_aggregation.Xdp.Program.{
  Key, Configs, Maps, send, settle, handle, aggregate, netsum_xdp_aggregate,
}

write_back_from-above :
    (sum : Array ℕ) (len n left i j : ℕ) (frame : Buf)
    → len ≤ j
    → write_back_from sum len n left i frame j ≡ frame j
unfolding write_back_from store32
write_back_from-above sum len n zero i j frame h = refl
write_back_from-above sum len n (suc left) i j frame h =
    let next = store32 frame (values_at + 4 * i) (bpf_ntohl (sum i)) in
    let rest = write_back_from-above sum len n left (i + 1) j next h in ground (arith, rest)

pub retarget-above :
    (cfg : Config) (n j : ℕ) (frame : Buf) → values_at ≤ j → retarget cfg n frame j ≡ frame j
unfolding retarget readdress put_mac store16 store32
retarget-above cfg n j frame h = ground arith

parse-gradient-len : (frame : Buf) (len : ℕ) → parse frame len ≡ gradient → values_at ≤ len
unfolding parse
parse-gradient-len frame len e = ground arith

module _ (slot_ops : MapOps Key GradSlot) (quota_ops stat_ops : MapOps ℕ ℕ) where
  abbrev St : Type 0
  St = Maps slot_ops quota_ops stat_ops

  send-above :
      (c : Option Config) (key : Key) (n j : ℕ) (frame : Buf) (st : St)
      → values_at ≤ j
      → (send slot_ops quota_ops stat_ops c key n frame st).frame j ≡ frame j
  unfolding send
  send-above none key n j frame st h = refl
  send-above (some cfg) key n j frame st h = retarget-above cfg n j frame h

  settle-above :
      (c : Option Config) (key : Key) (frame : Buf) (len j : ℕ) (v : Verdict) (s : GradSlot)
      (st : St)
      → values_at ≤ len
      → len ≤ j
      → (settle slot_ops quota_ops stat_ops c key frame len (v, s) st).frame j ≡ frame j
  unfolding settle
  settle-above c key frame len j mismatch s st h le = refl
  settle-above c key frame len j duplicate s st h le = refl
  settle-above c key frame len j partial s st h le = refl
  settle-above c key frame len j complete s st h le =
      send-above c key s.chunk_len j (write_back s len frame)
        (record st { slot_map = slot_ops.store st.slot_map key s }) (omega arith)
      ∙ unfold write_back in write_back_from-above s.sum len s.chunk_len max_chunk_len 0 j frame le

  handle-above :
      (c : Option Config) (key : Key) (worker_id chunk_len : ℕ) (frame : Buf) (len j : ℕ)
      (r : Option GradSlot × St)
      → values_at ≤ len
      → len ≤ j
      → (handle slot_ops quota_ops stat_ops c key worker_id chunk_len frame len r).frame j ≡ frame j
  unfolding handle
  handle-above c key worker_id chunk_len frame len j (none, st) h le = refl
  handle-above c key worker_id chunk_len frame len j (some s, st) h le =
      let r = contribute frame len chunk_len worker_id s in
      settle-above c key frame len j r.0 r.1 st h le

  -- Whatever the frame, the configuration and the maps are, xdp_agg.c leaves every byte at or
  -- behind data_end as it was.
  pub netsum_xdp_aggregate_above :
      (cfg : Configs) (frame : Buf) (len : ℕ) (st : St) (j : ℕ)
      → len ≤ j
      → (netsum_xdp_aggregate slot_ops quota_ops stat_ops cfg frame len st).frame j ≡ frame j
  unfolding netsum_xdp_aggregate aggregate
  netsum_xdp_aggregate_above cfg frame len st j le = elim (Parsed-cases (parse frame len)) [
    | inl e ↦ rw (netsum_xdp_aggregate, e)
    | inr (inl e) ↦ rw (netsum_xdp_aggregate, e)
    | inr (inr e) ↦
        rw (netsum_xdp_aggregate, e)
          (handle-above cfg.completion _ _ _ frame len j _ (parse-gradient-len frame len e) le)
  ]
