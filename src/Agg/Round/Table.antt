-- ===== src/Agg/Round/Table.antt =====
-- The packets of one key at the slot table of userspace_agg/agg.c.
use xdp_gradient_aggregation.Common.{
  ℕ, ◌≡◌, refl, sym, ap, ap₂, ==_iff, ◌∙◌, true, Bool-cases, inl, inr, Option, none, some, Array,
  update, update_same, ==_refl, arith, ◌==◌,
}
use xdp_gradient_aggregation.Proto.{Buf}
use xdp_gradient_aggregation.Probe.{found, vacant}
use xdp_gradient_aggregation.Probe.Extend.{found-Extends, found_fill}
use xdp_gradient_aggregation.Agg.{Slot, JobEntry, Tables, slot_capacity}
use xdp_gradient_aggregation.Agg.Jobs.{find_or_create_job}
use xdp_gradient_aggregation.Agg.Slots.{
  slot_key, slot_index, has_key, probe_slot, fresh_slot, at_quota, grant_slot, create_from,
  create_slot, find_or_create_slot,
}
use xdp_gradient_aggregation.Agg.Slots.Probing.{probe_slot-vacant}
use xdp_gradient_aggregation.Agg.Packet.{
  Packet, Clock, decode, value_of, is_well_formed, latch, absorb, judge, contribute, settle, handle,
  process_packet,
}

-- A contribution leaves the key of the slot alone, and that it is in use.
pub contribute-key :
    (clock : Clock) (p : Packet) (v : Array ℕ) (s : Slot) (job_id round chunk_id : ℕ)
    → ((contribute clock p v s).1.in_use ≡ s.in_use)
      × (has_key job_id round chunk_id (contribute clock p v s).1 ≡ has_key job_id round chunk_id s)
unfolding contribute latch absorb judge
contribute-key clock p v s job_id round chunk_id = ground arith

module _ (job_id round chunk_id : ℕ) where
  -- The slot is found again where it was, with the contribution.
  pub found-again :
      (slots : Array Slot) (i : ℕ) (s : Slot)
      → probe_slot slots job_id round chunk_id ≡ found i
      → s.in_use ≡ (slots i).in_use
      → has_key job_id round chunk_id s ≡ has_key job_id round chunk_id (slots i)
      → probe_slot (update slots i s) job_id round chunk_id ≡ found i
  unfolding probe_slot
  found-again slots i s f used keyed =
      found-Extends (slot_index (slot_key job_id round chunk_id)) (λ x. (slots x).in_use)
        (λ x. has_key job_id round chunk_id (slots x)) (λ x. (update slots i s x).in_use)
        (λ x. has_key job_id round chunk_id (update slots i s x))
        (λ x u. elim (Bool-cases (x == i)) [
          | inl on ↦
              let e : i ≡ x = sym ((==_iff x i).0 on) in
              rw (update, on)
                (
                  used ∙ ap (λ (y : ℕ). (slots y).in_use) e ∙ u,
                  keyed ∙ ap (λ (y : ℕ). has_key job_id round chunk_id (slots y)) e,
                )
          | inr off ↦ rw (update, off) (u, refl)
        ])
        slot_capacity 0 i f

  -- A slot that is created in its own vacancy is found there.
  created-found :
      (slots : Array Slot) (i : ℕ)
      → probe_slot slots job_id round chunk_id ≡ vacant i
      → probe_slot (update slots i (fresh_slot job_id round chunk_id)) job_id round chunk_id
        ≡ found i
  unfolding probe_slot
  created-found slots i v =
      found_fill (slot_index (slot_key job_id round chunk_id)) (λ x. (slots x).in_use)
        (λ x. has_key job_id round chunk_id (slots x))
        (λ x. (update slots i (fresh_slot job_id round chunk_id) x).in_use)
        (λ x. has_key job_id round chunk_id (update slots i (fresh_slot job_id round chunk_id) x))
        (λ x u. elim (Bool-cases (x == i)) [
          | inl on ↦
              let e : x ≡ i = (==_iff x i).0 on in
              let free = (probe_slot-vacant slots job_id round chunk_id i v).1 in
              absurd (ground (arith, ap (λ (y : ℕ). (slots y).in_use) e, free, u))
          | inr off ↦ rw (update, off) (u, refl)
        ])
        slot_capacity 0 i v (rw (update, ==_refl i) refl)
        (rw (update, ==_refl i) (ground (arith, ==_refl job_id, ==_refl round, ==_refl chunk_id)))

  created_from :
      (quota i k : ℕ) (slots : Array Slot) (r : Option ℕ × Array JobEntry)
      → (create_from quota job_id round chunk_id i slots r).0 ≡ some k
      → ((create_from quota job_id round chunk_id i slots r).0 ≡ some i)
        × ((create_from quota job_id round chunk_id i slots r).1.slots
            ≡ update slots i (fresh_slot job_id round chunk_id))
  unfolding create_from grant_slot
  created_from quota i k slots (none, jobs) e = (refl, refl)
  created_from quota i k slots (some j, jobs) e = elim (Bool-cases (at_quota quota (jobs j))) [
    | inl full ↦ absurd (ground (arith, e, full))
    | inr room ↦ rw (grant_slot, room) (refl, refl)
  ]

  -- What is granted is the vacancy, with a fresh slot in it.
  granted :
      (quota i k : ℕ) (t : Tables)
      → probe_slot t.slots job_id round chunk_id ≡ vacant i
      → (find_or_create_slot quota job_id round chunk_id t).0 ≡ some k
      → ((find_or_create_slot quota job_id round chunk_id t).0 ≡ some i)
        × ((find_or_create_slot quota job_id round chunk_id t).1.slots
            ≡ update t.slots i (fresh_slot job_id round chunk_id))
  unfolding find_or_create_slot create_slot
  granted quota i k t v e =
      rw (find_or_create_slot, v)
        (created_from quota i k t.slots (find_or_create_job job_id t.jobs)
          (rw (find_or_create_slot, v) at e))

  found_slot :
      (quota i : ℕ) (t : Tables)
      → probe_slot t.slots job_id round chunk_id ≡ found i
      → find_or_create_slot quota job_id round chunk_id t ≡ (some i, t)
  unfolding find_or_create_slot
  found_slot quota i t f = rw (find_or_create_slot, f) refl

  -- A datagram of the key that the checks accept.
  module _ (quota : ℕ) (clock : Clock) (b : Buf) (n i : ℕ) (t : Tables) (out : Buf)
      (good : is_well_formed (decode b) n ≡ true) (same_job : (decode b).job_id ≡ job_id)
      (same_round : (decode b).round ≡ round) (same_chunk : (decode b).chunk_id ≡ chunk_id) where
    process_packet-handle :
        process_packet quota clock b n t out
        ≡ handle clock
            (decode b)
            (value_of b)
            (find_or_create_slot quota job_id round chunk_id t)
            out
    unfolding process_packet
    process_packet-handle =
        rw (process_packet, good)
          (ap₂
              (λ (j r : ℕ).
                handle clock (decode b) (value_of b)
                  (find_or_create_slot quota j r (decode b).chunk_id t) out)
              same_job same_round
            ∙ ap
                (λ (c : ℕ).
                  handle clock (decode b) (value_of b) (find_or_create_slot quota job_id round c t)
                    out)
                same_chunk)

    pub process_packet-settle :
        probe_slot t.slots job_id round chunk_id ≡ found i
        → process_packet quota clock b n t out
          ≡ settle (decode b) i (contribute clock (decode b) (value_of b) (t.slots i)) t out
    unfolding handle
    process_packet-settle f =
        process_packet-handle
        ∙ ap (λ (r : Option ℕ × Tables). handle clock (decode b) (value_of b) r out)
            (found_slot quota i t f)

  -- A first packet that is granted a slot is handled as if the fresh slot had been there.
  pub process_packet_fresh :
      (quota i k : ℕ) (t : Tables)
      → probe_slot t.slots job_id round chunk_id ≡ vacant i
      → (find_or_create_slot quota job_id round chunk_id t).0 ≡ some k
      → (u : Tables) × (probe_slot u.slots job_id round chunk_id ≡ found i)
        × (u.slots i ≡ fresh_slot job_id round chunk_id)
        × ((clock : Clock) (b : Buf) (n : ℕ) (out : Buf)
            → is_well_formed (decode b) n ≡ true
            → (decode b).job_id ≡ job_id
            → (decode b).round ≡ round
            → (decode b).chunk_id ≡ chunk_id
            → process_packet quota clock b n t out ≡ process_packet quota clock b n u out)
  process_packet_fresh quota i k t v e =
      let r = find_or_create_slot quota job_id round chunk_id t in
      let (at, slots) = granted quota i k t v e in
      let f : probe_slot r.1.slots job_id round chunk_id ≡ found i =
        ap (λ (s : Array Slot). probe_slot s job_id round chunk_id) slots
        ∙ created-found t.slots i v in
      (
        r.1,
        f,
        ap (λ (s : Array Slot). s i) slots
            ∙ update_same t.slots i (fresh_slot job_id round chunk_id),
        λ clock b n out good j r' c.
            process_packet-handle quota clock b n i t out good j r' c
            ∙ ap (λ (q : Option ℕ × Tables). handle clock (decode b) (value_of b) q out)
                (ap₂ (λ (o : Option ℕ) (w : Tables). (o, w)) at refl
                  ∙ sym (found_slot quota i r.1 f))
            ∙ sym (process_packet-handle quota clock b n i r.1 out good j r' c),
      )
