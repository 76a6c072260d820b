-- ===== src/Agg/Slots/Reap.antt =====
-- reap_expired_slots of userspace_agg/agg.c, in closed form on the slots.
use xdp_gradient_aggregation.Common.{
  ℕ, zero, suc, ◌+◌, ◌*◌, ◌<◌, ◌≤◌, ◌≡◌, ◌≢◌, refl, ap, ◌∙◌, false, Bool-cases, inl, inr,
  if◌then◌else◌, update, arith,
}
use native.Mathlib.Decide.{ℕ_discrete}
use xdp_gradient_aggregation.Agg.{Slot, Tables, slot_capacity}
use xdp_gradient_aggregation.Agg.Slots.{
  free_slot, is_expired, reap_slot, reap_from, reap_expired_slots,
}

pub slots-free_slot :
    (j : ℕ) (t : Tables)
    → (free_slot j t).slots ≡ update t.slots j (record (t.slots j) { in_use = false })
unfolding free_slot
slots-free_slot j t = ground arith

-- A slot after the sweep.
abbrev pub reaped : ℕ → ℕ → Slot → Slot
reaped now ttl_micros s = if is_expired now ttl_micros s then record s { in_use = false } else s

module _ (now ttl_micros : ℕ) where
  reap_slot_here :
      (i : ℕ) (t : Tables)
      → (reap_slot now ttl_micros i t).slots i ≡ reaped now ttl_micros (t.slots i)
  unfolding reap_slot
  reap_slot_here i t = elim (Bool-cases (is_expired now ttl_micros (t.slots i))) [
    | inl old ↦ rw (reap_slot, old, slots-free_slot i t) (ground arith)
    | inr young ↦ rw (reap_slot, young)
  ]

  reap_slot_other :
      (i j : ℕ) (t : Tables) → j ≢ i → (reap_slot now ttl_micros i t).slots j ≡ t.slots j
  unfolding reap_slot
  reap_slot_other i j t ne = elim (Bool-cases (is_expired now ttl_micros (t.slots i))) [
    | inl old ↦ rw (reap_slot, old, slots-free_slot i t) (ground arith)
    | inr young ↦ rw (reap_slot, young)
  ]

  reap_from_below :
      (left i j : ℕ) (t : Tables) → j < i → (reap_from now ttl_micros left i t).slots j ≡ t.slots j
  unfolding reap_from
  reap_from_below zero i j t lt = refl
  reap_from_below (suc left) i j t lt =
      reap_from_below left (i + 1) j (reap_slot now ttl_micros i t) (omega arith)
      ∙ reap_slot_other i j t (omega arith)

  reap_from_within :
      (left i j : ℕ) (t : Tables)
      → i ≤ j
      → j < i + left
      → (reap_from now ttl_micros left i t).slots j ≡ reaped now ttl_micros (t.slots j)
  unfolding reap_from
  reap_from_within zero i j t le lt = absurd (omega arith)
  reap_from_within (suc left) i j t le lt =
      let next = reap_slot now ttl_micros i t in
      elim (ℕ_discrete i j) [
        | yes same ↦
            reap_from_below left (i + 1) j next (omega arith) ∙ rw (← same) (reap_slot_here i t)
        | no ne ↦
            reap_from_within left (i + 1) j next (omega arith) (omega arith)
            ∙ ap (λ (s : Slot). reaped now ttl_micros s) (reap_slot_other i j t (omega arith))
      ]

-- The sweep of agg.c takes out of use exactly the slots in use that were last touched at least the
-- time to live ago, and leaves every slot of the table otherwise as it was.
pub reap_expired_slots_lem :
    (now slot_ttl_ms i : ℕ) (t : Tables)
    → i < slot_capacity
    → (reap_expired_slots now slot_ttl_ms t).slots i ≡ (
        if is_expired now (slot_ttl_ms * 1000) (t.slots i)
        then record (t.slots i) { in_use = false }
        else t.slots i)
unfolding reap_expired_slots
reap_expired_slots_lem now slot_ttl_ms i t lt =
    reap_from_within now (slot_ttl_ms * 1000) slot_capacity 0 i t (omega arith) (omega arith)
