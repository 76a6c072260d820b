-- ===== src/Agg/Slots/Probing.antt =====
-- What the probe of the slot table of userspace_agg/agg.c stops at.
use xdp_gradient_aggregation.Common.{ℕ, ◌<◌, ◌≡◌, true, false, Array}
use xdp_gradient_aggregation.Probe.{found, vacant, probe-found, probe-vacant}
use xdp_gradient_aggregation.Agg.{Slot, slot_capacity}
use xdp_gradient_aggregation.Agg.Slots.{slot_key, slot_index, slot_index-lt, has_key, probe_slot}

module _ (slots : Array Slot) (job_id round chunk_id i : ℕ) where
  pub probe_slot-found :
      probe_slot slots job_id round chunk_id ≡ found i
      → (i < slot_capacity)
        × ((slots i).in_use ≡ true)
        × (has_key job_id round chunk_id (slots i) ≡ true)
  unfolding probe_slot
  probe_slot-found e =
      probe-found (slot_index (slot_key job_id round chunk_id)) (λ x. (slots x).in_use)
        (λ x. has_key job_id round chunk_id (slots x))
        (slot_index-lt (slot_key job_id round chunk_id)) slot_capacity 0 i e

  pub probe_slot-vacant :
      probe_slot slots job_id round chunk_id ≡ vacant i
      → (i < slot_capacity) × ((slots i).in_use ≡ false)
  unfolding probe_slot
  probe_slot-vacant e =
      probe-vacant (slot_index (slot_key job_id round chunk_id)) (λ x. (slots x).in_use)
        (λ x. has_key job_id round chunk_id (slots x))
        (slot_index-lt (slot_key job_id round chunk_id)) slot_capacity 0 i e
