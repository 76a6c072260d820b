-- ===== src/Agg/Orphan.antt =====
-- userspace_agg/agg.c frees a slot by clearing `in_use` alone, with no mark for the probe loop: what
-- that does to a slot behind the freed entry in its probe sequence.
use xdp_gradient_aggregation.Common.{
  ℕ, zero, suc, ◌+◌, ◌<◌, ◌≤◌, ◌≡◌, ◌≢◌, refl, Bool, true, false, Option, none, some, Array, update,
  arith, fun_ext, ap, ap₂, ◌∙◌,
}
use xdp_gradient_aggregation.Probe.{vacant, found, probe_from}
use xdp_gradient_aggregation.Agg.{Slot, JobEntry, Tables, slot_capacity}
use xdp_gradient_aggregation.Agg.Jobs.{find_or_create_job}
use xdp_gradient_aggregation.Agg.Slots.{
  slot_key, slot_index, has_key, probe_slot, free_slot, create_from, create_slot, grant_slot,
  find_or_create_slot,
}
use xdp_gradient_aggregation.Agg.Slots.Reap.{slots-free_slot}
use xdp_gradient_aggregation.Agg.Slots.Probing.{probe_slot-found}

module _ (index : ℕ → ℕ) (in_use same_key : ℕ → Bool) (i j : ℕ) where
  -- With entry `j` freed, a probe that passed it stops there.
  probe_from-freed :
      (left n k : ℕ)
      → probe_from index in_use same_key left k ≡ found i
      → n < left
      → index (k + n) ≡ j
      → ((m : ℕ) → m ≤ n → index (k + m) ≢ i)
      → probe_from index (update in_use j false) same_key left k ≡ vacant j
  unfolding probe_from
  probe_from-freed zero n k f lt at apart = absurd (omega arith)
  probe_from-freed (suc left) zero k f lt at apart =
      let start : k + 0 ≡ k = omega arith in
      let here : index k ≡ j = rw start at at in rw here (ground arith)
  probe_from-freed (suc left) (suc n) k f lt at apart =
      let start : k + 0 ≡ k = omega arith in
      let first : index k ≢ i = rw start at (apart 0 (omega arith)) in
      let shift : k + suc n ≡ k + 1 + n = omega arith in
      let next : index (k + 1 + n) ≡ j = rw shift at at in
      let rest = λ (m : ℕ) (le : m ≤ n).
        let e : k + suc m ≡ k + 1 + m = omega arith in rw e at (apart (suc m) (omega arith)) in
      ground (
        arith,
        λ (e : probe_from index in_use same_key left (k + 1) ≡ found i).
            probe_from-freed left n (k + 1) e (omega arith) next rest,
      )

-- With no quota a vacancy is always given, and the other slots are kept.
module _ (job_id round chunk_id i j : ℕ) where
  created_from :
      (slots : Array Slot) (r : Option ℕ × Array JobEntry)
      → j ≢ i
      → ((create_from 0 job_id round chunk_id j slots r).0 ≡ some j)
        × ((create_from 0 job_id round chunk_id j slots r).1.slots i ≡ slots i)
  unfolding create_from grant_slot
  created_from slots (none, jobs) apart = (refl, ground arith)
  created_from slots (some k, jobs) apart = (refl, ground arith)

  created :
      (t : Tables)
      → j ≢ i
      → ((create_slot 0 job_id round chunk_id j t).0 ≡ some j)
        × ((create_slot 0 job_id round chunk_id j t).1.slots i ≡ t.slots i)
  unfolding create_slot
  created t apart = created_from t.slots (find_or_create_job job_id t.jobs) apart

-- A slot `i` of the key that the probe reaches after passing entry `j`.
module _ (job_id round chunk_id i j n : ℕ) (t : Tables)
    (live : probe_slot t.slots job_id round chunk_id ≡ found i) (below : n < slot_capacity)
    (passed : slot_index (slot_key job_id round chunk_id) n ≡ j)
    (later : (m : ℕ) → m ≤ n → slot_index (slot_key job_id round chunk_id) m ≢ i) where
  abbrev freed : Tables
  freed = free_slot j t

  freed_use :
      ◌≡◌ {A = ℕ → Bool} (λ x. (freed.slots x).in_use) (update (λ x. (t.slots x).in_use) j false)
  freed_use = fun_ext (λ x. rw (slots-free_slot j t) (ground arith))

  freed_key :
      ◌≡◌ {A = ℕ → Bool}
        (λ x. has_key job_id round chunk_id (freed.slots x))
        (λ x. has_key job_id round chunk_id (t.slots x))
  freed_key = fun_ext (λ x. rw (slots-free_slot j t) (ground arith))

  freed-vacant : probe_slot freed.slots job_id round chunk_id ≡ vacant j
  unfolding probe_slot
  freed-vacant =
      let index = slot_index (slot_key job_id round chunk_id) in
      let whole : (m : ℕ) → 0 + m ≡ m = λ m. omega arith in
      let base =
        probe_from-freed index (λ x. (t.slots x).in_use)
          (λ x. has_key job_id round chunk_id (t.slots x)) i j slot_capacity n 0 live below
          (ap index (whole n) ∙ passed) (λ m le. rw (whole m) (later m le)) in
      ap₂ (λ (u s : ℕ → Bool). probe_from index u s slot_capacity 0) freed_use freed_key ∙ base

  -- Without a quota, if the probe of a key finds its slot i after it has passed entry j, then once
  -- free_slot has freed entry j, find_or_create_slot gives the key entry j, while entry i is
  -- unchanged and still in use for the same key.
  pub find_or_create_slot-free_slot :
      ((find_or_create_slot 0 job_id round chunk_id freed).0 ≡ some j)
      × ((find_or_create_slot 0 job_id round chunk_id freed).1.slots i ≡ t.slots i)
      × ((t.slots i).in_use ≡ true)
      × (has_key job_id round chunk_id (t.slots i) ≡ true)
      × (j ≢ i)
  unfolding find_or_create_slot
  find_or_create_slot-free_slot =
      let (lt, used, key) = probe_slot-found t.slots job_id round chunk_id i live in
      let apart : j ≢ i = rw (← passed) (later n (omega arith)) in
      let kept : freed.slots i ≡ t.slots i = rw (slots-free_slot j t) (ground arith) in
      let (given, rest) = created job_id round chunk_id i j freed apart in
      (
        rw (find_or_create_slot, freed-vacant) given,
        rw (find_or_create_slot, freed-vacant) (rest ∙ kept),
        used,
        key,
        apart,
      )
