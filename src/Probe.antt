-- ===== src/Probe.antt =====
-- The probe loop of an open-addressing table, as find_or_create_job and find_or_create_slot of
-- userspace_agg/agg.c and find_or_create_slot of paramserver/paramserver.c run it:
--   for (probe = 0; probe < CAPACITY; probe++) {
--       idx = (h + probe) & (CAPACITY - 1);
--       if (!table[idx].in_use) -- create here
--       if (table[idx] has the key) -- found here
--   }
pub mod Extend
pub mod Table
use xdp_gradient_aggregation.Common.{
  ℕ, zero, suc, ◌+◌, ◌<◌, ◌≡◌, refl, Bool, true, false, not, if◌then◌else◌, arith, ◌⊎◌, inl, inr,
}

-- Where the loop stops, and on which test.
pub data Probe : Type 0 where
  vacant : ℕ → Probe
  found : ℕ → Probe
  exhausted : Probe

pub Probe-cases :
    (p : Probe) → ((i : ℕ) × (p ≡ vacant i)) ⊎ ((i : ℕ) × (p ≡ found i)) ⊎ (p ≡ exhausted)
Probe-cases (vacant i) = inl (i, refl)
Probe-cases (found i) = inr (inl (i, refl))
Probe-cases exhausted = inr (inr refl)

module _ (index : ℕ → ℕ) (in_use same_key : ℕ → Bool) where
  -- The loop at round `k`, with `left` rounds to go.
  unfoldable pub probe_from : ℕ → ℕ → Probe
  probe_from zero k = exhausted
  probe_from (suc left) k =
      let rest = probe_from left (k + 1) in
      if not (in_use (index k))
      then vacant (index k)
      else if same_key (index k)
      then found (index k)
      else rest

  module _ {cap : ℕ} (bounded : (k : ℕ) → index k < cap) where
    pub probe-found :
        (left k i : ℕ)
        → probe_from left k ≡ found i
        → (i < cap) × (in_use i ≡ true) × (same_key i ≡ true)
    unfolding probe_from
    probe-found zero k i e = cc
    probe-found (suc left) k i e = ground (arith, bounded k, probe-found left (k + 1) i)

    pub probe-vacant :
        (left k i : ℕ) → probe_from left k ≡ vacant i → (i < cap) × (in_use i ≡ false)
    unfolding probe_from
    probe-vacant zero k i e = cc
    probe-vacant (suc left) k i e = ground (arith, bounded k, probe-vacant left (k + 1) i)

  pub probe-exhausted :
      (left k n : ℕ)
      → probe_from left k ≡ exhausted
      → n < left
      → (in_use (index (k + n)) ≡ true) × (same_key (index (k + n)) ≡ false)
  unfolding probe_from
  probe-exhausted zero k n e lt = absurd (omega arith)
  probe-exhausted (suc left) k zero e lt =
      let here : k + 0 ≡ k = omega arith in rw here (ground arith)
  probe-exhausted (suc left) k (suc n) e lt =
      let next : k + suc n ≡ k + 1 + n = omega arith in
      rw next (ground (arith, probe-exhausted left (k + 1) n))
