-- ===== src/Probe/Extend.antt =====
-- What the probe loop finds after cells were filled, none freed.
use xdp_gradient_aggregation.Common.{ℕ, zero, suc, ◌+◌, ◌≡◌, refl, Bool, true, arith}
use xdp_gradient_aggregation.Probe.{Probe, vacant, found, exhausted, probe_from}

-- Every cell that was in use still is, with the same answer to the test of the key.
abbrev pub Extends : (in_use same_key in_use' same_key' : ℕ → Bool) → Type 0
Extends in_use same_key in_use' same_key' =
    (i : ℕ) → in_use i ≡ true → (in_use' i ≡ true) × (same_key' i ≡ same_key i)

module _ (index : ℕ → ℕ) (in_use same_key in_use' same_key' : ℕ → Bool)
    (ext : Extends in_use same_key in_use' same_key') where
  abbrev before : ℕ → ℕ → Probe
  before = probe_from index in_use same_key

  abbrev after : ℕ → ℕ → Probe
  after = probe_from index in_use' same_key'

  -- A key that was found is found at the same place.
  pub found-Extends : (left k i : ℕ) → before left k ≡ found i → after left k ≡ found i
  unfolding probe_from
  found-Extends zero k i e = cc
  found-Extends (suc left) k i e = ground (arith, ext (index k), found-Extends left (k + 1) i)

  pub exhausted-Extends : (left k : ℕ) → before left k ≡ exhausted → after left k ≡ exhausted
  unfolding probe_from
  exhausted-Extends zero k e = refl
  exhausted-Extends (suc left) k e = ground (arith, ext (index k), exhausted-Extends left (k + 1))

  -- A key that is written into the vacancy of its own probe is found there.
  pub found_fill :
      (left k i : ℕ)
      → before left k ≡ vacant i
      → in_use' i ≡ true
      → same_key' i ≡ true
      → after left k ≡ found i
  unfolding probe_from
  found_fill zero k i e u s = cc
  found_fill (suc left) k i e u s = ground (arith, ext (index k), found_fill left (k + 1) i)

  -- A key that is absent now was absent before.
  pub vacant-Extends :
      (left k i : ℕ) → after left k ≡ vacant i → (j : ℕ) × (before left k ≡ vacant j)
  vacant-Extends left k i e = by_result (before left k) refl
    where
      by_result : (p : Probe) → before left k ≡ p → (j : ℕ) × (before left k ≡ vacant j)
      by_result (vacant j) q = (j, q)
      by_result (found j) q = absurd (ground (arith, found-Extends left k j q))
      by_result exhausted q = absurd (ground (arith, exhausted-Extends left k q))
