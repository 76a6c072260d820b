-- ===== src/Probe/Table.antt =====
-- An open-addressing table from which nothing is removed, as a map.
use xdp_gradient_aggregation.Common.{
  ℕ, ◌<◌, ◌≡◌, refl, ◌==◌, ==_iff, ==_refl, Bool, true, false, Array, update, arith, fun_ext, ap₂,
  ◌∙◌, sym, Bool-cases, inl, inr,
}
use xdp_gradient_aggregation.Probe.{Probe, vacant, found, probe_from, probe-vacant}
use xdp_gradient_aggregation.Probe.Extend.{Extends, found-Extends, found_fill}

module _ {A K : Type 0} (in_use : A → Bool) (has_key : K → A → Bool) (index : K → ℕ → ℕ)
    (cap : ℕ) where
  abbrev pub probe : Array A → K → Probe
  probe table k = probe_from (index k) (λ i. in_use (table i)) (λ i. has_key k (table i)) cap 0

  abbrev pub IsReachable : Array A → Type 0
  IsReachable table =
      (i : ℕ) (k : K)
      → i < cap
      → in_use (table i) ≡ true
      → has_key k (table i) ≡ true
      → probe table k ≡ found i

  -- No two entries in use have one key.
  pub reachable_unique :
      (table : Array A)
      → IsReachable table
      → (i j : ℕ) (k : K) → i < cap
      → j < cap
      → in_use (table i) ≡ true
      → in_use (table j) ≡ true
      → has_key k (table i) ≡ true
      → has_key k (table j) ≡ true
      → i ≡ j
  reachable_unique table r i j k lti ltj ui uj ki kj =
      let at_i = r i k lti ui ki in let at_j = r j k ltj uj kj in ground arith

  -- A write that keeps the use and the keys of an entry keeps the map.
  pub rewrite-IsReachable :
      (table : Array A) (j : ℕ) (a : A)
      → in_use a ≡ in_use (table j)
      → ((k : K) → has_key k a ≡ has_key k (table j))
      → IsReachable table
      → IsReachable (update table j a)
  rewrite-IsReachable table j a used same r i k lt u h =
      let use_kept : (x : ℕ) → in_use (update table j a x) ≡ in_use (table x) = λ x. use_at x in
      let key_kept : (x : ℕ) → has_key k (update table j a x) ≡ has_key k (table x) =
        λ x. key_at x in
      ap₂ (λ (s t : ℕ → Bool). probe_from (index k) s t cap 0) (fun_ext use_kept) (fun_ext key_kept)
      ∙ r i k lt (sym (use_kept i) ∙ u) (sym (key_kept i) ∙ h)
    where
      use_at : (x : ℕ) → in_use (update table j a x) ≡ in_use (table x)
      use_at x = elim (Bool-cases (x == j)) [
        | inl e ↦ let here = (==_iff x j).0 e in rw (e, here) used
        | inr ne ↦ rw ne
      ]

      key_at : (x : ℕ) → has_key k (update table j a x) ≡ has_key k (table x)
      key_at x = elim (Bool-cases (x == j)) [
        | inl e ↦ let here = (==_iff x j).0 e in rw (e, here) (same k)
        | inr ne ↦ rw ne
      ]

  -- A new entry for a key, in the vacancy that its probe met, keeps the map.
  pub fill-IsReachable :
      (bounded : (k : K) (n : ℕ) → index k n < cap) (table : Array A) (key : K) (i : ℕ) (a : A)
      → probe table key ≡ vacant i
      → in_use a ≡ true
      → has_key key a ≡ true
      → ((k : K) → has_key k a ≡ true → k ≡ key)
      → IsReachable table
      → IsReachable (update table i a)
  fill-IsReachable bounded table key i a free used own only r x k lt u h =
      elim (Bool-cases (x == i)) [
        | inl e ↦
            let here : x ≡ i = (==_iff x i).0 e in
            let mine : k ≡ key = only k (rw e at h) in
            let own' : has_key key (update table i a i) ≡ true = rw (==_refl i) own in
            let used' : in_use (update table i a i) ≡ true = rw (==_refl i) used in
            rw (mine, here)
              (found_fill (index key) (λ n. in_use (table n)) (λ n. has_key key (table n))
                (λ n. in_use (update table i a n)) (λ n. has_key key (update table i a n))
                (extends key) cap 0 i free used' own')
        | inr ne ↦
            found-Extends (index k) (λ n. in_use (table n)) (λ n. has_key k (table n))
              (λ n. in_use (update table i a n)) (λ n. has_key k (update table i a n)) (extends k)
              cap 0 x (r x k lt (rw ne at u) (rw ne at h))
      ]
    where
      vacancy : in_use (table i) ≡ false
      vacancy =
          (probe-vacant (index key) (λ n. in_use (table n)) (λ n. has_key key (table n))
            (bounded key) cap 0 i free).1

      extends :
          (k' : K)
          → Extends
              (λ n. in_use (table n))
              (λ n. has_key k' (table n))
              (λ n. in_use (update table i a n))
              (λ n. has_key k' (update table i a n))
      extends k' n used_n = elim (Bool-cases (n == i)) [
        | inl e ↦
            let here = (==_iff n i).0 e in
            let clash : false ≡ true = sym vacancy ∙ (rw here at used_n) in absurd (cc)
        | inr ne ↦ rw ne (used_n, refl)
      ]
