-- ===== src/Agg/Packet/Sum.antt =====
-- The accumulate loop of userspace_agg/agg.c in closed form.
use xdp_gradient_aggregation.Common.{
  ℕ, zero, suc, ◌+◌, ◌<◌, ◌≤◌, ◌≡◌, refl, Bool, true, false, ◌&&◌, ltb, if◌then◌else◌, Array,
  update, u32, arith, Bool-cases, inl, inr, fun_ext,
}
use native.Mathlib.Decide.{ℕ_discrete}
use xdp_gradient_aggregation.Proto.{max_chunk_len}
use xdp_gradient_aggregation.Agg.Packet.{accumulate_from, accumulate}

module _ (values : Array ℕ) (chunk_len : ℕ) where
  abbrev goes_on : ℕ → Bool
  goes_on i = ltb i chunk_len && ltb i max_chunk_len

  abbrev added : ℕ → Array ℕ → Array ℕ
  added i sum = update sum i (u32 (sum i + values i))

  accumulate_from-on :
      (left i : ℕ) (sum : Array ℕ)
      → goes_on i ≡ true
      → accumulate_from values chunk_len (suc left) i sum
        ≡ accumulate_from values chunk_len left (i + 1) (added i sum)
  unfolding accumulate_from
  accumulate_from-on left i sum h = rw h

  accumulate_from-off :
      (left i : ℕ) (sum : Array ℕ)
      → goes_on i ≡ false
      → accumulate_from values chunk_len (suc left) i sum ≡ sum
  unfolding accumulate_from
  accumulate_from-off left i sum h = rw h

  accumulate_from-below :
      (left i j : ℕ) (sum : Array ℕ) → j < i → accumulate_from values chunk_len left i sum j ≡ sum j
  accumulate_from-below zero i j sum lt = unfold accumulate_from in refl
  accumulate_from-below (suc left) i j sum lt = elim (Bool-cases (goes_on i)) [
    | inl on ↦
        let rest = accumulate_from-below left (i + 1) j (added i sum) (omega arith) in
        rw (accumulate_from-on left i sum on) (ground (arith, rest))
    | inr off ↦ rw (accumulate_from-off left i sum off)
  ]

  accumulate_from-lem :
      (left i j : ℕ) (sum : Array ℕ)
      → i + left ≡ max_chunk_len
      → i ≤ j
      → accumulate_from values chunk_len left i sum j
        ≡ (if goes_on j then u32 (sum j + values j) else sum j)
  accumulate_from-lem zero i j sum e le = unfold accumulate_from in ground arith
  accumulate_from-lem (suc left) i j sum e le = elim (Bool-cases (goes_on i)) [
    | inr off ↦ rw (accumulate_from-off left i sum off) (ground arith)
    | inl on ↦ rw (accumulate_from-on left i sum on) (elim (ℕ_discrete i j) [
      | yes same ↦
          let here = accumulate_from-below left (i + 1) j (added i sum) (omega arith) in
          ground (arith, here)
      | no ne ↦
          let rest = accumulate_from-lem left (i + 1) j (added i sum) (omega arith) (omega arith) in
          ground (arith, rest)
    ])
  ]

  -- The accumulate loop adds to each sum below the length and below 64 the value at its index,
  -- modulo 2^32, and leaves the other sums.
  pub accumulate_lem :
      (sum : Array ℕ) (j : ℕ)
      → accumulate values chunk_len sum j
        ≡ (if ltb j chunk_len && ltb j max_chunk_len then u32 (sum j + values j) else sum j)
  unfolding accumulate
  accumulate_lem sum j = accumulate_from-lem max_chunk_len 0 j sum refl (omega arith)

-- Values behind the payload do not matter.
pub accumulate_congr :
    (v w : Array ℕ) (chunk_len : ℕ) (sum : Array ℕ)
    → ((i : ℕ) → i < chunk_len → v i ≡ w i)
    → accumulate v chunk_len sum ≡ accumulate w chunk_len sum
accumulate_congr v w chunk_len sum same =
    fun_ext λ j.
      ground (arith, accumulate_lem v chunk_len sum j, accumulate_lem w chunk_len sum j, same j)
