-- ===== src/Proto/Layout.antt =====
-- Storing in a packet and reading back, and what each load depends on.
use xdp_gradient_aggregation.Common.{
  ℕ, zero, suc, ◌+◌, ◌*◌, ◌^◌, ◌<◌, ◌≤◌, ◌≡◌, refl, arith, Array, ◌⊎◌, inl, inr, ◌∙◌,
}
use native.Mathlib.Decide.{ℕ_discrete}
use xdp_gradient_aggregation.Proto.{
  Buf, GradHdr, load16, load32, store16, store32, hdr_at, put_hdr, value_at, put_values, hdr_size,
}

-- The fields of a header fit their types.
pub record Fits (h : GradHdr) : Type 0 where
  pub job_id : h.job_id < 2 ^ 32
  pub round : h.round < 2 ^ 32
  pub chunk_id : h.chunk_id < 2 ^ 32
  pub worker_id : h.worker_id < 2 ^ 16
  pub num_workers : h.num_workers < 2 ^ 16
  pub chunk_len : h.chunk_len < 2 ^ 16
  pub flags : h.flags < 2 ^ 16

-- Two buffers agree below `n`.
abbrev pub AgreeBelow : ℕ → Buf → Buf → Type 0
AgreeBelow n b c = (i : ℕ) → i < n → b i ≡ c i

abbrev pub IsBytes : Buf → Type 0
IsBytes b = (i : ℕ) → b i < 2 ^ 8

load32-store32 : (b : Buf) (o v : ℕ) → v < 2 ^ 32 → load32 (store32 b o v) o ≡ v
unfolding load32 store32
load32-store32 b o v h = ground arith

load16-store16 : (b : Buf) (o v : ℕ) → v < 2 ^ 16 → load16 (store16 b o v) o ≡ v
unfolding load16 store16
load16-store16 b o v h = ground arith

load32-store32_apart :
    (b : Buf) (o p v : ℕ) → (p + 4 ≤ o) ⊎ (o + 4 ≤ p) → load32 (store32 b o v) p ≡ load32 b p
unfolding load32 store32
load32-store32_apart b o p v (inl h) = ground arith
load32-store32_apart b o p v (inr h) = ground arith

load32-store16_apart :
    (b : Buf) (o p v : ℕ) → (p + 4 ≤ o) ⊎ (o + 2 ≤ p) → load32 (store16 b o v) p ≡ load32 b p
unfolding load32 store16
load32-store16_apart b o p v (inl h) = ground arith
load32-store16_apart b o p v (inr h) = ground arith

load16-store16_apart :
    (b : Buf) (o p v : ℕ) → (p + 2 ≤ o) ⊎ (o + 2 ≤ p) → load16 (store16 b o v) p ≡ load16 b p
unfolding load16 store16
load16-store16_apart b o p v (inl h) = ground arith
load16-store16_apart b o p v (inr h) = ground arith

load16-store32_apart :
    (b : Buf) (o p v : ℕ) → (p + 2 ≤ o) ⊎ (o + 4 ≤ p) → load16 (store32 b o v) p ≡ load16 b p
unfolding load16 store32
load16-store32_apart b o p v (inl h) = ground arith
load16-store32_apart b o p v (inr h) = ground arith

ruleset cells = (
  load32-store32, load32-store32_apart, load32-store16_apart, load16-store16, load16-store16_apart,
  load16-store32_apart,
)

-- Where the fields fit their widths, a header that was stored at any offset of a buffer is read
-- back field by field.
pub hdr_at-put_hdr : (b : Buf) (o : ℕ) (h : GradHdr) → Fits h → hdr_at (put_hdr b o h) o ≡ h
unfolding hdr_at put_hdr
hdr_at-put_hdr b o h f = ground (arith, a, r, c, w, n, l, g)
  where
    a : (hdr_at (put_hdr b o h) o).job_id ≡ h.job_id
    a = grind (arith, cells)

    r : (hdr_at (put_hdr b o h) o).round ≡ h.round
    r = grind (arith, cells)

    c : (hdr_at (put_hdr b o h) o).chunk_id ≡ h.chunk_id
    c = grind (arith, cells)

    w : (hdr_at (put_hdr b o h) o).worker_id ≡ h.worker_id
    w = grind (arith, cells)

    n : (hdr_at (put_hdr b o h) o).num_workers ≡ h.num_workers
    n = grind (arith, cells)

    l : (hdr_at (put_hdr b o h) o).chunk_len ≡ h.chunk_len
    l = grind (arith, cells)

    g : (hdr_at (put_hdr b o h) o).flags ≡ h.flags
    g = grind (arith, cells)

module _ (swap : ℕ → ℕ) (o : ℕ) (sum : Array ℕ) where
  -- The loop writes only its own part of the buffer.
  pub load32-put_values_apart :
      (left i : ℕ) (b : Buf) (p : ℕ)
      → (p + 4 ≤ o + 4 * i) ⊎ (o + 4 * (i + left) ≤ p)
      → load32 (put_values swap o sum left i b) p ≡ load32 b p
  unfolding put_values
  load32-put_values_apart zero i b p h = refl
  load32-put_values_apart (suc left) i b p h =
      load32-put_values_apart left (i + 1) (store32 b (o + 4 * i) (swap (sum i))) p (omega arith)
      ∙ load32-store32_apart b (o + 4 * i) p (swap (sum i)) (omega arith)

  pub load16-put_values_apart :
      (left i : ℕ) (b : Buf) (p : ℕ)
      → p + 2 ≤ o + 4 * i
      → load16 (put_values swap o sum left i b) p ≡ load16 b p
  unfolding put_values
  load16-put_values_apart zero i b p h = refl
  load16-put_values_apart (suc left) i b p h =
      load16-put_values_apart left (i + 1) (store32 b (o + 4 * i) (swap (sum i))) p (omega arith)
      ∙ load16-store32_apart b (o + 4 * i) p (swap (sum i)) (inl h)

  -- Each value that the loop writes is read back.
  pub value_at-put_values :
      (left i j : ℕ) (b : Buf)
      → i ≤ j
      → j < i + left
      → swap (sum j) < 2 ^ 32
      → value_at (put_values swap o sum left i b) o j ≡ swap (sum j)
  unfolding put_values value_at
  value_at-put_values zero i j b lo hi fits = absurd (omega arith)
  value_at-put_values (suc left) i j b lo hi fits = elim (ℕ_discrete i j) [
    | no ne ↦
        value_at-put_values left (i + 1) j (store32 b (o + 4 * i) (swap (sum i))) (omega arith)
          (omega arith) fits
    | yes e ↦ rw e (
        load32-put_values_apart left (j + 1) (store32 b (o + 4 * j) (swap (sum j))) (o + 4 * j)
          (inl (omega arith))
        ∙ load32-store32 b (o + 4 * j) (swap (sum j)) fits)
  ]

-- The header is not touched by the values behind it.
pub hdr_at-put_values :
    (swap : ℕ → ℕ) (sum : Array ℕ) (left o p : ℕ) (b : Buf)
    → o + hdr_size ≤ p
    → hdr_at (put_values swap p sum left 0 b) o ≡ hdr_at b o
unfolding hdr_at
hdr_at-put_values swap sum left o p b h = ground (
  arith,
  load32-put_values_apart swap p sum left 0 b o,
  load32-put_values_apart swap p sum left 0 b (o + 4),
  load32-put_values_apart swap p sum left 0 b (o + 8),
  load16-put_values_apart swap p sum left 0 b (o + 12),
  load16-put_values_apart swap p sum left 0 b (o + 14),
  load16-put_values_apart swap p sum left 0 b (o + 16),
  load16-put_values_apart swap p sum left 0 b (o + 18),
)

-- A header depends on its twenty bytes, and value `i` on four.
pub hdr_at-AgreeBelow : (b c : Buf) → AgreeBelow hdr_size b c → hdr_at b 0 ≡ hdr_at c 0
unfolding hdr_at load32 load16
hdr_at-AgreeBelow b c h = ground (
  arith,
  h 0,
  h 1,
  h 2,
  h 3,
  h 4,
  h 5,
  h 6,
  h 7,
  h 8,
  h 9,
  h 10,
  h 11,
  h 12,
  h 13,
  h 14,
  h 15,
  h 16,
  h 17,
  h 18,
  h 19,
)

pub value_at-AgreeBelow :
    (b c : Buf) (o n i : ℕ) → AgreeBelow n b c → o + 4 * i + 4 ≤ n → value_at b o i ≡ value_at c o i
unfolding value_at load32
value_at-AgreeBelow b c o n i h le =
    ground (arith, h (o + 4 * i), h (o + 4 * i + 1), h (o + 4 * i + 2), h (o + 4 * i + 3))
