-- ===== src/Common/Arrays.antt =====
-- C arrays as functions from the index. A write changes one element.
use Prim.Native.Nat.{ℕ}
use mathlib.Core.Path.{◌≡◌}
use mathlib.Core.Logic.{◌≢◌}
use native.Mathlib.Omega.{arith}
use xdp_gradient_aggregation.Common.Tests.{◌==◌, if◌then◌else◌}

abbrev pub Array {ℓ} : Type ℓ → Type ℓ
Array A = ℕ → A

module _ {ℓ} {A : Type ℓ} where
  -- `a[i] = v`
  abbrev pub update : Array A → ℕ → A → Array A
  update a i v j = if j == i then v else a j

  pub update_same : (a : Array A) (i : ℕ) (v : A) → update a i v i ≡ v
  update_same a i v = ground arith

  pub update_ne : (a : Array A) (i j : ℕ) (v : A) → j ≢ i → update a i v j ≡ a j
  update_ne a i j v ne = ground arith
