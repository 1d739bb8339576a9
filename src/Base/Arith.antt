-- ===== src/Base/Arith.antt =====
-- `div_ceil` of the unsigned integers, and products that bound one another.
use Prim.Native.Nat.{ℕ, ◌+◌, ◌*◌, ◌/◌, ◌%◌, ◌≤◌, ◌<◌}
use mathlib.Core.Path.{◌≡◌}
use mathlib.Core.Logic.{inl, inr}
use native.Mathlib.Decide.{dec_lt}
use native.Mathlib.Nat.{div-add-mod', mod-lt, mul-le-mul_right}
use native.Mathlib.Omega.{arith}
use blt.Base.Tests.{◌==◌, if◌then◌else◌, Bool-cases}

-- `n.div_ceil(d)`
unfoldable pub div_ceil : ℕ → ℕ → ℕ
div_ceil n d = if n % d == 0 then n / d else n / d + 1

-- The least multiple of `d` that covers `n`.
pub div_ceil_bounds : (n d : ℕ) → 0 < d → (n ≤ div_ceil n d * d) × (div_ceil n d * d < n + d)
unfolding div_ceil
div_ceil_bounds n d h = elim (Bool-cases (n % d == 0)) [
  | inl e ↦ rw e (exact (ground arith))
  | inr e ↦ rw e (above (ground arith))
]
  where
    exact : n % d ≡ 0 → (n ≤ n / d * d) × (n / d * d < n + d)
    exact z = omega (arith, div-add-mod' n d)

    above : 0 < n % d → (n ≤ (n / d + 1) * d) × ((n / d + 1) * d < n + d)
    above p = omega (arith, div-add-mod' n d, mod-lt n h)

-- The bounds fix the multiple.
pub multiple_le : (a b n d : ℕ) → a * d < n + d → n ≤ b * d → a ≤ b
multiple_le a b n d q r = elim (dec_lt b a) [
  | yes h ↦ absurd (omega (arith, mul-le-mul_right d h))
  | no h ↦ omega arith
]

pub multiple_unique : (a b n d : ℕ) → n ≤ a * d → a * d < n + d → n ≤ b * d → b * d < n + d → a ≡ b
multiple_unique a b n d p q r s = omega (arith, multiple_le a b n d q r, multiple_le b a n d s p)
