-- ===== src/Base/Int.antt =====
-- Signed numbers: `i64` values as integers. `negsuc n` is -(n + 1).
use Prim.Native.Nat.{ℕ, zero, suc, compare, Ordering}
use mathlib.Core.Path.{◌≡◌}
use mathlib.Core.Bool.{Bool, true, false}
use native.Mathlib.Omega.{arith}

pub data ℤ : Type 0 where
  pos : ℕ → ℤ
  negsuc : ℕ → ℤ

-- `i64::cmp`
abbrev pub cmpℤ : ℤ → ℤ → Ordering
cmpℤ (pos a) (pos b) = compare a b
cmpℤ (pos a) (negsuc b) = Ordering.gt
cmpℤ (negsuc a) (pos b) = Ordering.lt
cmpℤ (negsuc a) (negsuc b) = compare b a

-- `a - 1`, where it does not overflow
abbrev pub pred : ℤ → ℤ
pred (pos zero) = negsuc 0
pred (pos (suc n)) = pos n
pred (negsuc n) = negsuc (suc n)

-- `<=` and `==` on i64
abbrev pub leℤ : ℤ → ℤ → Bool
leℤ a b = elim (cmpℤ a b) [ Ordering.gt ↦ false | _ ↦ true ]

abbrev pub eqℤ : ℤ → ℤ → Bool
eqℤ a b = elim (cmpℤ a b) [ Ordering.eq ↦ true | _ ↦ false ]

pub leℤ_trans : (a b c : ℤ) → leℤ a b ≡ true → leℤ b c ≡ true → leℤ a c ≡ true
leℤ_trans a b c h k = ground arith

pub leℤ_total : (a b : ℤ) → leℤ a b ≡ false → leℤ b a ≡ true
leℤ_total a b h = ground arith

pub leℤ-self : (a : ℤ) → leℤ a a ≡ true
leℤ-self a = ground arith

-- Below a bound, one less is strictly below.
pub pred-below : (a b : ℤ) → leℤ a b ≡ true → (leℤ b (pred a) ≡ false) × (leℤ (pred a) b ≡ true)
pred-below a b h = ground arith
