-- ===== src/Queue/Strength.antt =====
-- "Stronger" is a total order on items, decided by votes, then time, then id.
use Prim.Native.Nat.{Ordering}
use blt.Base.{◌≡◌, true, false, arith}
use blt.Base.Int.{ℤ, cmpℤ}
use blt.Queue.{QueueItem, stronger, stronger_le}

-- Opposite answers for exchanged arguments.
abbrev flip : Ordering → Ordering
flip Ordering.lt = Ordering.gt
flip Ordering.gt = Ordering.lt
flip Ordering.eq = Ordering.eq

cmpℤ-flip : (a b : ℤ) → cmpℤ b a ≡ flip (cmpℤ a b)
cmpℤ-flip a b = ground arith

cmpℤ-eq : (a b : ℤ) → cmpℤ a b ≡ Ordering.eq → a ≡ b
cmpℤ-eq a b h = ground arith

cmpℤ-trans : (a b c : ℤ) → cmpℤ a b ≡ Ordering.lt → cmpℤ b c ≡ Ordering.lt → cmpℤ a c ≡ Ordering.lt
cmpℤ-trans a b c h k = ground arith

pub stronger-total : (a b : QueueItem) → stronger_le a b ≡ false → stronger_le b a ≡ true
unfolding stronger
stronger-total a b h = ground (arith, cmpℤ-flip a.added_at b.added_at)

pub stronger_trans :
    (a b c : QueueItem) → stronger_le a b ≡ true → stronger_le b c ≡ true → stronger_le a c ≡ true
unfolding stronger
stronger_trans a b c h k = ground (
  arith,
  cmpℤ-trans a.added_at b.added_at c.added_at,
  cmpℤ-eq a.added_at b.added_at,
  cmpℤ-eq b.added_at c.added_at,
)
