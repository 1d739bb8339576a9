-- ===== src/Queue.antt =====
-- crates/core/src/jukebox.rs: the two orders of the up-next queue.
pub mod Strength
pub mod Rotation
pub mod Lanes
pub mod Sorted
pub mod Turns
pub mod Fairness
mod Examples
use mathlib.Core.Option
use Prim.Native.Nat.{compare, Ordering}
use blt.Base.{
  ℕ, zero, suc, ◌+◌, Bool, true, false, Option, none, some, List, [], ◌∷◌, ◌++◌, map, ltb, length,
  if◌then◌else◌, replicate, get_elem?,
}
use blt.Base.Int.{ℤ, cmpℤ}
use blt.Base.Sort.{sort}
use blt.Base.Text.{Text, text, ◌=t◌, text_le}

pub record QueueItem : Type 0 where
  pub id : ℕ  -- u64
  pub contributor : Text
  pub votes : ℕ  -- u32
  pub added_at : ℤ

pub data OrderMode : Type 0 where
  fair votes : OrderMode

unfoldable pub as_str : OrderMode → Text
as_str fair = text "fair"
as_str votes = text "votes"

unfoldable pub from_str_lossy : Text → OrderMode
from_str_lossy s = if s =t text "votes" then votes else fair

-- `Ordering::then`
abbrev pub then_cmp : Ordering → Ordering → Ordering
then_cmp Ordering.eq other = other
then_cmp Ordering.lt other = Ordering.lt
then_cmp Ordering.gt other = Ordering.gt

-- What a stable `sort_by` asks of its comparison.
abbrev pub not_greater : Ordering → Bool
not_greater Ordering.gt = false
not_greater Ordering.lt = true
not_greater Ordering.eq = true

unfoldable pub stronger : QueueItem → QueueItem → Ordering
stronger a b =
    then_cmp (compare b.votes a.votes) (then_cmp (cmpℤ a.added_at b.added_at) (compare a.id b.id))

abbrev pub stronger_le : QueueItem → QueueItem → Bool
stronger_le a b = not_greater (stronger a b)

abbrev pub ids : List QueueItem → List ℕ
ids = map (λ i. i.id)

unfoldable pub vote_ranked : List QueueItem → List ℕ
unfolding stronger
vote_ranked items = ids (sort stronger_le items)

-- A group of items with their contributor.
abbrev pub Lane : Type 0
Lane = Text × List QueueItem

-- `groups.entry(contributor).or_default().push(it)`. The order of the groups is that of first
-- insertion; the source's map has none, and the lanes are sorted below.
unfoldable pub group_push : List Lane → QueueItem → List Lane
group_push [] it = (it.contributor, it ∷ []) ∷ []
group_push ((k, v) ∷ groups) it =
    if k =t it.contributor then (k, v ++ it ∷ []) ∷ groups else (k, v) ∷ group_push groups it

unfoldable pub group_by : List Lane → List QueueItem → List Lane
unfolding group_push
group_by groups [] = groups
group_by groups (it ∷ items) = group_by (group_push groups it) items

unfoldable pub sort_groups : List Lane → List Lane
sort_groups [] = []
sort_groups ((k, v) ∷ groups) = (k, sort stronger_le v) ∷ sort_groups groups

abbrev cmp_text : Text → Text → Ordering
cmp_text a b = if a =t b then Ordering.eq else if text_le a b then Ordering.lt else Ordering.gt

-- `stronger(va[0], vb[0]).then(ka.cmp(kb))`. No group is empty, so the first two clauses, where the
-- source would panic, are never reached.
unfoldable pub lane_cmp : Lane → Lane → Ordering
lane_cmp (ka, []) lane = Ordering.eq
lane_cmp (ka, a ∷ va) (kb, []) = Ordering.eq
lane_cmp (ka, a ∷ va) (kb, b ∷ vb) = then_cmp (stronger a b) (cmp_text ka kb)

unfoldable pub lanes_of : List QueueItem → List Lane
unfolding group_by sort_groups lane_cmp stronger
lanes_of items = sort (λ a b. not_greater (lane_cmp a b)) (sort_groups (group_by [] items))

-- One pass of the `for` loop over the lanes and their cursors: the ids that it pushes, the new
-- cursors, and `took_any`.
unfoldable pub round : List Lane → List ℕ → List ℕ × List ℕ × Bool
round ((k, v) ∷ lanes) (c ∷ cursor) =
    let (out, cursor', took_any) = round lanes cursor in
    elim (get_elem? v c) [
      | some it ↦ (it.id ∷ out, (c + 1) ∷ cursor', true)
      | none ↦ (out, c ∷ cursor', took_any)
    ]
round [] cursor = ([], [], false)
round (lane ∷ lanes) [] = ([], [], false)

-- The outer `loop`, on fuel: `none` means that the fuel ran out.
unfoldable pub rotate : ℕ → List Lane → List ℕ → Option (List ℕ)
unfolding round
rotate zero lanes cursor = none
rotate (suc fuel) lanes cursor =
    let (out, cursor', took_any) = round lanes cursor in
    let rest = rotate fuel lanes cursor' in
    if took_any then Option.map (λ more. out ++ more) rest else some out

-- Every round but the last takes an item.
unfoldable pub fair_rotation : List QueueItem → Option (List ℕ)
unfolding rotate lanes_of
fair_rotation items =
    let lanes = lanes_of items in rotate (length items + 1) lanes (replicate (length lanes) 0)

unfoldable pub order_up_next : List QueueItem → OrderMode → Option (List ℕ)
unfolding vote_ranked fair_rotation
order_up_next items votes = some (vote_ranked items)
order_up_next items fair = fair_rotation items
