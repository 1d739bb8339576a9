-- ===== src/Queue/Sorted.antt =====
-- Sorting the groups and the lanes: `lanes_of` has one lane for each contributor.
use mathlib.Core.List.{Perm, append-nil}
use mathlib.Core.List.Perm
use blt.Base.{
  ◌≡◌, refl, ap, ◌∙◌, Bool, false, List, [], ◌∷◌, ◌++◌, inl, inr, arith, All, if◌then◌else◌,
  Bool-cases,
}
use blt.Base.Sort.{sort, insert, sort-perm, sort-length, insert-All, sort-All}
use blt.Base.Text.{Text, ◌=t◌, =t_iff}
use blt.Queue.{QueueItem, Lane, stronger_le, group_by, sort_groups, lane_cmp, lanes_of, not_greater}
use blt.Queue.Rotation.{contents, perm_swap_blocks}
use blt.Queue.Lanes.{
  lane_of, IsOwned, Fresh, Distinct, =t-flip, IsLanes, group_by-kept, group_by-lane_of,
  group_by-perm,
}

-- Sorting each group.
groups-IsOwned : (groups : List Lane) → All IsOwned groups → All IsOwned (sort_groups groups)
unfolding sort_groups
groups-IsOwned [] o = tt
groups-IsOwned ((k, v) ∷ groups) o = (
  (sort-All stronger_le (λ x. x.contributor ≡ k) v o.0.0, rw (sort-length stronger_le v) o.0.1),
  groups-IsOwned groups o.1,
)

groups-Fresh : (groups : List Lane) (c : Text) → Fresh c groups → Fresh c (sort_groups groups)
unfolding sort_groups
groups-Fresh [] c f = tt
groups-Fresh ((k, v) ∷ groups) c f = (f.0, groups-Fresh groups c f.1)

groups-Distinct : (groups : List Lane) → Distinct groups → Distinct (sort_groups groups)
unfolding sort_groups
groups-Distinct [] d = tt
groups-Distinct ((k, v) ∷ groups) d = (groups-Fresh groups k d.0, groups-Distinct groups d.1)

groups-lane_of :
    (groups : List Lane) (c : Text)
    → lane_of c (sort_groups groups) ≡ sort stronger_le (lane_of c groups)
unfolding sort_groups sort
groups-lane_of [] c = refl
groups-lane_of ((k, v) ∷ groups) c = elim (Bool-cases (k =t c)) [
  | inl q ↦ rw q
  | inr q ↦ rw q (groups-lane_of groups c)
]

groups-perm : (groups : List Lane) → Perm (contents (sort_groups groups)) (contents groups)
unfolding sort_groups
groups-perm [] = Perm.rfl
groups-perm ((k, v) ∷ groups) = Perm.append (sort-perm stronger_le v) (groups-perm groups)

-- Sorting the lanes, by any comparison.
module _ (le : Lane → Lane → Bool) where
  insert-Distinct :
      (k : Text) (v : List QueueItem) (lanes : List Lane)
      → Fresh k lanes
      → Distinct lanes
      → Distinct (insert le (k, v) lanes)
  unfolding insert
  insert-Distinct k v [] f d = (tt, tt)
  insert-Distinct k v ((j, w) ∷ lanes) f d = elim (Bool-cases (le (k, v) (j, w))) [
    | inl q ↦ rw q (f, d)
    | inr q ↦ rw q (
      insert-All le (λ lane. (lane.0 =t j) ≡ false) (k, v) lanes (=t-flip j k f.0) d.0,
      insert-Distinct k v lanes f.1 d.1,
    )
  ]

  insert-lane_of :
      (k : Text) (v : List QueueItem) (lanes : List Lane) (c : Text)
      → Fresh k lanes
      → lane_of c (insert le (k, v) lanes) ≡ lane_of c ((k, v) ∷ lanes)
  unfolding insert
  insert-lane_of k v [] c f = refl
  insert-lane_of k v ((j, w) ∷ lanes) c f = elim (Bool-cases (le (k, v) (j, w))) [
    | inl q ↦ rw q
    | inr q ↦
        rw q (ground (arith, insert-lane_of k v lanes c f.1, =t_iff j c, =t_iff k c, =t_iff j k))
  ]

  insert-perm :
      (k : Text) (v : List QueueItem) (lanes : List Lane)
      → Perm (contents (insert le (k, v) lanes)) (v ++ contents lanes)
  unfolding insert
  insert-perm k v [] = Perm.rfl
  insert-perm k v ((j, w) ∷ lanes) = elim (Bool-cases (le (k, v) (j, w))) [
    | inl q ↦ rw q Perm.rfl
    | inr q ↦ rw q (
        Perm.trans (Perm.append_left w (insert-perm k v lanes))
          (perm_swap_blocks w v (contents lanes)))
  ]

  sort-Distinct : (lanes : List Lane) → Distinct lanes → Distinct (sort le lanes)
  unfolding sort
  sort-Distinct [] d = tt
  sort-Distinct ((k, v) ∷ lanes) d =
      insert-Distinct k v (sort le lanes) (sort-All le (λ lane. (lane.0 =t k) ≡ false) lanes d.0)
        (sort-Distinct lanes d.1)

  sort-lane_of :
      (lanes : List Lane) (c : Text) → Distinct lanes → lane_of c (sort le lanes) ≡ lane_of c lanes
  unfolding sort
  sort-lane_of [] c d = refl
  sort-lane_of ((k, v) ∷ lanes) c d =
      insert-lane_of k v (sort le lanes) c (sort-All le (λ lane. (lane.0 =t k) ≡ false) lanes d.0)
      ∙ ap (λ l. if k =t c then v else l) (sort-lane_of lanes c d.1)

  sort-contents : (lanes : List Lane) → Perm (contents (sort le lanes)) (contents lanes)
  unfolding sort
  sort-contents [] = Perm.rfl
  sort-contents ((k, v) ∷ lanes) =
      Perm.trans (insert-perm k v (sort le lanes)) (Perm.append_left v (sort-contents lanes))

-- The lanes of the rotation hold the items, each once; the lane of a contributor has the
-- contributor's items, strongest first; no lane is empty, and no two have one contributor.
pub lanes_of-IsLanes : (items : List QueueItem) → IsLanes items (lanes_of items)
unfolding lanes_of
lanes_of-IsLanes items =
    let le = λ (a b : Lane). not_greater (lane_cmp a b) in
    let groups = group_by [] items in
    let (o, d) = group_by-kept [] items tt tt in
    let d' = groups-Distinct groups d in
    record {
      owned = sort-All le IsOwned (sort_groups groups) (groups-IsOwned groups o);
      distinct = sort-Distinct le (sort_groups groups) d';
      lane = λ c.
          sort-lane_of le (sort_groups groups) c d'
          ∙ groups-lane_of groups c
          ∙ ap (sort stronger_le) (group_by-lane_of [] items c);
      holds =
          Perm.trans (sort-contents le (sort_groups groups))
            (Perm.trans (groups-perm groups) (rw append-nil at (group_by-perm [] items)));
    }
