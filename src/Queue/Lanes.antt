-- ===== src/Queue/Lanes.antt =====
-- The lanes: one for each contributor, with all of the contributor's items, strongest first.
use mathlib.Core.List.{Perm, append_assoc, append-nil, perm_middle}
use mathlib.Core.List.Perm
use blt.Base.{
  ◌<◌, ◌≡◌, refl, sym, false, List, [], ◌∷◌, ◌++◌, inl, inr, arith, length, All, All-append,
  if◌then◌else◌, Bool-cases, length-append,
}
use blt.Base.Sort.{sort}
use blt.Base.Text.{Text, ◌=t◌, =t_iff}
use blt.Queue.{QueueItem, Lane, stronger_le, group_push, group_by}
use blt.Queue.Rotation.{contents}

-- The items of one contributor, in order.
abbrev pub filter_by : Text → List QueueItem → List QueueItem
filter_by c [] = []
filter_by c (x ∷ xs) = if x.contributor =t c then x ∷ filter_by c xs else filter_by c xs

-- The lane of a contributor.
abbrev pub lane_of : Text → List Lane → List QueueItem
lane_of c [] = []
lane_of c ((k, v) ∷ lanes) = if k =t c then v else lane_of c lanes

abbrev pub OwnedBy : Text → List QueueItem → Type 0
OwnedBy k v = All (λ x. x.contributor ≡ k) v

-- Every lane holds items of its own contributor only, and at least one.
abbrev pub IsOwned : Lane → Type 0
IsOwned (k, v) = OwnedBy k v × (0 < length v)

abbrev pub Fresh : Text → List Lane → Type 0
Fresh c lanes = All (λ lane. (lane.0 =t c) ≡ false) lanes

abbrev pub Distinct : List Lane → Type 0
Distinct [] = Unit
Distinct ((k, v) ∷ lanes) = Fresh k lanes × Distinct lanes

pub =t-flip : (a b : Text) → (a =t b) ≡ false → (b =t a) ≡ false
=t-flip a b h = ground (arith, =t_iff a b, =t_iff b a)

-- One item more.
push-IsOwned :
    (groups : List Lane) (it : QueueItem) → All IsOwned groups → All IsOwned (group_push groups it)
unfolding group_push
push-IsOwned [] it o = (((refl, tt), omega arith), tt)
push-IsOwned ((k, v) ∷ groups) it o = elim (Bool-cases (k =t it.contributor)) [
  | inl h ↦
      let e : k ≡ it.contributor = (=t_iff _ _).0 h in
      rw h (
        (
          All-append (λ x. x.contributor ≡ k) v (it ∷ []) o.0.0 (sym e, tt),
          omega (arith, length-append v (it ∷ [])),
        ),
        o.1,
      )
  | inr h ↦ rw h (o.0, push-IsOwned groups it o.1)
]

push-Fresh :
    (groups : List Lane) (it : QueueItem) (c : Text)
    → (it.contributor =t c) ≡ false
    → Fresh c groups
    → Fresh c (group_push groups it)
unfolding group_push
push-Fresh [] it c h f = (h, tt)
push-Fresh ((k, v) ∷ groups) it c h f = elim (Bool-cases (k =t it.contributor)) [
  | inl q ↦ rw q f
  | inr q ↦ rw q (f.0, push-Fresh groups it c h f.1)
]

push-Distinct :
    (groups : List Lane) (it : QueueItem) → Distinct groups → Distinct (group_push groups it)
unfolding group_push
push-Distinct [] it d = (tt, tt)
push-Distinct ((k, v) ∷ groups) it d = elim (Bool-cases (k =t it.contributor)) [
  | inl q ↦ rw q d
  | inr q ↦ rw q (push-Fresh groups it k (=t-flip _ _ q) d.0, push-Distinct groups it d.1)
]

push-lane_of :
    (groups : List Lane) (it : QueueItem) (c : Text)
    → lane_of c (group_push groups it)
      ≡ (if it.contributor =t c then lane_of c groups ++ it ∷ [] else lane_of c groups)
unfolding group_push
push-lane_of [] it c = ground arith
push-lane_of ((k, v) ∷ groups) it c =
    ground (
      arith,
      push-lane_of groups it c,
      =t_iff k it.contributor,
      =t_iff k c,
      =t_iff it.contributor c,
    )

push-perm :
    (groups : List Lane) (it : QueueItem)
    → Perm (contents (group_push groups it)) (it ∷ contents groups)
unfolding group_push
push-perm [] it = Perm.rfl
push-perm ((k, v) ∷ groups) it = elim (Bool-cases (k =t it.contributor)) [
  | inl q ↦ rw q (rw (append_assoc v (it ∷ []) (contents groups)) (perm_middle v (contents groups)))
  | inr q ↦
      rw q (Perm.trans (Perm.append_left v (push-perm groups it)) (perm_middle v (contents groups)))
]

-- What the lanes are, for the items that were pushed.
pub record IsLanes (items : List QueueItem) (lanes : List Lane) : Type 0 where
  pub owned : All IsOwned lanes
  pub distinct : Distinct lanes
  pub lane : (c : Text) → lane_of c lanes ≡ sort stronger_le (filter_by c items)
  pub holds : Perm (contents lanes) items

pub group_by-kept :
    (groups : List Lane) (items : List QueueItem)
    → All IsOwned groups
    → Distinct groups
    → All IsOwned (group_by groups items) × Distinct (group_by groups items)
unfolding group_by
group_by-kept groups [] o d = (o, d)
group_by-kept groups (it ∷ items) o d =
    group_by-kept (group_push groups it) items (push-IsOwned groups it o)
      (push-Distinct groups it d)

pub group_by-lane_of :
    (groups : List Lane) (items : List QueueItem) (c : Text)
    → lane_of c (group_by groups items) ≡ lane_of c groups ++ filter_by c items
unfolding group_by
group_by-lane_of groups [] c = sym (append-nil (lane_of c groups))
group_by-lane_of groups (it ∷ items) c =
    rw (group_by-lane_of (group_push groups it) items c, push-lane_of groups it c)
      (elim (Bool-cases (it.contributor =t c)) [
        | inl q ↦ rw q (append_assoc (lane_of c groups) (it ∷ []) (filter_by c items))
        | inr q ↦ rw q
      ])

pub group_by-perm :
    (groups : List Lane) (items : List QueueItem)
    → Perm (contents (group_by groups items)) (items ++ contents groups)
unfolding group_by
group_by-perm groups [] = Perm.rfl
group_by-perm groups (it ∷ items) = Perm.trans (group_by-perm (group_push groups it) items) (
    Perm.trans (Perm.append_left items (push-perm groups it)) (perm_middle items (contents groups)))
