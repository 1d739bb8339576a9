-- ===== src/Queue/Fairness.antt =====
-- Both orders play every item once; the rotation lets no contributor get ahead.
use mathlib.Core.List.{Perm}
use mathlib.Core.List.Perm
use blt.Base.{
  ℕ, zero, suc, ◌+◌, ◌-◌, ◌≤◌, ◌≡◌, ◌⊎◌, refl, sym, ap, ◌∙◌, List, [], ◌∷◌, ◌++◌, some, inl, inr,
  arith, length, All, Option-cases, get_elem?, take, length-append, dec_lt,
}
use blt.Base.Sort.{sort, sort-perm, perm-length, IsSorted, sort-IsSorted}
use blt.Base.Text.{Text}
use blt.Queue.{
  QueueItem, OrderMode, Lane, ids, stronger_le, lanes_of, order_up_next, vote_ranked, fair_rotation,
}
use blt.Queue.Strength.{stronger-total, stronger_trans}
use blt.Queue.Rotation.{
  column, rounds, Within, contents, rotate-all, rounds-perm, get_elem?-out, get_elem?-none-le,
}
use blt.Queue.Lanes.{filter_by, lane_of, IsOwned, Distinct}
use blt.Queue.Turns.{filter_by-append, turn, column-turn, rounds-drop}
use blt.Queue.Sorted.{lanes_of-IsLanes}

-- How many items of the contributor stand in the list.
abbrev pub count_by : Text → List QueueItem → ℕ
count_by c l = length (filter_by c l)

-- At every point of the order, nobody has had more than one item more than anybody who still has
-- items to come.
abbrev pub IsFair : List QueueItem → Type 0
IsFair l =
    (a b : Text) (n : ℕ)
    → (count_by a (take n l) ≤ count_by b (take n l) + 1) ⊎ (count_by b (take n l) ≡ count_by b l)

-- A prefix of `xs ++ ys` is a prefix of `xs`, or `xs` and a prefix of `ys`.
take-append :
    (n : ℕ) (xs ys : List QueueItem)
    → ((take n (xs ++ ys) ≡ take n xs) × (n ≤ length xs))
      ⊎ (take n (xs ++ ys) ≡ xs ++ take (n - length xs) ys)
take-append zero xs ys = inl (refl, omega arith)
take-append (suc n) [] ys = let e : suc n ≡ suc n - 0 = omega arith in inr (ap (λ m. take m ys) e)
take-append (suc n) (x ∷ xs) ys = elim (take-append n xs ys) [
  | inl (e, h) ↦ inl (ap (◌∷◌ x) e, omega arith)
  | inr e ↦ inr (ap (◌∷◌ x) (e ∙ ap (λ m. xs ++ take m ys) (omega arith)))
]

count_by-append :
    (c : Text) (xs ys : List QueueItem) → count_by c (xs ++ ys) ≡ count_by c xs + count_by c ys
count_by-append c xs ys =
    ap length (filter_by-append c xs ys) ∙ length-append (filter_by c xs) (filter_by c ys)

count_by-take : (c : Text) (n : ℕ) (l : List QueueItem) → count_by c (take n l) ≤ count_by c l
count_by-take c zero l = omega arith
count_by-take c (suc n) [] = omega arith
count_by-take c (suc n) (x ∷ l) = ground (arith, count_by-take c n l)

turn-le-one : (v : List QueueItem) (r : ℕ) → length (turn v r) ≤ 1
turn-le-one v r = ground arith

turn-none-later : (v : List QueueItem) (r : ℕ) → length (turn v r) ≡ 0 → turn v (suc r) ≡ []
turn-none-later v r h = elim (Option-cases (get_elem? v r)) [
  | inl n ↦ rw (get_elem?-out v (suc r) (omega (arith, get_elem?-none-le v r n)), turn)
  | inr (x, s) ↦ absurd (ground arith)
]

module _ (lanes : List Lane) (o : All IsOwned lanes) (d : Distinct lanes) where
  count-column :
      (c : Text) (r : ℕ) → count_by c (column r lanes) ≡ length (turn (lane_of c lanes) r)
  count-column c r = ap length (column-turn c r lanes o d)

  none-later :
      (c : Text) (n r : ℕ)
      → count_by c (column r lanes) ≡ 0
      → count_by c (rounds lanes (suc r) n) ≡ 0
  none-later c zero r h = refl
  none-later c (suc n) r h =
      let next : count_by c (column (suc r) lanes) ≡ 0 =
        count-column c (suc r)
        ∙ ap length (turn-none-later (lane_of c lanes) r (sym (count-column c r) ∙ h)) in
      omega (
        arith,
        next,
        none-later c n (suc r) next,
        count_by-append c (column (suc r) lanes) (rounds lanes (suc (suc r)) n),
      )

  rounds-IsFair : (n r : ℕ) → IsFair (rounds lanes r n)
  rounds-IsFair zero r a b zero = inl (omega arith)
  rounds-IsFair zero r a b (suc m) = inl (omega arith)
  rounds-IsFair (suc n) r a b m =
      let now = column r lanes in
      let later = rounds lanes (suc r) n in
      let once = λ (c : Text). turn-le-one (lane_of c lanes) r in
      elim (take-append m now later) [
        | inl (e, _) ↦ rw e (inl (omega (arith, count_by-take a m now, count-column a r, once a)))
        | inr e ↦
            let rest = take (m - length now) later in
            rw e (
              after a b now later rest (omega (arith, count-column a r, once a)) (none-later b n r)
                (count_by-take b (m - length now) later)
                (rounds-IsFair n (suc r) a b (m - length now)))
      ]
    where
      -- A whole round, in which `a` has at most one turn, and a part of those that follow.
      after :
          (a b : Text) (now later rest : List QueueItem)
          → count_by a now ≤ 1
          → (count_by b now ≡ 0 → count_by b later ≡ 0)
          → count_by b rest ≤ count_by b later
          → (count_by a rest ≤ count_by b rest + 1) ⊎ (count_by b rest ≡ count_by b later)
          → (count_by a (now ++ rest) ≤ count_by b (now ++ rest) + 1)
            ⊎ (count_by b (now ++ rest) ≡ count_by b (now ++ later))
      after a b now later rest one gone le ih =
          let e = count_by-append a now rest in
          let f = count_by-append b now rest in
          let g = count_by-append b now later in
          elim (dec_lt 0 (count_by b now)) [
            | yes p ↦ elim ih [ inl h ↦ inl (omega arith) | inr h ↦ inr (omega arith) ]
            | no p ↦ inr (omega (arith, gone (omega arith)))
          ]

contents-Within : (lanes : List Lane) (n : ℕ) → length (contents lanes) ≤ n → Within n lanes
contents-Within [] n h = tt
contents-Within ((k, v) ∷ lanes) n h = (
  omega (arith, length-append v (contents lanes)),
  contents-Within lanes n (omega (arith, length-append v (contents lanes))),
)

-- The fair order of the items plays every item once, each contributor's items strongest first, and
-- at every point of it nobody has had more than one item more than anybody who still has items to
-- come; the rotation ends.
pub order_up_next-fair :
    (items : List QueueItem)
    → (l : List QueueItem) × (order_up_next items OrderMode.fair ≡ some (ids l))
      × Perm l items
      × ((c : Text) → filter_by c l ≡ sort stronger_le (filter_by c items))
      × IsFair l
unfolding order_up_next fair_rotation
order_up_next-fair items =
    let lanes = lanes_of items in
    let w = lanes_of-IsLanes items in
    let within : Within (length items) lanes =
      contents-Within lanes (length items) (omega (arith, perm-length w.holds)) in
    let within' : Within (0 + length items) lanes =
      contents-Within lanes (0 + length items) (omega (arith, perm-length w.holds)) in
    (
      rounds lanes 0 (length items),
      rotate-all lanes (length items) within,
      Perm.trans (rounds-perm lanes (length items) within) w.holds,
      λ c. rounds-drop c lanes (length items) 0 w.owned w.distinct within' ∙ w.lane c,
      rounds-IsFair lanes w.owned w.distinct (length items) 0,
    )

-- The vote order plays every item once, strongest first.
pub order_up_next-votes :
    (items : List QueueItem)
    → (l : List QueueItem) × (order_up_next items OrderMode.votes ≡ some (ids l))
      × Perm l items
      × IsSorted stronger_le l
unfolding order_up_next vote_ranked
order_up_next-votes items = (
  sort stronger_le items,
  refl,
  sort-perm stronger_le items,
  sort-IsSorted stronger_le stronger-total stronger_trans items,
)
