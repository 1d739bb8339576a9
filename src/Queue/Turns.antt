-- ===== src/Queue/Turns.antt =====
-- The items of one contributor in the rounds: one in each round, in the order of its lane.
use blt.Base.{
  ℕ, zero, suc, ◌+◌, ◌≤◌, ◌≡◌, refl, sym, ap, true, false, List, [], ◌∷◌, ◌++◌, none, some, inl,
  inr, arith, length, All, Bool-cases, Option-cases, get_elem?, drop,
}
use blt.Base.Text.{Text, ◌=t◌, =t_iff}
use blt.Queue.{QueueItem, Lane}
use blt.Queue.Rotation.{column, rounds, Within, get_elem?-none-le, drop-some, drop-none}
use blt.Queue.Lanes.{filter_by, lane_of, OwnedBy, IsOwned, Fresh, Distinct}

pub filter_by-append :
    (c : Text) (xs ys : List QueueItem) → filter_by c (xs ++ ys) ≡ filter_by c xs ++ filter_by c ys
filter_by-append c [] ys = refl
filter_by-append c (x ∷ xs) ys = elim (Bool-cases (x.contributor =t c)) [
  | inl h ↦ rw h (ap (◌∷◌ x) (filter_by-append c xs ys))
  | inr h ↦ rw h (filter_by-append c xs ys)
]

owner-at :
    (k : Text) (v : List QueueItem) (r : ℕ) (x : QueueItem)
    → OwnedBy k v
    → get_elem? v r ≡ some x
    → x.contributor ≡ k
owner-at k [] r x o h = absurd (cc)
owner-at k (y ∷ v) zero x o h = cc (o.0)
owner-at k (y ∷ v) (suc r) x o h = owner-at k v r x o.1 h

-- The turn of a contributor with these items in round `r`.
abbrev pub turn : List QueueItem → ℕ → List QueueItem
turn v r = elim (get_elem? v r) [ some x ↦ x ∷ [] | none ↦ [] ]

column-Fresh :
    (c : Text) (r : ℕ) (lanes : List Lane)
    → All IsOwned lanes
    → Fresh c lanes
    → filter_by c (column r lanes) ≡ []
column-Fresh c r [] o f = refl
column-Fresh c r ((k, v) ∷ lanes) o f = elim (Option-cases (get_elem? v r)) [
  | inl n ↦ rw (n, column) (column-Fresh c r lanes o.1 f.1)
  | inr (x, s) ↦
      let other : (x.contributor =t c) ≡ false = rw (owner-at k v r x o.0.0 s) f.0 in
      rw (s, column) (rw other (column-Fresh c r lanes o.1 f.1))
]

pub column-turn :
    (c : Text) (r : ℕ) (lanes : List Lane)
    → All IsOwned lanes
    → Distinct lanes
    → filter_by c (column r lanes) ≡ turn (lane_of c lanes) r
column-turn c r [] o d = refl
column-turn c r ((k, v) ∷ lanes) o d = elim (Bool-cases (k =t c)) [
  | inl mine ↦
      let fresh : Fresh c lanes = rw ((=t_iff k c).0 mine) at d.0 in
      let rest = column-Fresh c r lanes o.1 fresh in
      elim (Option-cases (get_elem? v r)) [
        | inl n ↦ rw (n, column, mine) (rw (n, turn) rest)
        | inr (x, s) ↦
            let own : (x.contributor =t c) ≡ true = rw (owner-at k v r x o.0.0 s) mine in
            rw (s, column, mine) (rw (s, turn) (rw own (ap (◌∷◌ x) rest)))
      ]
  | inr other ↦
      let rest = column-turn c r lanes o.1 d.1 in
      elim (Option-cases (get_elem? v r)) [
        | inl n ↦ rw (n, column, other) rest
        | inr (x, s) ↦
            let not_own : (x.contributor =t c) ≡ false = rw (owner-at k v r x o.0.0 s) other in
            rw (s, column, other) (rw not_own rest)
      ]
]

turn-drop : (v : List QueueItem) (r : ℕ) → turn v r ++ drop (suc r) v ≡ drop r v
turn-drop v r = elim (Option-cases (get_elem? v r)) [
  | inl n ↦
      let out = get_elem?-none-le v r n in
      rw (n, turn, drop-none v r out, drop-none v (suc r) (omega arith))
  | inr (x, s) ↦ rw (s, turn, drop-some v r x s)
]

lane_of-Within :
    (c : Text) (n : ℕ) (lanes : List Lane) → Within n lanes → length (lane_of c lanes) ≤ n
lane_of-Within c n [] w = omega arith
lane_of-Within c n ((k, v) ∷ lanes) w = elim (Bool-cases (k =t c)) [
  | inl h ↦ rw h w.0
  | inr h ↦ rw h (lane_of-Within c n lanes w.1)
]

-- The items of one contributor come in the order of its lane.
pub rounds-drop :
    (c : Text) (lanes : List Lane) (n r : ℕ)
    → All IsOwned lanes
    → Distinct lanes
    → Within (r + n) lanes
    → filter_by c (rounds lanes r n) ≡ drop r (lane_of c lanes)
rounds-drop c lanes zero r o d w =
    sym (drop-none (lane_of c lanes) r (omega (arith, lane_of-Within c (r + 0) lanes w)))
rounds-drop c lanes (suc n) r o d w =
    let shift : r + suc n ≡ suc r + n = omega arith in
    let ih = rounds-drop c lanes n (suc r) o d (rw shift at w) in
    rw (filter_by-append c (column r lanes) (rounds lanes (suc r) n), column-turn c r lanes o d, ih)
      (turn-drop (lane_of c lanes) r)
