-- ===== src/Queue/Rotation.antt =====
-- The rotation as its rounds: round `r` takes the `r`-th item of every lane that has one.
use mathlib.Core.List.{Perm, perm_append_comm, append_assoc, map-append}
use mathlib.Core.List.Perm
use blt.Base.{
  ℕ, zero, suc, ◌+◌, ◌≤◌, ◌<◌, min, ◌≡◌, ◌⊎◌, refl, sym, ap, Bool, true, false, List, [], ◌∷◌, ◌++◌,
  none, some, inl, inr, arith, length, get_elem?, drop, replicate, All, Option-cases,
}
use blt.Queue.{QueueItem, Lane, ids, round, rotate}

abbrev pub column : ℕ → List Lane → List QueueItem
column r [] = []
column r ((k, v) ∷ lanes) = elim (get_elem? v r) [
  | some it ↦ it ∷ column r lanes
  | none ↦ column r lanes
]

-- The items of `n` rounds, from round `r` on.
abbrev pub rounds : List Lane → ℕ → ℕ → List QueueItem
rounds lanes r zero = []
rounds lanes r (suc n) = column r lanes ++ rounds lanes (suc r) n

-- No lane is longer than `n`.
abbrev pub Within : ℕ → List Lane → Type 0
Within n lanes = All (λ lane. length lane.1 ≤ n) lanes

abbrev cursors : ℕ → List Lane → List ℕ
cursors r [] = []
cursors r ((k, v) ∷ lanes) = min r (length v) ∷ cursors r lanes

abbrev not_nil : List QueueItem → Bool
not_nil [] = false
not_nil (x ∷ xs) = true

get_elem?-min : (v : List QueueItem) (r : ℕ) → get_elem? v (min r (length v)) ≡ get_elem? v r
get_elem?-min [] r = refl
get_elem?-min (x ∷ v) zero = let e : min zero (suc (length v)) ≡ zero = omega arith in rw e
get_elem?-min (x ∷ v) (suc r) =
    let e : min (suc r) (suc (length v)) ≡ suc (min r (length v)) = omega arith in
    rw e (get_elem?-min v r)

pub get_elem?-some-lt :
    (v : List QueueItem) (r : ℕ) (x : QueueItem) → get_elem? v r ≡ some x → r < length v
get_elem?-some-lt [] r x h = absurd (cc)
get_elem?-some-lt (y ∷ v) zero x h = omega arith
get_elem?-some-lt (y ∷ v) (suc r) x h = omega (arith, get_elem?-some-lt v r x h)

pub get_elem?-none-le : (v : List QueueItem) (r : ℕ) → get_elem? v r ≡ none → length v ≤ r
get_elem?-none-le [] r h = omega arith
get_elem?-none-le (y ∷ v) zero h = absurd (cc)
get_elem?-none-le (y ∷ v) (suc r) h = omega (arith, get_elem?-none-le v r h)

pub get_elem?-out : (v : List QueueItem) (r : ℕ) → length v ≤ r → get_elem? v r ≡ none
get_elem?-out [] r h = refl
get_elem?-out (y ∷ v) zero h = absurd (omega arith)
get_elem?-out (y ∷ v) (suc r) h = get_elem?-out v r (omega arith)

round-column :
    (lanes : List Lane) (r : ℕ)
    → round lanes (cursors r lanes)
      ≡ (ids (column r lanes), cursors (suc r) lanes, not_nil (column r lanes))
unfolding round
round-column [] r = refl
round-column ((k, v) ∷ lanes) r = elim (Option-cases (get_elem? v r)) [
  | inl n ↦
      let stays : min (suc r) (length v) ≡ min r (length v) =
        omega (arith, get_elem?-none-le v r n) in
      ground (arith, get_elem?-min v r, round-column lanes r, n, stays)
  | inr (x, s) ↦
      let moves : min (suc r) (length v) ≡ min r (length v) + 1 =
        omega (arith, get_elem?-some-lt v r x s) in
      ground (arith, get_elem?-min v r, round-column lanes r, s, moves)
]

column-nil : (lanes : List Lane) (r : ℕ) → column r lanes ≡ [] → Within r lanes
column-nil [] r e = tt
column-nil ((k, v) ∷ lanes) r e = elim (Option-cases (get_elem? v r)) [
  | inl n ↦ (get_elem?-none-le v r n, column-nil lanes r (ground arith))
  | inr (x, s) ↦ absurd (ground arith)
]

nil-column : (lanes : List Lane) (r : ℕ) → Within r lanes → column r lanes ≡ []
nil-column [] r w = refl
nil-column ((k, v) ∷ lanes) r w = rw (get_elem?-out v r w.0, column) (nil-column lanes r w.1)

Within-mono : (lanes : List Lane) (m n : ℕ) → m ≤ n → Within m lanes → Within n lanes
Within-mono [] m n h w = tt
Within-mono (lane ∷ lanes) m n h w = (omega arith, Within-mono lanes m n h w.1)

rounds-nil : (lanes : List Lane) (r n : ℕ) → Within r lanes → rounds lanes r n ≡ []
rounds-nil lanes r zero w = refl
rounds-nil lanes r (suc n) w =
    rw (nil-column lanes r w)
      (rounds-nil lanes (suc r) n (Within-mono lanes r (suc r) (omega arith) w))

not_nil-cases : (l : List QueueItem) → (l ≡ []) ⊎ (not_nil l ≡ true)
not_nil-cases [] = inl refl
not_nil-cases (x ∷ l) = inr refl

-- The loop ends, and pushes the items round by round.
rotate-rounds :
    (lanes : List Lane) (fuel n r : ℕ)
    → Within (r + n) lanes
    → n < fuel
    → rotate fuel lanes (cursors r lanes) ≡ some (ids (rounds lanes r n))
unfolding rotate
rotate-rounds lanes zero n r w h = absurd (omega arith)
rotate-rounds lanes (suc fuel) zero r w h =
    let within : Within r lanes = Within-mono lanes (r + 0) r (omega arith) w in
    rw (round-column lanes r, rotate) (rw (nil-column lanes r within))
rotate-rounds lanes (suc fuel) (suc n) r w h =
    rw (round-column lanes r, rotate)
      (elim (not_nil-cases (column r lanes)) [
        | inl e ↦ rw e (
            ap (λ l. some (ids l))
              (sym (
                rounds-nil lanes (suc r) n
                  (Within-mono lanes r (suc r) (omega arith) (column-nil lanes r e)))))
        | inr e ↦
            let rest : rotate fuel lanes (cursors (suc r) lanes)
                ≡ some (ids (rounds lanes (suc r) n)) =
              rotate-rounds lanes fuel n (suc r) (Within-mono lanes _ _ (omega arith) w)
                (omega arith) in
            rw (e, rest, map-append)
      ])

cursors-zero : (lanes : List Lane) → replicate (length lanes) 0 ≡ cursors 0 lanes
cursors-zero [] = refl
cursors-zero ((k, v) ∷ lanes) =
    let e : min 0 (length v) ≡ 0 = omega arith in rw (e, cursors-zero lanes)

-- From the first round on, with fuel for as many rounds as the longest lane has items.
pub rotate-all :
    (lanes : List Lane) (n : ℕ)
    → Within n lanes
    → rotate (n + 1) lanes (replicate (length lanes) 0) ≡ some (ids (rounds lanes 0 n))
rotate-all lanes n w =
    rw (cursors-zero lanes)
      (rotate-rounds lanes (n + 1) n 0 (Within-mono lanes n (0 + n) (omega arith) w) (omega arith))

-- What is left of the lanes from round `r` on.
abbrev left : ℕ → List Lane → List QueueItem
left r [] = []
left r ((k, v) ∷ lanes) = drop r v ++ left r lanes

pub drop-some :
    (v : List QueueItem) (r : ℕ) (x : QueueItem)
    → get_elem? v r ≡ some x
    → drop r v ≡ x ∷ drop (suc r) v
drop-some [] r x h = absurd (cc)
drop-some (y ∷ v) zero x h = cc
drop-some (y ∷ v) (suc r) x h = drop-some v r x h

pub drop-none : (v : List QueueItem) (r : ℕ) → length v ≤ r → drop r v ≡ []
drop-none [] zero h = refl
drop-none [] (suc r) h = refl
drop-none (y ∷ v) zero h = absurd (omega arith)
drop-none (y ∷ v) (suc r) h = drop-none v r (omega arith)

-- `a ++ (b ++ c)` is a rearrangement of `b ++ (a ++ c)`.
pub perm_swap_blocks {ℓ} : {A : Type ℓ} (a b c : List A) → Perm (a ++ (b ++ c)) (b ++ (a ++ c))
perm_swap_blocks a b c =
    rw (← append_assoc a b c, ← append_assoc b a c) (Perm.append_right c (perm_append_comm a b))

column-left :
    (lanes : List Lane) (r : ℕ) → Perm (column r lanes ++ left (suc r) lanes) (left r lanes)
column-left [] r = Perm.rfl
column-left ((k, v) ∷ lanes) r = elim (Option-cases (get_elem? v r)) [
  | inl n ↦
      let out = get_elem?-none-le v r n in
      rw (n, column, drop-none v r out, drop-none v (suc r) (omega arith)) (column-left lanes r)
  | inr (x, s) ↦
      rw (s, column, drop-some v r x s)
        (Perm.cons x (
          Perm.trans (perm_swap_blocks (column r lanes) (drop (suc r) v) (left (suc r) lanes))
            (Perm.append_left (drop (suc r) v) (column-left lanes r))))
]

left-nil : (lanes : List Lane) (r : ℕ) → Within r lanes → left r lanes ≡ []
left-nil [] r w = refl
left-nil ((k, v) ∷ lanes) r w = rw (drop-none v r w.0) (left-nil lanes r w.1)

rounds-left :
    (lanes : List Lane) (n r : ℕ) → Within (r + n) lanes → Perm (rounds lanes r n) (left r lanes)
rounds-left lanes zero r w =
    rw (left-nil lanes r (Within-mono lanes (r + 0) r (omega arith) w)) Perm.rfl
rounds-left lanes (suc n) r w =
    Perm.trans
      (Perm.append_left (column r lanes)
        (rounds-left lanes n (suc r) (Within-mono lanes _ _ (omega arith) w)))
      (column-left lanes r)

-- The items of all lanes.
abbrev pub contents : List Lane → List QueueItem
contents [] = []
contents ((k, v) ∷ lanes) = v ++ contents lanes

left-zero : (lanes : List Lane) → left 0 lanes ≡ contents lanes
left-zero [] = refl
left-zero ((k, v) ∷ lanes) = ap (λ l. v ++ l) (left-zero lanes)

-- The rounds hold the items of the lanes, each once.
pub rounds-perm :
    (lanes : List Lane) (n : ℕ) → Within n lanes → Perm (rounds lanes 0 n) (contents lanes)
rounds-perm lanes n w =
    rw left-zero at (rounds-left lanes n 0 (Within-mono lanes n (0 + n) (omega arith) w))
