-- ===== src/Jukebox/Top.antt =====
-- The head of up-next: what the admin moves there, and what playback resumes with.
use mathlib.Core.Option
use mathlib.Core.Path.{subst}
use mathlib.Core.List.{Memᴰ}
use blt.Base.{
  ℕ, ◌≡◌, ◌⊎◌, refl, sym, ap, ◌∙◌, true, false, Option, none, some, List, [], ◌∷◌, ◌++◌, inl, inr,
  arith, ◌==◌, ==_iff, All, Bool-cases, if◌then◌else◌, Option-cases, map, All-map,
}
use blt.Base.Int.{ℤ, leℤ, eqℤ, leℤ_trans, leℤ_total, leℤ-self, pred-below, pred}
use blt.Base.Sort.{sort-first}
use blt.Queue.{ids}
use blt.Jukebox.{
  Item, Db, Jukebox, is_queued, find_item, update_item, playback_of, overridden, unranked,
  vote_counts, pair_le, up_next_order, item_type_of, finish_current, promote, advance,
  requeue_now_playing, move_to_top, min_override, top_rank, stopped, queued,
}
use blt.Jukebox.Rows.{find_item-update}
use blt.Jukebox.Order.{order_up_next-perm}
use blt.Jukebox.Reach.{Reachable}
use blt.Jukebox.Steps.{item_type_of-found, Reachable-IsConsistent}

-- The minimum is not above the rank of the pair; there is no pair if there is no minimum.
abbrev AtLeast : Option ℤ → ℤ × ℕ → Type 0
AtLeast none p = ⊥
AtLeast (some least) p = leℤ least p.0 ≡ true

-- The minimum with one more rank.
abbrev lower : ℤ → Option ℤ → ℤ
lower rank none = rank
lower rank (some least) = if leℤ rank least then rank else least

lower-AtLeast :
    (rank : ℤ) (low : Option ℤ) (l : List (ℤ × ℕ))
    → All (AtLeast low) l
    → (leℤ (lower rank low) rank ≡ true) × All (AtLeast (some (lower rank low))) l
lower-AtLeast rank none l h =
    (leℤ-self rank, All-map (AtLeast none) (AtLeast (some rank)) l (λ p k. elim k [ ]) h)
lower-AtLeast rank (some least) l h = elim (Bool-cases (leℤ rank least)) [
  | inl below ↦ rw below (
    leℤ-self rank,
    All-map (AtLeast (some least)) (AtLeast (some rank)) l (λ p k. leℤ_trans rank least p.0 below k)
        h,
  )
  | inr above ↦ rw above (leℤ_total rank least above, h)
]

module _ (it : Item) (items : List Item) where
  skipped : is_queued it.state ≡ false → overridden (it ∷ items) ≡ overridden items
  unfolding overridden
  skipped e = rw e

  unranked_row : it.sort_override ≡ none → overridden (it ∷ items) ≡ overridden items
  unfolding overridden
  unranked_row o = elim (Bool-cases (is_queued it.state)) [ inl e ↦ rw (e, o) | inr e ↦ rw e ]

  ranked_row :
      (rank : ℤ)
      → is_queued it.state ≡ true
      → it.sort_override ≡ some rank
      → overridden (it ∷ items) ≡ (rank, it.id) ∷ overridden items
  unfolding overridden
  ranked_row rank e o = rw (e, o)

  min-skipped : is_queued it.state ≡ false → min_override (it ∷ items) ≡ min_override items
  unfolding min_override
  min-skipped e = rw e

  min-unranked : it.sort_override ≡ none → min_override (it ∷ items) ≡ min_override items
  unfolding min_override
  min-unranked o = elim (Bool-cases (is_queued it.state)) [ inl e ↦ rw (e, o) | inr e ↦ rw e ]

  min-ranked :
      (rank : ℤ)
      → is_queued it.state ≡ true
      → it.sort_override ≡ some rank
      → min_override (it ∷ items) ≡ some (lower rank (min_override items))
  unfolding min_override
  min-ranked rank e o = elim (Option-cases (min_override items)) [
    | inl m ↦ rw (e, o, m)
    | inr (least, m) ↦ rw (e, o, m)
  ]

min_override-AtLeast : (items : List Item) → All (AtLeast (min_override items)) (overridden items)
unfolding overridden
min_override-AtLeast [] = tt
min_override-AtLeast (it ∷ items) = elim (Bool-cases (is_queued it.state)) [
  | inr e ↦ rw (min-skipped it items e, skipped it items e) (min_override-AtLeast items)
  | inl e ↦ elim (Option-cases it.sort_override) [
    | inl o ↦ rw (min-unranked it items o, unranked_row it items o) (min_override-AtLeast items)
    | inr (rank, o) ↦
        rw (min-ranked it items rank e o, ranked_row it items rank e o)
          (lower-AtLeast rank (min_override items) (overridden items) (min_override-AtLeast items))
  ]
]

-- Nothing comes before the pair.
abbrev After : ℤ × ℕ → ℤ × ℕ → Type 0
After x p = (pair_le x p ≡ true) × ((p ≡ x) ⊎ (pair_le p x ≡ false))

AtLeast-After : (low : Option ℤ) (id : ℕ) (p : ℤ × ℕ) → AtLeast low p → After (top_rank low, id) p
AtLeast-After none id p h = elim h [ ]
AtLeast-After (some least) id (r, j) h =
    let (a, b) = pred-below least r h in
    elim (Bool-cases (eqℤ (pred least) r)) [ inl e ↦ ground arith | inr e ↦ ground arith ]

module _ {κ} (P : ℤ × ℕ → Type κ) (x : Item) (items : List Item) where
  All-tail : All P (overridden (x ∷ items)) → All P (overridden items)
  All-tail h = elim (Bool-cases (is_queued x.state)) [
    | inr e ↦ subst (All P) (skipped x items e) h
    | inl e ↦ elim (Option-cases x.sort_override) [
      | inl o ↦ subst (All P) (unranked_row x items o) h
      | inr (rank, o) ↦ (subst (All P) (ranked_row x items rank e o) h).1
    ]
  ]

  All-front :
      (items' : List Item)
      → All P (overridden (x ∷ items))
      → All P (overridden items')
      → All P (overridden (x ∷ items'))
  All-front items' h k = elim (Bool-cases (is_queued x.state)) [
    | inr e ↦ rw (skipped x items' e) k
    | inl e ↦ elim (Option-cases x.sort_override) [
      | inl o ↦ rw (unranked_row x items' o) k
      | inr (rank, o) ↦
          rw (ranked_row x items' rank e o) ((subst (All P) (ranked_row x items rank e o) h).0, k)
    ]
  ]

module _ (id : ℕ) (rank : ℤ) (f : Item → Item) (keeps : (x : Item) → (f x).id ≡ x.id)
    (ranks : (x : Item) → (f x).sort_override ≡ some rank) where
  -- The overridden rows after an update that gives the rows of an id this rank.
  update-All {κ} :
      (P : ℤ × ℕ → Type κ) (items : List Item)
      → P (rank, id)
      → All P (overridden items)
      → All P (overridden (update_item id f items))
  unfolding update_item
  update-All P [] p h = h
  update-All P (x ∷ items) p h =
      let rest = update-All P items p (All-tail P x items h) in
      elim (Bool-cases (x.id == id)) [
        | inr e ↦ rw e (All-front P x items (update_item id f items) h rest)
        | inl e ↦
            let same : (f x).id ≡ id = keeps x ∙ (==_iff _ _).0 e in
            elim (Bool-cases (is_queued (f x).state)) [
              | inr q ↦ rw (e, skipped (f x) (update_item id f items) q) rest
              | inl q ↦
                  rw (e, ranked_row (f x) (update_item id f items) rank q (ranks x), same) (p, rest)
            ]
      ]

  update-mem :
      (items : List Item) (it : Item)
      → find_item id items ≡ some it
      → is_queued (f it).state ≡ true
      → Memᴰ (rank, id) (overridden (update_item id f items))
  unfolding update_item find_item
  update-mem [] it found q = absurd (cc)
  update-mem (x ∷ items) it found q = elim (Bool-cases (x.id == id)) [
    | inl e ↦
        let same : (f x).id ≡ id = keeps x ∙ (==_iff _ _).0 e in
        let q' : is_queued (f x).state ≡ true =
          ap (λ y. is_queued (f y).state) (Option.some-injective x it (rw e at found)) ∙ q in
        rw (e, ranked_row (f x) (update_item id f items) rank q' (ranks x), same) (Memᴰ.head refl)
    | inr e ↦
        let m = update-mem items it (rw e at found) q in
        rw e (elim (Bool-cases (is_queued x.state)) [
          | inr s ↦ rw (skipped x (update_item id f items) s) m
          | inl s ↦ elim (Option-cases x.sort_override) [
            | inl o ↦ rw (unranked_row x (update_item id f items) o) m
            | inr (r, o) ↦ rw (ranked_row x (update_item id f items) r s o) (Memᴰ.tail m)
          ]
        ])
  ]

pair_le_self : (p : ℤ × ℕ) → pair_le p p ≡ true
pair_le_self (r, i) = ground arith

-- After an update that gives the rows of an id a rank below the minimum, that id is first.
up_next_order-first :
    (jb : Jukebox) (db : Db) (id : ℕ) (f : Item → Item) (it : Item)
    → ((x : Item) → (f x).id ≡ x.id)
    → ((x : Item) → (f x).sort_override ≡ some (top_rank (min_override db.items)))
    → find_item id db.items ≡ some it
    → is_queued (f it).state ≡ true
    → (rest : List ℕ) × (up_next_order jb (record db { items = update_item id f db.items })
        ≡ some (id ∷ rest))
unfolding up_next_order
up_next_order-first jb db id f it keeps ranks found q =
    let items = update_item id f db.items in
    let low = min_override db.items in
    let top : ℤ × ℕ = (top_rank low, id) in
    let after =
      update-All id (top_rank low) f keeps ranks (After top) db.items (pair_le_self top, inl refl)
        (All-map (AtLeast low) (After top) (overridden db.items) (AtLeast-After low id)
          (min_override-AtLeast db.items)) in
    let (others, sorted) =
      sort-first pair_le top (pair_le_self top) (overridden items)
        (update-mem id (top_rank low) f keeps ranks db.items it found q) after in
    let (l, e, _) =
      order_up_next-perm (unranked (vote_counts (record db { items = items })) items) jb.mode in
    (map (λ p. p.1) others ++ ids l, rw (sorted, e))

-- A queued row that the admin moves to the top is the first of up-next.
pub move_to_top-first :
    (jb : Jukebox) (db : Db) (id : ℕ) (it : Item)
    → find_item id db.items ≡ some it
    → is_queued it.state ≡ true
    → (rest : List ℕ) × (up_next_order jb (move_to_top db id) ≡ some (id ∷ rest))
unfolding move_to_top
move_to_top-first jb db id it found q =
    up_next_order-first jb db id _ it (λ x. refl) (λ x. refl) found q

-- What the requeue writes on the row that was playing.
abbrev requeued : List Item → Item → Item
requeued items x = record x { state = queued; sort_override = some (top_rank (min_override items)) }

requeue-eq :
    (jb : Jukebox) (db : Db) (cur : ℕ)
    → jb.now_playing ≡ some cur
    → requeue_now_playing jb db
      ≡ (stopped jb, record db { items = update_item cur (requeued db.items) db.items }, true)
unfolding requeue_now_playing
requeue-eq jb db cur n = rw (requeue_now_playing, n)

advance-eq :
    (jb : Jukebox) (db : Db) (order : List ℕ)
    → up_next_order (stopped jb) db ≡ some order
    → advance (stopped jb) db ≡ some (promote (stopped jb) db order)
unfolding advance finish_current
advance-eq jb db order e = rw e

-- When playback has stopped and the item was requeued, the next advance resumes exactly where it
-- was: the same item, mode and playback state.
pub requeue-advance :
    (jb : Jukebox) (db : Db) (cur : ℕ)
    → Reachable jb db
    → jb.now_playing ≡ some cur
    → (db' : Db) × (advance (requeue_now_playing jb db).0 (requeue_now_playing jb db).1
        ≡ some (jb, db'))
unfolding promote
requeue-advance jb db cur r now = elim (Reachable-IsConsistent jb db r).now [
  | inl (n, s) ↦ absurd (cc)
  | inr (it, n, found, p, s) ↦
      let f = requeued db.items in
      let db1 : Db = record db { items = update_item it.id f db.items } in
      let (rest, e) =
        up_next_order-first (stopped jb) db it.id f it (λ x. refl) (λ x. refl) found refl in
      let resumed : playback_of (item_type_of db1 it.id) ≡ jb.playback_state =
        ap playback_of (
          item_type_of-found db1 it.id (f it)
            (find_item-update it.id f (λ x. refl) db.items it found))
        ∙ sym s in
      let back : (promote (stopped jb) db1 (it.id ∷ rest)).0 ≡ jb =
        ap (λ s. record jb { playback_state = s; now_playing = some it.id }) resumed
        ∙ ap (λ n. record jb { now_playing = n }) (sym n) in
      (
        (promote (stopped jb) db1 (it.id ∷ rest)).1,
        rw (requeue-eq jb db it.id n, advance-eq jb db1 (it.id ∷ rest) e)
            (ap (λ j. some (j, (promote (stopped jb) db1 (it.id ∷ rest)).1)) back),
      )
]
