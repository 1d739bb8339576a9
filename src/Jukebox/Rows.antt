-- ===== src/Jukebox/Rows.antt =====
-- The statements on the rows: what an update, a deletion and an insertion leave of a lookup.
use mathlib.Core.Option
use blt.Base.{
  ℕ, ◌≡◌, ◌≢◌, refl, sym, ap, ◌∙◌, true, false, not, none, some, List, [], ◌∷◌, ◌++◌, inl, inr,
  arith, ◌==◌, ==_iff, filter, All, Bool-cases, if◌then◌else◌,
}
use blt.Jukebox.{Item, is_playing, find_item, update_item, find_playing}

-- A row that the lookup finds has the id.
pub find_item-id :
    (id : ℕ) (items : List Item) (it : Item) → find_item id items ≡ some it → it.id ≡ id
unfolding find_item
find_item-id id [] it h = absurd (cc)
find_item-id id (x ∷ items) it h = elim (Bool-cases (x.id == id)) [
  | inl e ↦ ap (λ y. y.id) (sym (Option.some-injective x it (rw e at h))) ∙ (==_iff _ _).0 e
  | inr e ↦ find_item-id id items it (rw e at h)
]

pub find_item-append :
    (id : ℕ) (items rest : List Item) (it : Item)
    → find_item id items ≡ some it
    → find_item id (items ++ rest) ≡ some it
unfolding find_item
find_item-append id [] rest it h = absurd (cc)
find_item-append id (x ∷ items) rest it h = elim (Bool-cases (x.id == id)) [
  | inl e ↦ rw e (rw e at h)
  | inr e ↦ rw e (find_item-append id items rest it (rw e at h))
]

pub find_item-filter :
    (id del : ℕ) (items : List Item)
    → id ≢ del
    → find_item id (filter (λ it. not (it.id == del)) items) ≡ find_item id items
unfolding find_item
find_item-filter id del [] ne = refl
find_item-filter id del (x ∷ items) ne = elim (Bool-cases (x.id == del)) [
  | inl e ↦
      let other : (x.id == id) ≡ false = ground arith in
      rw (e, other) (find_item-filter id del items ne)
  | inr e ↦ rw e (ap (λ o. if x.id == id then some x else o) (find_item-filter id del items ne))
]

-- What a predicate of the rows becomes under an update of those with the id.
pub All-update {κ μ} :
    (P : Item → Type κ) (Q : Item → Type μ) (id : ℕ) (f : Item → Item) (items : List Item)
    → ((it : Item) → P it → it.id ≡ id → Q (f it))
    → ((it : Item) → P it → (it.id == id) ≡ false → Q it)
    → All P items
    → All Q (update_item id f items)
unfolding update_item
All-update P Q id f [] same other h = tt
All-update P Q id f (x ∷ items) same other h =
    let rest = All-update P Q id f items same other h.1 in
    elim (Bool-cases (x.id == id)) [
      | inl e ↦ rw e (same x h.0 ((==_iff _ _).0 e), rest)
      | inr e ↦ rw e (other x h.0 e, rest)
    ]

module _ (id : ℕ) (f : Item → Item) (keeps : (it : Item) → (f it).id ≡ it.id) where
  pub find_item-update :
      (items : List Item) (it : Item)
      → find_item id items ≡ some it
      → find_item id (update_item id f items) ≡ some (f it)
  unfolding find_item update_item
  find_item-update [] it h = absurd (cc)
  find_item-update (x ∷ items) it h = elim (Bool-cases (x.id == id)) [
    | inl e ↦
        let e' : ((f x).id == id) ≡ true = rw (keeps x) e in
        rw (e, e') (ap (λ o. Option.map f o) (rw e at h))
    | inr e ↦ rw (e, e) (find_item-update items it (rw e at h))
  ]

  pub find_item-update_ne :
      (key : ℕ) (items : List Item)
      → key ≢ id
      → find_item key (update_item id f items) ≡ find_item key items
  unfolding find_item update_item
  find_item-update_ne key [] ne = refl
  find_item-update_ne key (x ∷ items) ne = elim (Bool-cases (x.id == id)) [
    | inl e ↦
        let a : (x.id == key) ≡ false = ground arith in
        let b : ((f x).id == key) ≡ false = rw (keeps x) a in
        rw (e, a, b) (find_item-update_ne key items ne)
    | inr e ↦ rw e (ap (λ o. if x.id == key then some x else o) (find_item-update_ne key items ne))
  ]

-- The row that plays, if one does.
pub find_playing-none :
    (items : List Item) → All (λ it. is_playing it.state ≡ false) items → find_playing items ≡ none
unfolding find_playing
find_playing-none [] h = refl
find_playing-none (x ∷ items) h = rw h.0 (find_playing-none items h.1)

pub find_playing-some :
    (id : ℕ) (items : List Item) (it : Item)
    → All (λ x. is_playing x.state ≡ true → x.id ≡ id) items
    → find_item id items ≡ some it
    → is_playing it.state ≡ true
    → find_playing items ≡ some id
unfolding find_playing find_item
find_playing-some id [] it h found plays = absurd (cc)
find_playing-some id (x ∷ items) it h found plays = elim (Bool-cases (is_playing x.state)) [
  | inl p ↦ rw p (ap some (h.0 p))
  | inr p ↦ elim (Bool-cases (x.id == id)) [
    | inl e ↦ let same : x ≡ it = Option.some-injective x it (rw e at found) in absurd (cc)
    | inr e ↦ rw p (find_playing-some id items it h.1 (rw e at found) plays)
  ]
]
