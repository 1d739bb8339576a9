-- ===== src/Jukebox/Reach.antt =====
-- What the state machine keeps true: `now_playing`, the playback state and the rows agree.
use mathlib.Core.Option
use blt.Base.{
  ℕ, ◌≡◌, ◌⊎◌, refl, sym, ap, ◌∙◌, Bool, true, false, Option, none, some, List, [], ◌∷◌, inl, inr,
  arith, ◌==◌, ==_iff, All, Bool-cases, Option-cases, all, All-map, all-All,
}
use blt.Base.Int.{ℤ}
use blt.Base.Sort.{all-perm}
use blt.Base.Text.{Text}
use blt.Queue.{OrderMode}
use blt.Jukebox.{
  Item, ItemType, PlaybackState, Db, Jukebox, new, is_queued, is_playing, find_item, from_str_opt,
  playback_of, add, toggle_vote, remove, remove_share_refs, clear, set_mode, up_next_order, advance,
  requeue_now_playing, move_to_top, restore,
}
use blt.Jukebox.Order.{queued_ids, up_next_order-perm}

-- Nothing plays and the playback is idle, or a row plays and the playback is that of its type.
abbrev pub IsNow : Jukebox → Db → Type 0
IsNow jb db =
    ((jb.now_playing ≡ none) × (jb.playback_state ≡ PlaybackState.idle))
    ⊎ ((it : Item) × (jb.now_playing ≡ some it.id)
        × (find_item it.id db.items ≡ some it)
        × (is_playing it.state ≡ true)
        × (jb.playback_state ≡ playback_of (from_str_opt it.item_type)))

abbrev pub OnlyPlays : Option ℕ → Item → Type 0
OnlyPlays cur it = is_playing it.state ≡ true → cur ≡ some it.id

pub record IsConsistent (jb : Jukebox) (db : Db) : Type 0 where
  pub now : IsNow jb db
  pub only : All (OnlyPlays jb.now_playing) db.items  -- no other row plays

-- The operations, as the server calls them.
pub data Step : Jukebox → Db → Jukebox → Db → Type 0 where
  adds :
      (jb : Jukebox) (db : Db) (rowid : ℕ) (ty : ItemType) (reference : Text) (title : Option Text)
      (by by_id : Text) (at : ℤ)
      → Step jb db jb (add db rowid ty reference title by by_id at).0
  toggles :
      (jb : Jukebox) (db : Db) (id : ℕ) (voter : Text) → Step jb db jb (toggle_vote db id voter).1
  removes : (jb : Jukebox) (db : Db) (id : ℕ) → Step jb db (remove jb db id).0 (remove jb db id).1
  removes_share :
      (jb : Jukebox) (db : Db) (key : Text)
      → Step jb db (remove_share_refs jb db key).0 (remove_share_refs jb db key).1
  clears : (jb : Jukebox) (db : Db) → Step jb db (clear jb db).0 (clear jb db).1
  sets_mode : (jb : Jukebox) (db : Db) (mode : OrderMode) → Step jb db (set_mode jb mode) db
  advances :
      (jb : Jukebox) (db : Db) (jb' : Jukebox) (db' : Db)
      → advance jb db ≡ some (jb', db')
      → Step jb db jb' db'
  requeues :
      (jb : Jukebox) (db : Db)
      → Step jb db (requeue_now_playing jb db).0 (requeue_now_playing jb db).1
  moves : (jb : Jukebox) (db : Db) (id : ℕ) → Step jb db jb (move_to_top db id)
  restarts : (jb : Jukebox) (db : Db) (mode : OrderMode) → Step jb db (restore db mode) db

pub data Reachable : Jukebox → Db → Type 0 where
  start : (mode : OrderMode) → Reachable (new mode) (record { items = []; votes = [] })
  step :
      (jb : Jukebox) (db : Db) (jb' : Jukebox) (db' : Db)
      → Reachable jb db
      → Step jb db jb' db'
      → Reachable jb' db'

-- A lookup that succeeds.
abbrev pub known : List Item → ℕ → Bool
known items id = elim (find_item id items) [ none ↦ false | some it ↦ true ]

known-cons :
    (x : Item) (items : List Item) (id : ℕ) → known items id ≡ true → known (x ∷ items) id ≡ true
unfolding find_item
known-cons x items id h = elim (Bool-cases (x.id == id)) [
  | inl e ↦ rw (known, e)
  | inr e ↦ rw (known, e) h
]

queued_ids-known : (items : List Item) → All (λ id. known items id ≡ true) (queued_ids items)
unfolding queued_ids find_item
queued_ids-known [] = tt
queued_ids-known (x ∷ items) =
    let later =
      All-map (λ id. known items id ≡ true) (λ id. known (x ∷ items) id ≡ true) (queued_ids items)
        (known-cons x items) (queued_ids-known items) in
    elim (Bool-cases (is_queued x.state)) [
      | inl e ↦
          rw e (let self : (x.id == x.id) ≡ true = (==_iff _ _).1 refl in rw (known, self), later)
      | inr e ↦ rw e later
    ]

-- Whatever the order holds is the id of a row.
pub order-known :
    (jb : Jukebox) (db : Db) (order : List ℕ)
    → up_next_order jb db ≡ some order
    → All (λ id. known db.items id ≡ true) order
order-known jb db order e =
    let (l, e', p) = up_next_order-perm jb db in
    let same : l ≡ order = Option.some-injective l order (sym e' ∙ e) in
    (all-All (known db.items) order).0 (
      ap (all (known db.items)) (sym same)
      ∙ all-perm (known db.items) p
      ∙ (all-All (known db.items) (queued_ids db.items)).1 (queued_ids-known db.items))

pub known-find :
    (items : List Item) (id : ℕ)
    → known items id ≡ true
    → (it : Item) × (find_item id items ≡ some it)
known-find items id h = elim (Option-cases (find_item id items)) [
  | inl e ↦ absurd (ground arith)
  | inr found ↦ found
]
