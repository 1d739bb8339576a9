-- ===== src/Jukebox/Share.antt =====
-- Deleting a share leaves no row that refers to it.
use mathlib.Core.Path.{subst}
use blt.Base.{
  ℕ, ◌≡◌, sym, true, false, not, List, [], ◌∷◌, inl, inr, arith, ◌==◌, filter, any, length, All,
  All-map, All-filter, length-map, Bool-cases,
}
use blt.Base.Text.{Text}
use blt.Jukebox.{Item, Db, Jukebox, is_share_ref, share_refs, remove, remove_all, remove_share_refs}

-- A row that refers to the share has one of the ids.
abbrev Listed : Text → List ℕ → Item → Type 0
Listed key ids it = is_share_ref key it ≡ true → any (λ id. it.id == id) ids ≡ true

Listed-cons :
    (key : Text) (ids : List ℕ) (id : ℕ) (it : Item) → Listed key ids it → Listed key (id ∷ ids) it
Listed-cons key ids id it h r = ground (arith, h r)

share_refs-cons :
    (key : Text) (x : Item) (items : List Item)
    → is_share_ref key x ≡ true
    → share_refs key (x ∷ items) ≡ x.id ∷ share_refs key items
unfolding share_refs
share_refs-cons key x items e = rw e

share_refs-skip :
    (key : Text) (x : Item) (items : List Item)
    → is_share_ref key x ≡ false
    → share_refs key (x ∷ items) ≡ share_refs key items
unfolding share_refs
share_refs-skip key x items e = rw e

share_refs-Listed : (key : Text) (items : List Item) → All (Listed key (share_refs key items)) items
share_refs-Listed key [] = tt
share_refs-Listed key (x ∷ items) = elim (Bool-cases (is_share_ref key x)) [
  | inl e ↦
      subst (λ ids. All (Listed key ids) (x ∷ items)) (sym (share_refs-cons key x items e))
        (
          λ r. ground arith,
          All-map (Listed key (share_refs key items)) (Listed key (x.id ∷ share_refs key items))
              items (λ it h. Listed-cons key (share_refs key items) x.id it h)
              (share_refs-Listed key items),
        )
  | inr e ↦
      subst (λ ids. All (Listed key ids) (x ∷ items)) (sym (share_refs-skip key x items e))
        (λ r. absurd (cc), share_refs-Listed key items)
]

remove_all-clears :
    (key : Text) (ids : List ℕ) (jb : Jukebox) (db : Db)
    → All (Listed key ids) db.items
    → All (λ it. is_share_ref key it ≡ false) (remove_all jb db ids).1.items
unfolding remove_all remove
remove_all-clears key [] jb db h =
    All-map (Listed key []) (λ it. is_share_ref key it ≡ false) db.items
      (λ it listed. elim (Bool-cases (is_share_ref key it)) [
        | inl e ↦ absurd (let f = listed e in cc)
        | inr e ↦ e
      ])
      h
remove_all-clears key (id ∷ ids) jb db h =
    remove_all-clears key ids (remove jb db id).0 (remove jb db id).1 (
      All-map _ (Listed key ids) _ (λ it (listed, kept) r. let one = listed r in ground arith)
        (All-filter (Listed key (id ∷ ids)) (λ it. not (it.id == id)) db.items h))

-- After a share is deleted no row refers to it, and the number returned is that of the rows that
-- did.
remove_share_refs-clears :
    (jb : Jukebox) (db : Db) (key : Text)
    → All (λ it. is_share_ref key it ≡ false) (remove_share_refs jb db key).1.items
      × ((remove_share_refs jb db key).2 ≡ length (filter (is_share_ref key) db.items))
unfolding remove_share_refs share_refs
remove_share_refs-clears jb db key = (
  remove_all-clears key (share_refs key db.items) jb db (share_refs-Listed key db.items),
  length-map (filter (is_share_ref key) db.items) (λ it. it.id),
)
