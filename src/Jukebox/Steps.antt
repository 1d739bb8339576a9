-- ===== src/Jukebox/Steps.antt =====
-- Each operation keeps the state machine consistent.
use mathlib.Core.Option
use blt.Base.{
  ℕ, ◌≡◌, refl, sym, ap, ◌∙◌, true, false, not, Option, none, some, List, [], ◌∷◌, inl, inr, arith,
  ◌==◌, ==_iff, All, Bool-cases, Option-cases, All-append, All-filter, All-map, any,
}
use blt.Base.Int.{ℤ}
use blt.Base.Text.{Text}
use blt.Queue.{OrderMode}
use blt.Jukebox.{
  Item, ItemType, Db, Jukebox, new, is_playing, is_now, find_item, from_str_opt, playback_of, add,
  toggle_vote, remove, remove_all, remove_share_refs, share_refs, clear, set_mode, item_type_of,
  finish_current, promote, advance, requeue_now_playing, move_to_top, restore, is_vote, playing,
  min_override, top_rank,
}
use blt.Jukebox.Rows.{
  find_item-id, find_item-append, find_item-filter, All-update, find_item-update,
  find_item-update_ne, find_playing-none, find_playing-some,
}
use mathlib.Core.Path.{subst}
use blt.Jukebox.Order.{up_next_order-perm}
use blt.Jukebox.Reach.{
  IsNow, OnlyPlays, IsConsistent, Step, Reachable, order-known, known, known-find,
}

add-IsConsistent :
    (jb : Jukebox) (db : Db) (rowid : ℕ) (ty : ItemType) (reference : Text) (title : Option Text)
    (by by_id : Text) (at : ℤ)
    → IsConsistent jb db
    → IsConsistent jb (add db rowid ty reference title by by_id at).0
unfolding add
add-IsConsistent jb db rowid ty reference title by by_id at c = record {
  now = elim c.now [
    | inl h ↦ inl h
    | inr (it, n, found, p, s) ↦ inr (it, n, find_item-append it.id db.items _ it found, p, s)
  ];
  only = All-append (OnlyPlays jb.now_playing) db.items _ c.only (λ h. absurd (cc), tt);
}

pub toggle_vote-items :
    (db : Db) (id : ℕ) (voter : Text) → (toggle_vote db id voter).1.items ≡ db.items
unfolding toggle_vote
toggle_vote-items db id voter = elim (Option-cases (find_item id db.items)) [
  | inl n ↦ rw (toggle_vote, n)
  | inr (it, f) ↦ elim (Bool-cases (any (is_vote id voter) db.votes)) [
    | inl v ↦ rw (toggle_vote, f, v)
    | inr v ↦ rw (toggle_vote, f, v)
  ]
]

is_now-some : (cur : Option ℕ) (id : ℕ) → is_now cur id ≡ true → cur ≡ some id
is_now-some none id h = absurd (cc)
is_now-some (some cur) id h = ap some ((==_iff cur id).0 h)

remove-IsConsistent :
    (jb : Jukebox) (db : Db) (id : ℕ)
    → IsConsistent jb db
    → IsConsistent (remove jb db id).0 (remove jb db id).1
unfolding remove
remove-IsConsistent jb db id c = elim (Bool-cases (is_now jb.now_playing id)) [
  | inl e ↦ rw e (record {
    now = inl (refl, refl);
    only =
        All-map _ (OnlyPlays none) _
          (λ it (only, kept) p.
            let same : it.id ≡ id =
              Option.some-injective it.id id (sym (only p) ∙ is_now-some jb.now_playing id e) in
            absurd (ground arith))
          (All-filter (OnlyPlays jb.now_playing) (λ it. not (it.id == id)) db.items c.only);
  })
  | inr e ↦ rw e (record {
    now = elim c.now [
      | inl h ↦ inl h
      | inr (it, n, found, p, s) ↦
          let other : (it.id == id) ≡ false = ap (λ o. is_now o id) (sym n) ∙ e in
          inr (
            it,
            n,
            find_item-filter it.id id db.items (λ same. absurd (ground arith)) ∙ found,
            p,
            s,
          )
    ];
    only =
        All-map _ (OnlyPlays jb.now_playing) _ (λ it h. h.0)
          (All-filter (OnlyPlays jb.now_playing) (λ it. not (it.id == id)) db.items c.only);
  })
]

clear-IsConsistent : (jb : Jukebox) (db : Db) → IsConsistent (clear jb db).0 (clear jb db).1
unfolding clear
clear-IsConsistent jb db = record { now = inl (refl, refl); only = tt }

-- No row plays once the current one is marked as played.
finish_current-idle :
    (cur : Option ℕ) (db : Db)
    → All (OnlyPlays cur) db.items
    → All (λ it. is_playing it.state ≡ false) (finish_current cur db).items
unfolding finish_current
finish_current-idle none db h =
    All-map (OnlyPlays none) (λ it. is_playing it.state ≡ false) db.items
      (λ it only. elim (Bool-cases (is_playing it.state)) [
        | inl p ↦ absurd (Option.none-ne-some it.id (only p))
        | inr p ↦ p
      ])
      h
finish_current-idle (some cur) db h =
    All-update (OnlyPlays (some cur)) (λ it. is_playing it.state ≡ false) cur _ db.items
      (λ it only e. refl) other h
  where
    other :
        (it : Item) → OnlyPlays (some cur) it → (it.id == cur) ≡ false → is_playing it.state ≡ false
    other it only ne = elim (Bool-cases (is_playing it.state)) [
      | inl p ↦
          let e : cur ≡ it.id = Option.some-injective cur it.id (only p) in absurd (ground arith)
      | inr p ↦ p
    ]

pub item_type_of-found :
    (db : Db) (id : ℕ) (it : Item)
    → find_item id db.items ≡ some it
    → item_type_of db id ≡ from_str_opt it.item_type
unfolding item_type_of
item_type_of-found db id it found = rw (item_type_of, found)

promote-IsConsistent :
    (jb : Jukebox) (db : Db) (order : List ℕ)
    → All (λ it. is_playing it.state ≡ false) db.items
    → All (λ id. known db.items id ≡ true) order
    → IsConsistent (promote jb db order).0 (promote jb db order).1
unfolding promote item_type_of
promote-IsConsistent jb db [] idle k = record {
  now = inl (refl, refl);
  only =
      All-map (λ it. is_playing it.state ≡ false) (OnlyPlays none) db.items (λ it p q. absurd (cc))
        idle;
}
promote-IsConsistent jb db (next_id ∷ order) idle k =
    let (it, found) = known-find db.items next_id k.0 in
    let e = find_item-id next_id db.items it found in
    let it' : Item = record it { state = playing } in
    record {
      now = inr (
        it',
        ap some (sym e),
        subst (λ k. find_item k (promote jb db (next_id ∷ order)).1.items ≡ some it') (sym e)
            (find_item-update next_id (λ x. record x { state = playing }) (λ x. refl) db.items it
              found),
        refl,
        ap playback_of (item_type_of-found db next_id it found),
      );
      only =
          All-update (λ x. is_playing x.state ≡ false) (OnlyPlays (some next_id)) next_id _ db.items
            (λ x p same q. ap some (sym same)) (λ x p ne q. absurd (cc)) idle;
    }

advance-IsConsistent :
    (jb : Jukebox) (db : Db) (jb' : Jukebox) (db' : Db)
    → advance jb db ≡ some (jb', db')
    → IsConsistent jb db
    → IsConsistent jb' db'
unfolding advance
advance-IsConsistent jb db jb' db' e c =
    let taken : Jukebox = record jb { now_playing = none } in
    let db1 = finish_current jb.now_playing db in
    let (order, o, _) = up_next_order-perm taken db1 in
    let done : promote taken db1 order ≡ (jb', db') = Option.some-injective _ _ (rw o at e) in
    subst (λ q. IsConsistent q.0 q.1) done
      (promote-IsConsistent taken db1 order (finish_current-idle jb.now_playing db c.only)
        (order-known taken db1 order o))

requeue-IsConsistent :
    (jb : Jukebox) (db : Db)
    → IsConsistent jb db
    → IsConsistent (requeue_now_playing jb db).0 (requeue_now_playing jb db).1
unfolding requeue_now_playing
requeue-IsConsistent jb db c = elim (Option-cases jb.now_playing) [
  | inl n ↦ rw n (subst (λ o. IsConsistent (record jb { now_playing = o }) db) n c)
  | inr (cur, n) ↦ rw n (record {
    now = inl (refl, refl);
    only =
        All-update (OnlyPlays (some cur)) (OnlyPlays none) cur _ db.items (λ it h e p. absurd (cc))
          (λ it h ne p.
            let e : cur ≡ it.id = Option.some-injective cur it.id (h p) in absurd (ground arith))
          (subst (λ o. All (OnlyPlays o) db.items) n c.only);
  })
]

move_to_top-IsConsistent :
    (jb : Jukebox) (db : Db) (id : ℕ) → IsConsistent jb db → IsConsistent jb (move_to_top db id)
unfolding move_to_top
move_to_top-IsConsistent jb db id c =
    let rank = some (top_rank (min_override db.items)) in
    record {
      now = elim c.now [
        | inl h ↦ inl h
        | inr (it, n, found, p, s) ↦ elim (Bool-cases (it.id == id)) [
          | inl e ↦
              let same = (==_iff _ _).0 e in
              inr (
                record it { sort_override = rank },
                n,
                subst
                    (λ k.
                      find_item k (move_to_top db id).items
                      ≡ some (record it { sort_override = rank }))
                    (sym same)
                    (find_item-update id (λ x. record x { sort_override = rank }) (λ x. refl)
                      db.items it (subst (λ k. find_item k db.items ≡ some it) same found)),
                p,
                s,
              )
          | inr e ↦ inr (
            it,
            n,
            find_item-update_ne id _ (λ x. refl) it.id db.items (λ same. absurd (ground arith))
                ∙ found,
            p,
            s,
          )
        ]
      ];
      only =
          All-update (OnlyPlays jb.now_playing) (OnlyPlays jb.now_playing) id _ db.items
            (λ it h e. h) (λ it h e. h) c.only;
    }

restore-eq :
    (jb : Jukebox) (db : Db) (mode : OrderMode)
    → IsConsistent jb db
    → restore db mode ≡ record jb { mode = mode }
unfolding restore new item_type_of finish_current
restore-eq jb db mode c = elim c.now [
  | inl (n, s) ↦ rw (
    restore,
    find_playing-none db.items
        (finish_current-idle none db (subst (λ o. All (OnlyPlays o) db.items) n c.only)),
    n,
    s,
  )
  | inr (it, n, found, p, s) ↦ rw (
    restore,
    find_playing-some it.id db.items it
        (All-map (OnlyPlays jb.now_playing) _ db.items
          (λ x h q. Option.some-injective x.id it.id (sym (h q) ∙ n)) c.only)
        found p,
    item_type_of-found db it.id it found,
    n,
    s,
  )
]

remove_all-IsConsistent :
    (ids : List ℕ) (jb : Jukebox) (db : Db)
    → IsConsistent jb db
    → IsConsistent (remove_all jb db ids).0 (remove_all jb db ids).1
unfolding remove_all
remove_all-IsConsistent [] jb db c = c
remove_all-IsConsistent (id ∷ ids) jb db c =
    remove_all-IsConsistent ids _ _ (remove-IsConsistent jb db id c)

Step-IsConsistent :
    (jb : Jukebox) (db : Db) (jb' : Jukebox) (db' : Db)
    → Step jb db jb' db'
    → IsConsistent jb db
    → IsConsistent jb' db'
unfolding remove_share_refs set_mode
Step-IsConsistent jb db jb' db' (Step.adds _ _ rowid ty reference title by by_id at) c =
    add-IsConsistent jb db rowid ty reference title by by_id at c
Step-IsConsistent jb db jb' db' (Step.toggles _ _ id voter) c =
    let e = sym (toggle_vote-items db id voter) in
    record {
      now = subst (λ items. IsNow jb (record db { items = items })) e c.now;
      only = subst (All (OnlyPlays jb.now_playing)) e c.only;
    }
Step-IsConsistent jb db jb' db' (Step.removes _ _ id) c = remove-IsConsistent jb db id c
Step-IsConsistent jb db jb' db' (Step.removes_share _ _ key) c =
    remove_all-IsConsistent (share_refs key db.items) jb db c
Step-IsConsistent jb db jb' db' (Step.clears _ _) c = clear-IsConsistent jb db
Step-IsConsistent jb db jb' db' (Step.sets_mode _ _ mode) c = record { now = c.now; only = c.only }
Step-IsConsistent jb db jb' db' (Step.advances _ _ _ _ e) c = advance-IsConsistent jb db jb' db' e c
Step-IsConsistent jb db jb' db' (Step.requeues _ _) c = requeue-IsConsistent jb db c
Step-IsConsistent jb db jb' db' (Step.moves _ _ id) c = move_to_top-IsConsistent jb db id c
Step-IsConsistent jb db jb' db' (Step.restarts _ _ mode) c =
    subst (λ j. IsConsistent j db) (sym (restore-eq jb db mode c))
      (record { now = c.now; only = c.only })

-- In every state that the operations and restarts reach from the empty database, either nothing
-- plays and the playback is idle, or the row of `now_playing` plays, no row of another id does, and
-- the playback state is that of its type.
pub Reachable-IsConsistent : (jb : Jukebox) (db : Db) → Reachable jb db → IsConsistent jb db
unfolding new
Reachable-IsConsistent jb db (Reachable.start mode) = record { now = inl (refl, refl); only = tt }
Reachable-IsConsistent jb db (Reachable.step jb0 db0 _ _ r s) =
    Step-IsConsistent jb0 db0 jb db s (Reachable-IsConsistent jb0 db0 r)

-- A restart, from the database alone, restores the state machine of every reachable state, in the
-- mode that it is given.
pub restore-Reachable :
    (jb : Jukebox) (db : Db) (mode : OrderMode)
    → Reachable jb db
    → restore db mode ≡ set_mode jb mode
unfolding set_mode
restore-Reachable jb db mode r = restore-eq jb db mode (Reachable-IsConsistent jb db r)
