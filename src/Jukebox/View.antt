-- ===== src/Jukebox/View.antt =====
-- The state that a client is sent.
use mathlib.Core.Option
use mathlib.Core.Path.{subst}
use blt.Base.{
  ℕ, ◌≡◌, refl, sym, ap, ◌∙◌, Bool, true, not, Option, none, some, List, [], ◌∷◌, inl, inr, ◌==◌,
  All, All-map, All-filter, All-append, Bool-cases, Option-cases,
}
use blt.Base.Text.{Text, ◌=t◌}
use blt.Jukebox.{
  Item, ItemType, Db, Jukebox, JukeboxState, JukeboxItemDto, now_dto, as_str, from_str_opt,
  find_item, update_item, add, remove, remove_all, remove_share_refs, share_refs, clear, advance,
  finish_current, promote, requeue_now_playing, move_to_top, item_dto, dtos, state_for, vote_counts,
  my_votes, up_next_order,
}
use blt.Jukebox.Rows.{All-update, find_item-id}
use blt.Jukebox.Order.{up_next_order-perm}
use blt.Jukebox.Reach.{Step, Reachable, order-known, known, known-find}
use blt.Jukebox.Steps.{toggle_vote-items}

-- The text of a type reads back as the type.
pub from_str_opt-as_str : (t : ItemType) → from_str_opt (as_str t) ≡ some t
unfolding from_str_opt as_str ◌=t◌
from_str_opt-as_str ItemType.youtube = refl
from_str_opt-as_str ItemType.direct_url = refl
from_str_opt-as_str ItemType.shared_file = refl
from_str_opt-as_str ItemType.external = refl

-- The type column holds the text of a type.
abbrev pub Typed : Item → Type 0
Typed it = (t : ItemType) × (from_str_opt it.item_type ≡ some t)

update-Typed :
    (id : ℕ) (f : Item → Item) (items : List Item)
    → ((x : Item) → (f x).item_type ≡ x.item_type)
    → All Typed items
    → All Typed (update_item id f items)
update-Typed id f items keeps h =
    All-update Typed Typed id f items (λ it (t, e) same. (t, ap from_str_opt (keeps it) ∙ e))
      (λ it h ne. h) h

remove-Typed :
    (jb : Jukebox) (db : Db) (id : ℕ) → All Typed db.items → All Typed (remove jb db id).1.items
unfolding remove
remove-Typed jb db id h =
    All-map _ Typed _ (λ it q. q.0) (All-filter Typed (λ it. not (it.id == id)) db.items h)

remove_all-Typed :
    (ids : List ℕ) (jb : Jukebox) (db : Db)
    → All Typed db.items
    → All Typed (remove_all jb db ids).1.items
unfolding remove_all
remove_all-Typed [] jb db h = h
remove_all-Typed (id ∷ ids) jb db h =
    remove_all-Typed ids (remove jb db id).0 (remove jb db id).1 (remove-Typed jb db id h)

finish_current-Typed :
    (cur : Option ℕ) (db : Db) → All Typed db.items → All Typed (finish_current cur db).items
unfolding finish_current
finish_current-Typed none db h = h
finish_current-Typed (some cur) db h = update-Typed cur _ db.items (λ x. refl) h

promote-Typed :
    (jb : Jukebox) (db : Db) (order : List ℕ)
    → All Typed db.items
    → All Typed (promote jb db order).1.items
unfolding promote
promote-Typed jb db [] h = h
promote-Typed jb db (id ∷ order) h = update-Typed id _ db.items (λ x. refl) h

advance-Typed :
    (jb : Jukebox) (db : Db) (jb' : Jukebox) (db' : Db)
    → advance jb db ≡ some (jb', db')
    → All Typed db.items
    → All Typed db'.items
unfolding advance
advance-Typed jb db jb' db' e h =
    let taken : Jukebox = record jb { now_playing = none } in
    let db1 = finish_current jb.now_playing db in
    let (order, o, _) = up_next_order-perm taken db1 in
    let done : promote taken db1 order ≡ (jb', db') = Option.some-injective _ _ (rw o at e) in
    subst (λ q. All Typed q.1.items) done
      (promote-Typed taken db1 order (finish_current-Typed jb.now_playing db h))

requeue-Typed :
    (jb : Jukebox) (db : Db) → All Typed db.items → All Typed (requeue_now_playing jb db).1.items
unfolding requeue_now_playing
requeue-Typed jb db h = elim (Option-cases jb.now_playing) [
  | inl n ↦ rw (requeue_now_playing, n) h
  | inr (cur, n) ↦ rw (requeue_now_playing, n) (update-Typed cur _ db.items (λ x. refl) h)
]

Step-Typed :
    (jb : Jukebox) (db : Db) (jb' : Jukebox) (db' : Db)
    → Step jb db jb' db'
    → All Typed db.items
    → All Typed db'.items
unfolding add remove_share_refs clear move_to_top
Step-Typed jb db jb' db' (Step.adds _ _ rowid ty reference title by by_id at) h =
    All-append Typed db.items _ h ((ty, from_str_opt-as_str ty), tt)
Step-Typed jb db jb' db' (Step.toggles _ _ id voter) h =
    subst (All Typed) (sym (toggle_vote-items db id voter)) h
Step-Typed jb db jb' db' (Step.removes _ _ id) h = remove-Typed jb db id h
Step-Typed jb db jb' db' (Step.removes_share _ _ key) h =
    remove_all-Typed (share_refs key db.items) jb db h
Step-Typed jb db jb' db' (Step.clears _ _) h = tt
Step-Typed jb db jb' db' (Step.sets_mode _ _ mode) h = h
Step-Typed jb db jb' db' (Step.advances _ _ _ _ e) h = advance-Typed jb db jb' db' e h
Step-Typed jb db jb' db' (Step.requeues _ _) h = requeue-Typed jb db h
Step-Typed jb db jb' db' (Step.moves _ _ id) h = update-Typed id _ db.items (λ x. refl) h
Step-Typed jb db jb' db' (Step.restarts _ _ mode) h = h

Reachable-Typed : (jb : Jukebox) (db : Db) → Reachable jb db → All Typed db.items
Reachable-Typed jb db (Reachable.start mode) = tt
Reachable-Typed jb db (Reachable.step jb0 db0 _ _ r s) =
    Step-Typed jb0 db0 jb db s (Reachable-Typed jb0 db0 r)

found-Typed :
    (id : ℕ) (items : List Item) (it : Item)
    → find_item id items ≡ some it
    → All Typed items
    → Typed it
unfolding find_item
found-Typed id [] it f h = absurd (cc)
found-Typed id (x ∷ items) it f h = elim (Bool-cases (x.id == id)) [
  | inl e ↦ subst Typed (Option.some-injective x it (rw e at f)) h.0
  | inr e ↦ found-Typed id items it (rw e at f) h.1
]

item_dto-known :
    (items : List Item) (id : ℕ) (votes : ℕ → ℕ) (mine : ℕ → Bool)
    → All Typed items
    → known items id ≡ true
    → (d : JukeboxItemDto) × (item_dto items id votes mine ≡ some d)
      × (d.id ≡ id)
      × (d.votes ≡ votes id)
      × (d.voted_by_me ≡ mine id)
unfolding item_dto
item_dto-known items id votes mine h k =
    let (it, f) = known-find items id k in
    let (t, e) = found-Typed id items it f h in
    let i = find_item-id id items it f in
    (
      record {
        id = it.id;
        item_type = t;
        reference = it.reference;
        title = it.title;
        added_by = it.added_by;
        added_by_id = it.added_by_id;
        added_at = it.added_at;
        votes = votes it.id;
        voted_by_me = mine it.id;
        state = it.state;
      },
      rw (item_dto, f, e),
      i,
      ap votes i,
      ap mine i,
    )

-- What a client is shown of an id.
abbrev pub Shows : (ℕ → ℕ) → (ℕ → Bool) → List ℕ → List JukeboxItemDto → Type 0
Shows votes mine [] [] = Unit
Shows votes mine [] (d ∷ ds) = ⊥
Shows votes mine (id ∷ ids) [] = ⊥
Shows votes mine (id ∷ ids) (d ∷ ds) =
    ((d.id ≡ id) × (d.votes ≡ votes id) × (d.voted_by_me ≡ mine id)) × Shows votes mine ids ds

dtos-cons :
    (items : List Item) (id : ℕ) (order : List ℕ) (votes : ℕ → ℕ) (mine : ℕ → Bool)
    (d : JukeboxItemDto)
    → item_dto items id votes mine ≡ some d
    → dtos items (id ∷ order) votes mine ≡ d ∷ dtos items order votes mine
unfolding dtos
dtos-cons items id order votes mine d e = rw (dtos, e)

dtos-Shows :
    (items : List Item) (order : List ℕ) (votes : ℕ → ℕ) (mine : ℕ → Bool)
    → All Typed items
    → All (λ id. known items id ≡ true) order
    → Shows votes mine order (dtos items order votes mine)
unfolding dtos
dtos-Shows items [] votes mine h k = tt
dtos-Shows items (id ∷ order) votes mine h k =
    let (d, e, i, v, m) = item_dto-known items id votes mine h k.0 in
    subst (Shows votes mine (id ∷ order)) (sym (dtos-cons items id order votes mine d e))
      ((i, v, m), dtos-Shows items order votes mine h k.1)

-- In every reachable state the state of a viewer exists, has the mode and the playback state, and
-- its up-next list shows the up-next order, id by id and none left out, with the number of votes
-- and the viewer's own vote for each.
pub state_for-Shows :
    (jb : Jukebox) (db : Db) (viewer_id : Text)
    → Reachable jb db
    → (st : JukeboxState) × (order : List ℕ) × (state_for jb db viewer_id ≡ some st)
      × (up_next_order jb db ≡ some order)
      × (st.mode ≡ jb.mode)
      × (st.playback_state ≡ jb.playback_state)
      × Shows (vote_counts db) (my_votes db viewer_id) order st.up_next
unfolding state_for
state_for-Shows jb db viewer_id r =
    let (order, o, _) = up_next_order-perm jb db in
    (
      record {
        mode = jb.mode;
        playback_state = jb.playback_state;
        now_playing = now_dto jb.now_playing db.items (vote_counts db) (my_votes db viewer_id);
        up_next = dtos db.items order (vote_counts db) (my_votes db viewer_id);
      },
      order,
      rw o,
      o,
      refl,
      refl,
      dtos-Shows db.items order (vote_counts db) (my_votes db viewer_id) (Reachable-Typed jb db r)
          (order-known jb db order o),
    )
