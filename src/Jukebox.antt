-- ===== src/Jukebox.antt =====
-- crates/server/src/jukebox.rs: the server's jukebox state machine, with the item types and the
-- playback states of crates/core/src/protocol.rs and the two tables of crates/server/src/db.rs that
-- it writes. A table is the list of its rows, a statement the function that its text describes. An
-- error of the database, which every function passes on, is not modelled. Ids are i64 in the
-- database and u64 outside; a rank is far from the least i64.
pub mod Rows
pub mod Order
pub mod Reach
pub mod Steps
pub mod Top
pub mod Votes
mod Examples
pub mod Share
pub mod View
use mathlib.Core.Option
use blt.Base.{
  ℕ, zero, suc, ◌+◌, ◌%◌, ◌^◌, Bool, true, false, not, ◌&&◌, ◌||◌, Option, none, some, List, [],
  ◌∷◌, ◌++◌, map, ltb, leb, ◌==◌, length, if◌then◌else◌, filter, any,
}
use blt.Base.Int.{ℤ, pos, leℤ, eqℤ, pred}
use blt.Base.Sort.{sort}
use blt.Base.Text.{Text, text, ◌=t◌}
use blt.Queue.{QueueItem, OrderMode, order_up_next}

pub data ItemType : Type 0 where
  youtube direct_url shared_file external : ItemType

unfoldable pub as_str : ItemType → Text
as_str youtube = text "youtube"
as_str direct_url = text "direct_url"
as_str shared_file = text "shared_file"
as_str external = text "external"

unfoldable pub from_str_opt : Text → Option ItemType
from_str_opt s =
    if s =t text "youtube"
    then some youtube
    else if s =t text "direct_url"
    then some direct_url
    else if s =t text "shared_file"
    then some shared_file
    else if s =t text "external"
    then some external
    else none

abbrev pub is_external : ItemType → Bool
is_external external = true
is_external youtube = false
is_external direct_url = false
is_external shared_file = false

pub data PlaybackState : Type 0 where
  idle playing_embedded playing_external : PlaybackState

-- The three words that the state column holds.
pub data ItemState : Type 0 where
  queued playing played : ItemState

-- A row of jukebox_items. The type column holds the text that `as_str` gives.
pub record Item : Type 0 where
  pub id : ℕ
  pub item_type : Text
  pub reference : Text
  pub title : Option Text
  pub added_by : Text
  pub added_by_id : Text
  pub added_at : ℤ
  pub state : ItemState
  pub sort_override : Option ℤ

-- A row of jukebox_votes
pub record Vote : Type 0 where
  pub item_id : ℕ
  pub voter_id : Text

pub record Db : Type 0 where
  pub items : List Item
  pub votes : List Vote

pub record Jukebox : Type 0 where
  pub mode : OrderMode
  pub playback_state : PlaybackState
  pub now_playing : Option ℕ

unfoldable pub new : OrderMode → Jukebox
new mode = record { mode = mode; playback_state = idle; now_playing = none }

-- `query_row("SELECT ... WHERE id=?1").optional()`
unfoldable pub find_item : ℕ → List Item → Option Item
find_item id [] = none
find_item id (it ∷ items) = if it.id == id then some it else find_item id items

-- `UPDATE jukebox_items SET ... WHERE id=?1`
unfoldable pub update_item : ℕ → (Item → Item) → List Item → List Item
update_item id f [] = []
update_item id f (it ∷ items) =
    let rest = update_item id f items in if it.id == id then f it ∷ rest else it ∷ rest

abbrev pub is_queued : ItemState → Bool
is_queued queued = true
is_queued playing = false
is_queued played = false

abbrev pub is_playing : ItemState → Bool
is_playing queued = false
is_playing playing = true
is_playing played = false

-- The rowid of the new row, one that no row has, is the database's choice.
unfoldable pub add : Db → ℕ → ItemType → Text → Option Text → Text → Text → ℤ → Db × ℕ
add db rowid item_type reference title added_by added_by_id now = (
  record db {
    items =
        db.items
        ++ record {
          id = rowid;
          item_type = as_str item_type;
          reference = reference;
          title = title;
          added_by = added_by;
          added_by_id = added_by_id;
          added_at = now;
          state = queued;
          sort_override = none;
        }
          ∷ [];
  },
  rowid,
)

unfoldable pub queued_count : Db → ℕ
queued_count db = length (filter (λ it. is_queued it.state) db.items)

abbrev pub is_vote : ℕ → Text → Vote → Bool
is_vote item_id voter_id v = (v.item_id == item_id) && (v.voter_id =t voter_id)

-- The new voted state, and the database.
unfoldable pub toggle_vote : Db → ℕ → Text → Bool × Db
unfolding find_item
toggle_vote db item_id voter_id = elim (find_item item_id db.items) [
  | none ↦ (false, db)
  | some it ↦
      if any (is_vote item_id voter_id) db.votes
      then (false, record db { votes = filter (λ v. not (is_vote item_id voter_id v)) db.votes })
      else (
        true,
        record db { votes = db.votes ++ record { item_id = item_id; voter_id = voter_id } ∷ [] },
      )
]

abbrev pub is_now : Option ℕ → ℕ → Bool
is_now none id = false
is_now (some cur) id = cur == id

-- Playback stops.
abbrev pub stopped : Jukebox → Jukebox
stopped jb = record jb { playback_state = idle; now_playing = none }

-- The votes of the row go with it (ON DELETE CASCADE).
unfoldable pub remove : Jukebox → Db → ℕ → Jukebox × Db
remove jb db item_id = (
  if is_now jb.now_playing item_id then stopped jb else jb,
  record {
    items = filter (λ it. not (it.id == item_id)) db.items;
    votes = filter (λ v. not (v.item_id == item_id)) db.votes;
  },
)

unfoldable pub remove_all : Jukebox → Db → List ℕ → Jukebox × Db
unfolding remove
remove_all jb db [] = (jb, db)
remove_all jb db (id ∷ ids) = let (jb', db') = remove jb db id in remove_all jb' db' ids

-- Does the row hold the share? `key` is the share's id in decimal digits.
abbrev pub is_share_ref : Text → Item → Bool
is_share_ref key it = (it.item_type =t text "shared_file") && (it.reference =t key)

unfoldable pub share_refs : Text → List Item → List ℕ
share_refs key items = map (λ it. it.id) (filter (is_share_ref key) items)

unfoldable pub remove_share_refs : Jukebox → Db → Text → Jukebox × Db × ℕ
unfolding share_refs remove_all
remove_share_refs jb db key =
    let ids = share_refs key db.items in
    let (jb', db') = remove_all jb db ids in (jb', db', length ids)

unfoldable pub clear : Jukebox → Db → Jukebox × Db
clear jb db = (stopped jb, record { items = []; votes = [] })

unfoldable pub set_mode : Jukebox → OrderMode → Jukebox
set_mode jb mode = record jb { mode = mode }

-- `votes.get(&id).copied().unwrap_or(0)` on the map of the counts
unfoldable pub vote_counts : Db → ℕ → ℕ
vote_counts db id = length (filter (λ v. v.item_id == id) db.votes) % 2 ^ 32

unfoldable pub my_votes : Db → Text → ℕ → Bool
my_votes db voter_id id = any (is_vote id voter_id) db.votes

unfoldable pub item_type_of : Db → ℕ → Option ItemType
unfolding find_item from_str_opt
item_type_of db id = elim (find_item id db.items) [
  | none ↦ none
  | some it ↦ from_str_opt it.item_type
]

-- `overridden` of the loop over the queued rows
unfoldable pub overridden : List Item → List (ℤ × ℕ)
overridden [] = []
overridden (it ∷ items) =
    let rest = overridden items in
    if is_queued it.state
    then elim it.sort_override [ none ↦ rest | some rank ↦ (rank, it.id) ∷ rest ]
    else rest

-- `items` of the same loop
unfoldable pub unranked : (ℕ → ℕ) → List Item → List QueueItem
unranked votes [] = []
unranked votes (it ∷ items) =
    let rest = unranked votes items in
    if is_queued it.state
    then elim it.sort_override [
      | none ↦
          record {
            id = it.id;
            contributor = it.added_by_id;
            votes = votes it.id;
            added_at = it.added_at;
          }
          ∷ rest
      | some rank ↦ rest
    ]
    else rest

-- The order of pairs: by rank, then by id.
abbrev pub pair_le : ℤ × ℕ → ℤ × ℕ → Bool
pair_le (a, i) (b, j) = if eqℤ a b then leb i j else leℤ a b

unfoldable pub up_next_order : Jukebox → Db → Option (List ℕ)
unfolding overridden unranked vote_counts order_up_next
up_next_order jb db =
    Option.map (λ rest. map (λ p. p.1) (sort pair_le (overridden db.items)) ++ rest)
      (order_up_next (unranked (vote_counts db) db.items) jb.mode)

abbrev pub playback_of : Option ItemType → PlaybackState
playback_of none = playing_embedded
playback_of (some t) = if is_external t then playing_external else playing_embedded

-- `UPDATE ... SET state='played'` for the current item, if there is one
unfoldable pub finish_current : Option ℕ → Db → Db
unfolding update_item
finish_current none db = db
finish_current (some cur) db = record db {
  items = update_item cur (λ it. record it { state = played }) db.items;
}

-- What `advance` does with the first of the order.
unfoldable pub promote : Jukebox → Db → List ℕ → Jukebox × Db
unfolding update_item item_type_of
promote jb db [] = (stopped jb, db)
promote jb db (next_id ∷ order) = (
  record jb { playback_state = playback_of (item_type_of db next_id); now_playing = some next_id },
  record db { items = update_item next_id (λ it. record it { state = playing }) db.items },
)

unfoldable pub advance : Jukebox → Db → Option (Jukebox × Db)
unfolding finish_current up_next_order promote
advance jb db =
    let taken : Jukebox = record jb { now_playing = none } in
    let db' = finish_current jb.now_playing db in
    Option.map (promote taken db') (up_next_order taken db')

-- `SELECT MIN(sort_override) FROM jukebox_items WHERE state='queued'`
unfoldable pub min_override : List Item → Option ℤ
min_override [] = none
min_override (it ∷ items) =
    let rest = min_override items in
    if is_queued it.state
    then elim it.sort_override [
      | none ↦ rest
      | some rank ↦ elim rest [
        | none ↦ some rank
        | some least ↦ some (if leℤ rank least then rank else least)
      ]
    ]
    else rest

-- `min.unwrap_or(0) - 1`
abbrev pub top_rank : Option ℤ → ℤ
top_rank none = pred (pos 0)
top_rank (some least) = pred least

unfoldable pub requeue_now_playing : Jukebox → Db → Jukebox × Db × Bool
unfolding min_override update_item
requeue_now_playing jb db = elim jb.now_playing [
  | none ↦ (jb, db, false)
  | some cur ↦ (
    stopped jb,
    record db {
      items =
          update_item cur
            (λ it. record it {
              state = queued;
              sort_override = some (top_rank (min_override db.items));
            })
            db.items;
    },
    true,
  )
]

unfoldable pub move_to_top : Db → ℕ → Db
unfolding min_override update_item
move_to_top db item_id = record db {
  items =
      update_item item_id
        (λ it. record it { sort_override = some (top_rank (min_override db.items)) }) db.items;
}

-- `SELECT id FROM jukebox_items WHERE state='playing' LIMIT 1`
unfoldable pub find_playing : List Item → Option ℕ
find_playing [] = none
find_playing (it ∷ items) = if is_playing it.state then some it.id else find_playing items

unfoldable pub restore : Db → OrderMode → Jukebox
unfolding new find_playing item_type_of
restore db mode = elim (find_playing db.items) [
  | none ↦ new mode
  | some id ↦ record (new mode) {
    playback_state = playback_of (item_type_of db id);
    now_playing = some id;
  }
]

pub record JukeboxItemDto : Type 0 where
  pub id : ℕ
  pub item_type : ItemType
  pub reference : Text
  pub title : Option Text
  pub added_by : Text
  pub added_by_id : Text
  pub added_at : ℤ
  pub votes : ℕ
  pub voted_by_me : Bool
  pub state : ItemState

pub record JukeboxState : Type 0 where
  pub mode : OrderMode
  pub playback_state : PlaybackState
  pub now_playing : Option JukeboxItemDto
  pub up_next : List JukeboxItemDto

unfoldable pub item_dto : List Item → ℕ → (ℕ → ℕ) → (ℕ → Bool) → Option JukeboxItemDto
item_dto items id votes my_votes = elim (find_item id items) [
  | none ↦ none
  | some it ↦ elim (from_str_opt it.item_type) [
    | none ↦ none
    | some t ↦ some (record {
      id = it.id;
      item_type = t;
      reference = it.reference;
      title = it.title;
      added_by = it.added_by;
      added_by_id = it.added_by_id;
      added_at = it.added_at;
      votes = votes it.id;
      voted_by_me = my_votes it.id;
      state = it.state;
    })
  ]
]

-- The loop over the order: an id without a row is left out.
unfoldable pub dtos : List Item → List ℕ → (ℕ → ℕ) → (ℕ → Bool) → List JukeboxItemDto
dtos items [] votes my_votes = []
dtos items (id ∷ order) votes my_votes =
    let rest = dtos items order votes my_votes in
    elim (item_dto items id votes my_votes) [ none ↦ rest | some dto ↦ dto ∷ rest ]

abbrev pub now_dto : Option ℕ → List Item → (ℕ → ℕ) → (ℕ → Bool) → Option JukeboxItemDto
now_dto none items votes my_votes = none
now_dto (some id) items votes my_votes = item_dto items id votes my_votes

unfoldable pub state_for : Jukebox → Db → Text → Option JukeboxState
state_for jb db viewer_id =
    let votes = vote_counts db in
    let mine = my_votes db viewer_id in
    Option.map
      (λ order. record {
        mode = jb.mode;
        playback_state = jb.playback_state;
        now_playing = now_dto jb.now_playing db.items votes mine;
        up_next = dtos db.items order votes mine;
      })
      (up_next_order jb db)
