-- ===== src/Jukebox/Examples.antt =====
-- Two items: the second one is moved to the top, played, put back and resumed.
use blt.Base.{ℕ, ◌≡◌, refl, Option, none, some, List, [], ◌∷◌}
use blt.Base.Int.{ℤ, pos}
use blt.Base.Sort.{sort}
use blt.Base.Text.{Text, text, ◌=t◌, text_le}
use blt.Queue.{OrderMode}
use blt.Jukebox.{
  Item, ItemType, ItemState, PlaybackState, as_str, Db, Jukebox, JukeboxState, new, add, advance,
  requeue_now_playing, move_to_top, restore, set_mode, find_item, my_votes, up_next_order,
  state_for, vote_counts,
}
use blt.Jukebox.Reach.{IsConsistent, Step, Reachable}
use blt.Jukebox.Steps.{Reachable-IsConsistent, restore-Reachable}
use blt.Jukebox.Top.{move_to_top-first, requeue-advance}
use blt.Jukebox.View.{Shows, state_for-Shows}

abbrev idle_box : Jukebox
idle_box = record { mode = OrderMode.fair; playback_state = PlaybackState.idle; now_playing = none }

abbrev row : ℕ → Text → ItemState → Option ℤ → Item
row id ty state rank = record {
  id = id;
  item_type = ty;
  reference = b'7' ∷ [];
  title = none;
  added_by = [];
  added_by_id = b'A' ∷ [];
  added_at = pos id;
  state = state;
  sort_override = rank;
}

abbrev one : Db
one =
    (add (record { items = []; votes = [] }) 1 ItemType.shared_file (b'7' ∷ []) none [] (b'A' ∷ [])
      (pos 1)).0

abbrev two : Db
two = (add one 2 ItemType.external (b'7' ∷ []) none [] (b'A' ∷ []) (pos 2)).0

abbrev top : Db
top = move_to_top two 2

start-two : Reachable (new OrderMode.fair) two
start-two =
    Reachable.step (new OrderMode.fair) one (new OrderMode.fair) two
      (Reachable.step (new OrderMode.fair) (record { items = []; votes = [] }) (new OrderMode.fair)
        one (Reachable.start OrderMode.fair)
        (Step.adds _ _ 1 ItemType.shared_file (b'7' ∷ []) none [] (b'A' ∷ []) (pos 1)))
      (Step.adds _ _ 2 ItemType.external (b'7' ∷ []) none [] (b'A' ∷ []) (pos 2))

abbrev playing_box : Jukebox
playing_box = record {
  mode = OrderMode.fair;
  playback_state = PlaybackState.playing_embedded;
  now_playing = some 1;
}

abbrev playing_two : Db
playing_two = record {
  items =
      row 1 (text "shared_file") ItemState.playing none
      ∷ row 2 (text "external") ItemState.queued none
      ∷ [];
  votes = [];
}

advanced : advance (new OrderMode.fair) two ≡ some (playing_box, playing_two)
unfolding advance new add as_str ◌=t◌ text_le sort
advanced = refl

playing-Reachable : Reachable playing_box playing_two
playing-Reachable =
    Reachable.step (new OrderMode.fair) two playing_box playing_two start-two
      (Step.advances _ _ _ _ advanced)

second : find_item 2 two.items ≡ some (row 2 (text "external") ItemState.queued none)
unfolding find_item add as_str
second = refl

Reachable-IsConsistent_example : IsConsistent playing_box playing_two
Reachable-IsConsistent_example = Reachable-IsConsistent playing_box playing_two playing-Reachable

restore-Reachable_example :
    restore playing_two OrderMode.votes ≡ set_mode playing_box OrderMode.votes
restore-Reachable_example =
    restore-Reachable playing_box playing_two OrderMode.votes playing-Reachable

requeue-advance_example :
    (db' : Db) × (advance
        (requeue_now_playing playing_box playing_two).0
        (requeue_now_playing playing_box playing_two).1
      ≡ some (playing_box, db'))
requeue-advance_example = requeue-advance playing_box playing_two 1 playing-Reachable refl

move_to_top-first_example :
    (rest : List ℕ) × (up_next_order idle_box (move_to_top two 2) ≡ some (2 ∷ rest))
move_to_top-first_example =
    move_to_top-first idle_box two 2 (row 2 (text "external") ItemState.queued none) second refl

state_for-Shows_example :
    (st : JukeboxState) × (order : List ℕ) × (state_for playing_box playing_two (b'V' ∷ [])
      ≡ some st)
    × (up_next_order playing_box playing_two ≡ some order)
    × (st.mode ≡ playing_box.mode)
    × (st.playback_state ≡ playing_box.playback_state)
    × Shows (vote_counts playing_two) (my_votes playing_two (b'V' ∷ [])) order st.up_next
state_for-Shows_example = state_for-Shows playing_box playing_two (b'V' ∷ []) playing-Reachable
