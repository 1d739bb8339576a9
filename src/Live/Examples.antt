-- ===== src/Live/Examples.antt =====
-- A server on which a share plays, and two clients.
use blt.Base.{◌≡◌, ◌⊎◌, refl, Bool, true, none, some, List, [], ◌∷◌, All}
use blt.Base.Int.{pos}
use blt.Base.Text.{Text, text, ◌=t◌}
use blt.Queue.{OrderMode}
use blt.Jukebox.{Item, ItemState, PlaybackState}
use blt.Hub.{empty_registry, add, Mode}
use blt.Hub.Peers.{endpoint}
use blt.Live.{
  World, Remote, Moment, Event, connects, receives, disconnects, hello, playback_auth, jukebox_next,
  announce, run, normalize_endpoint,
}
use blt.Live.Unverified.{Unverified}
use blt.Live.Verified.{OutsiderEvent, run_without_password}
use blt.Live.Seeding.{announce_before_hello}

abbrev parses : Text → Bool
parses stored = true

abbrev verifies : Text → Text → Bool
verifies stored password = stored =t password

abbrev song : Item
song = record {
  id = 3;
  item_type = text "external";
  reference = text "x";
  title = none;
  added_by = text "Rick";
  added_by_id = text "c1";
  added_at = pos 1;
  state = ItemState.playing;
  sort_override = none;
}

abbrev start : World
start = record {
  server = record {
    sessions = empty_registry;
    gate = record { password_hash = some (text "good"); admin_sessions = []; login_throttle = [] };
    jb = record {
      mode = OrderMode.fair;
      playback_state = PlaybackState.playing_external;
      now_playing = some 3;
    };
    db = record { items = song ∷ []; votes = [] };
    names = [];
  };
  sockets = [];
}

abbrev remote : Remote
remote = record { ip = text "10.0.0.9"; port = 4000 }

abbrev moment : Moment
moment = record { now = 5; now_unix = pos 1700000000; rowid = 1 }

abbrev grief : List Event
grief =
    connects (text "@anon-10.0.0.9:4000") remote (text "u") (text "l")
    ∷ receives 1 moment (hello (text "c1") (text "Rick") (text "mac") Mode.playback)
    ∷ receives 1 moment (playback_auth (text "guess"))
    ∷ receives 1 moment jukebox_next
    ∷ disconnects 1
    ∷ []

nobody : Unverified start.server.sessions
unfolding blt.Hub.is_playback_verified
nobody id = refl

outsiders : All (OutsiderEvent verifies (some (text "good"))) grief
unfolding ◌=t◌
outsiders = (tt, (tt, (refl, (tt, (tt, tt)))))

run_without_password_example :
    Unverified (run parses verifies start grief).server.sessions
    × (((run parses verifies start grief).server.jb.now_playing ≡ some 3)
        ⊎ ((run parses verifies start grief).server.jb.now_playing ≡ none))
run_without_password_example = run_without_password parses verifies start grief nobody outsiders

announce_before_hello_example :
    let id = (add start.server.sessions (text "@anon-10.0.0.9:4000")).1 in
    let events =
      connects (text "@anon-10.0.0.9:4000") remote (text "u") (text "l")
      ∷ receives id moment (announce 7 1 (text "x:9000"))
      ∷ disconnects id
      ∷ [] in
    endpoint (run parses verifies start events).server.sessions.peers (7, 1) []
    ≡ some (normalize_endpoint (text "x:9000") remote)
unfolding ◌=t◌
announce_before_hello_example =
    announce_before_hello parses verifies start (text "@anon-10.0.0.9:4000") remote (text "u")
      (text "l") moment 7 1 (text "x:9000") tt refl
