-- ===== src/Live.antt =====
-- crates/server/src/data_api.rs: the /ws channel, from the connection of a socket over each of its
-- messages to its end, on the registry of Hub, the gate of Admin and the jukebox. What is sent is the
-- list of the messages with the connections that they go to, in order. The database does not fail.
-- A message is handled in one step; the locks inside are not interleaved.
pub mod Unverified
pub mod Verified
pub mod Seeding
mod Examples
use mathlib.Core.Option
use blt.Base.{
  ℕ, zero, suc, ◌+◌, ◌-◌, ◌/◌, ◌%◌, ◌^◌, Bool, true, false, not, ◌&&◌, ◌||◌, Option, none, some,
  List, [], ◌∷◌, ◌++◌, map, ltb, leb, ◌==◌, if◌then◌else◌,
}
use blt.Base.Assoc.{lookup, insert_at, erase}
use blt.Base.Int.{ℤ}
use blt.Base.Parse.{strip_prefix, trim, parse_below}
use blt.Base.Text.{Text, text, ◌=t◌}
use blt.Pathsafe.{rsplit_once, byte_len}
use blt.Jukebox.{
  ItemType, youtube, direct_url, shared_file, external, Jukebox, JukeboxState, Db, queued_count,
  toggle_vote, advance, requeue_now_playing, state_for,
}
use blt.Jukebox as Jukebox
use blt.Hub.{
  Mode, SessionRegistry, PeerEntry, RosterEntry, is_playback, playback_count, update_hello,
  mark_playback_verified, is_playback_verified, probe_candidates, update_activity, announce_peer,
  unannounce_peer, peers_for, roster, broadcast, conns_snapshot, conn_info, get_conn,
}
use blt.Hub as Hub
use blt.Admin.{Gate, login_locked, login_fail, login_ok, check_admin_password}

pub data ClientMsg : Type 0 where
  hello : (client_id display_name machine_name : Text) (mode : Mode) → ClientMsg
  announce : (title_id manifest_ver : ℕ) (chunk_endpoint : Text) → ClientMsg
  unannounce : (title_id manifest_ver : ℕ) → ClientMsg
  activity : (doing : Text) (throughput_bps : Option ℕ) (server_only : Bool) → ClientMsg
  request_peers : (title_id manifest_ver : ℕ) → ClientMsg
  reachability_result : (peer : Text) (reachable : Bool) → ClientMsg
  resync : ClientMsg
  jukebox_add : (item_type : ItemType) (reference : Text) (title : Option Text) → ClientMsg
  jukebox_vote : (item_id : ℕ) → ClientMsg
  playback_auth : (password : Text) → ClientMsg
  jukebox_next jukebox_ended ping : ClientMsg

pub data ServerMsg : Type 0 where
  welcome : (server_uuid server_label : Text) → ServerMsg
  jukebox : JukeboxState → ServerMsg
  roster_now : List RosterEntry → ServerMsg
  peers : (title_id manifest_ver : ℕ) → List PeerEntry → ServerMsg
  probe_peers : List PeerEntry → ServerMsg
  title_changed : (title_id manifest_ver : ℕ) → ServerMsg
  pong : ServerMsg

pub record Remote : Type 0 where
  pub ip : Text
  pub port : ℕ

pub record Server : Type 0 where
  pub sessions : SessionRegistry
  pub gate : Gate
  pub jb : Jukebox
  pub db : Db
  pub names : List (Text × (Text × ℤ))

-- What the environment gives to the handling of a message: the clocks, and the id of a new row.
pub record Moment : Type 0 where
  pub now : ℕ
  pub now_unix : ℤ
  pub rowid : ℕ

abbrev pub Out : Type 0
Out = List (ℕ × ServerMsg)

abbrev pub broadcast_roster : Server → Out
broadcast_roster s = map (λ id. (id, roster_now (roster s.sessions))) (broadcast s.sessions)

-- `send_to_conn` to a connection that is there
abbrev pub send_to_conn : SessionRegistry → ℕ → ServerMsg → Out
send_to_conn r id msg = elim (get_conn r id) [ none ↦ [] | some c ↦ (id, msg) ∷ [] ]

abbrev pub send_state : SessionRegistry → ℕ → Option JukeboxState → Out
send_state r id none = []
send_state r id (some state) = send_to_conn r id (jukebox state)

unfoldable pub broadcast_to : Server → List (ℕ × Text) → Out
unfolding state_for lookup
broadcast_to s [] = []
broadcast_to s ((id, client_id) ∷ conns) =
    send_state s.sessions id (state_for s.jb s.db client_id) ++ broadcast_to s conns

unfoldable pub broadcast_jukebox : Server → Out
unfolding broadcast_to conns_snapshot
broadcast_jukebox s = broadcast_to s (conns_snapshot s.sessions)

abbrev pub state_msg : ℕ → Option JukeboxState → Out
state_msg id none = []
state_msg id (some state) = (id, jukebox state) ∷ []

unfoldable pub send_jukebox_to : Server → Text → ℕ → Out
unfolding state_for
send_jukebox_to s viewer id = state_msg id (state_for s.jb s.db viewer)

-- The decimal digits of a u16.
unfoldable pub show_digits : ℕ → ℕ → Text
show_digits zero n = []
show_digits (suc fuel) n =
    if ltb n 10 then (48 + n) ∷ [] else show_digits fuel (n / 10) ++ (48 + n % 10) ∷ []

abbrev pub port_of : Option (Text × Text) → Option ℕ
port_of none = none
port_of (some (host, p)) = parse_below (2 ^ 16) (trim p)

unfoldable pub normalize_endpoint : Text → Remote → Text
unfolding rsplit_once parse_below trim show_digits
normalize_endpoint announced remote =
    let port : ℕ = elim (port_of (rsplit_once b':' announced)) [
      | none ↦ remote.port
      | some p ↦ p
    ] in
    remote.ip ++ b':' ∷ show_digits 5 port

abbrev pub starts_with : Text → Text → Bool
starts_with p s = elim (strip_prefix p s) [ none ↦ false | some rest ↦ true ]

abbrev pub is_url : Text → Bool
is_url r = starts_with (text "http://") r || starts_with (text "https://") r

unfoldable pub ref_acceptable : ItemType → Text → Bool
unfolding trim parse_below strip_prefix
ref_acceptable youtube reference = is_url (trim reference)
ref_acceptable direct_url reference = is_url (trim reference)
ref_acceptable external reference = is_url (trim reference)
ref_acceptable shared_file reference = elim (parse_below (2 ^ 64) (trim reference)) [
  | none ↦ false
  | some id ↦ true
]

abbrev pub max_id_len : ℕ
max_id_len = 64

abbrev pub max_name_len : ℕ
max_name_len = 64

abbrev pub max_title_len : ℕ
max_title_len = 200

abbrev pub max_ref_len : ℕ
max_ref_len = 2048

abbrev pub max_queue_len : ℕ
max_queue_len = 200

abbrev pub hello_too_long : Text → Text → Text → Bool
hello_too_long cid display_name machine_name =
    ltb max_id_len (byte_len cid)
    || ltb max_name_len (byte_len display_name)
    || ltb max_name_len (byte_len machine_name)

-- The arm of `Hello` after its guard.
unfoldable pub on_hello : Server → ℕ → Moment → Text → Text → Text → Mode → Server × Out
unfolding update_hello insert_at probe_candidates send_jukebox_to
on_hello s conn_id m cid display_name machine_name mode =
    let s' : Server = record s {
      sessions = update_hello s.sessions conn_id cid display_name machine_name mode;
      names = insert_at ◌=t◌ cid (display_name, m.now_unix) s.names;
    } in
    (
      s',
      broadcast_roster s'
          ++ (conn_id, probe_peers (probe_candidates s'.sessions cid 2))
            ∷ send_jukebox_to s' cid conn_id,
    )

abbrev pub plays_back : Option (Text × Text × Mode) → Bool
plays_back none = false
plays_back (some (cid, name, mode)) = is_playback mode

unfoldable pub on_announce : Server → ℕ → Text → Remote → ℕ → ℕ → Text → Server × Out
unfolding conn_info announce_peer normalize_endpoint
on_announce s conn_id client_id remote title_id manifest_ver chunk_endpoint =
    if plays_back (conn_info s.sessions conn_id) then (s, []) else (
      record s {
        sessions =
            announce_peer s.sessions client_id title_id manifest_ver
              (normalize_endpoint chunk_endpoint remote);
      },
      [],
    )

abbrev pub title_too_long : Option Text → Bool
title_too_long none = false
title_too_long (some t) = ltb max_title_len (byte_len t)

-- The three guards of `JukeboxAdd` that return early.
unfoldable pub add_refused : Server → ItemType → Text → Option Text → Bool
unfolding ref_acceptable queued_count byte_len
add_refused s item_type reference title =
    ltb max_ref_len (byte_len reference)
    || title_too_long title
    || not (ref_acceptable item_type reference)
    || leb max_queue_len (queued_count s.db)

-- The arm of `JukeboxAdd` for a connection that is there.
unfoldable pub on_add : Server → Moment → Text → Text → ItemType → Text → Option Text → Server × Out
unfolding add_refused Jukebox.add toggle_vote broadcast_jukebox
on_add s m cid name item_type reference title =
    let display_name : Text = if name =t [] then cid else name in
    let (added, id) =
      Jukebox.add s.db m.rowid item_type reference title display_name cid m.now_unix in
    let s' : Server = record s { db = (toggle_vote added id cid).1 } in
    if add_refused s item_type reference title then (s, []) else (s', broadcast_jukebox s')

unfoldable pub on_vote : Server → Text → ℕ → Server × Out
unfolding toggle_vote broadcast_jukebox
on_vote s client_id item_id =
    let s' : Server = record s { db = (toggle_vote s.db item_id client_id).1 } in
    (s', broadcast_jukebox s')

-- `none` of `advance` does not occur; it would be an error of the database.
abbrev pub advanced : Server → Option (Jukebox.Jukebox × Db) → Server × Out
advanced s none = (s, [])
advanced s (some (jb, db)) =
    let s' : Server = record s { jb = jb; db = db } in (s', broadcast_jukebox s')

unfoldable pub on_next : Server → ℕ → Server × Out
unfolding is_playback_verified advance broadcast_jukebox
on_next s conn_id =
    if not (is_playback_verified s.sessions conn_id)
    then (s, [])
    else advanced s (advance s.jb s.db)

module _ (parses : Text → Bool) (verifies : Text → Text → Bool) where
  unfoldable pub on_playback_auth : Server → ℕ → Remote → Moment → Text → Server × Out
  unfolding login_locked login_fail login_ok check_admin_password mark_playback_verified
  on_playback_auth s conn_id remote m password =
      if login_locked s.gate remote.ip m.now
      then (s, [])
      else if check_admin_password parses verifies s.gate password
      then (
        record s {
          gate = login_ok s.gate remote.ip;
          sessions = mark_playback_verified s.sessions conn_id;
        },
        [],
      )
      else (record s { gate = login_fail s.gate remote.ip m.now }, [])

  -- With the client id of the session's loop, which `Hello` sets.
  unfoldable pub handle_client_msg :
      Server → ℕ → Text → Remote → Moment → ClientMsg → (Server × Out) × Text
  unfolding on_hello on_announce on_add on_vote on_next on_playback_auth unannounce_peer
      update_activity peers_for send_jukebox_to roster conn_info byte_len
  handle_client_msg s conn_id client_id remote m (hello cid display_name machine_name mode) =
      if hello_too_long cid display_name machine_name
      then ((s, []), client_id)
      else (on_hello s conn_id m cid display_name machine_name mode, cid)
  handle_client_msg s conn_id client_id remote m (announce title_id manifest_ver chunk_endpoint) =
      (on_announce s conn_id client_id remote title_id manifest_ver chunk_endpoint, client_id)
  handle_client_msg s conn_id client_id remote m (unannounce title_id manifest_ver) = (
    (record s { sessions = unannounce_peer s.sessions client_id title_id manifest_ver }, []),
    client_id,
  )
  handle_client_msg s conn_id client_id remote m (activity doing throughput_bps server_only) =
      let s' : Server = record s {
        sessions = update_activity s.sessions conn_id doing throughput_bps server_only;
      } in
      ((s', broadcast_roster s'), client_id)
  handle_client_msg s conn_id client_id remote m (request_peers title_id manifest_ver) = (
    (
      s,
      (conn_id, peers title_id manifest_ver (peers_for s.sessions title_id manifest_ver client_id))
          ∷ [],
    ),
    client_id,
  )
  handle_client_msg s conn_id client_id remote m (reachability_result peer reachable) =
      ((s, []), client_id)
  handle_client_msg s conn_id client_id remote m resync = (
    (s, send_jukebox_to s client_id conn_id ++ (conn_id, roster_now (roster s.sessions)) ∷ []),
    client_id,
  )
  handle_client_msg s conn_id client_id remote m (jukebox_add item_type reference title) = (
    elim (conn_info s.sessions conn_id) [
      | none ↦ (s, [])
      | some (cid, name, mode) ↦ on_add s m cid name item_type reference title
    ],
    client_id,
  )
  handle_client_msg s conn_id client_id remote m (jukebox_vote item_id) =
      (on_vote s client_id item_id, client_id)
  handle_client_msg s conn_id client_id remote m (playback_auth password) =
      (on_playback_auth s conn_id remote m password, client_id)
  handle_client_msg s conn_id client_id remote m jukebox_next = (on_next s conn_id, client_id)
  handle_client_msg s conn_id client_id remote m jukebox_ended = (on_next s conn_id, client_id)
  handle_client_msg s conn_id client_id remote m ping = ((s, (conn_id, pong) ∷ []), client_id)

-- The sockets with the client id and the address that each session's loop has.
pub record Socket : Type 0 where
  pub client_id : Text
  pub remote : Remote

pub record World : Type 0 where
  pub server : Server
  pub sockets : List (ℕ × Socket)

-- The start of a session, up to its loop. `anon` is the text of the anonymous client id, and the
-- welcome carries the server's own id and label.
unfoldable pub connect : World → Text → Remote → Text → Text → World × Out
unfolding Hub.add insert_at
connect w anon remote server_uuid server_label =
    let (sessions, conn_id) = Hub.add w.server.sessions anon in
    (
      record {
        server = record w.server { sessions = sessions };
        sockets = insert_at ◌==◌ conn_id (record { client_id = []; remote = remote }) w.sockets;
      },
      (conn_id, welcome server_uuid server_label) ∷ [],
    )

-- The end of a session.
unfoldable pub disconnect_server : Server → ℕ → Server × Out
unfolding conn_info Hub.remove playback_count requeue_now_playing broadcast_jukebox roster
disconnect_server s conn_id =
    let was_playback = plays_back (conn_info s.sessions conn_id) in
    let s' : Server = record s { sessions = Hub.remove s.sessions conn_id } in
    let (jb, db, changed) = requeue_now_playing s'.jb s'.db in
    let s'' : Server = record s' { jb = jb; db = db } in
    if was_playback && (playback_count s'.sessions == 0)
    then (s'', broadcast_roster s' ++ (if changed then broadcast_jukebox s'' else []))
    else (s', broadcast_roster s')

unfoldable pub disconnect : World → ℕ → World × Out
unfolding disconnect_server lookup erase
disconnect w conn_id = elim (lookup ◌==◌ conn_id w.sockets) [
  | none ↦ (w, [])
  | some socket ↦
      let (s, out) = disconnect_server w.server conn_id in
      (record { server = s; sockets = erase ◌==◌ conn_id w.sockets }, out)
]

pub data Event : Type 0 where
  connects : (anon : Text) (remote : Remote) (server_uuid server_label : Text) → Event
  receives : (conn_id : ℕ) (m : Moment) (msg : ClientMsg) → Event
  disconnects : (conn_id : ℕ) → Event

module _ (parses : Text → Bool) (verifies : Text → Text → Bool) where
  -- One turn of the loop of a session.
  unfoldable pub receive : World → ℕ → Moment → ClientMsg → World × Out
  unfolding handle_client_msg lookup insert_at
  receive w conn_id m msg = elim (lookup ◌==◌ conn_id w.sockets) [
    | none ↦ (w, [])
    | some socket ↦
        let ((s, out), client_id) =
          handle_client_msg parses verifies w.server conn_id socket.client_id socket.remote m msg in
        (
          record {
            server = s;
            sockets = insert_at ◌==◌ conn_id (record socket { client_id = client_id }) w.sockets;
          },
          out,
        )
  ]

  abbrev pub happen : World → Event → World
  happen w (connects anon remote server_uuid server_label) =
      (connect w anon remote server_uuid server_label).0
  happen w (receives conn_id m msg) = (receive w conn_id m msg).0
  happen w (disconnects conn_id) = (disconnect w conn_id).0

  abbrev pub run : World → List Event → World
  run w [] = w
  run w (e ∷ events) = run (happen w e) events
