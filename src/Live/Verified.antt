-- ===== src/Live/Verified.antt =====
-- Who may advance the jukebox: without the admin password nobody.
use mathlib.Core.Path.{subst}
use blt.Base.{
  ℕ, ◌≡◌, ◌⊎◌, refl, sym, Bool, true, false, Option, none, some, List, [], ◌∷◌, inl, inr,
  Bool-cases, Option-cases, All, ◌==◌, if_either,
}
use blt.Base.Assoc.{lookup}
use blt.Base.Text.{Text}
use blt.Hub.{Mode, remove, announce_peer, unannounce_peer, conn_info}
use blt.Jukebox.{ItemType, requeue_now_playing}
use blt.Admin.{Gate, check_admin_password, login_fail, login_locked}
use blt.Live.{
  ClientMsg, hello, announce, unannounce, activity, request_peers, reachability_result, resync,
  jukebox_add, jukebox_vote, playback_auth, jukebox_next, jukebox_ended, ping, Remote, Server,
  Moment, World, Event, connects, receives, disconnects, on_hello, on_announce, on_add, on_vote,
  on_next, on_playback_auth, handle_client_msg, connect, disconnect_server, disconnect, receive,
  run, normalize_endpoint, Out,
}
use blt.Live.Unverified.{
  Unverified, add-Unverified, remove-Unverified, update_hello-Unverified,
  update_activity-Unverified, announce_peer-conns, unannounce_peer-conns, conns-Unverified,
}

-- The password is not the one whose hash is stored; without a stored hash none is.
abbrev pub IsWrong : (Text → Text → Bool) → Option Text → Text → Type 0
IsWrong verifies none password = Unit
IsWrong verifies (some stored) password = verifies stored password ≡ false

-- What stays true of the server while nobody has the password: `cur` played at the start.
pub record Outside (stored : Option Text) (cur : Option ℕ) (s : Server) : Type 0 where
  pub unverified : Unverified s.sessions
  pub hash : s.gate.password_hash ≡ stored
  pub playing : (s.jb.now_playing ≡ cur) ⊎ (s.jb.now_playing ≡ none)

-- The message is no playback authentication with the password whose hash is stored.
abbrev pub IsOutsider : (Text → Text → Bool) → Option Text → ClientMsg → Type 0
IsOutsider verifies stored (playback_auth password) = IsWrong verifies stored password
IsOutsider verifies stored msg = Unit

abbrev pub OutsiderEvent : (Text → Text → Bool) → Option Text → Event → Type 0
OutsiderEvent verifies stored (connects anon remote server_uuid server_label) = Unit
OutsiderEvent verifies stored (receives conn_id m msg) = IsOutsider verifies stored msg
OutsiderEvent verifies stored (disconnects conn_id) = Unit

requeue_now_playing-playing :
    (s : Server) (cur : Option ℕ)
    → (s.jb.now_playing ≡ cur) ⊎ (s.jb.now_playing ≡ none)
    → ((requeue_now_playing s.jb s.db).0.now_playing ≡ cur)
      ⊎ ((requeue_now_playing s.jb s.db).0.now_playing ≡ none)
unfolding requeue_now_playing
requeue_now_playing-playing s cur p = elim (Option-cases s.jb.now_playing) [
  | inl o ↦ inr (simp (requeue_now_playing, o))
  | inr (id, o) ↦ inr (simp (requeue_now_playing, o))
]

module _ (parses : Text → Bool) (verifies : Text → Text → Bool) where
  check_wrong :
      (g : Gate) (stored : Option Text) (password : Text)
      → g.password_hash ≡ stored
      → IsWrong verifies stored password
      → check_admin_password parses verifies g password ≡ false
  unfolding check_admin_password
  check_wrong g none password h wrong = simp (check_admin_password, h)
  check_wrong g (some stored) password h wrong = elim (Bool-cases (parses stored)) [
    | inl p ↦ simp (check_admin_password, h, p, wrong)
    | inr p ↦ simp (check_admin_password, h, p)
  ]

  locked_auth :
      (s : Server) (id : ℕ) (remote : Remote) (m : Moment) (password : Text)
      → login_locked s.gate remote.ip m.now ≡ true
      → on_playback_auth parses verifies s id remote m password ≡ (s, [])
  unfolding on_playback_auth
  locked_auth s id remote m password l = simp (on_playback_auth, l)

  failed_auth :
      (s : Server) (id : ℕ) (remote : Remote) (m : Moment) (password : Text)
      → login_locked s.gate remote.ip m.now ≡ false
      → check_admin_password parses verifies s.gate password ≡ false
      → on_playback_auth parses verifies s id remote m password
        ≡ (record s { gate = login_fail s.gate remote.ip m.now }, [])
  unfolding on_playback_auth
  failed_auth s id remote m password l bad = simp (on_playback_auth, l, bad)

module _ (stored : Option Text) (cur : Option ℕ) where
  abbrev Kept : Server × Out → Type 0
  Kept r = Outside stored cur r.0

  on_hello-Outside :
      (s : Server) (id : ℕ) (m : Moment) (cid dn mn : Text) (mode : Mode)
      → Outside stored cur s
      → Outside stored cur (on_hello s id m cid dn mn mode).0
  unfolding on_hello
  on_hello-Outside s id m cid dn mn mode i = record {
    unverified = update_hello-Unverified s.sessions id cid dn mn mode i.unverified;
    hash = i.hash;
    playing = i.playing;
  }

  on_announce-Outside :
      (s : Server) (id : ℕ) (cid : Text) (remote : Remote) (t v : ℕ) (ep : Text)
      → Outside stored cur s
      → Outside stored cur (on_announce s id cid remote t v ep).0
  unfolding on_announce
  on_announce-Outside s id cid remote t v ep i =
      let place : Text = normalize_endpoint ep remote in
      if_either Kept _ _ _ i (record {
        unverified =
            conns-Unverified s.sessions (announce_peer s.sessions cid t v place)
              (announce_peer-conns s.sessions cid t v place) i.unverified;
        hash = i.hash;
        playing = i.playing;
      })

  on_add-Outside :
      (s : Server) (m : Moment) (cid name : Text) (ty : ItemType) (reference : Text)
      (title : Option Text)
      → Outside stored cur s
      → Outside stored cur (on_add s m cid name ty reference title).0
  unfolding on_add
  on_add-Outside s m cid name ty reference title i =
      if_either Kept _ _ _ i
        (record { unverified = i.unverified; hash = i.hash; playing = i.playing })

  on_vote-Outside :
      (s : Server) (cid : Text) (id : ℕ)
      → Outside stored cur s
      → Outside stored cur (on_vote s cid id).0
  unfolding on_vote
  on_vote-Outside s cid id i = record {
    unverified = i.unverified;
    hash = i.hash;
    playing = i.playing;
  }

  on_next-Outside : (s : Server) (id : ℕ) → Outside stored cur s → on_next s id ≡ (s, [])
  unfolding on_next
  on_next-Outside s id i = simp (on_next, i.unverified id)

  disconnect_server-Outside :
      (s : Server) (id : ℕ) → Outside stored cur s → Outside stored cur (disconnect_server s id).0
  unfolding disconnect_server
  disconnect_server-Outside s id i =
      let left : Unverified (remove s.sessions id) = remove-Unverified s.sessions id i.unverified in
      if_either Kept _ _ _
        (record {
          unverified = left;
          hash = i.hash;
          playing = requeue_now_playing-playing s cur i.playing;
        })
        (record { unverified = left; hash = i.hash; playing = i.playing })

  on_playback_auth-Outside :
      (parses : Text → Bool) (verifies : Text → Text → Bool) (s : Server) (id : ℕ) (remote : Remote)
      (m : Moment) (password : Text)
      → IsWrong verifies stored password
      → Outside stored cur s
      → Outside stored cur (on_playback_auth parses verifies s id remote m password).0
  unfolding on_playback_auth login_fail
  on_playback_auth-Outside parses verifies s id remote m password wrong i =
      let no : check_admin_password parses verifies s.gate password ≡ false =
        check_wrong parses verifies s.gate stored password i.hash wrong in
      elim (Bool-cases (login_locked s.gate remote.ip m.now)) [
        | inl l ↦ subst Kept (sym (locked_auth parses verifies s id remote m password l)) i
        | inr l ↦
            subst Kept (sym (failed_auth parses verifies s id remote m password l no))
              (record { unverified = i.unverified; hash = i.hash; playing = i.playing })
      ]

  handle_client_msg-Outside :
      (parses : Text → Bool) (verifies : Text → Text → Bool) (s : Server) (id : ℕ) (cid : Text)
      (remote : Remote) (m : Moment) (msg : ClientMsg)
      → IsOutsider verifies stored msg
      → Outside stored cur s
      → Outside stored cur (handle_client_msg parses verifies s id cid remote m msg).0.0
  unfolding handle_client_msg
  handle_client_msg-Outside parses verifies s id cid remote m (hello new dn mn mode) h i =
      if_either (λ (r : (Server × Out) × Text). Kept r.0) _ _ _ i
        (on_hello-Outside s id m new dn mn mode i)
  handle_client_msg-Outside parses verifies s id cid remote m (announce t v ep) h i =
      on_announce-Outside s id cid remote t v ep i
  handle_client_msg-Outside parses verifies s id cid remote m (unannounce t v) h i = record {
    unverified =
        conns-Unverified s.sessions (unannounce_peer s.sessions cid t v)
          (unannounce_peer-conns s.sessions cid t v) i.unverified;
    hash = i.hash;
    playing = i.playing;
  }
  handle_client_msg-Outside parses verifies s id cid remote m (activity doing bps so) h i = record {
    unverified = update_activity-Unverified s.sessions id doing bps so i.unverified;
    hash = i.hash;
    playing = i.playing;
  }
  handle_client_msg-Outside parses verifies s id cid remote m (request_peers t v) h i = i
  handle_client_msg-Outside parses verifies s id cid remote m (reachability_result peer reachable) h
        i =
      i
  handle_client_msg-Outside parses verifies s id cid remote m resync h i = i
  handle_client_msg-Outside parses verifies s id cid remote m (jukebox_add ty reference title) h i =
      elim (conn_info s.sessions id)
        as (λ o.
          Kept
            (elim o [ none ↦ (s, []) | some (c, n, mode) ↦ on_add s m c n ty reference title ])) [
              | none ↦ i
              | some (c, n, mode) ↦ on_add-Outside s m c n ty reference title i
            ]
  handle_client_msg-Outside parses verifies s id cid remote m (jukebox_vote item_id) h i =
      on_vote-Outside s cid item_id i
  handle_client_msg-Outside parses verifies s id cid remote m (playback_auth password) h i =
      on_playback_auth-Outside parses verifies s id remote m password h i
  handle_client_msg-Outside parses verifies s id cid remote m jukebox_next h i =
      subst Kept (sym (on_next-Outside s id i)) i
  handle_client_msg-Outside parses verifies s id cid remote m jukebox_ended h i =
      subst Kept (sym (on_next-Outside s id i)) i
  handle_client_msg-Outside parses verifies s id cid remote m ping h i = i

  module _ (parses : Text → Bool) (verifies : Text → Text → Bool) where
    receive-Outside :
        (w : World) (id : ℕ) (m : Moment) (msg : ClientMsg)
        → IsOutsider verifies stored msg
        → Outside stored cur w.server
        → Outside stored cur (receive parses verifies w id m msg).0.server
    unfolding receive
    receive-Outside w id m msg h i = elim (Option-cases (lookup ◌==◌ id w.sockets)) [
      | inl o ↦ simp (receive, o) i
      | inr (socket, o) ↦
          simp (receive, o)
            (handle_client_msg-Outside parses verifies w.server id socket.client_id socket.remote m
              msg h i)
    ]

    disconnect-Outside :
        (w : World) (id : ℕ)
        → Outside stored cur w.server
        → Outside stored cur (disconnect w id).0.server
    unfolding disconnect
    disconnect-Outside w id i = elim (Option-cases (lookup ◌==◌ id w.sockets)) [
      | inl o ↦ simp (disconnect, o) i
      | inr (socket, o) ↦ simp (disconnect, o) (disconnect_server-Outside w.server id i)
    ]

    connect-Outside :
        (w : World) (anon : Text) (remote : Remote) (uuid label : Text)
        → Outside stored cur w.server
        → Outside stored cur (connect w anon remote uuid label).0.server
    unfolding connect
    connect-Outside w anon remote uuid label i = record {
      unverified = add-Unverified w.server.sessions anon i.unverified;
      hash = i.hash;
      playing = i.playing;
    }

    run-Outside :
        (w : World) (events : List Event)
        → All (OutsiderEvent verifies stored) events
        → Outside stored cur w.server
        → Outside stored cur (run parses verifies w events).server
    run-Outside w [] h i = i
    run-Outside w (connects anon remote uuid label ∷ events) h i =
        run-Outside (connect w anon remote uuid label).0 events h.1
          (connect-Outside w anon remote uuid label i)
    run-Outside w (receives id m msg ∷ events) h i =
        run-Outside (receive parses verifies w id m msg).0 events h.1
          (receive-Outside w id m msg h.0 i)
    run-Outside w (disconnects id ∷ events) h i =
        run-Outside (disconnect w id).0 events h.1 (disconnect-Outside w id i)

-- From a server without a verified connection, with a password or without one, whatever connections
-- open, send and end in any order, as long as no message carries a password that the stored hash
-- verifies, no connection is ever verified, and the jukebox never moves to another item: what plays is
-- what played at the start, or nothing.
pub run_without_password :
    (parses : Text → Bool) (verifies : Text → Text → Bool) (w : World) (events : List Event)
    → Unverified w.server.sessions
    → All (OutsiderEvent verifies w.server.gate.password_hash) events
    → Unverified (run parses verifies w events).server.sessions
      × (((run parses verifies w events).server.jb.now_playing ≡ w.server.jb.now_playing)
          ⊎ ((run parses verifies w events).server.jb.now_playing ≡ none))
run_without_password parses verifies w events fresh h =
    let i =
      run-Outside w.server.gate.password_hash w.server.jb.now_playing parses verifies w events h
        (record { unverified = fresh; hash = refl; playing = inl refl }) in
    (i.unverified, i.playing)
